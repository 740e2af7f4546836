-- ===== src/Ledger/Created/Signatory.antt =====
-- The blocks of company chains that are created: the company reads their data, and a new signatory
-- the company's key.
use e_bill.Prelude.{
  ℕ, ◌+◌, ◌%◌, ◌<◌, ◌≡◌, sym, subst, ◌∙◌, String, true, Option, some, List, [], ◌∷◌, ◌++◌, arith,
  ok, Result-cases, Option-cases, inl, inr, last_from, u64_mod, eq_refl, if◌then◌else◌, ◌==◌,
}
use e_bill.Util.Crypto.{
  BcrKeys, get_private_key_string, get_public_key, get_aggregated_public_key, aggregated_signature,
}
use e_bill.Util.Crypto.Laws.{Laws}
use e_bill.Blockchain.{calculate_hash, validate_with_previous}
use e_bill.Blockchain.Links.{Follows, validate_with_previous-Follows}
use e_bill.Ledger.Data.{CompanyBlock, CompanyOpCode, CompanyData, CompanyKeys}
use e_bill.Ledger.Env.{LedgerEnv}
use e_bill.Ledger.Identity.{encrypted_text}
use e_bill.Ledger.Company.{
  company_block, private_strings, new, serialized_data, key_for_signatory,
  encrypt_data_create_block_and_validate, create_block_for_add_signatory,
}
use e_bill.Ledger.Table.{add_company_block}
use e_bill.Ledger.Table.Chains.{insert_after-Follows}
use e_bill.Ledger.Created.{ReadableBy, encrypted_text-ReadableBy}

module _ (V : LedgerEnv) (L : Laws V.platform) where
  open V use {platform}

  abbrev pub company_key_strings : BcrKeys → CompanyKeys
  company_key_strings company = record {
    private_key = get_private_key_string platform company;
    public_key = get_public_key platform company;
  }

  -- A block's data is the payload, which the company reads, and a key.
  pub record Holds (op : CompanyOpCode) (payload : CompanyData op) (company : BcrKeys)
      (key : Option String) (block : CompanyBlock) : Type 0 where
    pub text : String
    pub bytes : List ℕ
    pub written : V.to_vec_company_block (record { data' = text; key = key }) ≡ some bytes
    pub decoded : platform.base58_decode block.data' ≡ some bytes
    pub for_company : ReadableBy V L company (V.to_vec_company op payload) text

  module _ (company_id : String) (id : ℕ) (previous_hash encrypted : String) (op : CompanyOpCode)
      (identity : BcrKeys) (company : CompanyKeys) (timestamp : ℕ) where
    new-data :
        {b : CompanyBlock}
        → new V company_id id previous_hash encrypted op identity company timestamp ≡ ok b
        → (b.data' ≡ encrypted) × (b.company_id ≡ company_id)
    unfolding new
    new-data {b} h =
        let keys = private_strings V identity company in
        elim (Result-cases (get_aggregated_public_key platform keys)) [
          | inl (public_key, e) ↦
              elim (Result-cases (
                calculate_hash platform (company_block V) (record {
                  company_id = company_id;
                  id = id;
                  previous_hash = previous_hash;
                  data' = encrypted;
                  timestamp = timestamp;
                  public_key = public_key;
                  signatory_node_id = get_public_key platform identity;
                  op_code = op;
                }))) [
                  | inl (hash, f) ↦ elim (Result-cases (aggregated_signature platform hash keys)) [
                    | inl (signature, g) ↦ (ground arith, ground arith)
                    | inr failed ↦ absurd (ground arith)
                  ]
                  | inr failed ↦ absurd (ground arith)
                ]
          | inr failed ↦ absurd (ground arith)
        ]

  module _ (op : CompanyOpCode) (company_id : String) (previous : CompanyBlock)
      (payload : CompanyData op) (identity company : BcrKeys) (holder : Option String)
      (timestamp : ℕ) where
    -- What a created block is made of.
    record Steps (b : CompanyBlock) : Type 0 where
      key : Option String
      shared : key_for_signatory V op (company_key_strings company) holder ≡ ok key
      holds : Holds op payload company key b
      same_company : b.company_id ≡ company_id
      follows : Follows platform (company_block V) previous b

    serialized-Holds :
        (key : Option String) {text serialized : String} (b : CompanyBlock)
        → encrypted_text V (V.to_vec_company op payload) (get_public_key platform company) ≡ ok text
        → serialized_data V (record { data' = text; key = key }) ≡ ok serialized
        → b.data' ≡ serialized
        → Holds op payload company key b
    unfolding serialized_data
    serialized-Holds key {text} {serialized} b e g d =
        elim (Option-cases (V.to_vec_company_block (record { data' = text; key = key }))) [
          | inl none_written ↦ absurd (ground arith)
          | inr (bytes, w) ↦
              let here : platform.base58_encode bytes ≡ serialized = ground arith in
              record {
                text = text;
                bytes = bytes;
                written = w;
                decoded =
                    subst (λ t. platform.base58_decode t ≡ some bytes) (here ∙ sym d)
                      (L.base58 bytes);
                for_company =
                    encrypted_text-ReadableBy V L company (V.to_vec_company op payload)
                      {text = text} e;
              }
        ]

    create-Steps :
        {b : CompanyBlock}
        → encrypt_data_create_block_and_validate V op company_id previous payload identity
            (company_key_strings company)
            holder
            timestamp
          ≡ ok b
        → Steps b
    unfolding encrypt_data_create_block_and_validate
    create-Steps {b} h =
        let keys = company_key_strings company in
        elim (Result-cases
          (encrypted_text V (V.to_vec_company op payload) (get_public_key platform company))) [
            | inl (text, e) ↦ elim (Result-cases (key_for_signatory V op keys holder)) [
              | inl (key, f) ↦
                  elim (Result-cases (serialized_data V (record { data' = text; key = key }))) [
                    | inl (serialized, g) ↦
                        elim (Result-cases (
                          new V company_id ((previous.id + 1) % u64_mod) previous.hash serialized op
                            identity keys timestamp)) [
                              | inl (made, k) ↦
                                  let (d, i) =
                                    new-data company_id ((previous.id + 1) % u64_mod) previous.hash
                                      serialized op identity keys timestamp {b = made} k in
                                  let here : made ≡ b = ground arith in
                                  let fits : validate_with_previous platform (company_block V) made
                                        previous
                                      ≡ true =
                                    ground arith in
                                  subst Steps here (record {
                                    key = key;
                                    shared = f;
                                    holds =
                                        serialized-Holds key {text = text} {serialized = serialized}
                                          made e g d;
                                    same_company = i;
                                    follows =
                                        validate_with_previous-Follows platform (company_block V)
                                          previous made fits;
                                  })
                              | inr failed ↦ absurd (ground arith)
                            ]
                    | inr failed ↦ absurd (ground arith)
                  ]
              | inr failed ↦ absurd (ground arith)
            ]
            | inr failed ↦ absurd (ground arith)
          ]

  stored_behind :
      (company_id : String) (b : CompanyBlock) (bs : List CompanyBlock)
      (rows : String → List CompanyBlock) (block : CompanyBlock)
      → rows company_id ≡ b ∷ bs
      → block.company_id ≡ company_id
      → Follows platform (company_block V) (last_from b bs) block
      → CompanyBlock.id (last_from b bs) + 1 < u64_mod
      → (rows' : String → List CompanyBlock) × (add_company_block V company_id block rows
          ≡ ok rows')
        × (rows' company_id ≡ b ∷ bs ++ block ∷ [])
  unfolding add_company_block
  stored_behind company_id b bs rows block is own f small = (
    λ j. if block.company_id == j then b ∷ bs ++ block ∷ [] else rows j,
    ground (arith, insert_after-Follows platform (company_block V) b bs block f small),
    ground (arith, eq_refl company_id),
  )

  -- The block that adds a signatory to a company, created behind the last block of the company's
  -- chain, whose id is below the 64-bit bound: the table takes it behind all the others; the
  -- company reads its data, and the new signatory the company's private key.
  pub add_signatory-shared :
      (company_id : String) (b : CompanyBlock) (bs : List CompanyBlock)
      (rows : String → List CompanyBlock) (payload : CompanyData CompanyOpCode.add_signatory)
      (identity company signatory : BcrKeys) (timestamp : ℕ) {block : CompanyBlock}
      → create_block_for_add_signatory V company_id
          (last_from b bs)
          payload
          identity
          (company_key_strings company)
          (get_public_key platform signatory)
          timestamp
        ≡ ok block
      → rows company_id ≡ b ∷ bs
      → CompanyBlock.id (last_from b bs) + 1 < u64_mod
      → ((rows' : String → List CompanyBlock) × (add_company_block V company_id block rows
            ≡ ok rows')
          × (rows' company_id ≡ b ∷ bs ++ block ∷ []))
        × (key : String) × Holds CompanyOpCode.add_signatory payload company (some key) block
        × ReadableBy V L signatory (V.to_vec_text (get_private_key_string platform company)) key
  unfolding create_block_for_add_signatory key_for_signatory
  add_signatory-shared company_id b bs rows payload identity company signatory timestamp {block} h
        is small =
      let s =
        create-Steps CompanyOpCode.add_signatory company_id (last_from b bs) payload identity
          company (some (get_public_key platform signatory)) timestamp {b = block} h in
      elim (Result-cases (
        encrypted_text V (V.to_vec_text (get_private_key_string platform company))
          (get_public_key platform signatory))) [
            | inl (key, e) ↦
                let here : s.key ≡ some key = ground (arith, s.shared) in
                (
                  stored_behind company_id b bs rows block is s.same_company s.follows small,
                  key,
                  subst (λ k. Holds CompanyOpCode.add_signatory payload company k block) here
                      s.holds,
                  encrypted_text-ReadableBy V L signatory
                      (V.to_vec_text (get_private_key_string platform company)) {text = key} e,
                )
            | inr failed ↦ absurd (ground (arith, s.shared))
          ]
