-- ===== src/Ledger/Created.antt =====
-- The blocks of identity and company chains that are created: what they hold, and that the tables
-- take them.
pub mod Signatory
use e_bill.Prelude.{
  ℕ, ◌+◌, ◌%◌, ◌<◌, ◌≡◌, refl, sym, subst, ap, ◌∙◌, String, Bool, true, Option, some, none, List,
  [], ◌∷◌, ◌++◌, arith, Result, ok, Result-cases, Option-cases, Bool-cases, inl, inr, last,
  last_from, u64_mod, eq_refl, ltb, eqb,
}
use e_bill.Platform.{Bytes}
use e_bill.Util.Crypto.{
  BcrKeys, get_private_key_string, get_public_key, signature, encrypt_ecies, decrypt_ecies,
  get_aggregated_public_key, aggregated_signature,
}
use e_bill.Util.Crypto.Laws.{Laws}
use e_bill.Util.Crypto.Signatures.{
  signature-verify, aggregated_signature-verify, encrypt_ecies-decrypt_ecies,
}
use e_bill.Blockchain.{
  calculate_hash, validate_with_previous, validate_hash, verify, first_block_id,
}
use e_bill.Blockchain.Links.{Follows, validate_with_previous-Follows}
use e_bill.Ledger.Data.{IdentityBlock, IdentityOpCode, IdentityData, IdentityCreateBlockData}
use e_bill.Ledger.Env.{LedgerEnv}
use e_bill.Ledger.Identity.{
  identity_block, identity_data_to_hash, new, encrypted_text, create_block_for_create,
  encrypt_data_create_block_and_validate, new_chain,
}
use e_bill.Ledger.Table.{add_identity_block, insert_after, create_first}
use e_bill.Ledger.Table.Chains.{IsChain, insert_after-Follows}

module _ (V : LedgerEnv) (L : Laws V.platform) where
  open V use {platform}

  -- The data of a block is `plain`, encrypted for the keys' owner, who can read it back.
  abbrev pub ReadableBy : BcrKeys → Option Bytes → String → Type 0
  ReadableBy keys plain text =
      (bytes : Bytes) × (encrypted : Bytes) × (plain ≡ some bytes)
      × (platform.base58_decode text ≡ some encrypted)
      × (decrypt_ecies platform encrypted (get_private_key_string platform keys) ≡ ok bytes)

  pub encrypted_text-ReadableBy :
      (keys : BcrKeys) (plain : Option Bytes) {text : String}
      → encrypted_text V plain (get_public_key platform keys) ≡ ok text
      → ReadableBy keys plain text
  unfolding encrypted_text
  encrypted_text-ReadableBy keys plain {text} h = elim (Option-cases plain) [
    | inl e ↦ absurd (ground arith)
    | inr (bytes, e) ↦
        elim (Result-cases (encrypt_ecies platform bytes (get_public_key platform keys))) [
          | inl (c, f) ↦
              let here : platform.base58_encode c ≡ text = ground arith in
              (
                bytes,
                c,
                e,
                subst (λ t. platform.base58_decode t ≡ some c) here (L.base58 c),
                encrypt_ecies-decrypt_ecies platform L bytes keys {encrypted = c} f,
              )
          | inr failed ↦ absurd (ground arith)
        ]
  ]

  module _ (id : ℕ) (previous_hash encrypted : String) (op : IdentityOpCode) (keys : BcrKeys)
      (timestamp : ℕ) where
    -- What `new` puts into a block.
    record Made (b : IdentityBlock) : Type 0 where
      same_id : b.id ≡ id
      same_data : b.data' ≡ encrypted
      hashed : validate_hash platform (identity_block V) b ≡ true
      signed : verify platform (identity_block V) b ≡ true

    new-Made :
        {b : IdentityBlock} → new V id previous_hash encrypted op keys timestamp ≡ ok b → Made b
    unfolding new validate_hash verify
    new-Made {b} h =
        elim (Result-cases (
          calculate_hash platform (identity_block V) (record {
            id = id;
            previous_hash = previous_hash;
            data' = encrypted;
            timestamp = timestamp;
            public_key = get_public_key platform keys;
            op_code = op;
          }))) [
            | inl (hash, f) ↦
                elim (Result-cases
                  (signature platform hash (get_private_key_string platform keys))) [
                    | inl (sig, g) ↦ record {
                      same_id = ground arith;
                      same_data = ground arith;
                      hashed = ground (arith, eq_refl hash);
                      signed = ground (arith, signature-verify platform L hash keys {sig = sig} g);
                    }
                    | inr failed ↦ absurd (ground arith)
                  ]
            | inr failed ↦ absurd (ground arith)
          ]

  -- A block that is created behind `previous` follows it, and the owner of the keys reads its data
  -- back.
  create-Follows :
      (op : IdentityOpCode) (previous : IdentityBlock) (payload : IdentityData op) (keys : BcrKeys)
      (timestamp : ℕ) {b : IdentityBlock}
      → encrypt_data_create_block_and_validate V op previous payload keys timestamp ≡ ok b
      → Follows platform (identity_block V) previous b
        × ReadableBy keys (V.to_vec_identity op payload) b.data'
  unfolding encrypt_data_create_block_and_validate
  create-Follows op previous payload keys timestamp {b} h =
      elim (Result-cases
        (encrypted_text V (V.to_vec_identity op payload) (get_public_key platform keys))) [
          | inl (text, e) ↦
              elim (Result-cases
                (new V ((previous.id + 1) % u64_mod) previous.hash text op keys timestamp)) [
                  | inl (made, f) ↦
                      let here : made ≡ b = ground arith in
                      let fits : validate_with_previous platform (identity_block V) made previous
                          ≡ true =
                        ground arith in
                      let m =
                        new-Made ((previous.id + 1) % u64_mod) previous.hash text op keys timestamp
                          {b = made} f in
                      subst
                        (λ x.
                          Follows platform (identity_block V) previous x
                          × ReadableBy keys (V.to_vec_identity op payload) x.data')
                        here
                        (
                          validate_with_previous-Follows platform (identity_block V) previous made
                              fits,
                          subst (λ t. ReadableBy keys (V.to_vec_identity op payload) t)
                              (sym m.same_data)
                              (encrypted_text-ReadableBy keys (V.to_vec_identity op payload)
                                {text = text} e),
                        )
                  | inr failed ↦ absurd (ground arith)
                ]
          | inr failed ↦ absurd (ground arith)
        ]

  -- Every block of the identity that is created behind the last block of its chain, whose id is
  -- below the 64-bit bound, is taken by the table, behind all the others, and its data is read back
  -- with the identity's private key.
  pub identity_block-stored :
      (op : IdentityOpCode) (b : IdentityBlock) (bs : List IdentityBlock)
      (payload : IdentityData op) (keys : BcrKeys) (timestamp : ℕ) {block : IdentityBlock}
      → encrypt_data_create_block_and_validate V op (last_from b bs) payload keys timestamp
        ≡ ok block
      → IdentityBlock.id (last_from b bs) + 1 < u64_mod
      → (add_identity_block V block (b ∷ bs) ≡ ok (b ∷ bs ++ block ∷ []))
        × ReadableBy keys (V.to_vec_identity op payload) block.data'
  unfolding add_identity_block
  identity_block-stored op b bs payload keys timestamp {block} h small =
      let (follows, readable) =
        create-Follows op (last_from b bs) payload keys timestamp {b = block} h in
      (insert_after-Follows platform (identity_block V) b bs block follows small, readable)

  -- The first block of a new identity chain is taken by an empty table.
  pub new_chain-stored :
      (identity : IdentityCreateBlockData) (keys : BcrKeys) (timestamp : ℕ)
      {chain : List IdentityBlock}
      → new_chain V identity keys timestamp ≡ ok chain
      → (block : IdentityBlock) × (chain ≡ block ∷ [])
        × (add_identity_block V block [] ≡ ok chain)
        × ReadableBy keys (V.to_vec_identity IdentityOpCode.create identity) block.data'
  unfolding new_chain create_block_for_create add_identity_block insert_after create_first
  new_chain-stored identity keys timestamp {chain} h =
      let genesis_hash = platform.base58_encode (V.as_bytes (get_public_key platform keys)) in
      elim (Result-cases (
        encrypted_text V (V.to_vec_identity IdentityOpCode.create identity)
          (get_public_key platform keys))) [
            | inl (text, e) ↦
                elim (Result-cases
                  (new V first_block_id genesis_hash text IdentityOpCode.create keys timestamp)) [
                    | inl (made, f) ↦
                        let m =
                          new-Made first_block_id genesis_hash text IdentityOpCode.create keys
                            timestamp {b = made} f in
                        (
                          made,
                          ground arith,
                          ground (arith, m.same_id, m.hashed, m.signed),
                          subst
                              (λ t.
                                ReadableBy keys (V.to_vec_identity IdentityOpCode.create identity)
                                  t)
                              (sym m.same_data)
                              (encrypted_text-ReadableBy keys
                                (V.to_vec_identity IdentityOpCode.create identity) {text = text} e),
                        )
                    | inr failed ↦ absurd (ground arith)
                  ]
            | inr failed ↦ absurd (ground arith)
          ]
