-- ===== src/Bill/Create/RoundTrip.antt =====
-- A block that is created is accepted: `create_block_for_…` and `verify_and_get_signer` of
-- core/src/blockchain/bill/block.rs.
pub mod Fields
use e_bill.Prelude.{
  ℕ, ◌+◌, ◌%◌, ◌≡◌, refl, sym, ap, ◌∙◌, subst, String, true, Option, none, some, map, arith, ok,
  u64_mod, Result-cases, Option-cases, inl, inr,
}
use e_bill.Platform.{Bytes}
use e_bill.Util.Crypto.{
  BcrKeys, get_private_key_string, get_public_key, get_aggregated_public_key, aggregated_signature,
  combine_pub_keys, encrypt_ecies,
}
use e_bill.Util.Crypto.Laws.{Laws}
use e_bill.Util.Crypto.Signatures.{
  aggregated_signature-verify, combine_pub_keys-get_aggregated_public_key,
  encrypt_ecies-decrypt_ecies,
}
use e_bill.Blockchain.{calculate_hash, validate_with_previous}
use e_bill.Blockchain.Links.{Follows, validate_with_previous-Follows}
use e_bill.Bill.Data.{BillBlock, BillOpCode, BillKeys, BillAction, DataType, Data}
use e_bill.Bill.Env.{BillEnv}
use e_bill.Bill.Validate.{validate_data}
use e_bill.Bill.Block.{bill_block, get_decrypted_block_bytes}
use e_bill.Bill.Signer.{data_type, signed_by, verify_keys, verify_signer, verify_and_get_signer}
use e_bill.Bill.Create.{
  signing_keys, private_strings, new, encrypted_text, serialized_data, key_for_holder,
  encrypt_data_create_block_and_validate,
}

module _ (V : BillEnv) (L : Laws V.platform) where
  open V use {platform}

  -- A company signs through its signatory: the identity is the signatory, the company the signer.
  abbrev pub signer_of : BcrKeys → Option BcrKeys → String
  signer_of identity none = get_public_key platform identity
  signer_of identity (some company) = get_public_key platform company

  abbrev pub signatory_of : BcrKeys → Option BcrKeys → Option String
  signatory_of identity none = none
  signatory_of identity (some company) = some (get_public_key platform identity)

  abbrev pub bill_key_strings : BcrKeys → BillKeys
  bill_key_strings bill = record {
    private_key = get_private_key_string platform bill;
    public_key = get_public_key platform bill;
  }

  private_strings-map :
      (identity : BcrKeys) (company : Option BcrKeys) (bill : BcrKeys)
      → private_strings V identity company bill
        ≡ map (get_private_key_string platform) (signing_keys identity company bill)
  unfolding private_strings signing_keys
  private_strings-map identity none bill = refl
  private_strings-map identity (some c) bill = refl

  verify_keys-map :
      (identity : BcrKeys) (company : Option BcrKeys) (bill : BcrKeys)
      → verify_keys V
          (signer_of identity company)
          (signatory_of identity company)
          (bill_key_strings bill)
        ≡ map (get_public_key platform) (signing_keys identity company bill)
  unfolding verify_keys signing_keys
  verify_keys-map identity none bill = refl
  verify_keys-map identity (some c) bill = refl

  module _ (bill_id : String) (id : ℕ) (previous_hash encrypted : String) (op : BillOpCode)
      (identity : BcrKeys) (company : Option BcrKeys) (bill : BcrKeys) (timestamp : ℕ) where
    -- What `new` puts into a block.
    record Made (b : BillBlock) : Type 0 where
      same_data : b.data' ≡ encrypted
      same_op : b.op_code ≡ op
      same_id : b.bill_id ≡ bill_id
      same_time : b.timestamp ≡ timestamp
      aggregated :
          get_aggregated_public_key platform (private_strings V identity company bill)
          ≡ ok b.public_key
      signed :
          aggregated_signature platform b.hash (private_strings V identity company bill)
          ≡ ok b.signature

    new-Made :
        {b : BillBlock}
        → new V bill_id id previous_hash encrypted op identity company bill timestamp ≡ ok b
        → Made b
    unfolding new
    new-Made {b} h =
        let keys = private_strings V identity company bill in
        elim (Result-cases (get_aggregated_public_key platform keys)) [
          | inl (public_key, e) ↦
              elim (Result-cases (
                calculate_hash platform (bill_block V) (record {
                  bill_id = bill_id;
                  id = id;
                  previous_hash = previous_hash;
                  data' = encrypted;
                  timestamp = timestamp;
                  public_key = public_key;
                  op_code = op;
                }))) [
                  | inl (hash, f) ↦ elim (Result-cases (aggregated_signature platform hash keys)) [
                    | inl (signature, g) ↦ record {
                      same_data = ground arith;
                      same_op = ground arith;
                      same_id = ground arith;
                      same_time = ground arith;
                      aggregated = ground arith;
                      signed = ground arith;
                    }
                    | inr failed ↦ absurd (ground arith)
                  ]
                  | inr failed ↦ absurd (ground arith)
                ]
          | inr failed ↦ absurd (ground arith)
        ]

    Made-verify_signer :
        (b : BillBlock)
        → Made b
        → verify_signer V b
            (signer_of identity company)
            (signatory_of identity company)
            (bill_key_strings bill)
          ≡ true
    unfolding verify_signer
    Made-verify_signer b made =
        let keys = signing_keys identity company bill in
        let (public_key, key, checked) =
          aggregated_signature-verify platform L b.hash (private_strings V identity company bill)
            {signature = b.signature} made.signed in
        let combined : combine_pub_keys platform (
              verify_keys V (signer_of identity company) (signatory_of identity company)
                (bill_key_strings bill))
            ≡ ok public_key =
          ap (λ ks. combine_pub_keys platform ks) (verify_keys-map identity company bill)
          ∙ combine_pub_keys-get_aggregated_public_key platform L keys (
              ap (λ ks. get_aggregated_public_key platform ks)
                (sym (private_strings-map identity company bill))
              ∙ key) in
        ground (arith, combined, checked)

  -- borsh reads back what it wrote: this payload, and the data of the blocks that are written.
  pub record ReadsBack (t : DataType) (payload : Data t) : Type 0 where
    pub payload_back :
        {bytes : Bytes} → V.to_vec t payload ≡ some bytes → V.from_slice t bytes ≡ some payload
    pub block_back :
        (encrypted : Bytes) (key : Option String) {bytes : Bytes}
        → V.to_vec_block (record { data' = platform.base58_encode encrypted; key = key })
          ≡ some bytes
        → (key' : Option String) × (V.from_slice_block bytes
            ≡ some (record { data' = platform.base58_encode encrypted; key = key' }))

  module _ (t : DataType) (payload : Data t) (bill : BcrKeys) (back : ReadsBack t payload) where
    -- The data of a block, encrypted and serialised for the bill's key, is read back.
    serialized-back :
        (key : Option String) {encrypted serialized : String} (b : BillBlock)
        → encrypted_text V (V.to_vec t payload) (get_public_key platform bill) ≡ ok encrypted
        → serialized_data V (record { data' = encrypted; key = key }) ≡ ok serialized
        → b.data' ≡ serialized
        → get_decrypted_block_bytes V t b (bill_key_strings bill) ≡ ok payload
    unfolding encrypted_text serialized_data get_decrypted_block_bytes
    serialized-back key {encrypted} {serialized} b h k e =
        elim (Option-cases (V.to_vec t payload)) [
          | inl f ↦ absurd (ground arith)
          | inr (bytes, f) ↦
              elim (Result-cases (encrypt_ecies platform bytes (get_public_key platform bill))) [
                | inl (c, g) ↦
                    let text : platform.base58_encode c ≡ encrypted = ground arith in
                    elim (Option-cases
                      (V.to_vec_block (record { data' = platform.base58_encode c; key = key }))) [
                        | inl m ↦ absurd (ground arith)
                        | inr (written, m) ↦
                            let (key', read) = back.block_back c key {bytes = written} m in
                            ground (
                              arith,
                              read,
                              L.base58 written,
                              L.base58 c,
                              back.payload_back {bytes = bytes} f,
                              encrypt_ecies-decrypt_ecies platform L bytes bill {encrypted = c} g,
                            )
                      ]
                | inr failed ↦ absurd (ground arith)
              ]
        ]

  -- A block whose data and signature are read back, at its own op code.
  accepted_here :
      (b : BillBlock) (keys : BillKeys) (signer : String) (signatory : Option String)
      (action : Option BillAction) (payload : Data (data_type b.op_code))
      → get_decrypted_block_bytes V (data_type b.op_code) b keys ≡ ok payload
      → validate_data platform (data_type b.op_code) payload ≡ ok tt
      → signed_by b.op_code payload ≡ (signer, signatory, action)
      → verify_signer V b signer signatory keys ≡ true
      → verify_and_get_signer V b keys ≡ ok (signer, action)
  unfolding verify_and_get_signer
  accepted_here b keys signer signatory action payload read valid names signed = ground arith

  accepted_at :
      (op : BillOpCode) (b : BillBlock) (keys : BillKeys) (signer : String)
      (signatory : Option String) (action : Option BillAction) (payload : Data (data_type op))
      → b.op_code ≡ op
      → get_decrypted_block_bytes V (data_type op) b keys ≡ ok payload
      → validate_data platform (data_type op) payload ≡ ok tt
      → signed_by op payload ≡ (signer, signatory, action)
      → verify_signer V b signer signatory keys ≡ true
      → verify_and_get_signer V b keys ≡ ok (signer, action)
  accepted_at op b keys signer signatory action payload e =
      subst
        (λ o.
          (p : Data (data_type o))
          → get_decrypted_block_bytes V (data_type o) b keys ≡ ok p
          → validate_data platform (data_type o) p ≡ ok tt
          → signed_by o p ≡ (signer, signatory, action)
          → verify_signer V b signer signatory keys ≡ true
          → verify_and_get_signer V b keys ≡ ok (signer, action))
        e (accepted_here b keys signer signatory action) payload

  module _ (op : BillOpCode) (payload : Data (data_type op)) (bill_id : String)
      (previous_block : BillBlock) (identity : BcrKeys) (company : Option BcrKeys) (bill : BcrKeys)
      (holder : Option String) (timestamp : ℕ) where
    record Steps (b : BillBlock) : Type 0 where
      encrypted : String
      key : Option String
      serialized : String
      encrypts :
          encrypted_text V (V.to_vec (data_type op) payload) (get_public_key platform bill)
          ≡ ok encrypted
      serializes : serialized_data V (record { data' = encrypted; key = key }) ≡ ok serialized
      makes :
          new V bill_id
            ((previous_block.id + 1) % u64_mod)
            previous_block.hash
            serialized
            op
            identity
            company
            bill
            timestamp
          ≡ ok b
      fits : validate_with_previous platform (bill_block V) b previous_block ≡ true

    create-Steps :
        {b : BillBlock}
        → encrypt_data_create_block_and_validate V
            (data_type op)
            bill_id
            previous_block
            payload
            identity
            company
            bill
            holder
            timestamp
            op
          ≡ ok b
        → Steps b
    unfolding encrypt_data_create_block_and_validate
    create-Steps {b} h =
        elim (Result-cases
          (encrypted_text V (V.to_vec (data_type op) payload) (get_public_key platform bill))) [
            | inl (encrypted, e) ↦ elim (Result-cases (key_for_holder V op bill holder)) [
              | inl (key, f) ↦
                  elim (Result-cases
                    (serialized_data V (record { data' = encrypted; key = key }))) [
                      | inl (serialized, g) ↦
                          elim (Result-cases (
                            new V bill_id ((previous_block.id + 1) % u64_mod) previous_block.hash
                              serialized op identity company bill timestamp)) [
                                | inl (made, k) ↦ record {
                                  encrypted = encrypted;
                                  key = key;
                                  serialized = serialized;
                                  encrypts = e;
                                  serializes = g;
                                  makes = ground arith;
                                  fits = ground arith;
                                }
                                | inr failed ↦ absurd (ground arith)
                              ]
                      | inr failed ↦ absurd (ground arith)
                    ]
              | inr failed ↦ absurd (ground arith)
            ]
            | inr failed ↦ absurd (ground arith)
          ]

    -- A block that is created behind `previous_block` follows it, and every node that has the bill's
    -- keys reads from it who acted and what was done: if the data is valid and names the party, or
    -- the company and its signatory, whose keys signed, then `verify_and_get_signer` accepts the
    -- block and answers that party and the action of the data.
    pub create-verify_and_get_signer :
        ReadsBack (data_type op) payload
        → {b : BillBlock} {action : Option BillAction}
        → encrypt_data_create_block_and_validate V
            (data_type op)
            bill_id
            previous_block
            payload
            identity
            company
            bill
            holder
            timestamp
            op
          ≡ ok b
        → validate_data platform (data_type op) payload ≡ ok tt
        → signed_by op payload ≡ (signer_of identity company, signatory_of identity company, action)
        → Follows platform (bill_block V) previous_block b
          × (verify_and_get_signer V b (bill_key_strings bill)
              ≡ ok (signer_of identity company, action))
    create-verify_and_get_signer back {b} {action} h valid names =
        let steps = create-Steps {b = b} h in
        let made =
          new-Made bill_id ((previous_block.id + 1) % u64_mod) previous_block.hash steps.serialized
            op identity company bill timestamp {b = b} steps.makes in
        (
          validate_with_previous-Follows platform (bill_block V) previous_block b steps.fits,
          accepted_at op b (bill_key_strings bill) (signer_of identity company)
              (signatory_of identity company) action payload made.same_op
              (serialized-back (data_type op) payload bill back steps.key b steps.encrypts
                steps.serializes made.same_data)
              valid names
              (Made-verify_signer bill_id ((previous_block.id + 1) % u64_mod) previous_block.hash
                steps.serialized op identity company bill timestamp b made),
        )
