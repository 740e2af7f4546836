-- ===== src/Bill/Chain/Parties.antt =====
-- Who holds a bill: `get_bill_parties` of core/src/blockchain/bill/chain.rs.
pub mod Greatest
pub mod Position
pub mod Unendorsed
use e_bill.Prelude.{
  ℕ, zero, suc, ◌+◌, ◌≤◌, ◌<◌, ◌≡◌, ◌⊎◌, inl, inr, refl, sym, ap, ◌∙◌, subst, String, Bool, true,
  false, Option, none, some, List, [], ◌∷◌, ◌++◌, arith, Result, ok, err, panic, ◌>>=◌,
  if◌then◌else◌, All, get_elem?, length, ltb, u64_mod, Bool-cases, Option-cases, Result-cases,
}
use e_bill.Error.{BlockchainError}
use e_bill.Blockchain.{get_last_version_block_with_op_code, block_with_operation_code_exists}
use e_bill.Blockchain.Links.{IsValid}
use e_bill.Blockchain.Order.{FollowsAll-id}
use e_bill.Blockchain.Lookup.{LastWith, get_last_version_block_iff, exists-none}
use e_bill.Bill.Data
use e_bill.Bill.Data.{
  BillBlock, BillOpCode, BillKeys, DataType, Data, BillIdentityBlockData, BillIssueBlockData,
  HolderFromBlock, op_eq, op_eq_refl, op_eq-eq,
}
use e_bill.Bill.Env.{BillEnv}
use e_bill.Bill.Block.{bill_block, get_decrypted_block_bytes, get_holder_from_block, holder_of}
use e_bill.Bill.Chain.{
  BillBlockchain, BillParties, is_endorsement, last_with_op, exists_with_op, last_party, max_by_key,
  flatten, get_bill_parties,
}
use e_bill.Bill.Chain.Lookup.{exists_with_op-get_elem?}
use e_bill.Bill.Chain.Parties.Greatest.{
  Within, flatten-All, All-flatten, max_by_key-All, max_by_key-bound, max_by_key-some,
}
use e_bill.Bill.Chain.Parties.Position.{At, split-At}

-- The block at index `i` is the last one that changes the holder.
pub record LastEndorsement (blocks : BillBlockchain) (i : ℕ) (b : BillBlock) : Type 0 where
  pub there : get_elem? blocks i ≡ some b
  pub changes : is_endorsement b.op_code ≡ true
  pub later :
      (k : ℕ) (d : BillBlock)
      → i < k
      → get_elem? blocks k ≡ some d
      → is_endorsement d.op_code ≡ false

some-injective : {A : Type 0} {a b : A} → some a ≡ some b → a ≡ b
some-injective h = ground arith

not_there_lem :
    (V : BillEnv) (blocks : BillBlockchain) (op : BillOpCode)
    → last_with_op V blocks op ≡ none
    → exists_with_op V blocks op ≡ false
unfolding last_with_op exists_with_op
not_there_lem V blocks op e = exists-none V.platform (bill_block V) op blocks e

module _ (V : BillEnv) (x : BillBlock) (xs : BillBlockchain) (keys : BillKeys)
    (valid : IsValid V.platform (bill_block V) (x ∷ xs)) (small : x.id + length xs < u64_mod)
    (i : ℕ) (b : BillBlock) (is_last : LastEndorsement (x ∷ xs) i b) where
  -- `p` is the holder that the block names.
  abbrev Names : BillIdentityBlockData → Type 0
  Names p = (h : HolderFromBlock) × (get_holder_from_block V b keys ≡ ok (some h)) × (h.holder ≡ p)

  abbrev Fits : ℕ × BillIdentityBlockData → Type 0
  Fits e = (e.0 < b.id) ⊎ Names e.1

  abbrev is_op : BillOpCode → BillBlock → Bool
  is_op op c = op_eq c.op_code op

  position :
      (op : BillOpCode) (c : BillBlock)
      → last_with_op V (x ∷ xs) op ≡ some c
      → At (is_op op) (x ∷ xs) c × (c.op_code ≡ op)
  unfolding last_with_op
  position op c e =
      let w = (get_last_version_block_iff V.platform (bill_block V) op (x ∷ xs) c).0 e in
      (
        subst (λ l. At (is_op op) l c) (sym w.split)
            (split-At (is_op op) w.before c w.after w.none_after),
        op_eq-eq c.op_code op w.passes,
      )

  -- A last block with an op code that changes the holder is older than `b`, or is `b`.
  older :
      (op : BillOpCode) (c : BillBlock)
      → is_endorsement op ≡ true
      → last_with_op V (x ∷ xs) op ≡ some c
      → (c.id < b.id) ⊎ ((c ≡ b) × (b.op_code ≡ op))
  older op c changes e =
      let (at, same) = position op c e in
      let c_id = FollowsAll-id V.platform (bill_block V) x xs valid small at.index c at.there in
      let b_id = FollowsAll-id V.platform (bill_block V) x xs valid small i b is_last.there in
      elim (Bool-cases (ltb at.index i)) [
        | inl less ↦ inl (ground arith)
        | inr no_less ↦ elim (Bool-cases (ltb i at.index)) [
          | inl more ↦
              let still : is_endorsement c.op_code ≡ false =
                is_last.later at.index c (ground arith) at.there in
              absurd (ground arith)
          | inr no_more ↦
              let index : at.index ≡ i = ground arith in
              let here : get_elem? (x ∷ xs) i ≡ some c =
                subst (λ k. get_elem? (x ∷ xs) k ≡ some c) index at.there in
              let block : c ≡ b = some-injective (sym here ∙ is_last.there) in
              inr (block, (ap (λ (d : BillBlock). d.op_code) (sym block) ∙ same))
        ]
      ]

  found :
      (op : BillOpCode)
      → is_endorsement op ≡ true
      → b.op_code ≡ op
      → last_with_op V (x ∷ xs) op ≡ some b
  found op changes same = elim (Option-cases (last_with_op V (x ∷ xs) op)) [
    | inl none_there ↦
        let there = exists_with_op-get_elem? V (x ∷ xs) i {b = b} op is_last.there same in
        let missing = not_there_lem V (x ∷ xs) op none_there in absurd (ground arith)
    | inr (c, e) ↦ elim (older op c changes e) [
      | inr (block, _) ↦ e ∙ ap (λ d. some d) block
      | inl less ↦
          let (at, _) = position op c e in
          let c_id = FollowsAll-id V.platform (bill_block V) x xs valid small at.index c at.there in
          let b_id = FollowsAll-id V.platform (bill_block V) x xs valid small i b is_last.there in
          let other = at.later i b (ground arith) is_last.there in
          absurd (ground (arith, op_eq_refl op))
    ]
  ]

  -- What is found for one op code: nothing, or an entry that is older or names the holder; and
  -- `b` itself for its own op code.
  record Found (op : BillOpCode) (e : Option (ℕ × BillIdentityBlockData)) : Type 0 where
    fits : Within Fits e
    own : b.op_code ≡ op → (p : BillIdentityBlockData) × (e ≡ some (b.id, p))

  of_block :
      (op : BillOpCode) (t : DataType) (get : Data t → BillIdentityBlockData)
      → ((d : Data t)
          → b.op_code ≡ op
          → get_decrypted_block_bytes V t b keys ≡ ok d
          → Names (get d))
      → (c : BillBlock) (d : Data t) → is_endorsement op ≡ true
      → last_with_op V (x ∷ xs) op ≡ some c
      → get_decrypted_block_bytes V t c keys ≡ ok d
      → Found op (some (c.id, get d))
  of_block op t get names c d changes is_c read = record {
    fits = elim (older op c changes is_c) [
      | inl less ↦ inl less
      | inr (block, same) ↦
          inr (names d same (ap (λ k. get_decrypted_block_bytes V t k keys) (sym block) ∙ read))
    ];
    own = λ same.
        let block : c ≡ b = some-injective (sym is_c ∙ found op changes same) in
        (get d, ap (λ (k : BillBlock). some (k.id, get d)) block);
  }

  last_party-Found :
      (op : BillOpCode) (t : DataType) (get : Data t → BillIdentityBlockData)
      → is_endorsement op ≡ true
      → ((d : Data t)
          → b.op_code ≡ op
          → get_decrypted_block_bytes V t b keys ≡ ok d
          → Names (get d))
      → {e : Option (ℕ × BillIdentityBlockData)} → last_party V op t get (x ∷ xs) keys ≡ ok e
      → Found op e
  unfolding last_party
  last_party-Found op t get changes names {e} h = elim (Option-cases (last_with_op V (x ∷ xs) op)) [
    | inl no_block ↦
        let nothing : none ≡ e = ground arith in
        record {
          fits = subst (λ o. Within Fits o) nothing tt;
          own = λ same. let there = found op changes same in absurd (ground arith);
        }
    | inr (c, is_c) ↦ elim (Result-cases (get_decrypted_block_bytes V t c keys)) [
      | inl (d, read) ↦
          let entry : some (c.id, get d) ≡ e = ground arith in
          subst (λ o. Found op o) entry (of_block op t get names c d changes is_c read)
      | inr failed ↦ absurd (ground arith)
    ]
  ]

  -- The greatest of a list is there, and fits, and is no older than any entry.
  greatest :
      (es : List (ℕ × BillIdentityBlockData)) (own : ℕ × BillIdentityBlockData)
      → own.0 ≡ b.id
      → All Fits es
      → ((Q : ℕ × BillIdentityBlockData → Type 0) → All Q es → Q own)
      → (m : ℕ) × (q : BillIdentityBlockData) × (max_by_key none es ≡ some (m, q)) × Names q
  unfolding max_by_key
  greatest [] own at_b fits among = absurd (among (λ _. ⊥) tt)
  greatest (e ∷ es) own at_b (fit, fits) among = elim (Option-cases (max_by_key (some e) es)) [
    | inl nothing ↦ absurd (max_by_key-some e es nothing)
    | inr ((m, q), is_max) ↦
        let bound = max_by_key-bound e es {r = (m, q)} is_max in
        let at_least : own.0 ≤ m = among (λ y. y.0 ≤ m) (bound.0, bound.1) in
        (
          m,
          q,
          is_max,
          elim (max_by_key-All Fits e es {r = (m, q)} fit fits is_max) [
            | inl less ↦ absurd (omega (arith, less, at_least, at_b))
            | inr names ↦ names
          ],
        )
  ]

  endorse-Names :
      (d : Data DataType.endorse)
      → b.op_code ≡ BillOpCode.endorse
      → get_decrypted_block_bytes V DataType.endorse b keys ≡ ok d
      → Names d.endorsee
  unfolding get_holder_from_block holder_of get_decrypted_block_bytes
  endorse-Names d op read = (
    record { holder = d.endorsee; signer = d.endorser; signatory = d.signatory },
    rw (op, read) refl,
    refl,
  )

  mint-Names :
      (d : Data DataType.mint)
      → b.op_code ≡ BillOpCode.mint
      → get_decrypted_block_bytes V DataType.mint b keys ≡ ok d
      → Names d.endorsee
  unfolding get_holder_from_block holder_of get_decrypted_block_bytes
  mint-Names d op read = (
    record { holder = d.endorsee; signer = d.endorser; signatory = d.signatory },
    rw (op, read) refl,
    refl,
  )

  sell-Names :
      (d : Data DataType.sell)
      → b.op_code ≡ BillOpCode.sell
      → get_decrypted_block_bytes V DataType.sell b keys ≡ ok d
      → Names d.buyer
  unfolding get_holder_from_block holder_of get_decrypted_block_bytes
  sell-Names d op read = (
    record { holder = d.buyer; signer = d.seller; signatory = d.signatory },
    rw (op, read) refl,
    refl,
  )

  recourse-Names :
      (d : Data DataType.recourse)
      → b.op_code ≡ BillOpCode.recourse
      → get_decrypted_block_bytes V DataType.recourse b keys ≡ ok d
      → Names d.recoursee
  unfolding get_holder_from_block holder_of get_decrypted_block_bytes
  recourse-Names d op read = (
    record { holder = d.recoursee; signer = d.recourser; signatory = d.signatory },
    rw (op, read) refl,
    refl,
  )

  module _ (e₁ e₂ e₃ e₄ : Option (ℕ × BillIdentityBlockData)) (f₁ : Found BillOpCode.endorse e₁)
      (f₂ : Found BillOpCode.mint e₂) (f₃ : Found BillOpCode.sell e₃)
      (f₄ : Found BillOpCode.recourse e₄) where
    abbrev entries : List (ℕ × BillIdentityBlockData)
    entries = flatten (e₁ ∷ e₂ ∷ e₃ ∷ e₄ ∷ [])

    entries-Fits : All Fits entries
    entries-Fits =
        flatten-All Fits (e₁ ∷ e₂ ∷ e₃ ∷ e₄ ∷ []) (f₁.fits, (f₂.fits, (f₃.fits, (f₄.fits, tt))))

    abbrev Own : Type 1
    Own =
        (own : ℕ × BillIdentityBlockData) × (own.0 ≡ b.id)
        × ((Q : ℕ × BillIdentityBlockData → Type 0) → All Q entries → Q own)

    own_of : (op : BillOpCode) → b.op_code ≡ op → is_endorsement op ≡ true → Own
    unfolding is_endorsement
    own_of BillOpCode.endorse same h =
        let (p, e) = f₁.own same in
        (
          (b.id, p),
          refl,
          λ Q all. subst (λ o. Within Q o) e (All-flatten Q (e₁ ∷ e₂ ∷ e₃ ∷ e₄ ∷ []) all).0,
        )
    own_of BillOpCode.mint same h =
        let (p, e) = f₂.own same in
        (
          (b.id, p),
          refl,
          λ Q all. subst (λ o. Within Q o) e (All-flatten Q (e₁ ∷ e₂ ∷ e₃ ∷ e₄ ∷ []) all).1.0,
        )
    own_of BillOpCode.sell same h =
        let (p, e) = f₃.own same in
        (
          (b.id, p),
          refl,
          λ Q all. subst (λ o. Within Q o) e (All-flatten Q (e₁ ∷ e₂ ∷ e₃ ∷ e₄ ∷ []) all).1.1.0,
        )
    own_of BillOpCode.recourse same h =
        let (p, e) = f₄.own same in
        (
          (b.id, p),
          refl,
          λ Q all. subst (λ o. Within Q o) e (All-flatten Q (e₁ ∷ e₂ ∷ e₃ ∷ e₄ ∷ []) all).1.1.1.0,
        )
    own_of _ same h = absurd (ground arith)

    holder_found :
        (m : ℕ) × (q : BillIdentityBlockData) × (max_by_key none entries ≡ some (m, q)) × Names q
    holder_found =
        let (own, at_b, among) = own_of b.op_code refl is_last.changes in
        greatest entries own at_b entries-Fits among

  -- In a valid chain whose ids stay in the 64-bit range, the endorsee that `get_bill_parties` answers
  -- is the holder that the last block of the kinds endorse, mint, sell and recourse names.
  pub get_bill_parties-get_holder_from_block :
      (first : BillIssueBlockData) {parties : BillParties}
      → get_bill_parties V (x ∷ xs) keys first ≡ ok parties
      → (h : HolderFromBlock) × (get_holder_from_block V b keys ≡ ok (some h))
        × (parties.endorsee ≡ some h.holder)
  unfolding get_bill_parties is_endorsement
  get_bill_parties-get_holder_from_block first {parties} e =
      elim (Result-cases
        (last_party V BillOpCode.endorse DataType.endorse (λ d. d.endorsee) (x ∷ xs) keys)) [
          | inl (e₁, h₁) ↦
              elim (Result-cases
                (last_party V BillOpCode.mint DataType.mint (λ d. d.endorsee) (x ∷ xs) keys)) [
                  | inl (e₂, h₂) ↦
                      elim (Result-cases
                        (last_party V BillOpCode.sell DataType.sell (λ d. d.buyer) (x ∷ xs) keys)) [
                          | inl (e₃, h₃) ↦
                              elim (Result-cases (
                                last_party V BillOpCode.recourse DataType.recourse
                                  (λ d. d.recoursee) (x ∷ xs) keys)) [
                                    | inl (e₄, h₄) ↦
                                        let (m, q, is_max, names) =
                                          holder_found e₁ e₂ e₃ e₄
                                            (last_party-Found BillOpCode.endorse DataType.endorse
                                              (λ d. d.endorsee) refl endorse-Names h₁)
                                            (last_party-Found BillOpCode.mint DataType.mint
                                              (λ d. d.endorsee) refl mint-Names h₂)
                                            (last_party-Found BillOpCode.sell DataType.sell
                                              (λ d. d.buyer) refl sell-Names h₃)
                                            (last_party-Found BillOpCode.recourse DataType.recourse
                                              (λ d. d.recoursee) refl recourse-Names h₄) in
                                        let (h, read, holds) = names in (h, read, ground arith)
                                    | inr failed ↦ absurd (ground arith)
                                  ]
                          | inr failed ↦ absurd (ground arith)
                        ]
                  | inr failed ↦ absurd (ground arith)
                ]
          | inr failed ↦ absurd (ground arith)
        ]
