-- ===== src/Ledger/Table/Chains.antt =====
-- What the tables of identity and company chains hold, and which blocks they take.
use e_bill.Prelude.{
  ◌+◌, ◌<◌, ◌≡◌, ◌≢◌, sym, subst, String, true, List, [], ◌∷◌, ◌++◌, arith, ok, Result-cases,
  Bool-cases, inl, inr, last, last_from, u64_mod, eq_iff, eq_refl, ◌==◌, if◌then◌else◌,
}
use e_bill.Platform.{Platform}
use e_bill.Blockchain.{Block, verify, validate_hash, validate_with_previous}
use e_bill.Blockchain.Links.{
  Follows, IsValid, validate_with_previous-Follows, Follows-validate_with_previous,
}
use e_bill.Blockchain.Growth.{IsValid-concat}
use e_bill.Ledger.Data.{IdentityBlock, CompanyBlock}
use e_bill.Ledger.Env.{LedgerEnv}
use e_bill.Ledger.Identity.{identity_block}
use e_bill.Ledger.Company.{company_block}
use e_bill.Ledger.Table.{
  create_next, create_first, insert_after, add_identity_block, add_company_block,
}

module _ (P : Platform) {B Op H : Type 0} (T : Block B Op H) where
  -- The rows of one chain: none yet, or a valid chain from a first block with id 1, whose hash and
  -- signature are right.
  abbrev pub IsChain : List B → Type 0
  IsChain [] = Unit
  IsChain (b ∷ bs) =
      (T.id b ≡ 1) × (verify P T b ≡ true) × (validate_hash P T b ≡ true) × IsValid P T (b ∷ bs)

  pub insert_after-IsChain :
      (rows : List B) (block : B) {rows' : List B}
      → insert_after P T (last rows) block rows ≡ ok rows'
      → IsChain rows
      → IsChain rows' × (rows' ≡ rows ++ block ∷ [])
  unfolding insert_after create_first create_next
  insert_after-IsChain [] block h c = ground arith
  insert_after-IsChain (b ∷ bs) block {rows'} h (i, v, k, c) =
      elim (Bool-cases (validate_with_previous P T block (last_from b bs))) [
        | inl e ↦
            let here : rows' ≡ b ∷ bs ++ block ∷ [] = ground arith in
            (
              subst IsChain (sym here) (
                i,
                v,
                k,
                IsValid-concat P T b bs block c
                    (validate_with_previous-Follows P T (last_from b bs) block e),
              ),
              here,
            )
        | inr e ↦ absurd (ground arith)
      ]

  pub insert_after-Follows :
      (b : B) (bs : List B) (block : B)
      → Follows P T (last_from b bs) block
      → T.id (last_from b bs) + 1 < u64_mod
      → insert_after P T (last (b ∷ bs)) block (b ∷ bs) ≡ ok (b ∷ bs ++ block ∷ [])
  unfolding insert_after create_next
  insert_after-Follows b bs block f small = ground (
    arith,
    Follows-validate_with_previous P T (last_from b bs) block f,
    f.ids,
    f.hashes,
    eq_refl (T.hash (last_from b bs)),
  )

module _ (V : LedgerEnv) where
  open V use {platform}

  -- What the identity table takes keeps it a valid chain from a first block with id 1: the block
  -- that is added stands at its end, behind all the blocks that were there.
  pub add_identity_block-IsChain :
      (rows : List IdentityBlock) (block : IdentityBlock) {rows' : List IdentityBlock}
      → add_identity_block V block rows ≡ ok rows'
      → IsChain platform (identity_block V) rows
      → IsChain platform (identity_block V) rows' × (rows' ≡ rows ++ block ∷ [])
  unfolding add_identity_block
  add_identity_block-IsChain rows block h c =
      insert_after-IsChain platform (identity_block V) rows block h c

  -- Every company's rows are such a chain.
  abbrev pub AreChains : (String → List CompanyBlock) → Type 0
  AreChains rows = (id : String) → IsChain platform (company_block V) (rows id)

  module _ (block : CompanyBlock) (rows : String → List CompanyBlock) (all : AreChains rows) where
    own_added :
        {own : List CompanyBlock}
        → insert_after platform
            (company_block V)
            (last (rows block.company_id))
            block
            (rows block.company_id)
          ≡ ok own
        → (j : String)
        → IsChain platform (company_block V) (if block.company_id == j then own else rows j)
    own_added {own} h j = elim (Bool-cases (block.company_id == j)) [
      | inl e ↦
          let (chain, _) =
            insert_after-IsChain platform (company_block V) (rows block.company_id) block
              {rows' = own} h (all block.company_id) in
          rw e chain
      | inr e ↦ rw e (all j)
    ]

    -- A block that the company table takes for its own company stands at the end of that company's
    -- chain, the chains of the other companies stay as they were, and all of them stay valid
    -- chains from a first block with id 1.
    pub add_company_block-AreChains :
        {rows' : String → List CompanyBlock}
        → add_company_block V block.company_id block rows ≡ ok rows'
        → AreChains rows'
          × (rows' block.company_id ≡ rows block.company_id ++ block ∷ [])
          × ((j : String) → j ≢ block.company_id → rows' j ≡ rows j)
    unfolding add_company_block
    add_company_block-AreChains {rows'} h =
        elim (Result-cases (
          insert_after platform (company_block V) (last (rows block.company_id)) block
            (rows block.company_id))) [
              | inl (own, e) ↦
                  let here : (λ j. if block.company_id == j then own else rows j) ≡ rows' =
                    ground arith in
                  let (_, grown) =
                    insert_after-IsChain platform (company_block V) (rows block.company_id) block
                      {rows' = own} e (all block.company_id) in
                  (
                    subst AreChains here (own_added {own = own} e),
                    subst (λ r. r block.company_id ≡ rows block.company_id ++ block ∷ []) here
                        (rw (eq_refl block.company_id) grown),
                    λ j ne.
                        subst (λ r. r j ≡ rows j) here (ground (arith, eq_iff block.company_id j)),
                  )
              | inr failed ↦ absurd (ground arith)
            ]
