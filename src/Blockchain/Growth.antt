-- ===== src/Blockchain/Growth.antt =====
-- `try_add_block` of core/src/blockchain/mod.rs.
use e_bill.Prelude.{
  ◌≡◌, refl, Bool, true, false, List, [], ◌∷◌, ◌++◌, arith, ok, last_from, Bool-cases, inl, inr,
}
use e_bill.Platform.{Platform}
use e_bill.Blockchain.{Block, validate_with_previous, try_add_block}
use e_bill.Blockchain.Links.{
  Follows, IsValid, FollowsAll-append, validate_with_previous-Follows,
  Follows-validate_with_previous,
}

module _ (P : Platform) {B Op H : Type 0} (T : Block B Op H) where
  pub try_add_block_lem :
      {E : Type 0} (x : B) (xs : List B) (block : B)
      → try_add_block P T {E = E} (x ∷ xs) block
        ≡ (elim (validate_with_previous P T block (last_from x xs)) [
          | true ↦ ok (x ∷ xs ++ block ∷ [], true)
          | false ↦ ok (x ∷ xs, false)
        ])
  unfolding try_add_block
  try_add_block_lem x xs block = ground arith

  pub IsValid-concat :
      (x : B) (xs : List B) (block : B)
      → IsValid P T (x ∷ xs)
      → Follows P T (last_from x xs) block
      → IsValid P T (x ∷ xs ++ block ∷ [])
  IsValid-concat x xs block h f = FollowsAll-append P T x xs (block ∷ []) h (f, tt)

  -- On a chain with at least one block `try_add_block` never panics, and it answers true exactly
  -- when the block follows the last one: then the chain has grown by the block, and otherwise it is
  -- as it was.
  pub try_add_block-total :
      {E : Type 0} (x : B) (xs : List B) (block : B)
      → (blocks' : List B) × (added : Bool) × (try_add_block P T {E = E} (x ∷ xs) block
          ≡ ok (blocks', added))
        × (added ≡ true → Follows P T (last_from x xs) block)
        × (Follows P T (last_from x xs) block → added ≡ true)
        × (added ≡ true → blocks' ≡ x ∷ xs ++ block ∷ [])
        × (added ≡ false → blocks' ≡ x ∷ xs)
  try_add_block-total {E} x xs block =
      elim (Bool-cases (validate_with_previous P T block (last_from x xs))) [
        | inl e ↦ (
          x ∷ xs ++ block ∷ [],
          true,
          ground (arith, try_add_block_lem {E = E} x xs block),
          λ _. validate_with_previous-Follows P T (last_from x xs) block e,
          λ _. refl,
          λ _. refl,
          λ h. absurd (ground arith),
        )
        | inr e ↦ (
          x ∷ xs,
          false,
          ground (arith, try_add_block_lem {E = E} x xs block),
          λ h. ground arith,
          λ f. ground (arith, Follows-validate_with_previous P T (last_from x xs) block f),
          λ h. absurd (ground arith),
          λ _. refl,
        )
      ]

  -- What a call leaves behind: a block that is added stands at the end of a chain that is valid
  -- if it was valid before; a block that is refused leaves the chain as it was.
  pub try_add_block-IsValid :
      {E : Type 0} (x : B) (xs : List B) (block : B) {blocks' : List B} {added : Bool}
      → IsValid P T (x ∷ xs)
      → try_add_block P T {E = E} (x ∷ xs) block ≡ ok (blocks', added)
      → IsValid P T blocks'
        × (added ≡ true → blocks' ≡ x ∷ xs ++ block ∷ [])
        × (added ≡ false → blocks' ≡ x ∷ xs)
  try_add_block-IsValid {E} x xs block h e =
      elim (Bool-cases (validate_with_previous P T block (last_from x xs))) [
        | inl v ↦ ground (
          arith,
          try_add_block_lem {E = E} x xs block,
          IsValid-concat x xs block h (validate_with_previous-Follows P T (last_from x xs) block v),
        )
        | inr v ↦ ground (arith, try_add_block_lem {E = E} x xs block)
      ]
