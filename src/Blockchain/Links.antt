-- ===== src/Blockchain/Links.antt =====
-- What `validate_with_previous` and `is_chain_valid` of core/src/blockchain/mod.rs accept.
use e_bill.Prelude.{
  ℕ, zero, suc, ◌+◌, ◌%◌, ◌≤◌, ◌≡◌, ◌↔◌, refl, true, List, [], ◌∷◌, ◌++◌, some, arith, u64_mod,
  eq_iff, get_elem?, last_from,
}
use e_bill.Platform.{Platform}
use e_bill.Blockchain.{
  Block, validate_hash, verify, validate_with_previous, valid_after, is_chain_valid,
}

module _ (P : Platform) {B Op H : Type 0} (T : Block B Op H) where
  -- `block` follows `previous`: it names its hash, is no older, has the next id, and its own hash
  -- and signature are right.
  pub record Follows (previous block : B) : Type 0 where
    pub hashes : T.previous_hash block ≡ T.hash previous
    pub times : T.timestamp previous ≤ T.timestamp block
    pub ids : T.id block ≡ (T.id previous + 1) % u64_mod
    pub hash_valid : validate_hash P T block ≡ true
    pub signed : verify P T block ≡ true

  pub validate_with_previous-Follows :
      (previous block : B)
      → validate_with_previous P T block previous ≡ true
      → Follows previous block
  unfolding validate_with_previous
  validate_with_previous-Follows previous block h =
      ground (arith, eq_iff (T.previous_hash block) (T.hash previous))

  pub Follows-validate_with_previous :
      (previous block : B)
      → Follows previous block
      → validate_with_previous P T block previous ≡ true
  unfolding validate_with_previous
  Follows-validate_with_previous previous block h =
      ground (arith, eq_iff (T.previous_hash block) (T.hash previous))

  abbrev pub FollowsAll : B → List B → Type 0
  FollowsAll previous [] = Unit
  FollowsAll previous (block ∷ blocks) = Follows previous block × FollowsAll block blocks

  -- Every block but the first follows the one before it.
  abbrev pub IsValid : List B → Type 0
  IsValid [] = Unit
  IsValid (block ∷ blocks) = FollowsAll block blocks

  valid_after-FollowsAll :
      (previous : B) (blocks : List B)
      → valid_after P T previous blocks ≡ true
      → FollowsAll previous blocks
  unfolding valid_after
  valid_after-FollowsAll previous [] h = tt
  valid_after-FollowsAll previous (block ∷ blocks) h =
      ground
        (arith, validate_with_previous-Follows previous block, valid_after-FollowsAll block blocks)

  FollowsAll-valid_after :
      (previous : B) (blocks : List B)
      → FollowsAll previous blocks
      → valid_after P T previous blocks ≡ true
  unfolding valid_after
  FollowsAll-valid_after previous [] h = refl
  FollowsAll-valid_after previous (block ∷ blocks) (h, hs) =
      ground
        (arith, Follows-validate_with_previous previous block, FollowsAll-valid_after block blocks)

  pub is_chain_valid-IsValid : (blocks : List B) → is_chain_valid P T blocks ≡ true → IsValid blocks
  unfolding is_chain_valid
  is_chain_valid-IsValid [] h = tt
  is_chain_valid-IsValid (block ∷ blocks) h = valid_after-FollowsAll block blocks h

  pub IsValid-is_chain_valid : (blocks : List B) → IsValid blocks → is_chain_valid P T blocks ≡ true
  unfolding is_chain_valid
  IsValid-is_chain_valid [] h = refl
  IsValid-is_chain_valid (block ∷ blocks) h = FollowsAll-valid_after block blocks h

  abbrev pub Neighbours : List B → Type 0
  Neighbours blocks =
      (i : ℕ) (a b : B)
      → get_elem? blocks i ≡ some a
      → get_elem? blocks (suc i) ≡ some b
      → Follows a b

  IsValid-Neighbours : (blocks : List B) → IsValid blocks → Neighbours blocks
  IsValid-Neighbours [] h i a b p q = ground arith
  IsValid-Neighbours (x ∷ []) h i a b p q = ground arith
  IsValid-Neighbours (x ∷ y ∷ blocks) (h, hs) zero a b p q = ground arith
  IsValid-Neighbours (x ∷ y ∷ blocks) (h, hs) (suc i) a b p q =
      IsValid-Neighbours (y ∷ blocks) hs i a b p q

  Neighbours-IsValid : (blocks : List B) → Neighbours blocks → IsValid blocks
  Neighbours-IsValid [] h = tt
  Neighbours-IsValid (x ∷ []) h = tt
  Neighbours-IsValid (x ∷ y ∷ blocks) h =
      (h zero x y refl refl, Neighbours-IsValid (y ∷ blocks) (λ i a b p q. h (suc i) a b p q))

  -- A chain is valid exactly when any two neighbouring blocks fit: the later one names the hash
  -- of the earlier, is no older, has the next id, and its own hash and signature are right.
  pub is_chain_valid_iff :
      (blocks : List B) → (is_chain_valid P T blocks ≡ true) ↔ Neighbours blocks
  is_chain_valid_iff blocks = (
    λ h. IsValid-Neighbours blocks (is_chain_valid-IsValid blocks h),
    λ h. IsValid-is_chain_valid blocks (Neighbours-IsValid blocks h),
  )

  pub FollowsAll-append :
      (x : B) (xs ys : List B)
      → FollowsAll x xs
      → FollowsAll (last_from x xs) ys
      → FollowsAll x (xs ++ ys)
  FollowsAll-append x [] ys h k = k
  FollowsAll-append x (y ∷ xs) ys (h, hs) k = (h, FollowsAll-append y xs ys hs k)

  pub FollowsAll-split :
      (x : B) (xs ys : List B)
      → FollowsAll x (xs ++ ys)
      → FollowsAll x xs × FollowsAll (last_from x xs) ys
  FollowsAll-split x [] ys h = (tt, h)
  FollowsAll-split x (y ∷ xs) ys (h, hs) =
      let rest = FollowsAll-split y xs ys hs in ((h, rest.0), rest.1)
