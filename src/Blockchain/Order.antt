-- ===== src/Blockchain/Order.antt =====
-- The order of the blocks of a valid chain (core/src/blockchain/mod.rs): ids count up from the
-- first, and time stamps never fall.
use e_bill.Prelude.{
  true, ℕ, zero, suc, ◌+◌, ◌≤◌, ◌<◌, ◌≡◌, List, [], ◌∷◌, some, arith, u64_mod, get_elem?, length,
  last_from,
}
use e_bill.Platform.{Platform}
use e_bill.Blockchain.{Block, is_chain_valid}
use e_bill.Blockchain.Links.{Follows, FollowsAll, IsValid, is_chain_valid-IsValid}

module _ (P : Platform) {B Op H : Type 0} (T : Block B Op H) where
  pub id-Follows : (x y : B) → Follows P T x y → T.id x + 1 < u64_mod → T.id y ≡ T.id x + 1
  id-Follows x y h small = omega (arith, h.ids)

  pub FollowsAll-id :
      (x : B) (xs : List B)
      → IsValid P T (x ∷ xs)
      → T.id x + length xs < u64_mod
      → (i : ℕ) (b : B) → get_elem? (x ∷ xs) i ≡ some b
      → T.id b ≡ T.id x + i
  FollowsAll-id x xs h small zero b e = ground arith
  FollowsAll-id x [] h small (suc i) b e = ground arith
  FollowsAll-id x (y ∷ ys) h small (suc i) b e =
      let step = id-Follows x y h.0 (omega arith) in
      let rest = FollowsAll-id y ys h.1 (omega (arith, step)) i b e in omega (arith, step, rest)

  -- In a chain that `is_chain_valid` accepts, and whose ids do not leave the 64-bit range, the block
  -- at index i has the first block's id plus i.
  pub id-get_elem? :
      (x : B) (xs : List B)
      → is_chain_valid P T (x ∷ xs) ≡ true
      → T.id x + length xs < u64_mod
      → (i : ℕ) (b : B) → get_elem? (x ∷ xs) i ≡ some b
      → T.id b ≡ T.id x + i
  id-get_elem? x xs valid = FollowsAll-id x xs (is_chain_valid-IsValid P T (x ∷ xs) valid)

  timestamp-first :
      (x : B) (xs : List B)
      → IsValid P T (x ∷ xs)
      → (i : ℕ) (b : B) → get_elem? (x ∷ xs) i ≡ some b
      → T.timestamp x ≤ T.timestamp b
  timestamp-first x xs h zero b e = ground arith
  timestamp-first x [] h (suc i) b e = ground arith
  timestamp-first x (y ∷ ys) h (suc i) b e =
      omega (arith, h.0.times, timestamp-first y ys h.1 i b e)

  IsValid-timestamp :
      (xs : List B)
      → IsValid P T xs
      → (i j : ℕ) (a b : B) → get_elem? xs i ≡ some a
      → get_elem? xs j ≡ some b
      → i ≤ j
      → T.timestamp a ≤ T.timestamp b
  IsValid-timestamp [] h i j a b p q l = ground arith
  IsValid-timestamp (x ∷ xs) h zero j a b p q l = ground (arith, timestamp-first x xs h j b q)
  IsValid-timestamp (x ∷ xs) h (suc i) zero a b p q l = absurd (omega arith)
  IsValid-timestamp (x ∷ []) h (suc i) (suc j) a b p q l = ground arith
  IsValid-timestamp (x ∷ y ∷ ys) h (suc i) (suc j) a b p q l =
      IsValid-timestamp (y ∷ ys) h.1 i j a b p q (omega arith)

  -- In a chain that `is_chain_valid` accepts no block is older than one that stands before it.
  pub timestamp-get_elem? :
      (xs : List B)
      → is_chain_valid P T xs ≡ true
      → (i j : ℕ) (a b : B) → get_elem? xs i ≡ some a
      → get_elem? xs j ≡ some b
      → i ≤ j
      → T.timestamp a ≤ T.timestamp b
  timestamp-get_elem? xs valid = IsValid-timestamp xs (is_chain_valid-IsValid P T xs valid)

  pub id-last_from :
      (x : B) (xs : List B)
      → FollowsAll P T x xs
      → T.id x + length xs < u64_mod
      → T.id (last_from x xs) ≡ T.id x + length xs
  id-last_from x [] h small = omega arith
  id-last_from x (y ∷ ys) (h, hs) small =
      let step = id-Follows x y h (omega arith) in
      omega (arith, step, id-last_from y ys hs (omega (arith, step)))
