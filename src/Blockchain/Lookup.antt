-- ===== src/Blockchain/Lookup.antt =====
-- Which block `get_last_version_block_with_op_code` of core/src/blockchain/mod.rs finds, and when
-- `block_with_operation_code_exists` answers true, for a test on op codes that tells equality.
use e_bill.Prelude.{
  ◌≡◌, ◌↔◌, refl, ap, Bool, true, false, List, [], ◌∷◌, ◌++◌, Option, none, some, arith, last,
  filter, any, All, Bool-cases, Option-cases, inl, inr, ◌∙◌, sym,
}
use e_bill.Platform.{Platform}
use e_bill.Blockchain.{Block, get_last_version_block_with_op_code, block_with_operation_code_exists}

-- `b` is the last of `blocks` that passes the test `p`.
pub record LastWith {B : Type 0} (p : B → Bool) (blocks : List B) (b : B) : Type 0 where
  pub before : List B
  pub after : List B
  pub split : blocks ≡ before ++ b ∷ after
  pub passes : p b ≡ true
  pub none_after : All (λ c. p c ≡ false) after

module _ {B : Type 0} (p : B → Bool) where
  abbrev or_else : Option B → Option B → Option B
  or_else (some b) o = some b
  or_else none o = o

  last-cons : (x : B) (l : List B) → last (x ∷ l) ≡ or_else (last l) (some x)
  last-cons x [] = refl
  last-cons x (y ∷ l) = refl

  abbrev here : Bool → B → Option B
  here true x = some x
  here false x = none

  last-filter-cons :
      (x : B) (xs : List B) → last (filter p (x ∷ xs)) ≡ or_else (last (filter p xs)) (here (p x) x)
  last-filter-cons x xs = elim (Bool-cases (p x)) [
    | inl e ↦ rw e (last-cons x (filter p xs))
    | inr e ↦ rw e (or_else-none (last (filter p xs)))
  ]
    where
      or_else-none : (o : Option B) → o ≡ or_else o none
      or_else-none none = refl
      or_else-none (some b) = refl

  last-filter-none : (xs : List B) → last (filter p xs) ≡ none → All (λ c. p c ≡ false) xs
  last-filter-none [] h = tt
  last-filter-none (x ∷ xs) h = ground (arith, last-filter-cons x xs, last-filter-none xs)

  none-last-filter : (xs : List B) → All (λ c. p c ≡ false) xs → last (filter p xs) ≡ none
  none-last-filter [] h = refl
  none-last-filter (x ∷ xs) (h, hs) = ground (arith, last-filter-cons x xs, none-last-filter xs hs)

  last-filter-LastWith : (xs : List B) {b : B} → last (filter p xs) ≡ some b → LastWith p xs b
  last-filter-LastWith [] h = absurd (ground arith)
  last-filter-LastWith (x ∷ xs) {b} h = elim (Option-cases (last (filter p xs))) [
    | inl e ↦
        let this : (p x ≡ true) × (x ≡ b) = ground (arith, last-filter-cons x xs) in
        record {
          before = [];
          after = xs;
          split = ap (λ y. y ∷ xs) this.1;
          passes = ground arith;
          none_after = last-filter-none xs e;
        }
    | inr (c, e) ↦
        let same : some c ≡ some b = sym (last-filter-cons x xs ∙ rw e) ∙ h in
        let rest = last-filter-LastWith xs {b = b} (e ∙ same) in
        record {
          before = x ∷ rest.before;
          after = rest.after;
          split = ap (λ l. x ∷ l) rest.split;
          passes = rest.passes;
          none_after = rest.none_after;
        }
  ]

  last-filter-append :
      (xs : List B) (b : B) (ys : List B)
      → p b ≡ true
      → All (λ c. p c ≡ false) ys
      → last (filter p (xs ++ b ∷ ys)) ≡ some b
  last-filter-append [] b ys h none_after =
      ground (arith, last-filter-cons b ys, none-last-filter ys none_after)
  last-filter-append (x ∷ xs) b ys h none_after =
      ground (arith, last-filter-cons x (xs ++ b ∷ ys), last-filter-append xs b ys h none_after)

  LastWith-last-filter : (xs : List B) {b : B} → LastWith p xs b → last (filter p xs) ≡ some b
  LastWith-last-filter xs {b} h =
      rw h.split (last-filter-append h.before b h.after h.passes h.none_after)

  any-none : (xs : List B) → last (filter p xs) ≡ none → any p xs ≡ false
  any-none [] h = refl
  any-none (x ∷ xs) h = ground (arith, last-filter-cons x xs, any-none xs)

  any-some : (xs : List B) {b : B} → last (filter p xs) ≡ some b → any p xs ≡ true
  any-some [] h = absurd (ground arith)
  any-some (x ∷ xs) {b} h = elim (Option-cases (last (filter p xs))) [
    | inl e ↦ ground (arith, last-filter-cons x xs)
    | inr (c, e) ↦ ground (arith, any-some xs e)
  ]

module _ (P : Platform) {B Op H : Type 0} (T : Block B Op H) (op : Op) (blocks : List B) where
  -- The block that is found is the last one with the op code: one of the chain's blocks has it,
  -- and none behind that block has it.
  pub get_last_version_block_iff :
      (b : B)
      → (get_last_version_block_with_op_code P T blocks op ≡ some b)
        ↔ LastWith (λ c. T.op_eq (T.op_code c) op) blocks b
  unfolding get_last_version_block_with_op_code
  get_last_version_block_iff b = (
    last-filter-LastWith (λ c. T.op_eq (T.op_code c) op) blocks,
    LastWith-last-filter (λ c. T.op_eq (T.op_code c) op) blocks,
  )

  -- A block is found exactly when the existence test answers true.
  pub exists-some :
      (b : B)
      → get_last_version_block_with_op_code P T blocks op ≡ some b
      → block_with_operation_code_exists P T blocks op ≡ true
  unfolding get_last_version_block_with_op_code block_with_operation_code_exists
  exists-some b h = any-some (λ c. T.op_eq (T.op_code c) op) blocks h

  pub exists-none :
      get_last_version_block_with_op_code P T blocks op ≡ none
      → block_with_operation_code_exists P T blocks op ≡ false
  unfolding get_last_version_block_with_op_code block_with_operation_code_exists
  exists-none h = any-none (λ c. T.op_eq (T.op_code c) op) blocks h
