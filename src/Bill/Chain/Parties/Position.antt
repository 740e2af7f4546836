-- ===== src/Bill/Chain/Parties/Position.antt =====
-- The last element of a list with a property, by its index.
use e_bill.Prelude.{
  ℕ, zero, suc, ◌<◌, ◌≡◌, refl, subst, Bool, false, some, List, [], ◌∷◌, ◌++◌, arith, All,
  get_elem?,
}

-- The last block with a property, by its index.
pub record At {B : Type 0} (p : B → Bool) (blocks : List B) (b : B) : Type 0 where
  pub index : ℕ
  pub there : get_elem? blocks index ≡ some b
  pub later : (k : ℕ) (d : B) → index < k → get_elem? blocks k ≡ some d → p d ≡ false

All-get_elem? :
    {B : Type 0} (Q : B → Type 0) (xs : List B) (k : ℕ) {d : B}
    → All Q xs
    → get_elem? xs k ≡ some d
    → Q d
All-get_elem? Q [] k h e = absurd (ground arith)
All-get_elem? Q (x ∷ xs) zero (h, hs) e = subst Q (ground arith) h
All-get_elem? Q (x ∷ xs) (suc k) (h, hs) e = All-get_elem? Q xs k hs e

module _ {B : Type 0} (p : B → Bool) where
  later-here :
      (b : B) (after : List B)
      → All (λ c. p c ≡ false) after
      → (k : ℕ) (d : B) → 0 < k
      → get_elem? (b ∷ after) k ≡ some d
      → p d ≡ false
  later-here b after h zero d l e = absurd (omega arith)
  later-here b after h (suc k) d l e = All-get_elem? (λ c. p c ≡ false) after k {d = d} h e

  later-cons :
      (x : B) (xs : List B) (i : ℕ)
      → ((k : ℕ) (d : B) → i < k → get_elem? xs k ≡ some d → p d ≡ false)
      → (k : ℕ) (d : B) → suc i < k
      → get_elem? (x ∷ xs) k ≡ some d
      → p d ≡ false
  later-cons x xs i h zero d l e = absurd (omega arith)
  later-cons x xs i h (suc k) d l e = h k d (omega arith) e

  pub split-At :
      (before : List B) (b : B) (after : List B)
      → All (λ c. p c ≡ false) after
      → At p (before ++ b ∷ after) b
  split-At [] b after h = record { index = 0; there = refl; later = later-here b after h }
  split-At (x ∷ before) b after h =
      let rest = split-At before b after h in
      record {
        index = suc rest.index;
        there = rest.there;
        later = later-cons x (before ++ b ∷ after) rest.index rest.later;
      }
