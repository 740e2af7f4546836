-- ===== src/Bill/Chain/Parties/Greatest.antt =====
-- The entry with the greatest key, as `max_by_key` finds it.
use e_bill.Prelude.{
  ℕ, ◌≤◌, ◌≡◌, inl, inr, subst, Option, none, some, List, [], ◌∷◌, arith, if◌then◌else◌, All, ltb,
  Bool-cases,
}
use e_bill.Bill.Chain.{max_by_key, flatten}

module _ {A : Type 0} (Q : ℕ × A → Type 0) where
  abbrev pub Within : Option (ℕ × A) → Type 0
  Within none = Unit
  Within (some e) = Q e

  pub flatten-All : (es : List (Option (ℕ × A))) → All Within es → All Q (flatten es)
  unfolding flatten
  flatten-All [] h = tt
  flatten-All (none ∷ es) (h, hs) = flatten-All es hs
  flatten-All (some e ∷ es) (h, hs) = (h, flatten-All es hs)

  pub All-flatten : (es : List (Option (ℕ × A))) → All Q (flatten es) → All Within es
  unfolding flatten
  All-flatten [] h = tt
  All-flatten (none ∷ es) h = (tt, All-flatten es h)
  All-flatten (some e ∷ es) (h, hs) = (h, All-flatten es hs)

  pub max_by_key-All :
      (best : ℕ × A) (es : List (ℕ × A)) {r : ℕ × A}
      → Q best
      → All Q es
      → max_by_key (some best) es ≡ some r
      → Q r
  unfolding max_by_key
  max_by_key-All best [] q h e = subst Q (ground arith) q
  max_by_key-All best (x ∷ es) {r} q (p, h) e = elim (Bool-cases (ltb x.0 best.0)) [
    | inl less ↦
        max_by_key-All best es {r = r} q h
          (subst (λ t. max_by_key (some (if t then best else x)) es ≡ some r) less e)
    | inr more ↦
        max_by_key-All x es {r = r} p h
          (subst (λ t. max_by_key (some (if t then best else x)) es ≡ some r) more e)
  ]

module _ {A : Type 0} where
  pub max_by_key-bound :
      (best : ℕ × A) (es : List (ℕ × A)) {r : ℕ × A}
      → max_by_key (some best) es ≡ some r
      → (best.0 ≤ r.0) × All (λ (e : ℕ × A). e.0 ≤ r.0) es
  unfolding max_by_key
  max_by_key-bound best [] {r} e =
      let same : best ≡ r = ground arith in
      (subst (λ (y : ℕ × A). best.0 ≤ y.0) same (omega arith), tt)
  max_by_key-bound best (x ∷ es) {r} e = elim (Bool-cases (ltb x.0 best.0)) [
    | inl less ↦
        let rest =
          max_by_key-bound best es {r = r}
            (subst (λ t. max_by_key (some (if t then best else x)) es ≡ some r) less e) in
        (rest.0, (ground arith, rest.1))
    | inr more ↦
        let rest =
          max_by_key-bound x es {r = r}
            (subst (λ t. max_by_key (some (if t then best else x)) es ≡ some r) more e) in
        (ground arith, (rest.0, rest.1))
  ]

pub max_by_key-some :
    {A : Type 0} (best : ℕ × A) (es : List (ℕ × A)) → ¬ (max_by_key (some best) es ≡ none)
unfolding max_by_key
max_by_key-some best [] h = ground arith
max_by_key-some best (x ∷ es) h = max_by_key-some (if ltb x.0 best.0 then best else x) es h
