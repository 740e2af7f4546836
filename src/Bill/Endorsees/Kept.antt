-- ===== src/Bill/Endorsees/Kept.antt =====
-- No earlier holder gets lost: what `get_past_endorsees_for_bill` collects stays to the end.
use e_bill.Prelude.{
  ℕ, zero, suc, ◌⊎◌, inl, inr, ◌<◌, ◌≡◌, refl, sym, subst, String, Bool, true, false, not, ◌&&◌,
  ◌||◌, some, List, [], ◌∷◌, ◌++◌, arith, All, get_elem?, eq_iff, eq_refl, ◌==◌, ltb, map, any,
  Bool-cases,
}
use e_bill.Bill.Data.{HolderFromBlock}
use e_bill.Bill.Endorsees.{
  PastEndorsee, Endorsees, endorsee_of_holder, has_key, or_insert, remove, collect, insert_sorted,
  sort,
}

-- In a list of holders with the latest first, a block after the one at index i made `me` the holder.
abbrev pub Before : String → List (ℕ × HolderFromBlock) → ℕ → Type 0
Before me hs i =
    (j t : ℕ) × (h : HolderFromBlock) × (get_elem? hs j ≡ some (t, h))
    × (h.holder.node_id ≡ me)
    × (j < i)

pub Before-suc :
    (me : String) (x : ℕ × HolderFromBlock) (hs : List (ℕ × HolderFromBlock)) (found : Bool) (i : ℕ)
    → (found ≡ true) ⊎ Before me hs i
    → (found ≡ true) ⊎ Before me (x ∷ hs) (suc i)
Before-suc me x hs found i (inl p) = inl p
Before-suc me x hs found i (inr (j, t, h, e, mine, less)) = inr (suc j, t, h, e, mine, omega arith)

-- The list has an entry for this node.
abbrev pub Listed : String → List PastEndorsee → Type 0
Listed node past = any (λ (e : PastEndorsee). e.pay_to_the_order_of.node_id == node) past ≡ true

any-append :
    {A : Type 0} (f : A → Bool) (xs : List A) (y : A) → any f (xs ++ y ∷ []) ≡ (any f xs || f y)
any-append f [] y = ground arith
any-append f (x ∷ xs) y = ground (arith, any-append f xs y)

pub has_key-or_insert :
    (key : String) (value : PastEndorsee) (m : Endorsees)
    → has_key key (or_insert key value m) ≡ true
unfolding or_insert has_key
has_key-or_insert key value m = elim (Bool-cases (has_key key m)) [
  | inl there ↦ rw there there
  | inr new ↦ rw new (ground (arith, any-append (λ e. e.0 == key) m (key, value), eq_refl key))
]

pub has_key-or_insert_other :
    (node key : String) (value : PastEndorsee) (m : Endorsees)
    → has_key node m ≡ true
    → has_key node (or_insert key value m) ≡ true
unfolding or_insert has_key
has_key-or_insert_other node key value m h = elim (Bool-cases (has_key key m)) [
  | inl there ↦ rw there h
  | inr new ↦ rw new (ground (arith, any-append (λ e. e.0 == node) m (key, value)))
]

has_key-collect :
    (node me : String) (hs : List (ℕ × HolderFromBlock)) (found : Bool) (m : Endorsees)
    → has_key node m ≡ true
    → has_key node (collect me hs found m) ≡ true
unfolding collect endorsee_of_holder
has_key-collect node me [] found m h = h
has_key-collect node me ((t, x) ∷ hs) found m h =
    elim (Bool-cases ((x.holder.node_id == me) && not found)) [
      | inl mine ↦ rw mine (has_key-collect node me hs true m h)
      | inr other ↦ elim (Bool-cases (found && not (x.holder.node_id == me))) [
        | inl earlier ↦
            rw (other, earlier)
              (has_key-collect node me hs found
                (or_insert x.holder.node_id (endorsee_of_holder t x) m)
                (has_key-or_insert_other node x.holder.node_id (endorsee_of_holder t x) m h))
        | inr skipped ↦ rw (other, skipped) (has_key-collect node me hs found m h)
      ]
    ]

collect-head :
    (me : String) (s : ℕ) (x : HolderFromBlock) (hs : List (ℕ × HolderFromBlock)) (m : Endorsees)
    → (x.holder.node_id == me) ≡ false
    → has_key x.holder.node_id (collect me ((s, x) ∷ hs) true m) ≡ true
unfolding collect
collect-head me s x hs m other = rw other (
    has_key-collect x.holder.node_id me hs true
      (or_insert x.holder.node_id (endorsee_of_holder s x) m)
      (has_key-or_insert x.holder.node_id (endorsee_of_holder s x) m))

-- Once the caller was found, or will be before it, each other holder gets an entry.
pub collect-Before :
    (me : String) (hs : List (ℕ × HolderFromBlock)) (found : Bool) (m : Endorsees) (i t : ℕ)
    (h : HolderFromBlock)
    → get_elem? hs i ≡ some (t, h)
    → (h.holder.node_id == me) ≡ false
    → (found ≡ true) ⊎ Before me hs i
    → has_key h.holder.node_id (collect me hs found m) ≡ true
unfolding collect endorsee_of_holder
collect-Before me [] found m i t h e other later = absurd (ground arith)
collect-Before me (x ∷ hs) found m zero t h e other (inr (j, s, k, f, mine, less)) =
    absurd (omega arith)
collect-Before me ((s, x) ∷ hs) found m zero t h e other (inl p) =
    let same : x.holder.node_id ≡ h.holder.node_id = ground arith in
    let other' : (x.holder.node_id == me) ≡ false = rw same other in
    subst (λ n. has_key n (collect me ((s, x) ∷ hs) found m) ≡ true) same
      (subst (λ b. has_key x.holder.node_id (collect me ((s, x) ∷ hs) b m) ≡ true) (sym p)
        (collect-head me s x hs m other'))
collect-Before me ((s, x) ∷ hs) found m (suc i) t h e other later =
    elim (Bool-cases ((x.holder.node_id == me) && not found)) [
      | inl mine ↦ rw mine (collect-Before me hs true m i t h e other (inl refl))
      | inr not_mine ↦ elim (Bool-cases (found && not (x.holder.node_id == me))) [
        | inl earlier ↦
            rw (not_mine, earlier)
              (collect-Before me hs found (or_insert x.holder.node_id (endorsee_of_holder s x) m) i
                t h e other (Before-pred me s x hs found i not_mine later))
        | inr skipped ↦
            rw (not_mine, skipped)
              (collect-Before me hs found m i t h e other
                (Before-pred me s x hs found i not_mine later))
      ]
    ]
  where
    Before-pred :
        (me : String) (s : ℕ) (x : HolderFromBlock) (hs : List (ℕ × HolderFromBlock)) (found : Bool)
        (i : ℕ)
        → ((x.holder.node_id == me) && not found) ≡ false
        → (found ≡ true) ⊎ Before me ((s, x) ∷ hs) (suc i)
        → (found ≡ true) ⊎ Before me hs i
    Before-pred me s x hs found i q (inl p) = inl p
    Before-pred me s x hs found i q (inr (zero, t, h, e, mine, less)) =
        inl (ground (arith, eq_refl me))
    Before-pred me s x hs found i q (inr (suc j, t, h, e, mine, less)) =
        inr (j, t, h, e, mine, omega arith)

-- An entry under the node that it is about.
abbrev pub Keyed : String × PastEndorsee → Type 0
Keyed e = e.1.pay_to_the_order_of.node_id ≡ e.0

pub remove-Listed :
    (node me : String) (m : Endorsees)
    → All Keyed m
    → has_key node m ≡ true
    → (node == me) ≡ false
    → Listed node (map (λ e. e.1) (remove me m))
unfolding remove has_key
remove-Listed node me [] keyed h other = absurd (ground arith)
remove-Listed node me ((key, value) ∷ m) (same, keyed) h other = elim (Bool-cases (key == node)) [
  | inl here ↦
      let kept : (key == me) ≡ false =
        subst (λ k. (k == me) ≡ false) (sym ((eq_iff key node).0 here)) other in
      let named : (value.pay_to_the_order_of.node_id == node) ≡ true =
        subst (λ k. (k == node) ≡ true) (sym same) here in
      rw kept (ground (arith, named))
  | inr away ↦ elim (Bool-cases (not (key == me))) [
    | inl kept ↦ rw kept (ground (arith, remove-Listed node me m keyed (ground arith) other))
    | inr gone ↦ rw gone (remove-Listed node me m keyed (ground arith) other)
  ]
]

any-insert_sorted :
    (f : PastEndorsee → Bool) (e : PastEndorsee) (es : List PastEndorsee)
    → any f (insert_sorted e es) ≡ (f e || any f es)
unfolding insert_sorted
any-insert_sorted f e [] = refl
any-insert_sorted f e (x ∷ xs) = elim (Bool-cases (ltb e.signing_timestamp x.signing_timestamp)) [
  | inl later ↦ rw later (ground (arith, any-insert_sorted f e xs))
  | inr earlier ↦ rw earlier refl
]

pub any-sort : (f : PastEndorsee → Bool) (es : List PastEndorsee) → any f (sort es) ≡ any f es
unfolding sort
any-sort f [] = refl
any-sort f (e ∷ es) = ground (arith, any-insert_sorted f e (sort es), any-sort f es)
