-- ===== src/Blockchain/Sync.antt =====
-- `get_blocks_to_add_from_other_chain` of core/src/blockchain/mod.rs: taking over the blocks of
-- another copy of a chain.
use mathlib.Core.List.{append-nil, append_assoc}
use e_bill.Prelude.{
  ℕ, zero, suc, ◌+◌, ◌-◌, ◌<◌, ◌≡◌, refl, sym, true, false, not, ◌||◌, List, [], ◌∷◌, ◌++◌, some,
  arith, ltb, eqb, u64_mod, ok, get_elem?, length, last_from, length-append, Bool-cases, inl, inr,
  ◌∙◌, subst, find, Option-cases,
}
use e_bill.Platform.{Platform}
use e_bill.Blockchain.{
  Block, validate_with_previous, get_block_by_id, add_loop, get_blocks_to_add_from_other_chain,
}
use e_bill.Blockchain.Links.{
  FollowsAll, IsValid, FollowsAll-split, validate_with_previous-Follows,
  Follows-validate_with_previous, IsValid-is_chain_valid,
}
use e_bill.Blockchain.Order.{id-Follows, id-last_from}
use e_bill.Blockchain.Growth.{try_add_block_lem, IsValid-concat}

le_ne : (a n i : ℕ) → n ≡ a + suc i → eqb a n ≡ false
le_ne a n i e = ground arith

same_id : (a : ℕ) → not (eqb a a || ltb a a) ≡ false
same_id a = ground arith

behind : (a b : ℕ) → a < b → not (eqb a b || ltb b a) ≡ true
behind a b h = ground arith

module _ (P : Platform) {B Op H : Type 0} (T : Block B Op H) where
  get_block_by_id-total :
      {E : Type 0} (o : B) (os : List B) (n : ℕ)
      → (b : B) × (get_block_by_id P T {E = E} (o ∷ os) n ≡ ok b)
  unfolding get_block_by_id
  get_block_by_id-total o os n = elim (Option-cases (find (λ b. eqb (T.id b) n) (o ∷ os))) [
    | inl e ↦ (o, rw (e, get_block_by_id))
    | inr (b, e) ↦ (b, rw (e, get_block_by_id))
  ]

  find-get_elem? :
      (x : B) (xs : List B)
      → IsValid P T (x ∷ xs)
      → T.id x + length xs < u64_mod
      → (i n : ℕ) (b : B) → n ≡ T.id x + i
      → get_elem? (x ∷ xs) i ≡ some b
      → find (λ c. eqb (T.id c) n) (x ∷ xs) ≡ some b
  find-get_elem? x xs h small zero n b m e = ground arith
  find-get_elem? x [] h small (suc i) n b m e = ground arith
  find-get_elem? x (y ∷ ys) h small (suc i) n b m e =
      let step = id-Follows P T x y h.0 (omega arith) in
      let rest = find-get_elem? y ys h.1 (omega (arith, step)) i n b (omega (arith, step)) e in
      rw (le_ne (T.id x) n i m) rest

  -- By its id, a block of a valid chain is found where it stands.
  get_block_by_id-get_elem? :
      {E : Type 0} (x : B) (xs : List B)
      → IsValid P T (x ∷ xs)
      → T.id x + length xs < u64_mod
      → (i : ℕ) (b : B) → get_elem? (x ∷ xs) i ≡ some b
      → get_block_by_id P T {E = E} (x ∷ xs) (T.id x + i) ≡ ok b
  unfolding get_block_by_id
  get_block_by_id-get_elem? x xs h small i b e =
      rw (find-get_elem? x xs h small i (T.id x + i) b refl e, get_block_by_id)

  module _ {E : Type 0} (n last k : ℕ) (other acc : List B) (x : B) (xs : List B) (b : B)
      (found : get_block_by_id P T {E = E} other (last + k) ≡ ok b) where
    add_loop-added :
        IsValid P T (x ∷ xs)
        → validate_with_previous P T b (last_from x xs) ≡ true
        → add_loop P T {E = E} (suc n) last k other acc (x ∷ xs)
          ≡ add_loop P T n last (k + 1) other (acc ++ b ∷ []) (x ∷ xs ++ b ∷ [])
    unfolding add_loop
    add_loop-added h v = ground (
      arith,
      try_add_block_lem P T {E = E} x xs b,
      IsValid-is_chain_valid P T (x ∷ xs ++ b ∷ [])
          (IsValid-concat P T x xs b h (validate_with_previous-Follows P T (last_from x xs) b v)),
    )

    add_loop-refused :
        validate_with_previous P T b (last_from x xs) ≡ false
        → add_loop P T {E = E} (suc n) last k other acc (x ∷ xs) ≡ ok (acc, x ∷ xs)
    unfolding add_loop
    add_loop-refused v = ground (arith, try_add_block_lem P T {E = E} x xs b)

  -- The loop only appends to the chain, one block for each block that it answers, and keeps it valid.
  add_loop-IsValid :
      {E : Type 0} (n last k : ℕ) (o : B) (os acc : List B) (x : B) (xs : List B)
      → IsValid P T (x ∷ xs)
      → (new : List B) × (add_loop P T {E = E} n last k (o ∷ os) acc (x ∷ xs)
          ≡ ok (acc ++ new, x ∷ xs ++ new))
        × IsValid P T (x ∷ xs ++ new)
  unfolding add_loop
  add_loop-IsValid zero last k o os acc x xs h = (
    [],
    rw (append-nil acc, append-nil xs),
    subst (λ l. FollowsAll P T x l) (sym (append-nil xs)) h,
  )
  add_loop-IsValid {E} (suc n) last k o os acc x xs h =
      let (b, found) = get_block_by_id-total {E = E} o os (last + k) in
      elim (Bool-cases (validate_with_previous P T b (last_from x xs))) [
        | inl v ↦
            let valid =
              IsValid-concat P T x xs b h
                (validate_with_previous-Follows P T (last_from x xs) b v) in
            let (new, run, kept) =
              add_loop-IsValid {E = E} n last (k + 1) o os (acc ++ b ∷ []) x (xs ++ b ∷ []) valid in
            (
              b ∷ new,
              add_loop-added n last k (o ∷ os) acc x xs b found h v
                  ∙ run
                  ∙ cc (append_assoc acc (b ∷ []) new, append_assoc xs (b ∷ []) new),
              subst (λ l. FollowsAll P T x l) (append_assoc xs (b ∷ []) new) kept,
            )
        | inr v ↦ (
          [],
          add_loop-refused n last k (o ∷ os) acc x xs b found v
              ∙ cc (append-nil acc, append-nil xs),
          subst (λ l. FollowsAll P T x l) (sym (append-nil xs)) h,
        )
      ]

  -- Between chains with at least one block the exchange never panics. What it answers are the
  -- blocks that it appended, in order, and a valid chain stays valid.
  pub get_blocks_to_add-IsValid :
      {E : Type 0} (x : B) (xs : List B) (o : B) (os : List B)
      → IsValid P T (x ∷ xs)
      → (new : List B) × (get_blocks_to_add_from_other_chain P T {E = E} (x ∷ xs) (o ∷ os)
          ≡ ok (new, x ∷ xs ++ new))
        × IsValid P T (x ∷ xs ++ new)
  unfolding get_blocks_to_add_from_other_chain
  get_blocks_to_add-IsValid {E} x xs o os h =
      let mine = T.id (last_from x xs) in
      let theirs = T.id (last_from o os) in
      elim (Bool-cases (not (eqb mine theirs || ltb theirs mine))) [
        | inl more ↦
            let (new, run, kept) = add_loop-IsValid {E = E} (theirs - mine) mine 1 o os [] x xs h in
            (new, rw more run, kept)
        | inr done ↦ (
          [],
          rw done (cc (append-nil xs)),
          subst (λ l. FollowsAll P T x l) (sym (append-nil xs)) h,
        )
      ]

  get_elem?-append :
      (xs : List B) (t : B) (ts : List B) → get_elem? (xs ++ t ∷ ts) (length xs) ≡ some t
  get_elem?-append [] t ts = refl
  get_elem?-append (x ∷ xs) t ts = get_elem?-append xs t ts

  -- With the rest of a valid chain to come, the loop appends all of it.
  add_loop-all :
      {E : Type 0} (x : B) (os todo pre acc : List B) (last k : ℕ)
      → os ≡ pre ++ todo
      → FollowsAll P T x os
      → T.id x + length os < u64_mod
      → last + k ≡ T.id x + suc (length pre)
      → add_loop P T {E = E} (length todo) last k (x ∷ os) acc (x ∷ pre) ≡ ok (acc ++ todo, x ∷ os)
  unfolding add_loop
  add_loop-all x os [] pre acc last k split h small place =
      cc (append-nil acc, append-nil pre, split)
  add_loop-all {E} x os (t ∷ ts) pre acc last k split h small place =
      let parts = FollowsAll-split P T x pre (t ∷ ts) (subst (λ l. FollowsAll P T x l) split h) in
      let here : get_elem? (x ∷ os) (suc (length pre)) ≡ some t =
        rw split (get_elem?-append pre t ts) in
      let found : get_block_by_id P T {E = E} (x ∷ os) (last + k) ≡ ok t =
        rw place (get_block_by_id-get_elem? x os h small (suc (length pre)) t here) in
      add_loop-added (length ts) last k (x ∷ os) acc x pre t found parts.0
        (Follows-validate_with_previous P T (last_from x pre) t parts.1.0)
      ∙ add_loop-all x os ts (pre ++ t ∷ []) (acc ++ t ∷ []) last (k + 1)
          (split ∙ sym (append_assoc pre (t ∷ []) ts)) h small
          (omega (arith, place, length-append pre (t ∷ [])))
      ∙ cc (append_assoc acc (t ∷ []) ts)

  last_from-append :
      (x : B) (xs ys : List B) → last_from x (xs ++ ys) ≡ last_from (last_from x xs) ys
  last_from-append x [] ys = refl
  last_from-append x (y ∷ xs) ys = last_from-append y xs ys

  -- From a longer valid copy of the same chain, whose ids stay in the 64-bit range, the exchange
  -- takes over exactly the blocks that are missing.
  pub get_blocks_to_add_all :
      {E : Type 0} (x : B) (xs new : List B)
      → IsValid P T (x ∷ xs ++ new)
      → T.id x + length (xs ++ new) < u64_mod
      → get_blocks_to_add_from_other_chain P T {E = E} (x ∷ xs) (x ∷ xs ++ new)
        ≡ ok (new, x ∷ xs ++ new)
  unfolding get_blocks_to_add_from_other_chain
  get_blocks_to_add_all x xs [] h small =
      rw (append-nil xs) (rw (same_id (T.id (last_from x xs))) refl)
  get_blocks_to_add_all {E} x xs (n ∷ ns) h small =
      let parts = FollowsAll-split P T x xs (n ∷ ns) h in
      let count = length-append xs (n ∷ ns) in
      let mine = id-last_from P T x xs parts.0 (omega (arith, count)) in
      let theirs = id-last_from P T x (xs ++ n ∷ ns) h small in
      let rounds : T.id (last_from x (xs ++ n ∷ ns)) - T.id (last_from x xs) ≡ length (n ∷ ns) =
        omega (arith, mine, theirs, count) in
      rw
        (behind (T.id (last_from x xs)) (T.id (last_from x (xs ++ n ∷ ns)))
          (omega (arith, mine, theirs, count)))
        (rw rounds (
          add_loop-all {E = E} x (xs ++ n ∷ ns) (n ∷ ns) xs [] (T.id (last_from x xs)) 1 refl h
            small (omega (arith, mine))))
