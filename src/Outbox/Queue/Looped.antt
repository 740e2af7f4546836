-- ===== src/Outbox/Queue/Looped.antt =====
-- One round of the loop of `send_retry_messages`, row by row.
use e_bill.Prelude.{
  ℕ, ◌≤◌, ◌<◌, ◌≡◌, ◌∙◌, refl, sym, ap, subst, inl, inr, String, Bool, true, false, ◌&&◌, not,
  Option, none, some, List, [], ◌∷◌, ◌++◌, map, any, filter, if◌then◌else◌, ◌==◌, All, arith,
  Bool-cases, Option-cases, eq_refl, length,
}
use e_bill.Outbox.Queue.{
  QueuedMessageDb, Table, Network, EventEnvelope, pending, failed, succeeded, update_row,
  succeed_retry, send_retry_message, try_message, to_message,
}
use e_bill.Outbox.Queue.Rows.{In, Idle, Unique, Only}

pub pair : {A B : Type 0} {a a' : A} {b b' : B} → a ≡ a' → b ≡ b' → ◌≡◌ {A = A × B} (a, b) (a', b')
pair e f = ground arith

pub append_nil : {A : Type 0} (xs : List A) → xs ++ [] ≡ xs
append_nil [] = refl
append_nil (x ∷ xs) = ap (λ l. x ∷ l) (append_nil xs)

pub append_assoc : {A : Type 0} (xs ys zs : List A) → (xs ++ ys) ++ zs ≡ xs ++ (ys ++ zs)
append_assoc [] ys zs = refl
append_assoc (x ∷ xs) ys zs = ap (λ l. x ∷ l) (append_assoc xs ys zs)

module _ (N : Network) (now : String → ℕ) where
  open N use {from_value}

  abbrev arrives : QueuedMessageDb → Option EventEnvelope → Bool
  arrives r none = false
  arrives r (some message) = send_retry_message N r.sender_id message.node_id message

  -- A row that is tried: a payload that cannot be read leaves it being processed, a message that
  -- is sent completes it, and a message that is not sent counts as one more retry.
  tried :
      (QueuedMessageDb → QueuedMessageDb) → QueuedMessageDb → Option EventEnvelope → QueuedMessageDb
  tried when_failed r none = record r { processing = true }
  tried when_failed r (some message) =
      if send_retry_message N r.sender_id message.node_id message
      then succeeded now r
      else when_failed r

  -- What becomes of a row in a run.
  unfoldable pub retried : QueuedMessageDb → QueuedMessageDb
  unfolding tried
  retried r = if pending r then tried (failed now) r (from_value r.payload) else r

  -- The row after the loop, before the ids that failed are written.
  unfoldable pub looped : QueuedMessageDb → QueuedMessageDb
  unfolding tried
  looped r =
      if pending r then tried (λ x. record x { processing = true }) r (from_value r.payload) else r

  abbrev is_some : Option EventEnvelope → Bool
  is_some none = false
  is_some (some m) = true

  unfoldable pub must_fail : QueuedMessageDb → Bool
  must_fail r =
      pending r && is_some (from_value r.payload) && not (arrives r (from_value r.payload))

  pub looped-id : (r : QueuedMessageDb) → (looped r).id ≡ r.id
  unfolding looped tried
  looped-id r = ground arith

  looped-pending : (r : QueuedMessageDb) → pending (looped r) ≡ false
  unfolding looped tried
  looped-pending r = ground arith

  settled : (x : QueuedMessageDb) → pending x ≡ false → looped x ≡ x
  unfolding looped
  settled x h = ground arith

  looped-looped : (r : QueuedMessageDb) → looped (looped r) ≡ looped r
  looped-looped r = settled (looped r) (looped-pending r)

  pub looped-failed :
      (r : QueuedMessageDb) → (if must_fail r then failed now (looped r) else looped r) ≡ retried r
  unfolding looped must_fail retried tried
  looped-failed r = ground arith

  -- The two functions agree on the row with an id.
  agree :
      (f g : QueuedMessageDb → QueuedMessageDb) (r : QueuedMessageDb) (table : Table)
      → Only r table
      → f r ≡ g r
      → update_row f r.id table ≡ update_row g r.id table
  agree f g r [] only e = refl
  agree f g r (x ∷ xs) (only, rest) e = elim (Bool-cases (x.id == r.id)) [
    | inl h ↦
        let here : f x ≡ g x = ap f (only h) ∙ e ∙ ap g (sym (only h)) in
        ground (arith, agree f g r xs rest e)
    | inr h ↦ ground (arith, agree f g r xs rest e)
  ]

  update-update :
      (f g : QueuedMessageDb → QueuedMessageDb) (i : String)
      → ((x : QueuedMessageDb) → (g x).id ≡ x.id)
      → (table : Table) → update_row f i (update_row g i table) ≡ update_row (λ x. f (g x)) i table
  update-update f g i same [] = refl
  update-update f g i same (x ∷ xs) = elim (Bool-cases (x.id == i)) [
    | inl h ↦ ground (arith, same x, update-update f g i same xs)
    | inr h ↦ ground (arith, update-update f g i same xs)
  ]

  abbrev pub processed : QueuedMessageDb → QueuedMessageDb
  processed r = record r { processing = true }

  abbrev pub failed_now : QueuedMessageDb → List String
  failed_now r = if must_fail r then r.id ∷ [] else []

  pub round :
      (r : QueuedMessageDb) (table : Table) (failed_ids : List String)
      → Only r table
      → pending r ≡ true
      → try_message N now
          (to_message r)
          (from_value r.payload)
          (update_row processed r.id table)
          failed_ids
        ≡ (update_row looped r.id table, failed_ids ++ failed_now r)
  unfolding try_message succeed_retry looped must_fail tried
  round r table failed_ids only p = elim (Option-cases (from_value r.payload)) [
    | inl e ↦
        ground (arith, agree processed looped r table only (ground arith), append_nil failed_ids)
    | inr (m, e) ↦ elim (Bool-cases (send_retry_message N r.sender_id m.node_id m)) [
      | inl s ↦ ground (
        arith,
        agree (λ x. succeeded now (processed x)) looped r table only (ground arith),
        update-update (succeeded now) processed r.id (λ x. refl) table,
        append_nil failed_ids,
      )
      | inr s ↦ ground (arith, agree processed looped r table only (ground arith))
    ]
  ]

  -- The number of pending rows.
  abbrev pub waiting : Table → ℕ
  waiting table = length (filter pending table)

  waiting-le : (i : String) (table : Table) → waiting (update_row looped i table) ≤ waiting table
  waiting-le i [] = omega arith
  waiting-le i (x ∷ xs) = elim (Bool-cases (x.id == i)) [
    | inl e ↦ ground (arith, looped-pending x, waiting-le i xs)
    | inr e ↦ ground (arith, waiting-le i xs)
  ]

  pub waiting-lt :
      (r : QueuedMessageDb) (table : Table)
      → In r table
      → pending r ≡ true
      → waiting (update_row looped r.id table) < waiting table
  waiting-lt r [] m p = absurd m
  waiting-lt r (x ∷ xs) (inl e) p =
      let here : pending x ≡ true = ap pending (sym e) ∙ p in
      let same : (x.id == r.id) ≡ true = ap (λ y. y.id == r.id) (sym e) ∙ eq_refl r.id in
      ground (arith, looped-pending x, waiting-le r.id xs)
  waiting-lt r (x ∷ xs) (inr m) p = elim (Bool-cases (x.id == r.id)) [
    | inl e ↦ ground (arith, looped-pending x, waiting-lt r xs m p)
    | inr e ↦ ground (arith, waiting-lt r xs m p)
  ]

  update-others :
      (i : String) (r : QueuedMessageDb) (table : Table)
      → All (λ x. (x.id == r.id) ≡ false) table
      → All (λ x. (x.id == r.id) ≡ false) (update_row looped i table)
  update-others i r [] h = tt
  update-others i r (x ∷ xs) (h, hs) = elim (Bool-cases (x.id == i)) [
    | inl e ↦ ground (arith, looped-id x, update-others i r xs hs)
    | inr e ↦ ground (arith, update-others i r xs hs)
  ]

  pub update-Unique :
      (i : String) (table : Table) → Unique table → Unique (update_row looped i table)
  update-Unique i [] u = tt
  update-Unique i (x ∷ xs) (u, us) = elim (Bool-cases (x.id == i)) [
    | inl e ↦ rw e (
      subst (λ k. All (λ y. (y.id == k) ≡ false) (update_row looped i xs)) (sym (looped-id x))
          (update-others i x xs u),
      update-Unique i xs us,
    )
    | inr e ↦ rw e (update-others i x xs u, update-Unique i xs us)
  ]

  pub map-update :
      (i : String) (table : Table) → map looped (update_row looped i table) ≡ map looped table
  map-update i [] = refl
  map-update i (x ∷ xs) = elim (Bool-cases (x.id == i)) [
    | inl e ↦ ground (arith, looped-looped x, map-update i xs)
    | inr e ↦ ground (arith, map-update i xs)
  ]

  abbrev pub Distinct : List String → Type 0
  Distinct [] = Unit
  Distinct (i ∷ is) = (any (λ j. i == j) is ≡ false) × Distinct is

  -- The ids are those of the rows whose message is tried and not sent.
  abbrev pub Marks : List String → Table → Type 0
  Marks ids table = All (λ x. any (λ i. x.id == i) ids ≡ must_fail x) table

  pub Idle-must_fail : (table : Table) → Idle table → Marks [] table
  unfolding must_fail
  Idle-must_fail [] h = tt
  Idle-must_fail (x ∷ xs) (h, hs) = (ground arith, Idle-must_fail xs hs)

  pub Idle-map : (table : Table) → Idle table → map looped table ≡ table
  Idle-map [] h = refl
  Idle-map (x ∷ xs) (h, hs) = ground (arith, settled x h, Idle-map xs hs)

  looped-must_fail : (r : QueuedMessageDb) → must_fail (looped r) ≡ false
  unfolding must_fail
  looped-must_fail r = ground (arith, looped-pending r)

  pub unmarked :
      (r : QueuedMessageDb) (ids : List String) (table : Table)
      → In r table
      → Marks ids (update_row looped r.id table)
      → any (λ i. r.id == i) ids ≡ false
  unmarked r ids [] m h = absurd m
  unmarked r ids (x ∷ xs) (inl e) (h, hs) =
      let same : (x.id == r.id) ≡ true = ap (λ y. y.id == r.id) (sym e) ∙ eq_refl r.id in
      let own : (looped x).id ≡ r.id = looped-id x ∙ ap (λ y. y.id) (sym e) in
      ap (λ k. any (λ i. k == i) ids) (sym own) ∙ ground (arith, looped-must_fail x)
  unmarked r ids (x ∷ xs) (inr m) (h, hs) = unmarked r ids xs m hs

  pub marked_round :
      (r : QueuedMessageDb) (ids : List String) (table : Table)
      → Only r table
      → any (λ i. r.id == i) ids ≡ false
      → Marks ids (update_row looped r.id table)
      → Marks (failed_now r ++ ids) table
  marked_round r ids [] only out h = tt
  marked_round r ids (x ∷ xs) (only, rest) out (h, hs) = elim (Bool-cases (x.id == r.id)) [
    | inl e ↦
        let here : any (λ i. r.id == i) (failed_now r ++ ids) ≡ must_fail r =
          elim (Bool-cases (must_fail r)) [
            | inl f ↦ ground (arith, eq_refl r.id)
            | inr f ↦ ground arith
          ] in
        (
          subst (λ y. any (λ i. y.id == i) (failed_now r ++ ids) ≡ must_fail y) (sym (only e)) here,
          marked_round r ids xs rest out hs,
        )
    | inr e ↦ (
      elim (Bool-cases (must_fail r)) [ inl f ↦ ground arith | inr f ↦ ground arith ],
      marked_round r ids xs rest out hs,
    )
  ]
