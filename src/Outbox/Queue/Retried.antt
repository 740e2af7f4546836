-- ===== src/Outbox/Queue/Retried.antt =====
-- What a run of `send_retry_messages` does to each row.
use e_bill.Prelude.{
  ℕ, zero, suc, ◌<◌, ◌≡◌, ◌∙◌, refl, sym, ap, inl, inr, String, false, some, List, [], ◌∷◌, ◌++◌,
  map, any, if◌then◌else◌, ◌==◌, arith, Bool-cases, eq_iff,
}
use e_bill.Outbox.Queue.{
  QueuedMessageDb, Table, Network, get_retry_messages, failed, update_row, fail_retry, try_message,
  retry_loop, fail_all, send_retry_messages, to_message,
}
use e_bill.Outbox.Queue.Rows.{Unique, In-Only, Chosen, get_retry_messages-Chosen}
use e_bill.Outbox.Queue.Looped.{
  append_nil, append_assoc, pair, processed, failed_now, round, waiting, waiting-lt, update-Unique,
  map-update, Distinct, Marks, Idle-must_fail, Idle-map, unmarked, marked_round, looped-id,
  looped-failed, looped, must_fail, retried,
}

module _ (N : Network) (now : String → ℕ) where
  open N use {from_value}

  -- What the loop leaves: every row looped N now, and the failed ids, each once.
  abbrev Looped : ℕ → Table → List String → Type 0
  Looped rounds table failed_ids =
      (ids : List String) × (retry_loop N rounds now table failed_ids
        ≡ some (map (looped N now) table, failed_ids ++ ids))
      × Distinct N now ids
      × Marks N now ids table

  loop_some :
      (rounds : ℕ) (r : QueuedMessageDb) (table t t' : Table) (failed_ids ids : List String)
      → get_retry_messages 1 table ≡ (to_message r ∷ [], t)
      → try_message N now (to_message r) (from_value r.payload) t failed_ids ≡ (t', ids)
      → retry_loop N (suc rounds) now table failed_ids ≡ retry_loop N rounds now t' ids
  unfolding retry_loop
  loop_some rounds r table t t' failed_ids ids e f = ground arith

  loop_step :
      (rounds : ℕ) (table : Table) (failed_ids : List String)
      → Unique table
      → waiting N now table < suc rounds
      → Chosen table (get_retry_messages 1 table)
      → ((table' : Table) (failed_ids' : List String)
          → Unique table'
          → waiting N now table' < rounds
          → Looped rounds table' failed_ids')
      → Looped (suc rounds) table failed_ids
  unfolding retry_loop
  loop_step rounds table failed_ids u h (inl (idle, e, f)) rest = (
    [],
    ground (arith, Idle-map N now table idle, append_nil failed_ids),
    tt,
    Idle-must_fail N now table idle,
  )
  loop_step rounds table failed_ids u h (inr (r, m, p, e, f)) rest =
      let only = In-Only r table u m in
      let (ids, done, distinct, marks) =
        rest (update_row (looped N now) r.id table) (failed_ids ++ failed_now N now r)
          (update-Unique N now r.id table u) (ground (arith, waiting-lt N now r table m p)) in
      let out = unmarked N now r ids table m marks in
      (
        failed_now N now r ++ ids,
        loop_some rounds r table (update_row (processed N now) r.id table)
              (update_row (looped N now) r.id table) failed_ids (failed_ids ++ failed_now N now r)
              (pair e f) (round N now r table failed_ids only p)
            ∙ done
            ∙ ap some (
                pair (map-update N now r.id table)
                  (append_assoc failed_ids (failed_now N now r) ids)),
        elim (Bool-cases (must_fail N now r)) [ inl k ↦ ground arith | inr k ↦ ground arith ],
        marked_round N now r ids table only out marks,
      )

  loop-Looped :
      (rounds : ℕ) (table : Table) (failed_ids : List String)
      → Unique table
      → waiting N now table < rounds
      → Looped rounds table failed_ids
  loop-Looped zero table failed_ids u h = absurd (omega (arith, h))
  loop-Looped (suc rounds) table failed_ids u h =
      loop_step rounds table failed_ids u h (get_retry_messages-Chosen table)
        (λ table' failed_ids' u' h'. loop-Looped rounds table' failed_ids' u' h')

  abbrev write_failed : List String → Table → Table
  write_failed ids table = map (λ x. if any (λ i. x.id == i) ids then failed now x else x) table

  write_failed_nil : (table : Table) → write_failed [] table ≡ table
  write_failed_nil [] = refl
  write_failed_nil (x ∷ xs) = ap (λ l. x ∷ l) (write_failed_nil xs)

  write_failed_cons :
      (i : String) (ids : List String) (table : Table)
      → any (λ j. i == j) ids ≡ false
      → write_failed ids (update_row (failed now) i table) ≡ write_failed (i ∷ ids) table
  write_failed_cons i ids [] out = refl
  write_failed_cons i ids (x ∷ xs) out = elim (Bool-cases (x.id == i)) [
    | inl e ↦
        let here : any (λ j. x.id == j) ids ≡ false =
          ap (λ k. any (λ j. k == j) ids) (ground (arith, eq_iff x.id i)) ∙ out in
        ground (arith, write_failed_cons i ids xs out)
    | inr e ↦ ground (arith, write_failed_cons i ids xs out)
  ]

  fail_all-write_failed :
      (ids : List String) (table : Table)
      → Distinct N now ids
      → fail_all N now ids table ≡ write_failed ids table
  unfolding fail_all fail_retry
  fail_all-write_failed [] table d = sym (write_failed_nil table)
  fail_all-write_failed (i ∷ ids) table (out, d) =
      fail_all-write_failed ids (update_row (failed now) i table) d
      ∙ write_failed_cons i ids table out

  write_failed-retried :
      (ids : List String) (table : Table)
      → Marks N now ids table
      → write_failed ids (map (looped N now) table) ≡ map (retried N now) table
  write_failed-retried ids [] marks = refl
  write_failed-retried ids (x ∷ xs) (h, hs) =
      let here : any (λ i. (looped N now x).id == i) ids ≡ must_fail N now x =
        ap (λ k. any (λ i. k == i) ids) (looped-id N now x) ∙ h in
      ground (arith, looped-failed N now x, write_failed-retried ids xs hs)

  -- With the rows' ids different and more rounds than pending rows, a run of `send_retry_messages`
  -- ends, and each row has become what one try makes of it, whatever the order: a row that was not
  -- pending stays; a message that is sent, or has no recipient any more, is completed; one that is
  -- not sent counts one more retry, and is completed when its retries are used up; and one whose
  -- payload cannot be read stays being processed.
  pub send_retry_messages-retried :
      (rounds : ℕ) (table : Table)
      → Unique table
      → waiting N now table < rounds
      → send_retry_messages N rounds now table ≡ some (map (retried N now) table)
  unfolding send_retry_messages
  send_retry_messages-retried rounds table u h =
      let (ids, done, distinct, marks) = loop-Looped rounds table [] u h in
      ground (
        arith,
        done,
        fail_all-write_failed ids (map (looped N now) table) distinct,
        write_failed-retried ids table marks,
      )
