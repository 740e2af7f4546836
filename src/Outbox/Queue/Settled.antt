-- ===== src/Outbox/Queue/Settled.antt =====
-- Every message of the retry queue is done with after a bounded number of runs.
use e_bill.Prelude.{
  ℕ, suc, ◌+◌, ◌≤◌, ◌<◌, ◌≡◌, refl, sym, subst, ◌⊎◌, inl, inr, String, true, false, Option, none,
  some, List, [], ◌∷◌, map, length, ◌==◌, leb, All, arith, Bool-cases,
}
use e_bill.Outbox.Queue.{
  QueuedMessageDb, Table, Network, EventEnvelope, pending, send_retry_messages, send_retry_message,
}
use e_bill.Outbox.Queue.Rows.{Unique}
use e_bill.Outbox.Queue.Looped.{retried, waiting}
use e_bill.Outbox.Queue.Retried.{send_retry_messages-retried}

-- The network and the clock at each run.
abbrev pub Runs : Type 0
Runs = List (Network × (String → ℕ))

-- `send_retry_messages` run after run, with rounds for all the rows.
unfoldable pub run_all : Runs → Table → Option Table
run_all [] table = some table
run_all ((N, now) ∷ runs) table = elim (send_retry_messages N (suc (length table)) now table) [
  | none ↦ none
  | some table' ↦ run_all runs table'
]

-- A row that is not being processed, whose payload every run can read, and which is completed or
-- has no more retries left than there are runs.
abbrev pub Due : Runs → QueuedMessageDb → Type 0
Due runs r =
    (r.processing ≡ false)
    × All
        (λ (n : Network × (String → ℕ)). (m : EventEnvelope) × (n.0.from_value r.payload ≡ some m))
        runs
    × ((r.completed ≡ true)
        ⊎ (r.num_retries < r.max_retries) × (r.max_retries ≤ r.num_retries + length runs))

-- The payload can be read in every run.
abbrev Readable : Runs → String → Type 0
Readable runs payload =
    All (λ (n : Network × (String → ℕ)). (m : EventEnvelope) × (n.0.from_value payload ≡ some m))
      runs

-- The row is completed or has no more retries left than there are runs.
abbrev Limited : ℕ → QueuedMessageDb → Type 0
Limited n r =
    (r.completed ≡ true) ⊎ (r.num_retries < r.max_retries) × (r.max_retries ≤ r.num_retries + n)

retried-payload :
    (N : Network) (now : String → ℕ) (r : QueuedMessageDb) → (retried N now r).payload ≡ r.payload
unfolding retried
retried-payload N now r = ground arith

retried-Limited :
    (N : Network) (now : String → ℕ) (n : ℕ) (r : QueuedMessageDb) (m : EventEnvelope)
    → r.processing ≡ false
    → N.from_value r.payload ≡ some m
    → Limited (suc n) r
    → ((retried N now r).processing ≡ false) × Limited n (retried N now r)
unfolding retried
retried-Limited N now n r m p e h = elim (Bool-cases r.completed) [
  | inl c ↦ ground arith
  | inr c ↦ elim (Bool-cases (send_retry_message N r.sender_id m.node_id m)) [
    | inl s ↦ ground arith
    | inr s ↦ elim (Bool-cases (leb r.max_retries (r.num_retries + 1))) [
      | inl k ↦ ground arith
      | inr k ↦ ground arith
    ]
  ]
]

retried-Due :
    (N : Network) (now : String → ℕ) (runs : Runs) (r : QueuedMessageDb)
    → Due ((N, now) ∷ runs) r
    → Due runs (retried N now r)
retried-Due N now runs r (p, ((m, e), reads), limited) =
    let (p', limited') = retried-Limited N now (length runs) r m p e limited in
    (p', subst (Readable runs) (sym (retried-payload N now r)) reads, limited')

retried-id : (N : Network) (now : String → ℕ) (r : QueuedMessageDb) → (retried N now r).id ≡ r.id
unfolding retried
retried-id N now r = ground arith

module _ (N : Network) (now : String → ℕ) where
  map-others :
      (r : QueuedMessageDb) (table : Table)
      → All (λ x. (x.id == r.id) ≡ false) table
      → All (λ x. (x.id == (retried N now r).id) ≡ false) (map (retried N now) table)
  map-others r [] h = tt
  map-others r (x ∷ xs) (h, hs) =
      (ground (arith, retried-id N now x, retried-id N now r), map-others r xs hs)

  map-Unique : (table : Table) → Unique table → Unique (map (retried N now) table)
  map-Unique [] u = tt
  map-Unique (x ∷ xs) (u, us) = (map-others x xs u, map-Unique xs us)

  map-Due :
      (runs : Runs) (table : Table)
      → All (Due ((N, now) ∷ runs)) table
      → All (Due runs) (map (retried N now) table)
  map-Due runs [] h = tt
  map-Due runs (x ∷ xs) (h, hs) = (retried-Due N now runs x h, map-Due runs xs hs)

  waiting-length : (table : Table) → waiting N now table ≤ length table
  waiting-length [] = omega arith
  waiting-length (x ∷ xs) = elim (Bool-cases (pending x)) [
    | inl e ↦ ground (arith, waiting-length xs)
    | inr e ↦ ground (arith, waiting-length xs)
  ]

Due-completed : (table : Table) → All (Due []) table → All (λ r. r.completed ≡ true) table
Due-completed [] h = tt
Due-completed (r ∷ rs) (h, hs) = (ground arith, Due-completed rs hs)

-- Whatever the network does in each run, the runs end, and after as many runs as a message has
-- retries left every message is completed: sent, or given up. The rows' ids differ, no row is being
-- processed when the first run starts, and every run can read the payloads.
pub run_all-completes :
    (runs : Runs) (table : Table)
    → Unique table
    → All (Due runs) table
    → (table' : Table) × (run_all runs table ≡ some table') × All (λ r. r.completed ≡ true) table'
unfolding run_all
run_all-completes [] table u due = (table, refl, Due-completed table due)
run_all-completes ((N, now) ∷ runs) table u due =
    let (table', done, completed) =
      run_all-completes runs (map (retried N now) table) (map-Unique N now table u)
        (map-Due N now runs table due) in
    (
      table',
      ground (
        arith,
        send_retry_messages-retried N now (suc (length table)) table u
            (omega (arith, waiting-length N now table)),
        done,
      ),
      completed,
    )
