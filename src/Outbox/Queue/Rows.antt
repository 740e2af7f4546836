-- ===== src/Outbox/Queue/Rows.antt =====
-- The rows of the retry queue, and which one is tried next.
use e_bill.Prelude.{
  ◌≡◌, refl, sym, ap, subst, ◌⊎◌, inl, inr, true, false, List, [], ◌∷◌, map, filter, ◌==◌, leb, All,
  arith, Bool-cases, eq_iff,
}
use e_bill.Outbox.Queue.{
  QueuedMessageDb, Table, NostrQueuedMessage, pending, insert_by_last_try, order_by_last_try, take,
  set_processing, get_retry_messages, update_row, to_message,
}

-- A row stands in a table.
abbrev pub In : QueuedMessageDb → Table → Type 0
In r [] = ⊥
In r (x ∷ xs) = (r ≡ x) ⊎ In r xs

In-insert :
    (r x : QueuedMessageDb) (xs : Table) → In r (insert_by_last_try x xs) → (r ≡ x) ⊎ In r xs
unfolding insert_by_last_try
In-insert r x [] h = h
In-insert r x (y ∷ ys) h = elim (Bool-cases (leb x.last_try y.last_try)) [
  | inl e ↦ ground arith
  | inr e ↦ ground (arith, In-insert r x ys)
]

In-order : (r : QueuedMessageDb) (xs : Table) → In r (order_by_last_try xs) → In r xs
unfolding order_by_last_try
In-order r [] h = h
In-order r (x ∷ xs) h = ground (arith, In-insert r x (order_by_last_try xs) h, In-order r xs)

In-filter :
    (r : QueuedMessageDb) (xs : Table) → In r (filter pending xs) → In r xs × (pending r ≡ true)
In-filter r [] h = absurd h
In-filter r (x ∷ xs) h = elim (Bool-cases (pending x)) [
  | inl e ↦ ground (arith, In-filter r xs)
  | inr e ↦ ground (arith, In-filter r xs)
]

abbrev NonEmpty : Table → Type 0
NonEmpty [] = ⊥
NonEmpty (x ∷ xs) = Unit

insert-NonEmpty : (x : QueuedMessageDb) (xs : Table) → NonEmpty (insert_by_last_try x xs)
unfolding insert_by_last_try
insert-NonEmpty x [] = tt
insert-NonEmpty x (y ∷ ys) = ground arith

-- A table without pending rows.
abbrev pub Idle : Table → Type 0
Idle table = All (λ r. pending r ≡ false) table

filter-Idle : (xs : Table) → filter pending xs ≡ [] → Idle xs
filter-Idle [] h = tt
filter-Idle (x ∷ xs) h = elim (Bool-cases (pending x)) [
  | inl e ↦ absurd (ground arith)
  | inr e ↦ (e, filter-Idle xs (ground arith))
]

-- The ids of the rows differ.
abbrev pub Unique : Table → Type 0
Unique [] = Unit
Unique (r ∷ rs) = All (λ x. (x.id == r.id) ≡ false) rs × Unique rs

-- The row with the id of a row that is in the table is that row.
abbrev pub Only : QueuedMessageDb → Table → Type 0
Only r table = All (λ x. (x.id == r.id) ≡ true → x ≡ r) table

others : (r : QueuedMessageDb) (xs : Table) → All (λ x. (x.id == r.id) ≡ false) xs → Only r xs
others r [] h = tt
others r (x ∷ xs) (h, hs) = ((λ e. absurd (ground arith)), others r xs hs)

differs :
    (r x : QueuedMessageDb) (xs : Table)
    → In r xs
    → All (λ y. (y.id == x.id) ≡ false) xs
    → (x.id == r.id) ≡ false
differs r x [] m h = absurd m
differs r x (y ∷ ys) (inl e) (h, hs) = ground (arith, eq_iff x.id r.id, eq_iff r.id x.id)
differs r x (y ∷ ys) (inr m) (h, hs) = differs r x ys m hs

pub In-Only : (r : QueuedMessageDb) (xs : Table) → Unique xs → In r xs → Only r xs
In-Only r [] u m = tt
In-Only r (x ∷ xs) (u, us) (inl e) =
    ((λ h. sym e), others r xs (subst (λ k. All (λ y. (y.id == k.id) ≡ false) xs) (sym e) u))
In-Only r (x ∷ xs) (u, us) (inr m) =
    ((λ h. absurd (ground (arith, differs r x xs m u))), In-Only r xs us m)

-- What one call of `get_retry_messages` with limit 1 does.
abbrev pub Chosen : Table → List NostrQueuedMessage × Table → Type 0
Chosen table (messages, table') =
    (Idle table × (messages ≡ []) × (table' ≡ table))
    ⊎ (r : QueuedMessageDb) × In r table
      × (pending r ≡ true)
      × (messages ≡ to_message r ∷ [])
      × (table' ≡ update_row (λ x. record x { processing = true }) r.id table)

set_processing_one :
    (r : QueuedMessageDb) (table : Table)
    → set_processing (r ∷ []) table ≡ update_row (λ x. record x { processing = true }) r.id table
unfolding set_processing
set_processing_one r [] = refl
set_processing_one r (x ∷ xs) = elim (Bool-cases (x.id == r.id)) [
  | inl e ↦ ground (arith, set_processing_one r xs)
  | inr e ↦ ground (arith, set_processing_one r xs)
]

set_processing_none : (table : Table) → set_processing [] table ≡ table
unfolding set_processing
set_processing_none [] = refl
set_processing_none (x ∷ xs) = ap (λ l. x ∷ l) (set_processing_none xs)

order-NonEmpty : (xs : Table) → order_by_last_try xs ≡ [] → xs ≡ []
unfolding order_by_last_try
order-NonEmpty [] h = refl
order-NonEmpty (x ∷ xs) h = absurd (ground (arith, insert-NonEmpty x (order_by_last_try xs)))

items-Chosen :
    (table items : Table)
    → order_by_last_try (filter pending table) ≡ items
    → Chosen table (map to_message (take 1 items), set_processing (take 1 items) table)
unfolding take
items-Chosen table [] e =
    inl
      (filter-Idle table (order-NonEmpty (filter pending table) e), refl, set_processing_none table)
items-Chosen table (r ∷ rs) e =
    let (m, p) =
      In-filter r table
        (In-order r (filter pending table) (subst (λ l. In r l) (sym e) (inl refl))) in
    inr (r, m, p, refl, set_processing_one r table)

pub get_retry_messages-Chosen : (table : Table) → Chosen table (get_retry_messages 1 table)
unfolding get_retry_messages
get_retry_messages-Chosen table = items-Chosen table (order_by_last_try (filter pending table)) refl
