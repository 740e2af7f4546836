-- ===== src/Bill/Endorsees/Past.antt =====
-- Whom recourse is possible against: what `get_past_endorsees_for_bill` answers.
use e_bill.Prelude.{
  ℕ, suc, ◌⊎◌, ◌≤◌, ◌≡◌, ◌≢◌, ◌∙◌, inl, inr, refl, subst, String, Bool, true, false, not, ◌&&◌,
  some, List, [], ◌∷◌, ◌++◌, arith, ok, All, get_elem?, eq_iff, ◌==◌, ltb, reverse, map, Bool-cases,
  Result-cases,
}
use e_bill.Bill.Data.{BillKeys, HolderFromBlock, BillIssueBlockData}
use e_bill.Bill.Env.{BillEnv}
use e_bill.Bill.Chain.{BillBlockchain, get_first_version_bill}
use e_bill.Bill.Endorsees.Kept.{
  Before, Before-suc, Listed, Keyed, has_key-or_insert, has_key-or_insert_other, collect-Before,
  remove-Listed, any-sort,
}
use e_bill.Bill.Endorsees.{
  PastEndorsee, Endorsees, endorsee_of_holder, endorsee_of_drawer, has_key, or_insert, remove,
  collect, insert_sorted, sort, holders, get_past_endorsees_for_bill,
}

module _ {A : Type 0} (Q : A → Type 0) where
  All-append : (xs : List A) (y : A) → All Q xs → Q y → All Q (xs ++ y ∷ [])
  All-append [] y h q = (q, tt)
  All-append (x ∷ xs) y (h, hs) q = (h, All-append xs y hs q)

  -- Every element at an index.
  abbrev Each : List A → Type 0
  Each xs = (i : ℕ) (x : A) → get_elem? xs i ≡ some x → Q x

-- The latest first.
abbrev pub IsDescending : List PastEndorsee → Type 0
IsDescending [] = Unit
IsDescending (e ∷ []) = Unit
IsDescending (e ∷ f ∷ es) = (f.signing_timestamp ≤ e.signing_timestamp) × IsDescending (f ∷ es)

module _ (Q : PastEndorsee → Type 0) where
  insert_sorted-All :
      (e : PastEndorsee) (es : List PastEndorsee) → Q e → All Q es → All Q (insert_sorted e es)
  unfolding insert_sorted
  insert_sorted-All e [] q h = (q, tt)
  insert_sorted-All e (f ∷ fs) q (p, h) =
      elim (Bool-cases (ltb e.signing_timestamp f.signing_timestamp)) [
        | inl later ↦ rw later (p, insert_sorted-All e fs q h)
        | inr earlier ↦ rw earlier (q, (p, h))
      ]

  sort-All : (es : List PastEndorsee) → All Q es → All Q (sort es)
  unfolding sort
  sort-All [] h = tt
  sort-All (e ∷ es) (q, h) = insert_sorted-All e (sort es) q (sort-All es h)

-- `e` may stand before the list.
abbrev Bounds : PastEndorsee → List PastEndorsee → Type 0
Bounds e [] = Unit
Bounds e (f ∷ fs) = f.signing_timestamp ≤ e.signing_timestamp

IsDescending-tail :
    (e : PastEndorsee) (es : List PastEndorsee) → IsDescending (e ∷ es) → IsDescending es
IsDescending-tail e [] h = tt
IsDescending-tail e (f ∷ fs) h = h.1

IsDescending-head :
    (e : PastEndorsee) (es : List PastEndorsee) → IsDescending (e ∷ es) → Bounds e es
IsDescending-head e [] h = tt
IsDescending-head e (f ∷ fs) h = h.0

IsDescending-cons :
    (e : PastEndorsee) (es : List PastEndorsee)
    → Bounds e es
    → IsDescending es
    → IsDescending (e ∷ es)
IsDescending-cons e [] b h = tt
IsDescending-cons e (f ∷ fs) b h = (b, h)

insert_sorted-Bounds :
    (g e : PastEndorsee) (es : List PastEndorsee)
    → e.signing_timestamp ≤ g.signing_timestamp
    → Bounds g es
    → Bounds g (insert_sorted e es)
unfolding insert_sorted
insert_sorted-Bounds g e [] l b = l
insert_sorted-Bounds g e (f ∷ fs) l b =
    elim (Bool-cases (ltb e.signing_timestamp f.signing_timestamp)) [
      | inl later ↦ rw later b
      | inr earlier ↦ rw earlier l
    ]

insert_sorted-IsDescending :
    (e : PastEndorsee) (es : List PastEndorsee)
    → IsDescending es
    → IsDescending (insert_sorted e es)
unfolding insert_sorted
insert_sorted-IsDescending e [] h = tt
insert_sorted-IsDescending e (f ∷ fs) h =
    elim (Bool-cases (ltb e.signing_timestamp f.signing_timestamp)) [
      | inl later ↦
          let rest = insert_sorted-IsDescending e fs (IsDescending-tail f fs h) in
          rw later (
            IsDescending-cons f (insert_sorted e fs)
              (insert_sorted-Bounds f e fs (ground arith) (IsDescending-head f fs h)) rest)
      | inr earlier ↦ rw earlier (ground arith, h)
    ]

sort-IsDescending : (es : List PastEndorsee) → IsDescending (sort es)
unfolding sort
sort-IsDescending [] = tt
sort-IsDescending (e ∷ es) = insert_sorted-IsDescending e (sort es) (sort-IsDescending es)

module _ (R : PastEndorsee → Type 0) where
  -- An entry under the node that it is about, with a property.
  abbrev Entry : String × PastEndorsee → Type 0
  Entry e = (e.1.pay_to_the_order_of.node_id ≡ e.0) × R e.1

  or_insert-All :
      (key : String) (value : PastEndorsee) (m : Endorsees)
      → Entry (key, value)
      → All Entry m
      → All Entry (or_insert key value m)
  unfolding or_insert
  or_insert-All key value m q h = elim (Bool-cases (has_key key m)) [
    | inl there ↦ rw there h
    | inr new ↦ rw new (All-append Entry m (key, value) h q)
  ]

  collect-All :
      (me : String) (hs : List (ℕ × HolderFromBlock)) (found : Bool) (m : Endorsees)
      → ((i : ℕ) (x : ℕ × HolderFromBlock)
          → get_elem? hs i ≡ some x
          → (found ≡ true) ⊎ Before me hs i
          → R (endorsee_of_holder x.0 x.1))
      → All Entry m
      → All Entry (collect me hs found m)
  unfolding collect endorsee_of_holder
  collect-All me [] found m each h = h
  collect-All me ((t, x) ∷ hs) found m each h =
      elim (Bool-cases ((x.holder.node_id == me) && not found)) [
        | inl mine ↦ rw mine (
            collect-All me hs true m
              (λ i y e later.
                each (suc i) y e
                  (inr (0, t, x, refl, ground (arith, eq_iff x.holder.node_id me), omega arith)))
              h)
        | inr other ↦
            let tail : (i : ℕ) (y : ℕ × HolderFromBlock)
                → get_elem? hs i ≡ some y
                → (found ≡ true) ⊎ Before me hs i
                → R (endorsee_of_holder y.0 y.1) =
              λ i y e later. each (suc i) y e (Before-suc me (t, x) hs found i later) in
            elim (Bool-cases (found && not (x.holder.node_id == me))) [
              | inl earlier ↦
                  rw (other, earlier)
                    (collect-All me hs found (or_insert x.holder.node_id (endorsee_of_holder t x) m)
                      tail
                      (or_insert-All x.holder.node_id (endorsee_of_holder t x) m
                        (refl, each 0 (t, x) refl (inl (ground arith))) h))
              | inr skipped ↦ rw (other, skipped) (collect-All me hs found m tail h)
            ]
      ]

  remove-All :
      (me : String) (m : Endorsees)
      → All Entry m
      → All
          (λ (e : PastEndorsee). (e.pay_to_the_order_of.node_id ≢ me) × R e)
          (map (λ e. e.1) (remove me m))
  unfolding remove
  remove-All me [] h = tt
  remove-All me ((key, value) ∷ m) ((same, r), h) =
      let rest = remove-All me m h in
      elim (Bool-cases (not (key == me))) [
        | inl kept ↦ rw kept ((λ e. ground (arith, eq_iff key me), r), rest)
        | inr removed ↦ rw removed rest
      ]

module _ (V : BillEnv) (blocks : BillBlockchain) (bill_keys : BillKeys) (me : String) where
  -- A past holder: named as the holder by a block other than a recourse that stands before such a
  -- block with the caller as the holder, or the drawer of a bill that is not drawn on the drawer.
  pub data IsEarlierHolder (bill : BillIssueBlockData) (e : PastEndorsee) : Type 0 where
    held :
        (i t : ℕ) (h : HolderFromBlock)
        → get_elem? (holders V (reverse blocks) bill_keys) i ≡ some (t, h)
        → Before me (holders V (reverse blocks) bill_keys) i
        → e ≡ endorsee_of_holder t h
        → IsEarlierHolder bill e
    drew :
        bill.drawer.node_id ≢ bill.drawee.node_id
        → e ≡ endorsee_of_drawer bill
        → IsEarlierHolder bill e

  -- Every such holder but the caller has an entry.
  abbrev pub AllListed : BillIssueBlockData → List PastEndorsee → Type 0
  AllListed bill past =
      ((i t : ℕ) (h : HolderFromBlock)
        → get_elem? (holders V (reverse blocks) bill_keys) i ≡ some (t, h)
        → Before me (holders V (reverse blocks) bill_keys) i
        → (h.holder.node_id == me) ≡ false
        → Listed h.holder.node_id past)
      × ((bill.drawer.node_id == bill.drawee.node_id) ≡ false
          → (bill.drawer.node_id == me) ≡ false
          → Listed bill.drawer.node_id past)

  abbrev Answer : List PastEndorsee → Type 0
  Answer past =
      (bill : BillIssueBlockData) × (get_first_version_bill V blocks bill_keys ≡ ok bill)
      × All (λ (e : PastEndorsee). (e.pay_to_the_order_of.node_id ≢ me) × IsEarlierHolder bill e)
          past
      × AllListed bill past
      × IsDescending past

  Keyed-Entry : (Q : PastEndorsee → Type 0) (m : Endorsees) → All (Entry Q) m → All Keyed m
  Keyed-Entry Q [] h = tt
  Keyed-Entry Q (e ∷ m) ((same, q), h) = (same, Keyed-Entry Q m h)

  finish :
      (bill : BillIssueBlockData) {past : List PastEndorsee}
      → get_first_version_bill V blocks bill_keys ≡ ok bill
      → (m : Endorsees) → All (Entry (IsEarlierHolder bill)) m
      → ((node : String)
          → has_key node (collect me (holders V (reverse blocks) bill_keys) false []) ≡ true
          → has_key node m ≡ true)
      → ((bill.drawer.node_id == bill.drawee.node_id) ≡ false
          → has_key bill.drawer.node_id m ≡ true)
      → sort (map (λ e. e.1) (remove me m)) ≡ past
      → Answer past
  finish bill issued m all kept drawer e =
      let list = map (λ (e : String × PastEndorsee). e.1) (remove me m) in
      let listed : (node : String)
          → has_key node m ≡ true
          → (node == me) ≡ false
          → Listed node (sort list) =
        λ node h other.
          any-sort (λ (x : PastEndorsee). x.pay_to_the_order_of.node_id == node) list
          ∙ remove-Listed node me m (Keyed-Entry (IsEarlierHolder bill) m all) h other in
      subst (λ p. Answer p) e
        (
          bill,
          issued,
          sort-All
              (λ (x : PastEndorsee). (x.pay_to_the_order_of.node_id ≢ me) × IsEarlierHolder bill x)
              list (remove-All (IsEarlierHolder bill) me m all),
          (
            λ i t h there before other.
                listed h.holder.node_id
                  (kept h.holder.node_id (
                    collect-Before me (holders V (reverse blocks) bill_keys) false [] i t h there
                      other (inr before)))
                  other,
            λ apart other. listed bill.drawer.node_id (drawer apart) other,
          ),
          sort-IsDescending list,
        )

  -- The past endorsees of a bill for a node are the holders that its blocks, but for recourses, name
  -- before a block that makes the node the holder, and its drawer where he is not the drawee. All of
  -- these have an entry, but the node itself never, and the entries stand with the latest first.
  pub get_past_endorsees-IsEarlierHolder :
      {past : List PastEndorsee}
      → get_past_endorsees_for_bill V blocks bill_keys me ≡ ok past
      → (bill : BillIssueBlockData) × (get_first_version_bill V blocks bill_keys ≡ ok bill)
        × All
            (λ (e : PastEndorsee). (e.pay_to_the_order_of.node_id ≢ me) × IsEarlierHolder bill e)
            past
        × AllListed bill past
        × IsDescending past
  unfolding get_past_endorsees_for_bill endorsee_of_drawer
  get_past_endorsees-IsEarlierHolder {past} h =
      elim (Result-cases (get_first_version_bill V blocks bill_keys)) [
        | inl (bill, e) ↦
            let found = collect me (holders V (reverse blocks) bill_keys) false [] in
            let first_part =
              collect-All (IsEarlierHolder bill) me (holders V (reverse blocks) bill_keys) false []
                (λ i x g later. held i x.0 x.1 g (before i later) refl) tt in
            elim (Bool-cases (bill.drawer.node_id == bill.drawee.node_id)) [
              | inr apart ↦
                  let all =
                    or_insert-All (IsEarlierHolder bill) bill.drawer.node_id
                      (endorsee_of_drawer bill) found
                      (
                        refl,
                        drew
                            (λ same. ground (arith, eq_iff bill.drawer.node_id bill.drawee.node_id))
                            refl,
                      )
                      first_part in
                  let m = or_insert bill.drawer.node_id (endorsee_of_drawer bill) found in
                  finish bill e m all
                    (λ node.
                      has_key-or_insert_other node bill.drawer.node_id (endorsee_of_drawer bill)
                        found)
                    (λ _. has_key-or_insert bill.drawer.node_id (endorsee_of_drawer bill) found)
                    (ground arith)
              | inl own ↦
                  finish bill e found first_part (λ node k. k) (λ apart. absurd (ground arith))
                    (ground arith)
            ]
        | inr failed ↦ absurd (ground arith)
      ]
    where
      before :
          (i : ℕ)
          → (false ≡ true) ⊎ Before me (holders V (reverse blocks) bill_keys) i
          → Before me (holders V (reverse blocks) bill_keys) i
      before i (inl p) = absurd (ground arith)
      before i (inr b) = b
