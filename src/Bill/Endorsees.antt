-- ===== src/Bill/Endorsees.antt =====
-- core/src/blockchain/bill/chain.rs: `get_past_endorsees_for_bill`, the holders before the caller,
-- against whom recourse is possible.
pub mod Kept
pub mod Past
use e_bill.Prelude.{
  ℕ, String, Bool, true, false, not, ◌&&◌, Option, none, some, List, [], ◌∷◌, ◌++◌, Result, ok,
  ◌>>=◌, if◌then◌else◌, any, filter, ◌==◌, ltb, reverse, map,
}
use e_bill.Error.{BlockchainError}
use e_bill.Contact
use e_bill.Contact.{PostalAddress, LightIdentityPublicData, LightIdentityPublicDataWithAddress}
use e_bill.Bill.Data.{
  BillBlock, BillOpCode, BillKeys, HolderFromBlock, BillSignatoryBlockData, BillIssueBlockData,
  op_eq, to_light,
}
use e_bill.Bill.Env.{BillEnv}
use e_bill.Bill.Block.{get_holder_from_block}
use e_bill.Bill.Chain.{BillBlockchain, get_first_version_bill}

pub record LightSignedBy : Type 0 where
  pub signer : LightIdentityPublicData
  pub signatory : Option LightIdentityPublicData

pub record PastEndorsee : Type 0 where
  pub pay_to_the_order_of : LightIdentityPublicData
  pub signed : LightSignedBy
  pub signing_timestamp : ℕ
  pub signing_address : PostalAddress

abbrev light_signatory : Option BillSignatoryBlockData → Option LightIdentityPublicData
light_signatory none = none
light_signatory (some s) =
    some (record { t = Contact.ContactType.person; name = s.name; node_id = s.node_id })

unfoldable pub endorsee_of_holder : ℕ → HolderFromBlock → PastEndorsee
endorsee_of_holder timestamp h = record {
  pay_to_the_order_of = to_light h.holder;
  signed = record { signer = to_light h.signer; signatory = light_signatory h.signatory };
  signing_timestamp = timestamp;
  signing_address = h.signer.postal_address;
}

unfoldable pub endorsee_of_drawer : BillIssueBlockData → PastEndorsee
endorsee_of_drawer d = record {
  pay_to_the_order_of = to_light d.drawer;
  signed = record { signer = to_light d.drawer; signatory = light_signatory d.signatory };
  signing_timestamp = d.signing_timestamp;
  signing_address = d.drawer.postal_address;
}

-- `HashMap<String, PastEndorsee>`: `entry(key).or_insert(value)` and `remove(key)`.
abbrev pub Endorsees : Type 0
Endorsees = List (String × PastEndorsee)

unfoldable pub has_key : String → Endorsees → Bool
has_key key m = any (λ e. e.0 == key) m

unfoldable pub or_insert : String → PastEndorsee → Endorsees → Endorsees
unfolding has_key
or_insert key value m = if has_key key m then m else m ++ (key, value) ∷ []

unfoldable pub remove : String → Endorsees → Endorsees
remove key m = filter (λ e. not (e.0 == key)) m

-- The loop over the holders, the latest first: whether the caller was found, and the map.
unfoldable pub collect : String → List (ℕ × HolderFromBlock) → Bool → Endorsees → Endorsees
unfolding or_insert endorsee_of_holder
collect me [] found result = result
collect me ((timestamp, h) ∷ rest) found result =
    if (h.holder.node_id == me) && not found
    then collect me rest true result
    else collect me rest found (
        if found && not (h.holder.node_id == me)
        then or_insert h.holder.node_id (endorsee_of_holder timestamp h) result
        else result)

-- `sort_by` with the later time stamp first; it keeps the order of equal ones.
unfoldable pub insert_sorted : PastEndorsee → List PastEndorsee → List PastEndorsee
insert_sorted e [] = e ∷ []
insert_sorted e (f ∷ fs) =
    let later = insert_sorted e fs in
    if ltb e.signing_timestamp f.signing_timestamp then f ∷ later else e ∷ f ∷ fs

unfoldable pub sort : List PastEndorsee → List PastEndorsee
unfolding insert_sorted
sort [] = []
sort (e ∷ es) = insert_sorted e (sort es)

module _ (V : BillEnv) where
  -- `filter` and `filter_map` of the blocks, in the order given
  unfoldable pub holders : List BillBlock → BillKeys → List (ℕ × HolderFromBlock)
  holders [] bill_keys = []
  holders (block ∷ blocks) bill_keys =
      let rest = holders blocks bill_keys in
      if op_eq block.op_code BillOpCode.recourse
      then rest
      else elim (get_holder_from_block V block bill_keys) [
        | ok (some holder) ↦ (block.timestamp, holder) ∷ rest
        | _ ↦ rest
      ]

  -- The order in which a `HashMap` gives its values is not specified; here it is that of insertion.
  unfoldable pub get_past_endorsees_for_bill :
      BillBlockchain → BillKeys → String → Result BlockchainError (List PastEndorsee)
  unfolding holders collect or_insert endorsee_of_drawer remove sort
  get_past_endorsees_for_bill blocks bill_keys me =
      let result = collect me (holders (reverse blocks) bill_keys) false [] in
      do
        bill ← get_first_version_bill V blocks bill_keys
        let with_drawer =
            if not (bill.drawer.node_id == bill.drawee.node_id)
            then or_insert bill.drawer.node_id (endorsee_of_drawer bill) result
            else result
        ok (sort (map (λ e. e.1) (remove me with_drawer)))
