-- ===== src/Bill/Data.antt =====
-- The data of bill blocks: core/src/blockchain/bill/mod.rs and the structs of block.rs, and the
-- actions of core/src/bill/mod.rs.
use e_bill.Prelude.{
  ℕ, String, Bool, true, Option, none, List, ◌≡◌, ◌∙◌, ap, sym, refl, eqb, eqb_refl, eqb→eq,
  if◌then◌else◌,
}
use e_bill.Contact.{
  ContactType, PostalAddress, File, IdentityPublicData, LightIdentityPublicData,
  LightIdentityPublicDataWithAddress,
}

pub data BillOpCode : Type 0 where
  issue accept endorse request_to_accept request_to_pay offer_to_sell sell mint reject_to_accept
        reject_to_pay reject_to_buy reject_to_pay_recourse request_recourse recourse :
      BillOpCode

abbrev pub op_number : BillOpCode → ℕ
op_number issue = 0
op_number accept = 1
op_number endorse = 2
op_number request_to_accept = 3
op_number request_to_pay = 4
op_number offer_to_sell = 5
op_number sell = 6
op_number mint = 7
op_number reject_to_accept = 8
op_number reject_to_pay = 9
op_number reject_to_buy = 10
op_number reject_to_pay_recourse = 11
op_number request_recourse = 12
op_number recourse = 13

pub record BillIdentityBlockData : Type 0 where
  pub t : ContactType
  pub node_id : String
  pub name : String
  pub postal_address : PostalAddress

pub record BillSignatoryBlockData : Type 0 where
  pub node_id : String
  pub name : String

-- `From<IdentityPublicData> for BillIdentityBlockData`
abbrev pub to_block_data : IdentityPublicData → BillIdentityBlockData
to_block_data v = record {
  t = v.t;
  node_id = v.node_id;
  name = v.name;
  postal_address = v.postal_address;
}

-- `From<BillIdentityBlockData> for IdentityPublicData`
abbrev pub to_public_data : BillIdentityBlockData → IdentityPublicData
to_public_data v = record {
  t = v.t;
  node_id = v.node_id;
  name = v.name;
  postal_address = v.postal_address;
  email = none;
  nostr_relay = none;
}

-- `From<BillIdentityBlockData> for LightIdentityPublicDataWithAddress`
abbrev pub to_light_with_address : BillIdentityBlockData → LightIdentityPublicDataWithAddress
to_light_with_address v = record {
  t = v.t;
  name = v.name;
  node_id = v.node_id;
  postal_address = v.postal_address;
}

-- `From<BillIdentityBlockData> for LightIdentityPublicData`
abbrev pub to_light : BillIdentityBlockData → LightIdentityPublicData
to_light v = record { t = v.t; name = v.name; node_id = v.node_id }

pub data BillRecourseReasonBlockData : Type 0 where
  accept pay : BillRecourseReasonBlockData

pub record BillRejectBlockData : Type 0 where
  pub rejecter : BillIdentityBlockData
  pub signatory : Option BillSignatoryBlockData
  pub signing_timestamp : ℕ
  pub signing_address : PostalAddress

pub record BillIssueBlockData : Type 0 where
  pub id : String
  pub country_of_issuing : String
  pub city_of_issuing : String
  pub drawee : BillIdentityBlockData
  pub drawer : BillIdentityBlockData
  pub payee : BillIdentityBlockData
  pub currency : String
  pub sum : ℕ
  pub maturity_date : String
  pub issue_date : String
  pub country_of_payment : String
  pub city_of_payment : String
  pub language : String
  pub files : List File
  pub signatory : Option BillSignatoryBlockData
  pub signing_timestamp : ℕ
  pub signing_address : PostalAddress

pub record BillAcceptBlockData : Type 0 where
  pub accepter : BillIdentityBlockData
  pub signatory : Option BillSignatoryBlockData
  pub signing_timestamp : ℕ
  pub signing_address : PostalAddress

pub record BillRequestToPayBlockData : Type 0 where
  pub requester : BillIdentityBlockData
  pub currency : String
  pub signatory : Option BillSignatoryBlockData
  pub signing_timestamp : ℕ
  pub signing_address : PostalAddress

pub record BillRequestToAcceptBlockData : Type 0 where
  pub requester : BillIdentityBlockData
  pub signatory : Option BillSignatoryBlockData
  pub signing_timestamp : ℕ
  pub signing_address : PostalAddress

pub record BillMintBlockData : Type 0 where
  pub endorser : BillIdentityBlockData
  pub endorsee : BillIdentityBlockData
  pub currency : String
  pub sum : ℕ
  pub signatory : Option BillSignatoryBlockData
  pub signing_timestamp : ℕ
  pub signing_address : PostalAddress

pub record BillOfferToSellBlockData : Type 0 where
  pub seller : BillIdentityBlockData
  pub buyer : BillIdentityBlockData
  pub currency : String
  pub sum : ℕ
  pub payment_address : String
  pub signatory : Option BillSignatoryBlockData
  pub signing_timestamp : ℕ
  pub signing_address : PostalAddress

pub record BillSellBlockData : Type 0 where
  pub seller : BillIdentityBlockData
  pub buyer : BillIdentityBlockData
  pub currency : String
  pub sum : ℕ
  pub payment_address : String
  pub signatory : Option BillSignatoryBlockData
  pub signing_timestamp : ℕ
  pub signing_address : PostalAddress

pub record BillEndorseBlockData : Type 0 where
  pub endorser : BillIdentityBlockData
  pub endorsee : BillIdentityBlockData
  pub signatory : Option BillSignatoryBlockData
  pub signing_timestamp : ℕ
  pub signing_address : PostalAddress

pub record BillRequestRecourseBlockData : Type 0 where
  pub recourser : BillIdentityBlockData
  pub recoursee : BillIdentityBlockData
  pub sum : ℕ
  pub currency : String
  pub recourse_reason : BillRecourseReasonBlockData
  pub signatory : Option BillSignatoryBlockData
  pub signing_timestamp : ℕ
  pub signing_address : PostalAddress

pub record BillRecourseBlockData : Type 0 where
  pub recourser : BillIdentityBlockData
  pub recoursee : BillIdentityBlockData
  pub sum : ℕ
  pub currency : String
  pub recourse_reason : BillRecourseReasonBlockData
  pub signatory : Option BillSignatoryBlockData
  pub signing_timestamp : ℕ
  pub signing_address : PostalAddress

-- The types that `get_decrypted_block_bytes::<T>` is called at.
pub data DataType : Type 0 where
  issue reject accept request_to_pay request_to_accept mint offer_to_sell sell endorse
        request_recourse recourse :
      DataType

abbrev pub Data : DataType → Type 0
Data DataType.issue = BillIssueBlockData
Data DataType.reject = BillRejectBlockData
Data DataType.accept = BillAcceptBlockData
Data DataType.request_to_pay = BillRequestToPayBlockData
Data DataType.request_to_accept = BillRequestToAcceptBlockData
Data DataType.mint = BillMintBlockData
Data DataType.offer_to_sell = BillOfferToSellBlockData
Data DataType.sell = BillSellBlockData
Data DataType.endorse = BillEndorseBlockData
Data DataType.request_recourse = BillRequestRecourseBlockData
Data DataType.recourse = BillRecourseBlockData

-- The `PartialEq` that `BillOpCode` derives.
unfoldable pub op_eq : BillOpCode → BillOpCode → Bool
op_eq a b = eqb (op_number a) (op_number b)

-- The derived test tells exactly the equal op codes.
pub op_eq_refl : (a : BillOpCode) → op_eq a a ≡ true
unfolding op_eq
op_eq_refl a = eqb_refl (op_number a)

op_of : ℕ → BillOpCode
op_of n =
    if eqb n 0
    then issue
    else if eqb n 1
    then accept
    else if eqb n 2
    then endorse
    else if eqb n 3
    then request_to_accept
    else if eqb n 4
    then request_to_pay
    else if eqb n 5
    then offer_to_sell
    else if eqb n 6
    then sell
    else if eqb n 7
    then mint
    else if eqb n 8
    then reject_to_accept
    else if eqb n 9
    then reject_to_pay
    else if eqb n 10
    then reject_to_buy
    else if eqb n 11
    then reject_to_pay_recourse
    else if eqb n 12
    then request_recourse
    else recourse

op_of-op_number : (a : BillOpCode) → op_of (op_number a) ≡ a
unfolding op_of
op_of-op_number issue = refl
op_of-op_number _ = refl

pub op_eq-eq : (a b : BillOpCode) → op_eq a b ≡ true → a ≡ b
unfolding op_eq
op_eq-eq a b h =
    sym (op_of-op_number a) ∙ ap op_of (eqb→eq (op_number a) (op_number b) h) ∙ op_of-op_number b

pub data RecourseReason : Type 0 where
  accept : RecourseReason
  pay : ℕ → String → RecourseReason

pub data BillAction : Type 0 where
  request_acceptance accept : BillAction
  request_to_pay : String → BillAction
  offer_to_sell : IdentityPublicData → ℕ → String → BillAction
  sell : IdentityPublicData → ℕ → String → String → BillAction
  endorse : IdentityPublicData → BillAction
  request_recourse : IdentityPublicData → RecourseReason → BillAction
  recourse : IdentityPublicData → ℕ → String → RecourseReason → BillAction
  mint : IdentityPublicData → ℕ → String → BillAction
  reject_acceptance reject_payment reject_buying reject_payment_for_recourse : BillAction

pub record BillKeys : Type 0 where
  pub private_key : String
  pub public_key : String

pub record BillBlock : Type 0 where
  pub bill_id : String
  pub id : ℕ
  pub hash : String
  pub previous_hash : String
  pub timestamp : ℕ
  pub data' : String
  pub public_key : String
  pub signature : String
  pub op_code : BillOpCode

pub record BillBlockDataToHash : Type 0 where
  pub bill_id : String
  pub id : ℕ
  pub previous_hash : String
  pub data' : String
  pub timestamp : ℕ
  pub public_key : String
  pub op_code : BillOpCode

-- The data of the block, encrypted for the bill's key, and the bill's key, encrypted for a party.
pub record BillBlockData : Type 0 where
  pub data' : String
  pub key : Option String

pub record HolderFromBlock : Type 0 where
  pub holder : BillIdentityBlockData
  pub signer : BillIdentityBlockData
  pub signatory : Option BillSignatoryBlockData

pub record PaymentInfo : Type 0 where
  pub buyer : BillIdentityBlockData
  pub seller : BillIdentityBlockData
  pub sum : ℕ
  pub currency : String
  pub payment_address : String

pub record RecoursePaymentInfo : Type 0 where
  pub recourser : BillIdentityBlockData
  pub recoursee : BillIdentityBlockData
  pub sum : ℕ
  pub currency : String
  pub reason : BillRecourseReasonBlockData

pub data OfferToSellWaitingForPayment : Type 0 where
  waiting : PaymentInfo → OfferToSellWaitingForPayment
  not_waiting : OfferToSellWaitingForPayment

pub data RecourseWaitingForPayment : Type 0 where
  waiting : RecoursePaymentInfo → RecourseWaitingForPayment
  not_waiting : RecourseWaitingForPayment
