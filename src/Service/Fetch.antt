-- ===== src/Service/Fetch.antt =====
-- data_fetching.rs, and `extend_bill_chain_identity_data_from_contacts_or_identity` of service.rs: a
-- bill as its chain says it is now, and the keys that sign for its user.
pub mod Known
use e_bill.Prelude.{
  ℕ, String, Bool, Option, none, some, List, Result, ok, ◌>>=◌, map_err, ok_or, ◌==◌, first,
  if◌then◌else◌,
}
use e_bill.Error.{BlockchainError}
use e_bill.Contact.{ContactType, Contact, File, IdentityPublicData}
use e_bill.Util.Crypto.{BcrKeys}
use e_bill.Bill.Data.{BillIdentityBlockData, BillSignatoryBlockData, BillIssueBlockData, BillKeys}
use e_bill.Bill.Env.{BillEnv}
use e_bill.Bill.Chain.{BillBlockchain, BillParties, get_first_version_bill, get_bill_parties}
use e_bill.Ledger.Data.{Identity, IdentityWithAll, Company, to_signatory}
use e_bill.Handler.Store
use e_bill.Service.State.{ServiceState, ServiceError, blockchain, persistence}

-- core/src/bill/mod.rs
pub record BitcreditBill : Type 0 where
  pub id : String
  pub country_of_issuing : String
  pub city_of_issuing : String
  pub drawee : IdentityPublicData
  pub drawer : IdentityPublicData
  pub payee : IdentityPublicData
  pub endorsee : Option IdentityPublicData
  pub currency : String
  pub sum : ℕ
  pub maturity_date : String
  pub issue_date : String
  pub country_of_payment : String
  pub city_of_payment : String
  pub language : String
  pub files : List File

pub record BillSigningKeys : Type 0 where
  pub signatory_keys : BcrKeys
  pub company_keys : Option BcrKeys
  pub signatory_identity : Option BillSignatoryBlockData

signing_keys_of : ContactType → BcrKeys → IdentityWithAll → BillSigningKeys
signing_keys_of ContactType.person signer_keys signatory_identity = record {
  signatory_keys = signer_keys;
  company_keys = none;
  signatory_identity = none;
}
signing_keys_of ContactType.company signer_keys signatory_identity = record {
  signatory_keys = signatory_identity.key_pair;
  company_keys = some signer_keys;
  signatory_identity = some (to_signatory signatory_identity.identity);
}

unfoldable pub get_bill_signing_keys :
    IdentityPublicData → BcrKeys → IdentityWithAll → BillSigningKeys
unfolding signing_keys_of
get_bill_signing_keys signer_public_data signer_keys signatory_identity =
    signing_keys_of signer_public_data.t signer_keys signatory_identity

-- What is known of a party that is neither the user nor a contact.
company_contact : ContactType → Option Company → Identity → Option String × Option String
company_contact ContactType.company (some company) identity =
    (some company.email, identity.nostr_relay)
company_contact ContactType.company none identity = (none, none)
company_contact ContactType.person company identity = (none, none)

reached_at :
    Option Contact → ContactType → Option Company → Identity → Option String × Option String
unfolding company_contact
reached_at (some contact) t company identity = (some contact.email, first contact.nostr_relays)
reached_at none t company identity = company_contact t company identity

unfoldable pub extend_bill_chain_identity_data_from_contacts_or_identity :
    ServiceState → Identity → BillIdentityBlockData → IdentityPublicData
unfolding reached_at
extend_bill_chain_identity_data_from_contacts_or_identity st identity chain_identity =
    let node_id = chain_identity.node_id in
    let (email, nostr_relay) =
      if node_id == identity.node_id
      then (some identity.email, identity.nostr_relay)
      else reached_at (st.contacts node_id) chain_identity.t (st.companies node_id) identity in
    record {
      t = chain_identity.t;
      node_id = node_id;
      name = chain_identity.name;
      postal_address = chain_identity.postal_address;
      email = email;
      nostr_relay = nostr_relay;
    }

unfoldable pub extended :
    ServiceState → Identity → Option BillIdentityBlockData → Option IdentityPublicData
extended st identity none = none
extended st identity (some endorsee) =
    some (extend_bill_chain_identity_data_from_contacts_or_identity st identity endorsee)

unfoldable pub bill_of : ServiceState → Identity → BillIssueBlockData → BillParties → BitcreditBill
unfolding extended extend_bill_chain_identity_data_from_contacts_or_identity
bill_of st identity bill_first_version parties =
    let extend = extend_bill_chain_identity_data_from_contacts_or_identity st identity in
    record {
      id = bill_first_version.id;
      country_of_issuing = bill_first_version.country_of_issuing;
      city_of_issuing = bill_first_version.city_of_issuing;
      drawee = extend parties.drawee;
      drawer = extend parties.drawer;
      payee = extend parties.payee;
      endorsee = extended st identity parties.endorsee;
      currency = bill_first_version.currency;
      sum = bill_first_version.sum;
      maturity_date = bill_first_version.maturity_date;
      issue_date = bill_first_version.issue_date;
      country_of_payment = bill_first_version.country_of_payment;
      city_of_payment = bill_first_version.city_of_payment;
      language = bill_first_version.language;
      files = bill_first_version.files;
    }

-- What an action fetches before it is checked.
pub record Fetched : Type 0 where
  pub identity : IdentityWithAll
  pub blockchain : BillBlockchain
  pub bill_keys : BillKeys
  pub bill : BitcreditBill
  pub is_paid : Bool

module _ (V : BillEnv) where
  unfoldable pub get_last_version_bill :
      ServiceState → BillBlockchain → BillKeys → Identity → Result BlockchainError BitcreditBill
  unfolding bill_of
  get_last_version_bill st chain bill_keys identity = do
    bill_first_version ← get_first_version_bill V chain bill_keys
    bill_parties ← get_bill_parties V chain bill_keys bill_first_version
    ok (bill_of st identity bill_first_version bill_parties)

  unfoldable pub fetch_data : String → ServiceState → Result ServiceError Fetched
  fetch_data bill_id st = do
    identity ← ok_or st.identity persistence
    chain ← map_err (λ e. persistence) (Store.get_chain V bill_id st.bills)
    bill_keys ← map_err (λ e. persistence) (Store.get_keys bill_id st.bills)
    bill ← map_err blockchain (get_last_version_bill st chain bill_keys identity.identity)
    ok (record {
      identity = identity;
      blockchain = chain;
      bill_keys = bill_keys;
      bill = bill;
      is_paid = st.bills.is_paid bill_id;
    })
