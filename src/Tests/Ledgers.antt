-- ===== src/Tests/Ledgers.antt =====
-- A user's identity chain and a company's chain on the sample platform, and the theorems on them.
use e_bill.Prelude.{
  ◌≡◌, ◌≢◌, refl, String, some, List, [], ◌∷◌, ok, ◌==◌, if◌then◌else◌, arith, inl, inr, Bool-cases,
}
use e_bill.Util.Crypto
use e_bill.Util.Crypto.{get_private_key_string, get_public_key}
use e_bill.Blockchain
use e_bill.Bill.Data.{BillOpCode}
use e_bill.Ledger.Data.{
  IdentityBlock, IdentityOpCode, CompanyBlock, CompanyOpCode, SignatoryType, IdentityData,
  CompanyData,
}
use e_bill.Ledger.Identity
use e_bill.Ledger.Company
use e_bill.Ledger.Table
use e_bill.Ledger.Table.{add_identity_block, add_company_block}
use e_bill.Ledger.Company.{company_block}
use e_bill.Ledger.Table.Chains.{IsChain, AreChains, add_company_block-AreChains}
use e_bill.Ledger.Created.{ReadableBy, identity_block-stored}
use e_bill.Ledger.Created.Signatory.{Holds, company_key_strings, add_signatory-shared}
use e_bill.Tests.Platforms.{platform-Laws}
use e_bill.Tests.Blocks.{bill_id, key}
use e_bill.Tests.Execution.{ledger, genesis}

abbrev acceptance : IdentityData IdentityOpCode.sign_person_bill
acceptance = record {
  bill_id = bill_id;
  block_id = 2;
  block_hash = "aabab";
  operation = BillOpCode.accept;
}

abbrev noted : IdentityBlock
noted = record {
  id = 2;
  hash = "aab";
  timestamp = 10;
  data' = "aabb";
  public_key = "aab";
  previous_hash = "ab";
  signature = "aabaab";
  op_code = IdentityOpCode.sign_person_bill;
}

noted_created :
    Identity.encrypt_data_create_block_and_validate ledger IdentityOpCode.sign_person_bill genesis
      acceptance
      (key 2)
      10
    ≡ ok noted
unfolding Identity.encrypt_data_create_block_and_validate Identity.encrypted_text Identity.new
    Crypto.signature Crypto.encrypt_ecies get_public_key get_private_key_string
    Blockchain.calculate_hash Blockchain.validate_with_previous Blockchain.validate_hash
    Blockchain.verify Crypto.verify Crypto.message Crypto.load_keypair e_bill.Util.sha256_hash
noted_created = refl

identity_block-stored_example :
    (add_identity_block ledger noted (genesis ∷ []) ≡ ok (genesis ∷ noted ∷ []))
    × ReadableBy ledger platform-Laws (key 2) (some (0 ∷ [])) "aabb"
identity_block-stored_example =
    identity_block-stored ledger platform-Laws IdentityOpCode.sign_person_bill genesis [] acceptance
      (key 2) 10 noted_created (omega arith)

-- Company 8, founded by 2, takes 3 as a signatory.
abbrev company_id : String
company_id = "aaaaaaaab"

abbrev founded : CompanyBlock
founded = record {
  company_id = "aaaaaaaab";
  id = 1;
  hash = "ab";
  timestamp = 5;
  data' = "aaaaaaaabb";
  public_key = "aaaaaaaaaab";
  signatory_node_id = "aab";
  previous_hash = "b";
  signature = "aaaaaaaaaabab";
  op_code = CompanyOpCode.create;
}

abbrev new_signatory : CompanyData CompanyOpCode.add_signatory
new_signatory = record { signatory = "aaab"; t = SignatoryType.solo }

abbrev joined : CompanyBlock
joined = record {
  company_id = "aaaaaaaab";
  id = 2;
  hash = "aab";
  timestamp = 10;
  data' = "aaaaaaaabb";
  public_key = "aaaaaaaaaab";
  signatory_node_id = "aab";
  previous_hash = "ab";
  signature = "aaaaaaaaaabaab";
  op_code = CompanyOpCode.add_signatory;
}

abbrev companies : String → List CompanyBlock
companies j = if company_id == j then founded ∷ [] else []

joined_created :
    Company.create_block_for_add_signatory ledger company_id founded new_signatory
      (key 2)
      (company_key_strings ledger platform-Laws (key 8))
      (get_public_key ledger.platform (key 3))
      10
    ≡ ok joined
unfolding Company.create_block_for_add_signatory Company.encrypt_data_create_block_and_validate
    Identity.encrypted_text Company.serialized_data Company.key_for_signatory Company.new
    Company.private_strings Crypto.encrypt_ecies get_public_key get_private_key_string
    Blockchain.calculate_hash Blockchain.validate_with_previous Blockchain.validate_hash
    Blockchain.verify Crypto.verify Crypto.message Crypto.load_keypair Crypto.load_keypairs
    Crypto.get_aggregated_public_key Crypto.aggregated_signature Crypto.combine_all
    Crypto.combine_from Crypto.add_all Crypto.add_from Crypto.validate_pub_key
    e_bill.Util.sha256_hash
joined_created = refl

add_signatory-shared_example :
    ((rows' : String → List CompanyBlock) × (add_company_block ledger company_id joined companies
        ≡ ok rows')
      × (rows' company_id ≡ founded ∷ joined ∷ []))
    × (k : String) × Holds ledger platform-Laws CompanyOpCode.add_signatory new_signatory
        (key 8)
        (some k)
        joined
    × ReadableBy ledger platform-Laws
        (key 3)
        (ledger.to_vec_text (get_private_key_string ledger.platform (key 8)))
        k
add_signatory-shared_example =
    add_signatory-shared ledger platform-Laws company_id founded [] companies new_signatory (key 2)
      (key 8) (key 3) 10 joined_created refl (omega arith)

founded-IsChain : IsChain ledger.platform (company_block ledger) (founded ∷ [])
unfolding Blockchain.verify Crypto.verify Blockchain.validate_hash Blockchain.calculate_hash
    Crypto.message Crypto.validate_pub_key e_bill.Util.sha256_hash
founded-IsChain = (refl, refl, refl, tt)

all_chains : AreChains ledger companies
all_chains j = elim (Bool-cases (company_id == j)) [
  | inl e ↦ rw e founded-IsChain
  | inr e ↦ rw e tt
]

abbrev after : String → List CompanyBlock
after j = if company_id == j then founded ∷ joined ∷ [] else companies j

joined_added : add_company_block ledger company_id joined companies ≡ ok after
unfolding add_company_block Table.insert_after Table.create_next Blockchain.validate_with_previous
    Blockchain.verify Crypto.verify Blockchain.validate_hash Blockchain.calculate_hash
    Crypto.message Crypto.validate_pub_key e_bill.Util.sha256_hash
joined_added = refl

add_company_block-AreChains_example :
    AreChains ledger after
    × (after company_id ≡ founded ∷ joined ∷ [])
    × ((j : String) → j ≢ company_id → after j ≡ companies j)
add_company_block-AreChains_example =
    add_company_block-AreChains ledger joined companies all_chains joined_added
