-- ===== src/Ledger/Data.antt =====
-- The data of identity and company blocks, and of identities and companies.
use e_bill.Prelude.{ℕ, String, Bool, Option, List, eqb}
use e_bill.Contact.{File, PostalAddress, OptionalPostalAddress}
use e_bill.Bill.Data.{BillOpCode, BillSignatoryBlockData}
use e_bill.Util.Crypto.{BcrKeys}

pub record Identity : Type 0 where
  pub node_id : String
  pub name : String
  pub email : String
  pub postal_address : OptionalPostalAddress
  pub date_of_birth : Option String
  pub country_of_birth : Option String
  pub city_of_birth : Option String
  pub identification_number : Option String
  pub nostr_relay : Option String
  pub profile_picture_file : Option File
  pub identity_document_file : Option File

pub record IdentityWithAll : Type 0 where
  pub identity : Identity
  pub key_pair : BcrKeys

pub record Company : Type 0 where
  pub id : String
  pub name : String
  pub country_of_registration : Option String
  pub city_of_registration : Option String
  pub postal_address : PostalAddress
  pub email : String
  pub registration_number : Option String
  pub registration_date : Option String
  pub proof_of_registration_file : Option File
  pub logo_file : Option File
  pub signatories : List String

pub record CompanyKeys : Type 0 where
  pub private_key : String
  pub public_key : String

-- `From<Identity> for BillSignatoryBlockData`
abbrev pub to_signatory : Identity → BillSignatoryBlockData
to_signatory value = record { node_id = value.node_id; name = value.name }

pub data IdentityOpCode : Type 0 where
  create update sign_person_bill sign_company_bill create_company add_signatory remove_signatory :
      IdentityOpCode

abbrev identity_op_number : IdentityOpCode → ℕ
identity_op_number create = 0
identity_op_number update = 1
identity_op_number sign_person_bill = 2
identity_op_number sign_company_bill = 3
identity_op_number create_company = 4
identity_op_number add_signatory = 5
identity_op_number remove_signatory = 6

-- The `PartialEq` that `IdentityOpCode` derives.
abbrev pub identity_op_eq : IdentityOpCode → IdentityOpCode → Bool
identity_op_eq a b = eqb (identity_op_number a) (identity_op_number b)

pub record IdentityBlock : Type 0 where
  pub id : ℕ
  pub hash : String
  pub timestamp : ℕ
  pub data' : String
  pub public_key : String
  pub previous_hash : String
  pub signature : String
  pub op_code : IdentityOpCode

pub record IdentityBlockDataToHash : Type 0 where
  pub id : ℕ
  pub previous_hash : String
  pub data' : String
  pub timestamp : ℕ
  pub public_key : String
  pub op_code : IdentityOpCode

pub record IdentityCreateBlockData : Type 0 where
  pub node_id : String
  pub name : String
  pub email : String
  pub postal_address : OptionalPostalAddress
  pub date_of_birth : Option String
  pub city_of_birth : Option String
  pub country_of_birth : Option String
  pub identification_number : Option String
  pub nostr_relay : Option String
  pub profile_picture_file : Option File
  pub identity_document_file : Option File

-- `From<Identity> for IdentityCreateBlockData`
abbrev pub to_create_data : Identity → IdentityCreateBlockData
to_create_data value = record {
  node_id = value.node_id;
  name = value.name;
  email = value.email;
  postal_address = value.postal_address;
  date_of_birth = value.date_of_birth;
  city_of_birth = value.city_of_birth;
  country_of_birth = value.country_of_birth;
  identification_number = value.identification_number;
  nostr_relay = value.nostr_relay;
  profile_picture_file = value.profile_picture_file;
  identity_document_file = value.identity_document_file;
}

pub record IdentityUpdateBlockData : Type 0 where
  pub name : Option String
  pub email : Option String
  pub postal_address : OptionalPostalAddress
  pub date_of_birth : Option String
  pub country_of_birth : Option String
  pub city_of_birth : Option String
  pub identification_number : Option String
  pub profile_picture_file : Option File
  pub identity_document_file : Option File

pub record IdentitySignPersonBillBlockData : Type 0 where
  pub bill_id : String
  pub block_id : ℕ
  pub block_hash : String
  pub operation : BillOpCode

pub record IdentitySignCompanyBillBlockData : Type 0 where
  pub bill_id : String
  pub block_id : ℕ
  pub block_hash : String
  pub company_id : String
  pub operation : BillOpCode

pub record IdentityCreateCompanyBlockData : Type 0 where
  pub company_id : String
  pub block_hash : String

pub record IdentityAddSignatoryBlockData : Type 0 where
  pub company_id : String
  pub block_id : ℕ
  pub block_hash : String
  pub signatory : String

pub record IdentityRemoveSignatoryBlockData : Type 0 where
  pub company_id : String
  pub block_id : ℕ
  pub block_hash : String
  pub signatory : String

-- The data of an identity block, by its op code.
abbrev pub IdentityData : IdentityOpCode → Type 0
IdentityData IdentityOpCode.create = IdentityCreateBlockData
IdentityData IdentityOpCode.update = IdentityUpdateBlockData
IdentityData IdentityOpCode.sign_person_bill = IdentitySignPersonBillBlockData
IdentityData IdentityOpCode.sign_company_bill = IdentitySignCompanyBillBlockData
IdentityData IdentityOpCode.create_company = IdentityCreateCompanyBlockData
IdentityData IdentityOpCode.add_signatory = IdentityAddSignatoryBlockData
IdentityData IdentityOpCode.remove_signatory = IdentityRemoveSignatoryBlockData

pub data CompanyOpCode : Type 0 where
  create update add_signatory remove_signatory sign_company_bill : CompanyOpCode

abbrev company_op_number : CompanyOpCode → ℕ
company_op_number create = 0
company_op_number update = 1
company_op_number add_signatory = 2
company_op_number remove_signatory = 3
company_op_number sign_company_bill = 4

-- The `PartialEq` that `CompanyOpCode` derives.
abbrev pub company_op_eq : CompanyOpCode → CompanyOpCode → Bool
company_op_eq a b = eqb (company_op_number a) (company_op_number b)

pub record CompanyBlock : Type 0 where
  pub company_id : String
  pub id : ℕ
  pub hash : String
  pub timestamp : ℕ
  pub data' : String
  pub public_key : String
  pub signatory_node_id : String
  pub previous_hash : String
  pub signature : String
  pub op_code : CompanyOpCode

pub record CompanyBlockDataToHash : Type 0 where
  pub company_id : String
  pub id : ℕ
  pub previous_hash : String
  pub data' : String
  pub timestamp : ℕ
  pub public_key : String
  pub signatory_node_id : String
  pub op_code : CompanyOpCode

-- The data of the block, encrypted for the company's key, and the company's key, encrypted for an
-- identity.
pub record CompanyBlockData : Type 0 where
  pub data' : String
  pub key : Option String

pub record CompanyCreateBlockData : Type 0 where
  pub id : String
  pub name : String
  pub country_of_registration : Option String
  pub city_of_registration : Option String
  pub postal_address : PostalAddress
  pub email : String
  pub registration_number : Option String
  pub registration_date : Option String
  pub proof_of_registration_file : Option File
  pub logo_file : Option File
  pub signatories : List String

-- `From<Company> for CompanyCreateBlockData`
abbrev pub company_create_data : Company → CompanyCreateBlockData
company_create_data value = record {
  id = value.id;
  name = value.name;
  country_of_registration = value.country_of_registration;
  city_of_registration = value.city_of_registration;
  postal_address = value.postal_address;
  email = value.email;
  registration_number = value.registration_number;
  registration_date = value.registration_date;
  proof_of_registration_file = value.proof_of_registration_file;
  logo_file = value.logo_file;
  signatories = value.signatories;
}

pub record CompanyUpdateBlockData : Type 0 where
  pub name : Option String
  pub email : Option String
  pub postal_address : OptionalPostalAddress
  pub country_of_registration : Option String
  pub city_of_registration : Option String
  pub registration_number : Option String
  pub registration_date : Option String
  pub logo_file : Option File
  pub proof_of_registration_file : Option File

pub record CompanySignCompanyBillBlockData : Type 0 where
  pub bill_id : String
  pub block_id : ℕ
  pub block_hash : String
  pub operation : BillOpCode

pub data SignatoryType : Type 0 where
  solo : SignatoryType

pub record CompanyAddSignatoryBlockData : Type 0 where
  pub signatory : String
  pub t : SignatoryType

pub record CompanyRemoveSignatoryBlockData : Type 0 where
  pub signatory : String

-- The data of a company block, by its op code.
abbrev pub CompanyData : CompanyOpCode → Type 0
CompanyData CompanyOpCode.create = CompanyCreateBlockData
CompanyData CompanyOpCode.update = CompanyUpdateBlockData
CompanyData CompanyOpCode.add_signatory = CompanyAddSignatoryBlockData
CompanyData CompanyOpCode.remove_signatory = CompanyRemoveSignatoryBlockData
CompanyData CompanyOpCode.sign_company_bill = CompanySignCompanyBillBlockData
