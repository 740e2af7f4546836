-- ===== src/Contact.antt =====
-- core/src/lib.rs (addresses, files) and core/src/contact.rs (public data of identities). `core`
-- stands for crates/bcr-ebill-core.
use e_bill.Prelude.{
  String, Bool, true, false, ◌&&◌, Option, none, some, List, Result, ok, ◌>>◌, fail_if,
  trim_is_empty,
}
use e_bill.Error.{ValidationError, Field, field_empty}
use e_bill.Util.{is_blank}

pub data ContactType : Type 0 where
  person company : ContactType

pub record PostalAddress : Type 0 where
  pub country : String
  pub city : String
  pub zip : Option String
  pub address : String

unfoldable pub validate_address : PostalAddress → Result ValidationError Unit
validate_address a = do
  fail_if (trim_is_empty a.country) (field_empty Field.country)
  fail_if (trim_is_empty a.city) (field_empty Field.city)
  fail_if (is_blank a.zip) (field_empty Field.zip)
  fail_if (trim_is_empty a.address) (field_empty Field.address)
  ok tt

pub record OptionalPostalAddress : Type 0 where
  pub country : Option String
  pub city : Option String
  pub zip : Option String
  pub address : Option String

abbrev pub validate_optional_address : OptionalPostalAddress → Result ValidationError Unit
validate_optional_address a = do
  fail_if (is_blank a.country) (field_empty Field.country)
  fail_if (is_blank a.city) (field_empty Field.city)
  fail_if (is_blank a.zip) (field_empty Field.zip)
  fail_if (is_blank a.address) (field_empty Field.address)
  ok tt

abbrev is_some : Option String → Bool
is_some none = false
is_some (some s) = true

abbrev pub is_fully_set : OptionalPostalAddress → Bool
is_fully_set a = is_some a.country && is_some a.city && is_some a.address

unfoldable pub full_address :
    Option String → Option String → Option String → Option String → Option PostalAddress
full_address (some country) (some city) zip (some address) =
    some (record { country = country; city = city; zip = zip; address = address })
full_address _ _ zip _ = none

-- `expect` in the code is reached only where the fields are set, so this is its whole behaviour.
unfoldable pub to_full_postal_address : OptionalPostalAddress → Option PostalAddress
unfolding full_address
to_full_postal_address a = full_address a.country a.city a.zip a.address

pub record File : Type 0 where
  pub name : String
  pub hash : String

pub record IdentityPublicData : Type 0 where
  pub t : ContactType
  pub node_id : String
  pub name : String
  pub postal_address : PostalAddress
  pub email : Option String
  pub nostr_relay : Option String

pub record LightIdentityPublicData : Type 0 where
  pub t : ContactType
  pub name : String
  pub node_id : String

pub record LightIdentityPublicDataWithAddress : Type 0 where
  pub t : ContactType
  pub name : String
  pub node_id : String
  pub postal_address : PostalAddress

pub record Contact : Type 0 where
  pub t : ContactType
  pub node_id : String
  pub name : String
  pub email : String
  pub postal_address : PostalAddress
  pub date_of_birth_or_registration : Option String
  pub country_of_birth_or_registration : Option String
  pub city_of_birth_or_registration : Option String
  pub identification_number : Option String
  pub avatar_file : Option File
  pub proof_document_file : Option File
  pub nostr_relays : List String
