-- ===== src/Platform.antt =====
-- What the program takes from other crates: secp256k1, ecies, bitcoin (base58, sha256, addresses)
-- and chrono, as a record of functions. Their documented behaviour is in the record `Laws` of the
-- modules that need it.
use e_bill.Prelude.{ℕ, String, Bool, List, Option}

abbrev pub Bytes : Type 0
Bytes = List ℕ

-- `PublicKey`, `SecretKey` and `NaiveDate` are handles; nothing looks inside them.
abbrev pub PublicKey : Type 0
PublicKey = ℕ

abbrev pub SecretKey : Type 0
SecretKey = ℕ

abbrev pub NaiveDate : Type 0
NaiveDate = ℕ

pub record Platform : Type 0 where
  -- bitcoin::base58 and bitcoin::hashes::sha256
  pub base58_encode : Bytes → String
  pub base58_decode : String → Option Bytes
  pub sha256 : Bytes → Bytes
  -- secp256k1: parsing and printing of keys, arithmetic on them, Schnorr signatures
  pub public_key_from_str : String → Option PublicKey
  pub public_key_to_string : PublicKey → String
  pub secret_key_from_str : String → Option SecretKey
  pub secret_key_to_string : SecretKey → String
  pub public_key_of : SecretKey → PublicKey
  pub combine : PublicKey → PublicKey → Option PublicKey
  pub combine_keys : List PublicKey → Option PublicKey
  pub add_tweak : SecretKey → SecretKey → Option SecretKey
  pub digest_from_slice : Bytes → Option Bytes
  pub sign_schnorr : Bytes → SecretKey → Bytes
  pub signature_from_slice : Bytes → Option Bytes
  pub verify_schnorr : Bytes → Bytes → PublicKey → Bool
  -- ecies
  pub ecies_encrypt : PublicKey → Bytes → Option Bytes
  pub ecies_decrypt : SecretKey → Bytes → Option Bytes
  -- bitcoin::Address::from_str
  pub address_from_str : String → Bool
  -- chrono: a date written in the format, the date of a moment, the moment of a time on a date
  pub date_from_str : String → String → Option NaiveDate
  pub date_of_timestamp : ℕ → Option NaiveDate
  pub timestamp_of : NaiveDate → ℕ → ℕ
