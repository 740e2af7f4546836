-- ===== src/Util.antt =====
-- core/src/util: the helpers of the other modules. `core` stands for crates/bcr-ebill-core.
pub mod Crypto
pub mod Currency
pub mod Date
use e_bill.Prelude.{
  String, Bool, Option, none, some, ok, err, Result, fail_if, is_empty, trim_is_empty,
}
use e_bill.Error.{ValidationError, invalid_file_upload_id}
use e_bill.Platform.{Platform, Bytes}

-- util/mod.rs
abbrev pub validate_file_upload_id : Option String → Result ValidationError Unit
validate_file_upload_id none = ok tt
validate_file_upload_id (some id) = fail_if (is_empty id) invalid_file_upload_id

unfoldable pub is_blank : Option String → Bool
is_blank none = Bool.false
is_blank (some s) = trim_is_empty s

module _ (P : Platform) where
  open P use {base58_encode, sha256}

  unfoldable pub sha256_hash : Bytes → String
  sha256_hash bytes = base58_encode (sha256 bytes)
