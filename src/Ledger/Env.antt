-- ===== src/Ledger/Env.antt =====
-- What the chains of identities and companies take from borsh: `to_vec` at each type.
use e_bill.Prelude.{Option, String}
use e_bill.Platform.{Platform, Bytes}
use e_bill.Ledger.Data.{
  IdentityOpCode, IdentityData, IdentityBlockDataToHash, CompanyOpCode, CompanyData,
  CompanyBlockData, CompanyBlockDataToHash,
}

pub record LedgerEnv : Type 0 where
  pub platform : Platform
  pub to_vec_identity_hash : IdentityBlockDataToHash → Option Bytes
  pub to_vec_identity : (op : IdentityOpCode) → IdentityData op → Option Bytes
  pub to_vec_company_hash : CompanyBlockDataToHash → Option Bytes
  pub to_vec_company : (op : CompanyOpCode) → CompanyData op → Option Bytes
  pub to_vec_company_block : CompanyBlockData → Option Bytes
  pub to_vec_text : String → Option Bytes
  -- `as_bytes` of a text
  pub as_bytes : String → Bytes
