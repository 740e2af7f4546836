-- ===== src/Service/State.antt =====
-- The state that an action of the user reads and writes, its errors, and what is not in src.
use e_bill.Prelude.{String, Option, List, Result, ok, err, panic}
use e_bill.Error.{BlockchainError, CryptoError, ValidationError}
use e_bill.Contact.{Contact}
use e_bill.Bill.Env.{BillEnv}
use e_bill.Ledger.Data.{IdentityWithAll, IdentityBlock, CompanyBlock, Company}
use e_bill.Ledger.Env.{LedgerEnv}
use e_bill.Handler.Store.{Store}

-- crates/bcr-ebill-api/src/service/bill_service/error.rs, the variants that an action can end in.
pub data ServiceError : Type 0 where
  blockchain : BlockchainError → ServiceError
  persistence external_api : ServiceError
  cryptography : CryptoError → ServiceError
  validation : ValidationError → ServiceError

-- The tables of the node, each by the key it is read with: the bills, the identity with its keys,
-- the chain of its blocks, the contacts, the companies and their chains.
pub record ServiceState : Type 0 where
  pub bills : Store
  pub identity : Option IdentityWithAll
  pub identity_chain : List IdentityBlock
  pub contacts : String → Option Contact
  pub companies : String → Option Company
  pub company_chains : String → List CompanyBlock

-- `bitcoin_client.get_address_to_pay`, for the bill's and the holder's public keys.
pub record ServiceEnv : Type 0 where
  pub bill : BillEnv
  pub ledger : LedgerEnv
  pub get_address_to_pay : String → String → Option String

-- All chains are on one platform.
abbrev pub ledger_env : ServiceEnv → LedgerEnv
ledger_env V = record V.ledger { platform = V.bill.platform }

abbrev pub Run : Type 0 → Type 0
Run A = ServiceState → Result ServiceError A × ServiceState

-- `?`: what was written before an error stays written.
abbrev pub bind : {A B : Type 0} → Result ServiceError A → (A → Run B) → Run B
bind (ok a) f st = f a st
bind (err e) f st = (err e, st)
bind panic f st = (panic, st)

infixl 5 ◌>>=◌
abbrev pub ◌>>=◌ : {A B : Type 0} → Run A → (A → Run B) → Run B
◌>>=◌ m f st = let (r, st') = m st in bind r f st'

abbrev pub pure : {A : Type 0} → A → Run A
pure a st = (ok a, st)
