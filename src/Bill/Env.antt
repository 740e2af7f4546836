-- ===== src/Bill/Env.antt =====
-- The platform of the bill chain: the platform, and borsh's `to_vec` and `from_slice` as the code
-- calls them, at each type.
use e_bill.Prelude.{Option}
use e_bill.Platform.{Platform, Bytes}
use e_bill.Bill.Data.{DataType, Data, BillBlockDataToHash, BillBlockData}
use e_bill.Prelude.{String}

pub record BillEnv : Type 0 where
  pub platform : Platform
  pub to_vec_hash : BillBlockDataToHash → Option Bytes
  pub to_vec_block : BillBlockData → Option Bytes
  pub from_slice_block : Bytes → Option BillBlockData
  pub to_vec : (t : DataType) → Data t → Option Bytes
  pub from_slice : (t : DataType) → Bytes → Option (Data t)
  pub to_vec_text : String → Option Bytes
