-- ===== src/Bill/Create/RoundTrip/Fields.antt =====
-- The bill, the time and the op code of a block that is created.
use e_bill.Prelude.{ℕ, ◌+◌, ◌%◌, ◌≡◌, String, Option, ok, u64_mod}
use e_bill.Util.Crypto.{BcrKeys}
use e_bill.Util.Crypto.Laws.{Laws}
use e_bill.Bill.Data.{BillBlock, BillOpCode, Data}
use e_bill.Bill.Env.{BillEnv}
use e_bill.Bill.Signer.{data_type}
use e_bill.Bill.Create.{encrypt_data_create_block_and_validate}
use e_bill.Bill.Create.RoundTrip.{create-Steps, new-Made}

pub create-fields :
    (V : BillEnv) (L : Laws V.platform) (op : BillOpCode) (payload : Data (data_type op))
    (bill_id : String) (previous_block : BillBlock) (identity : BcrKeys) (company : Option BcrKeys)
    (bill : BcrKeys) (holder : Option String) (timestamp : ℕ) {b : BillBlock}
    → encrypt_data_create_block_and_validate V
        (data_type op)
        bill_id
        previous_block
        payload
        identity
        company
        bill
        holder
        timestamp
        op
      ≡ ok b
    → (b.bill_id ≡ bill_id) × (b.timestamp ≡ timestamp) × (b.op_code ≡ op)
create-fields V L op payload bill_id previous_block identity company bill holder timestamp {b} h =
    let steps =
      create-Steps V L op payload bill_id previous_block identity company bill holder timestamp
        {b = b} h in
    let made =
      new-Made V L bill_id ((previous_block.id + 1) % u64_mod) previous_block.hash steps.serialized
        op identity company bill timestamp {b = b} steps.makes in
    (made.same_id, made.same_time, made.same_op)
