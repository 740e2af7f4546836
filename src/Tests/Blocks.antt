-- ===== src/Tests/Blocks.antt =====
-- A bill's chain, block by block, as the code creates it on the sample platform.
use e_bill.Prelude.{ℕ, String, [], ◌∷◌, none, ok, ◌≡◌, refl}
use e_bill.Util.Crypto.{BcrKeys}
use e_bill.Bill.Data.{BillBlock, BillOpCode, DataType, BillKeys}
use e_bill.Bill.Create.{create_block_for_issue, create_block_for_endorse}
use e_bill.Tests.Sample.{encode, sample, env}

abbrev pub bill_id : String
bill_id = encode (7 ∷ [])

abbrev pub keys : BillKeys
keys = record { private_key = encode (4 ∷ []); public_key = encode (4 ∷ []) }

abbrev pub issued : BillBlock
issued = record {
  bill_id = "aaaaaaab";
  id = 1;
  hash = "abb";
  previous_hash = "bbb";
  timestamp = 10;
  data' = "aaaabb";
  public_key = "aaaaab";
  signature = "aaaaababb";
  op_code = BillOpCode.issue;
}

abbrev pub endorsed : BillBlock
endorsed = record {
  bill_id = "aaaaaaab";
  id = 2;
  hash = "aabaab";
  previous_hash = "abb";
  timestamp = 20;
  data' = "aaaabaaaaaaaab";
  public_key = "aaaaaaab";
  signature = "aaaaaaabaabaab";
  op_code = BillOpCode.endorse;
}

abbrev pub requested_to_pay : BillBlock
requested_to_pay = record {
  bill_id = "aaaaaaab";
  id = 2;
  hash = "aabaaaab";
  previous_hash = "abb";
  timestamp = 20;
  data' = "aaaabaaab";
  public_key = "aaaaaaab";
  signature = "aaaaaaabaabaaaab";
  op_code = BillOpCode.request_to_pay;
}

abbrev pub sold_offer : BillBlock
sold_offer = record {
  bill_id = "aaaaaaab";
  id = 2;
  hash = "aabaaaaab";
  previous_hash = "abb";
  timestamp = 20;
  data' = "aaaabaaaaaab";
  public_key = "aaaaaaab";
  signature = "aaaaaaabaabaaaaab";
  op_code = BillOpCode.offer_to_sell;
}

abbrev pub rejected : BillBlock
rejected = record {
  bill_id = "aaaaaaab";
  id = 2;
  hash = "aabaaaaaaaab";
  previous_hash = "abb";
  timestamp = 20;
  data' = "aaaabab";
  public_key = "aaaaaab";
  signature = "aaaaaabaabaaaaaaaab";
  op_code = BillOpCode.reject_to_accept;
}

abbrev pub asked_recourse : BillBlock
asked_recourse = record {
  bill_id = "aaaaaaab";
  id = 2;
  hash = "aabaaaaaaaaaaaab";
  previous_hash = "abb";
  timestamp = 20;
  data' = "aaaabaaaaaaaaab";
  public_key = "aaaaaaab";
  signature = "aaaaaaabaabaaaaaaaaaaaab";
  op_code = BillOpCode.request_recourse;
}

abbrev pub accepted : BillBlock
accepted = record {
  bill_id = "aaaaaaab";
  id = 2;
  hash = "aabab";
  previous_hash = "abb";
  timestamp = 20;
  data' = "aaaabaab";
  public_key = "aaaaaab";
  signature = "aaaaaabaabab";
  op_code = BillOpCode.accept;
}

abbrev pub accepted_later : BillBlock
accepted_later = record {
  bill_id = "aaaaaaab";
  id = 3;
  hash = "aaabab";
  previous_hash = "aabaab";
  timestamp = 30;
  data' = "aaaabaab";
  public_key = "aaaaaab";
  signature = "aaaaaabaaabab";
  op_code = BillOpCode.accept;
}

abbrev pub sold : BillBlock
sold = record {
  bill_id = "aaaaaaab";
  id = 2;
  hash = "aabaaaaaab";
  previous_hash = "abb";
  timestamp = 20;
  data' = "aaaabaaaaaaab";
  public_key = "aaaaaaab";
  signature = "aaaaaaabaabaaaaaab";
  op_code = BillOpCode.sell;
}

abbrev pub key : ℕ → BcrKeys
key n = record { inner = n }

-- The code creates these blocks.
issued_created :
    create_block_for_issue env bill_id "bbb" (sample DataType.issue) (key 1) none (key 4) 10
    ≡ ok issued
unfolding create_block_for_issue e_bill.Util.Crypto.encrypt_ecies e_bill.Util.Crypto.get_public_key
    e_bill.Bill.Create.new e_bill.Util.Crypto.get_aggregated_public_key
    e_bill.Util.Crypto.get_private_key_string e_bill.Blockchain.calculate_hash
    e_bill.Util.Crypto.aggregated_signature e_bill.Util.sha256_hash
issued_created = refl

endorsed_created :
    create_block_for_endorse env bill_id issued (sample DataType.endorse) (key 3) none (key 4) 20
    ≡ ok endorsed
unfolding create_block_for_endorse e_bill.Bill.Create.encrypt_data_create_block_and_validate
    e_bill.Util.Crypto.encrypt_ecies e_bill.Util.Crypto.get_public_key e_bill.Bill.Data.op_eq
    e_bill.Bill.Create.new e_bill.Util.Crypto.get_aggregated_public_key
    e_bill.Util.Crypto.get_private_key_string e_bill.Blockchain.calculate_hash
    e_bill.Util.Crypto.aggregated_signature e_bill.Blockchain.validate_with_previous
    e_bill.Blockchain.validate_hash e_bill.Util.sha256_hash e_bill.Blockchain.verify
    e_bill.Util.Crypto.verify
endorsed_created = refl
