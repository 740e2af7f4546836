-- ===== src/Tests/Sample.antt =====
-- A platform that computes: keys are numbers, a hash is the data itself, a text is the unary
-- writing of its bytes, and the encoding of a bill block's data names only its type.
use e_bill.Prelude.{
  ℕ, zero, suc, ◌+◌, Bool, true, false, Option, none, some, List, [], ◌∷◌, eqb, if◌then◌else◌,
  codes,
}
use Prim.Native.String.{String}
use e_bill.Platform.{Platform, Bytes}
use e_bill.Contact.{ContactType, PostalAddress}
use e_bill.Bill.Data.{BillIdentityBlockData, BillRecourseReasonBlockData, DataType, Data, op_number}
use e_bill.Bill.Env.{BillEnv}

abbrev pub unary : ℕ → String → String
unary zero s = String.◌∷◌ "b" s
unary (suc n) s = String.◌∷◌ "a" (unary n s)

abbrev pub encode : Bytes → String
encode [] = ""
encode (n ∷ ns) = unary n (encode ns)

abbrev pub decode_from : ℕ → List ℕ → Bytes
decode_from n [] = []
decode_from n (c ∷ cs) =
    let rest = decode_from (if eqb c b'a' then suc n else 0) cs in
    if eqb c b'a' then rest else n ∷ rest

abbrev pub decode : String → Bytes
decode s = decode_from 0 (codes s)

abbrev pub eq_bytes : Bytes → Bytes → Bool
eq_bytes [] [] = true
eq_bytes (a ∷ xs) (b ∷ ys) = let rest = eq_bytes xs ys in if eqb a b then rest else false
eq_bytes _ _ = false

abbrev pub head : Bytes → Option ℕ
head [] = none
head (k ∷ ks) = some k

abbrev pub opened : ℕ → Bytes → Option Bytes
opened sk [] = none
opened sk (k ∷ bs) = if eqb k sk then some bs else none

abbrev pub added_from : ℕ → Bytes → ℕ
added_from sum [] = sum
added_from sum (k ∷ ks) = added_from (sum + k) ks

-- The sum of at least one key.
abbrev pub added : Bytes → Option ℕ
added [] = none
added (k ∷ ks) = some (added_from k ks)

abbrev pub platform : Platform
platform = record {
  base58_encode = encode;
  base58_decode = λ s. some (decode s);
  sha256 = λ bs. bs;
  public_key_from_str = λ s. head (decode s);
  public_key_to_string = λ k. encode (k ∷ []);
  secret_key_from_str = λ s. head (decode s);
  secret_key_to_string = λ k. encode (k ∷ []);
  public_key_of = λ k. k;
  combine = λ a b. some (a + b);
  combine_keys = added;
  add_tweak = λ a b. some (a + b);
  digest_from_slice = λ bs. some bs;
  sign_schnorr = λ msg k. k ∷ msg;
  signature_from_slice = λ bs. some bs;
  verify_schnorr = λ sig msg k. eq_bytes sig (k ∷ msg);
  ecies_encrypt = λ k bs. some (k ∷ bs);
  ecies_decrypt = opened;
  address_from_str = λ s. true;
  date_from_str = λ s f. some 5;
  date_of_timestamp = λ t. some t;
  timestamp_of = λ d s. d + s;
}

abbrev pub address : PostalAddress
address = record { country = "AT"; city = "Vienna"; zip = none; address = "Ring 1" }

-- The party whose key is `n`.
abbrev pub party : ℕ → BillIdentityBlockData
party n = record {
  t = ContactType.person;
  node_id = encode (n ∷ []);
  name = "Name";
  postal_address = address;
}

-- Drawer 1, drawee 2, payee and first holder 3; the bill's key is 4; 5 buys, or is endorsed to.
abbrev pub sample : (t : DataType) → Data t
sample DataType.issue = record {
  id = encode (7 ∷ []);
  country_of_issuing = "AT";
  city_of_issuing = "Vienna";
  drawee = party 2;
  drawer = party 1;
  payee = party 3;
  currency = "sat";
  sum = 500;
  maturity_date = "2025-01-01";
  issue_date = "2024-01-01";
  country_of_payment = "AT";
  city_of_payment = "Vienna";
  language = "en";
  files = [];
  signatory = none;
  signing_timestamp = 10;
  signing_address = address;
}
sample DataType.reject = record {
  rejecter = party 2;
  signatory = none;
  signing_timestamp = 10;
  signing_address = address;
}
sample DataType.accept = record {
  accepter = party 2;
  signatory = none;
  signing_timestamp = 10;
  signing_address = address;
}
sample DataType.request_to_pay = record {
  requester = party 3;
  currency = "sat";
  signatory = none;
  signing_timestamp = 10;
  signing_address = address;
}
sample DataType.request_to_accept = record {
  requester = party 3;
  signatory = none;
  signing_timestamp = 10;
  signing_address = address;
}
sample DataType.mint = record {
  endorser = party 3;
  endorsee = party 5;
  currency = "sat";
  sum = 500;
  signatory = none;
  signing_timestamp = 10;
  signing_address = address;
}
sample DataType.offer_to_sell = record {
  seller = party 3;
  buyer = party 5;
  currency = "sat";
  sum = 500;
  payment_address = "addr";
  signatory = none;
  signing_timestamp = 10;
  signing_address = address;
}
sample DataType.sell = record {
  seller = party 3;
  buyer = party 5;
  currency = "sat";
  sum = 500;
  payment_address = "addr";
  signatory = none;
  signing_timestamp = 10;
  signing_address = address;
}
sample DataType.endorse = record {
  endorser = party 3;
  endorsee = party 5;
  signatory = none;
  signing_timestamp = 10;
  signing_address = address;
}
sample DataType.request_recourse = record {
  recourser = party 3;
  recoursee = party 1;
  sum = 500;
  currency = "sat";
  recourse_reason = BillRecourseReasonBlockData.accept;
  signatory = none;
  signing_timestamp = 10;
  signing_address = address;
}
sample DataType.recourse = record {
  recourser = party 3;
  recoursee = party 1;
  sum = 500;
  currency = "sat";
  recourse_reason = BillRecourseReasonBlockData.accept;
  signatory = none;
  signing_timestamp = 10;
  signing_address = address;
}

abbrev code_of : DataType → ℕ
code_of DataType.issue = 0
code_of DataType.reject = 1
code_of DataType.accept = 2
code_of DataType.request_to_pay = 3
code_of DataType.request_to_accept = 4
code_of DataType.mint = 5
code_of DataType.offer_to_sell = 6
code_of DataType.sell = 7
code_of DataType.endorse = 8
code_of DataType.request_recourse = 9
code_of DataType.recourse = 10

abbrev pub env : BillEnv
env = record {
  platform = platform;
  to_vec_hash = λ d. some (d.id ∷ op_number d.op_code ∷ []);
  to_vec_block = λ d. some (decode d.data');
  from_slice_block = λ bs. some (record { data' = encode bs; key = none });
  to_vec = λ t d. some (code_of t ∷ []);
  from_slice = λ t bs. if eq_bytes bs (code_of t ∷ []) then some (sample t) else none;
  to_vec_text = λ s. some (decode s);
}
