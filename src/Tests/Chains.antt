-- ===== src/Tests/Chains.antt =====
-- The theorems on chains at the chain of a bill that was issued and endorsed.
use e_bill.Prelude.{
  ℕ, get_elem?, zero, suc, ◌+◌, ◌<◌, ◌≤◌, ◌≡◌, ◌↔◌, refl, Bool, true, false, some, List, [], ◌∷◌,
  arith, ok,
}
use e_bill.Prelude.{All, none}
use e_bill.Bill.Chain.Parties.Unendorsed.{get_bill_parties-unendorsed}
use e_bill.Util.{sha256_hash}
use e_bill.Util.Crypto
use e_bill.Blockchain.{
  validate_hash, verify, calculate_hash, is_chain_valid, try_add_block,
  get_blocks_to_add_from_other_chain, get_last_version_block_with_op_code, validate_with_previous,
}
use e_bill.Blockchain.Links.{
  Follows, IsValid, Neighbours, is_chain_valid-IsValid, is_chain_valid_iff,
}
use e_bill.Blockchain.Order.{id-get_elem?, timestamp-get_elem?}
use e_bill.Blockchain.Growth.{try_add_block-total, try_add_block-IsValid}
use e_bill.Blockchain.Sync.{get_blocks_to_add-IsValid, get_blocks_to_add_all}
use e_bill.Blockchain.Lookup.{LastWith, get_last_version_block_iff}
use e_bill.Bill.Data.{BillBlock, BillOpCode, op_eq}
use e_bill.Bill.Block.{bill_block}
use e_bill.Tests.Sample.{party, sample, env, platform}
use e_bill.Tests.Blocks.{issued, endorsed, keys}
use e_bill.Bill.Data.{DataType, HolderFromBlock}
use e_bill.Bill.Block.{get_holder_from_block}
use e_bill.Bill.Chain.{BillParties, is_endorsement, get_bill_parties}
use e_bill.Bill.Chain.Parties.{LastEndorsement, get_bill_parties-get_holder_from_block}

abbrev chain : List BillBlock
chain = issued ∷ endorsed ∷ []

chain_accepted : is_chain_valid platform (bill_block env) chain ≡ true
unfolding is_chain_valid validate_with_previous validate_hash verify Crypto.verify calculate_hash
    sha256_hash Crypto.message
chain_accepted = refl

chain-IsValid : IsValid platform (bill_block env) chain
chain-IsValid = is_chain_valid-IsValid platform (bill_block env) chain chain_accepted

issued-IsValid : IsValid platform (bill_block env) (issued ∷ [])
issued-IsValid = tt

is_chain_valid_iff_example :
    (is_chain_valid platform (bill_block env) chain ≡ true)
    ↔ Neighbours platform (bill_block env) chain
is_chain_valid_iff_example = is_chain_valid_iff platform (bill_block env) chain

id-get_elem?_example : endorsed.id ≡ issued.id + 1
id-get_elem?_example =
    id-get_elem? platform (bill_block env) issued (endorsed ∷ []) chain_accepted (omega arith) 1
      endorsed refl

timestamp-get_elem?_example : issued.timestamp ≤ endorsed.timestamp
timestamp-get_elem?_example =
    timestamp-get_elem? platform (bill_block env) chain chain_accepted 0 1 issued endorsed refl refl
      (omega arith)

try_add_block-total_example :
    (blocks' : List BillBlock) × (added : Bool) × (try_add_block platform
        (bill_block env)
        {E = Unit}
        (issued ∷ [])
        endorsed
      ≡ ok (blocks', added))
    × (added ≡ true → Follows platform (bill_block env) issued endorsed)
    × (Follows platform (bill_block env) issued endorsed → added ≡ true)
    × (added ≡ true → blocks' ≡ issued ∷ endorsed ∷ [])
    × (added ≡ false → blocks' ≡ issued ∷ [])
try_add_block-total_example =
    try_add_block-total platform (bill_block env) {E = Unit} issued [] endorsed

endorsed_added :
    try_add_block platform (bill_block env) {E = Unit {0}} (issued ∷ []) endorsed ≡ ok (chain, true)
unfolding try_add_block validate_with_previous validate_hash sha256_hash verify Crypto.verify
endorsed_added = refl

try_add_block-IsValid_example :
    IsValid platform (bill_block env) chain
    × (true ≡ true → chain ≡ issued ∷ endorsed ∷ [])
    × (true ≡ false → chain ≡ issued ∷ [])
try_add_block-IsValid_example =
    try_add_block-IsValid platform (bill_block env) {E = Unit} issued [] endorsed issued-IsValid
      endorsed_added

get_blocks_to_add-IsValid_example :
    (new : List BillBlock) × (get_blocks_to_add_from_other_chain platform
        (bill_block env)
        {E = Unit}
        (issued ∷ [])
        chain
      ≡ ok (new, issued ∷ new))
    × IsValid platform (bill_block env) (issued ∷ new)
get_blocks_to_add-IsValid_example =
    get_blocks_to_add-IsValid platform (bill_block env) {E = Unit} issued [] issued (endorsed ∷ [])
      issued-IsValid

get_blocks_to_add_all_example :
    get_blocks_to_add_from_other_chain platform (bill_block env) {E = Unit} (issued ∷ []) chain
    ≡ ok (endorsed ∷ [], chain)
get_blocks_to_add_all_example =
    get_blocks_to_add_all platform (bill_block env) {E = Unit} issued [] (endorsed ∷ [])
      chain-IsValid (omega arith)

get_last_version_block_iff_example :
    (get_last_version_block_with_op_code platform (bill_block env) chain BillOpCode.issue
      ≡ some issued)
    ↔ LastWith (λ (c : BillBlock). op_eq c.op_code BillOpCode.issue) chain issued
get_last_version_block_iff_example =
    get_last_version_block_iff platform (bill_block env) BillOpCode.issue chain issued

no_later :
    (k : ℕ) (d : BillBlock) → 1 < k → get_elem? chain k ≡ some d → is_endorsement d.op_code ≡ false
no_later zero d l e = absurd (omega arith)
no_later (suc zero) d l e = absurd (omega arith)
no_later (suc (suc k)) d l e = absurd (ground arith)

endorsed_is_last : LastEndorsement chain 1 endorsed
unfolding is_endorsement
endorsed_is_last = record { there = refl; changes = refl; later = no_later }

abbrev parties : BillParties
parties = record { drawee = party 2; drawer = party 1; payee = party 3; endorsee = some (party 5) }

parties_read : get_bill_parties env chain keys (sample DataType.issue) ≡ ok parties
unfolding get_bill_parties e_bill.Bill.Chain.last_party e_bill.Bill.Chain.last_with_op
    get_last_version_block_with_op_code op_eq e_bill.Bill.Block.get_decrypted_block_bytes
    Crypto.decrypt_ecies
parties_read = refl

get_bill_parties_example :
    (h : HolderFromBlock) × (get_holder_from_block env endorsed keys ≡ ok (some h))
    × (some (party 5) ≡ some h.holder)
get_bill_parties_example =
    get_bill_parties-get_holder_from_block env issued (endorsed ∷ []) keys chain-IsValid
      (omega arith) 1 endorsed endorsed_is_last (sample DataType.issue) {parties = parties}
      parties_read

issued_unendorsed : All (λ (c : BillBlock). is_endorsement c.op_code ≡ false) (issued ∷ [])
unfolding is_endorsement
issued_unendorsed = (refl, tt)

get_bill_parties-unendorsed_example :
    get_bill_parties env (issued ∷ []) keys (sample DataType.issue)
    ≡ ok (record { drawee = party 2; drawer = party 1; payee = party 3; endorsee = none })
get_bill_parties-unendorsed_example =
    get_bill_parties-unendorsed env (issued ∷ []) keys issued_unendorsed (sample DataType.issue)
