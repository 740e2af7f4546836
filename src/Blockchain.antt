-- ===== src/Blockchain.antt =====
-- core/src/blockchain/mod.rs: the traits `Block` and `Blockchain`, whose provided methods the bill,
-- company and identity chains share. A chain is its list of blocks. `core` stands for
-- crates/bcr-ebill-core.
pub mod Links
pub mod Order
pub mod Growth
pub mod Sync
pub mod Lookup
use e_bill.Prelude.{
  ℕ, zero, suc, ◌+◌, ◌-◌, ◌%◌, ◌≡◌, String, Bool, true, false, ◌&&◌, ◌||◌, not, List, [], ◌∷◌, ◌++◌,
  Option, none, some, ltb, eqb, u64_mod, if◌then◌else◌, Result, ok, err, panic, ◌>>=◌, expect,
  ok_or, ◌==◌, first, last, any, find, filter, length,
}
use e_bill.Error.{BlockchainError, io}
use e_bill.Platform.{Platform, Bytes}
use e_bill.Util.{sha256_hash}
use e_bill.Util.Crypto

abbrev pub first_block_id : ℕ
first_block_id = 1

-- The required methods of `Block`, the `PartialEq` of its op codes, and borsh's `to_vec` of the
-- data to hash.
pub record Block (B Op H : Type 0) : Type 0 where
  pub id : B → ℕ
  pub timestamp : B → ℕ
  pub op_code : B → Op
  pub op_eq : Op → Op → Bool
  pub hash : B → String
  pub previous_hash : B → String
  pub signature : B → String
  pub public_key : B → String
  pub validate : B → Bool
  pub get_block_data_to_hash : B → H
  pub to_vec : H → Option Bytes

module _ (P : Platform) {B Op H : Type 0} (T : Block B Op H) where
  open T use {
    id, timestamp, op_code, op_eq, hash, previous_hash, signature, public_key, validate,
    get_block_data_to_hash, to_vec,
  }

  unfoldable pub calculate_hash : H → Result BlockchainError String
  calculate_hash block_data_to_hash = do
    serialized ← ok_or (to_vec block_data_to_hash) io
    ok (sha256_hash P serialized)

  unfoldable pub validate_hash : B → Bool
  unfolding calculate_hash
  validate_hash block = elim (calculate_hash (get_block_data_to_hash block)) [
    | ok calculated_hash ↦ hash block == calculated_hash
    | _ ↦ false
  ]

  unfoldable pub verify : B → Bool
  verify block = elim (Crypto.verify P (hash block) (signature block) (public_key block)) [
    | ok res ↦ res && validate block
    | _ ↦ false
  ]

  unfoldable pub validate_with_previous : B → B → Bool
  validate_with_previous block previous_block =
      if not (previous_hash block == hash previous_block)
      then false
      else if ltb (timestamp block) (timestamp previous_block)
      then false
      else if not (eqb (id block) ((id previous_block + 1) % u64_mod))
      then false
      else if not (validate_hash block)
      then false
      else if not (verify block)
      then false
      else true

  unfoldable pub block_height : List B → ℕ
  block_height blocks = length blocks

  -- The loop over the neighbours `blocks[i - 1]` and `blocks[i]`.
  unfoldable pub valid_after : B → List B → Bool
  valid_after previous [] = true
  valid_after previous (block ∷ blocks) =
      let rest = valid_after block blocks in
      if not (validate_with_previous block previous) then false else rest

  unfoldable pub is_chain_valid : List B → Bool
  unfolding valid_after
  is_chain_valid [] = true
  is_chain_valid (block ∷ blocks) = valid_after block blocks

  unfoldable pub get_latest_block : {E : Type 0} → List B → Result E B
  get_latest_block blocks = expect (last blocks)

  unfoldable pub get_first_block : {E : Type 0} → List B → Result E B
  get_first_block blocks = expect (first blocks)

  -- The new chain, and whether the block was added.
  unfoldable pub try_add_block : {E : Type 0} → List B → B → Result E (List B × Bool)
  unfolding get_latest_block
  try_add_block blocks block = do
    latest_block ← get_latest_block blocks
    if validate_with_previous block latest_block
        then ok (blocks ++ block ∷ [], true)
        else ok (blocks, false)

  unfoldable pub get_last_version_block_with_op_code : List B → Op → Option B
  get_last_version_block_with_op_code blocks op =
      last (filter (λ block. op_eq (op_code block) op) blocks)

  unfoldable pub block_with_operation_code_exists : List B → Op → Bool
  block_with_operation_code_exists blocks op = any (λ b. op_eq (op_code b) op) blocks

  unfoldable pub get_block_by_id : {E : Type 0} → List B → ℕ → Result E B
  unfolding get_first_block
  get_block_by_id blocks n = elim (find (λ b. eqb (id b) n) blocks) [
    | some b ↦ ok b
    | none ↦ get_first_block blocks
  ]

  -- `for block_id in 1..difference_in_id + 1`, with `rounds` rounds left; `blocks_to_add` and the chain.
  unfoldable pub add_loop :
      {E : Type 0} → ℕ → ℕ → ℕ → List B → List B → List B → Result E (List B × List B)
  add_loop zero last_id block_id other_chain blocks_to_add blocks = ok (blocks_to_add, blocks)
  add_loop (suc rounds) last_id block_id other_chain blocks_to_add blocks =
      get_block_by_id other_chain (last_id + block_id) >>= λ block.
      try_add_block blocks block >>= λ (blocks', added).
      let rest =
        add_loop rounds last_id (block_id + 1) other_chain (blocks_to_add ++ block ∷ []) blocks' in
      if added && is_chain_valid blocks' then rest else ok (blocks_to_add, blocks')

  unfoldable pub get_blocks_to_add_from_other_chain :
      {E : Type 0} → List B → List B → Result E (List B × List B)
  unfolding get_latest_block add_loop
  get_blocks_to_add_from_other_chain blocks other_chain = do
    local_last ← get_latest_block blocks
    other_last ← get_latest_block other_chain
    if not (eqb (id local_last) (id other_last) || ltb (id other_last) (id local_last))
        then add_loop (id other_last - id local_last) (id local_last) 1 other_chain [] blocks
        else ok ([], blocks)
