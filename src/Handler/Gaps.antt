-- ===== src/Handler/Gaps.antt =====
-- Two things that the handler's order of writes leads to
-- (crates/bcr-ebill-transport/src/handler/bill_chain_event_handler.rs).
use e_bill.Prelude.{
  inl, inr, eqb, eq_refl, subst, ℕ, ◌≡◌, ◌≤◌, refl, ap, ◌∙◌, String, Bool, true, false, Option,
  none, some, List, [], ◌∷◌, ◌++◌, arith, ok, err, leb, ltb, suc, length, last-concat,
}
use e_bill.Blockchain.{get_latest_block, get_first_block, block_height, verify, validate_hash}
use e_bill.Bill.Data.{BillBlock, BillKeys, BillIssueBlockData}
use e_bill.Bill.Env.{BillEnv}
use e_bill.Bill.Block.{bill_block}
use e_bill.Bill.Chain.{BillBlockchain, new_from_blocks, get_first_version_bill}
use e_bill.Handler.Store
use e_bill.Handler.Store.{Store, update}
use e_bill.Handler.Safety.{validate_and_save_block-Outcome}
use e_bill.Handler.Exec.{Error, persistence, continue, when}
use e_bill.Handler.Chain.{
  validate_and_save_block, add_blocks, add_bill_blocks, get_valid_chain, add_rest, add_new_chain,
  save_block, process_chain_data, invalidate_cache_for_bill, add_or_refuse,
}

le→leb : (a b : ℕ) → a ≤ b → leb a b ≡ true
le→leb a b h = ground arith

more_than_one : (n : ℕ) → ltb 1 (suc (suc n)) ≡ true
more_than_one n = ground arith

module _ (V : BillEnv) (bill_id : String) (st : Store) where
  no_keys_lem :
      {chain : BillBlockchain} (mid : Store) (blocks : List BillBlock) (sent : Option BillKeys)
      → Store.get_chain V bill_id mid ≡ ok chain
      → mid.keys bill_id ≡ none
      → process_chain_data V bill_id blocks sent mid ≡ (err persistence, mid)
  unfolding process_chain_data add_bill_blocks Store.get_keys
  no_keys_lem mid blocks sent h k = ground arith

  refused_lem :
      (blocks rest : List BillBlock) (keys : BillKeys) (first : BillIssueBlockData)
      (issue block : BillBlock) (mid : Store) (e : Error)
      → get_valid_chain V blocks keys st ≡ (ok (bill_id, first, issue ∷ block ∷ rest), st)
      → new_from_blocks V (issue ∷ []) ≡ ok (issue ∷ [])
      → save_block V bill_id issue st ≡ (ok tt, mid)
      → validate_and_save_block V bill_id (issue ∷ []) first keys block false mid ≡ (err e, mid)
      → add_new_chain V blocks keys st ≡ (err e, mid)
  unfolding add_new_chain get_first_block block_height add_rest
  refused_lem blocks rest keys first issue block mid e valid single saved refused =
      rw
        (ap (λ m. m.0) valid, ap (λ m. m.1) valid, single, ap (λ m. m.0) saved, ap (λ m. m.1) saved)
        (rw (more_than_one (length rest), ap (λ m. m.0) refused, ap (λ m. m.1) refused) refl)

  known_lem :
      (blocks : List BillBlock) (keys : BillKeys)
      → st.rows bill_id ≡ []
      → process_chain_data V bill_id blocks (some keys) st ≡ add_new_chain V blocks keys st
  unfolding process_chain_data Store.get_chain new_from_blocks add_or_refuse
  known_lem blocks keys h = rw (process_chain_data, h) refl

  -- The tables with the issue block alone.
  abbrev started : BillBlock → Store
  started issue = record st { rows = update st.rows bill_id (issue ∷ []) }

  stored_chain :
      (issue : BillBlock)
      → (started issue).rows bill_id ≡ issue ∷ []
      → new_from_blocks V (issue ∷ []) ≡ ok (issue ∷ [])
      → Store.get_chain V bill_id (started issue) ≡ ok (issue ∷ [])
  unfolding Store.get_chain
  stored_chain issue here single = rw here single

  readable_issue :
      (issue : BillBlock)
      → new_from_blocks V (issue ∷ []) ≡ ok (issue ∷ [])
      → (verify V.platform (bill_block V) issue ≡ true)
        × (validate_hash V.platform (bill_block V) issue ≡ true)
  unfolding new_from_blocks
  readable_issue issue single = (ground arith, ground arith)

  first_saved :
      (issue : BillBlock)
      → issue.bill_id ≡ bill_id
      → issue.id ≡ 1
      → st.rows bill_id ≡ []
      → new_from_blocks V (issue ∷ []) ≡ ok (issue ∷ [])
      → save_block V bill_id issue st ≡ (ok tt, started issue)
  unfolding save_block Store.add_block Store.add_block_after Store.create_first
  first_saved issue own one none_yet single =
      let (signed, hashed) = readable_issue issue single in
      let is_one : eqb issue.id 1 ≡ true = ground arith in
      subst
        (λ j.
          st.rows j ≡ []
          → save_block V j issue st ≡ (ok tt, record st { rows = update st.rows j (issue ∷ []) }))
        own (λ h. rw (h, h, is_one, signed, hashed) refl) none_yet

  refused_state :
      (first : BillIssueBlockData) (keys : BillKeys) (issue block : BillBlock) {e : Error}
      → block.bill_id ≡ bill_id
      → (validate_and_save_block V bill_id (issue ∷ []) first keys block false (started issue)).0
        ≡ err e
      → validate_and_save_block V bill_id (issue ∷ []) first keys block false (started issue)
        ≡ (err e, started issue)
  refused_state first keys issue block own refused =
      elim (validate_and_save_block-Outcome V first keys false bill_id (issue ∷ []) block
        (started issue) own) [
          | inl (same, skipped) ↦ absurd (ground arith)
          | inr (inl (same, fails)) ↦ (λ i. (refused i, same i))
          | inr (inr (adm, added, rows)) ↦ absurd (ground arith)
        ]

  -- The event of a bill that the node does not have yet, with a readable chain whose second block
  -- is refused after the first one was stored: it ends in an error, the bill's rows are the issue
  -- block alone, its keys are not stored, and from then on every event for this bill, whatever its
  -- blocks and keys, ends in an error and changes nothing.
  pub process_chain_data-stuck :
      (blocks rest : List BillBlock) (keys : BillKeys) (first : BillIssueBlockData)
      (issue block : BillBlock) (e : Error)
      → st.rows bill_id ≡ []
      → st.keys bill_id ≡ none
      → issue.bill_id ≡ bill_id
      → issue.id ≡ 1
      → block.bill_id ≡ bill_id
      → get_valid_chain V blocks keys st ≡ (ok (bill_id, first, issue ∷ block ∷ rest), st)
      → new_from_blocks V (issue ∷ []) ≡ ok (issue ∷ [])
      → (validate_and_save_block V bill_id
          (issue ∷ [])
          first
          keys
          block
          false
          (record st { rows = update st.rows bill_id (issue ∷ []) })).0
        ≡ err e
      → (st' : Store) × (process_chain_data V bill_id blocks (some keys) st ≡ (err e, st'))
        × (st'.rows bill_id ≡ issue ∷ [])
        × (st'.keys bill_id ≡ none)
        × ((later : List BillBlock) (sent : Option BillKeys)
            → process_chain_data V bill_id later sent st' ≡ (err persistence, st'))
  process_chain_data-stuck blocks rest keys first issue block e none_yet no_keys own one follows
        valid single refused =
      let here : (started issue).rows bill_id ≡ issue ∷ [] = ground (arith, eq_refl bill_id) in
      (
        started issue,
        known_lem blocks keys none_yet
            ∙ refused_lem blocks rest keys first issue block (started issue) e valid single
                (first_saved issue own one none_yet single)
                (refused_state first keys issue block follows refused),
        here,
        no_keys,
        λ later sent.
            no_keys_lem (started issue) later sent (stored_chain issue here single) no_keys,
      )

  known_block_lem :
      (keys : BillKeys) (first : BillIssueBlockData) (chain : BillBlockchain) (new old : BillBlock)
      (paid : Bool) (mid : Store)
      → old.id ≤ new.id
      → validate_and_save_block V bill_id (chain ++ new ∷ []) first keys old paid mid
        ≡ (ok (false, chain ++ new ∷ []), mid)
  unfolding validate_and_save_block get_latest_block
  known_block_lem keys first chain new old paid mid h =
      rw (last-concat chain new, le→leb old.id new.id h) refl

  known_keys_lem :
      (keys : BillKeys) (first : BillIssueBlockData) (chain : BillBlockchain)
      (blocks : List BillBlock)
      → st.keys bill_id ≡ some keys
      → get_first_version_bill V chain keys ≡ ok first
      → add_bill_blocks V bill_id chain blocks st ≡ (
          let (r, mid) =
            add_blocks V bill_id first keys (st.is_paid bill_id) blocks chain false st in
          continue r (λ added. when added (invalidate_cache_for_bill V bill_id)) mid)
  unfolding add_bill_blocks Store.get_keys
  known_keys_lem keys first chain blocks k f = ground arith

  known_chain_lem :
      {chain : BillBlockchain} (blocks : List BillBlock) (sent : Option BillKeys)
      → Store.get_chain V bill_id st ≡ ok chain
      → process_chain_data V bill_id blocks sent st ≡ add_bill_blocks V bill_id chain blocks st
  unfolding process_chain_data
  known_chain_lem blocks sent known = ground arith

  added_state :
      (keys : BillKeys) (first : BillIssueBlockData) (chain : BillBlockchain) (new : BillBlock)
      → new.bill_id ≡ bill_id
      → (validate_and_save_block V bill_id chain first keys new (st.is_paid bill_id) st).0
        ≡ ok (true, chain ++ new ∷ [])
      → validate_and_save_block V bill_id chain first keys new (st.is_paid bill_id) st ≡ (
        ok (true, chain ++ new ∷ []),
        record st { rows = update st.rows bill_id (st.rows bill_id ++ new ∷ []) },
      )
  added_state keys first chain new own added =
      elim (validate_and_save_block-Outcome V first keys (st.is_paid bill_id) bill_id chain new st
        own) [
          | inl (same, skipped) ↦ absurd (ground arith)
          | inr (inl (same, fails)) ↦ absurd (ground arith)
          | inr (inr (adm, done, rows)) ↦ (λ i. (added i, rows i))
        ]

  -- An event of a known bill with a new block that is taken, followed by a block that the node has
  -- already, ends well: the new block is stored at the end of the bill's rows, and the cached
  -- result, calculated without it, is not dropped.
  pub process_chain_data-stale_cache :
      (keys : BillKeys) (first : BillIssueBlockData) (chain : BillBlockchain) (new old : BillBlock)
      (sent : Option BillKeys)
      → Store.get_chain V bill_id st ≡ ok chain
      → st.keys bill_id ≡ some keys
      → get_first_version_bill V chain keys ≡ ok first
      → new.bill_id ≡ bill_id
      → (validate_and_save_block V bill_id chain first keys new (st.is_paid bill_id) st).0
        ≡ ok (true, chain ++ new ∷ [])
      → old.id ≤ new.id
      → (st' : Store) × (process_chain_data V bill_id (new ∷ old ∷ []) sent st ≡ (ok tt, st'))
        × (st'.rows bill_id ≡ st.rows bill_id ++ new ∷ [])
        × (st'.cached bill_id ≡ st.cached bill_id)
  unfolding add_blocks
  process_chain_data-stale_cache keys first chain new old sent known k f own added older =
      let mid = record st { rows = update st.rows bill_id (st.rows bill_id ++ new ∷ []) } in
      let next = known_block_lem keys first chain new old (st.is_paid bill_id) mid older in
      let whole = added_state keys first chain new own added in
      (
        mid,
        known_chain_lem (new ∷ old ∷ []) sent known
            ∙ known_keys_lem keys first chain (new ∷ old ∷ []) k f
            ∙ (rw (ap (λ m. m.0) whole, ap (λ m. m.1) whole)
                (rw (ap (λ m. m.0) next, ap (λ m. m.1) next) refl)),
        ground (arith, eq_refl bill_id),
        refl,
      )
