-- ===== src/Handler/Safety.antt =====
-- What a received event can do to the chain table.
use e_bill.Prelude.{
  ◌≡◌, ◌≢◌, ◌⊎◌, inl, inr, refl, sym, ap, ◌∙◌, subst, String, Bool, true, false, Option, none, some,
  List, [], ◌∷◌, ◌++◌, arith, Result, ok, err, panic, leb, last, All, eq_iff, eq_refl, Bool-cases,
  Option-cases, ok_or,
}
use e_bill.Blockchain.{get_latest_block, try_add_block, validate_with_previous}
use e_bill.Blockchain.Links.{Follows, validate_with_previous-Follows}
use e_bill.Bill.Data.{
  BillBlock, BillKeys, BillOpCode, BillIssueBlockData, BillAction, op_eq, op_eq_refl,
}
use e_bill.Bill.Env.{BillEnv}
use e_bill.Bill.Block.{bill_block}
use e_bill.Bill.Signer.{verify_and_get_signer}
use e_bill.Bill.Chain.{BillBlockchain, BillParties, get_bill_parties}
use e_bill.Bill.Action.{validate}
use e_bill.Handler.Store
use e_bill.Handler.Store.{Store, update, create_next, add_block_after}
use e_bill.Handler.Exec.{Error, persistence, Exec, continue, relabel, lift}
use e_bill.Handler.Chain.{action_data, check_block, save_block, validate_and_save_block, add_blocks}

-- Inversion of a lifted result that went on.
lift-ok :
    {E A B : Type 0} (r : Result E A) (e : Error) (f : A → Exec B) (st : Store) {b : B}
    → (continue (lift r e st).0 f (lift r e st).1).0 ≡ ok b
    → (a : A) × (r ≡ ok a) × ((f a st).0 ≡ ok b)
lift-ok (ok a) e f st h = (a, refl, h)
lift-ok (err x) e f st h = absurd (ground arith)
lift-ok panic e f st h = absurd (ground arith)

lift-tt :
    {E : Type 0} (r : Result E (Unit {0})) (e : Error) (st : Store)
    → (lift r e st).0 ≡ ok tt
    → r ≡ ok tt
lift-tt (ok tt) e st h = refl
lift-tt (err x) e st h = absurd (ground arith)
lift-tt panic e st h = absurd (ground arith)

ok_or-some : {E A : Type 0} (o : Option A) (e : E) {a : A} → ok_or o e ≡ ok a → o ≡ some a
ok_or-some none e h = absurd (ground arith)
ok_or-some (some x) e h = ground arith

-- The blocks carry this bill id.
abbrev pub AllFor : String → List BillBlock → Type 0
AllFor bill_id blocks = All (λ (b : BillBlock). b.bill_id ≡ bill_id) blocks

pub List-cases : {A : Type 0} (xs : List A) → (xs ≡ []) ⊎ ((y : A) × (ys : List A) × (xs ≡ y ∷ ys))
List-cases [] = inl refl
List-cases (y ∷ ys) = inr (y, ys, refl)

module _ (V : BillEnv) (first : BillIssueBlockData) (keys : BillKeys) (paid : Bool) where
  -- `block` may follow `chain`: it fits the last block and is no second issue block, its data names
  -- who signed it and which action it stands for, and the action is allowed to the signer in the
  -- state of `chain`.
  pub record Admissible (chain : BillBlockchain) (block : BillBlock) : Type 0 where
    pub latest : BillBlock
    pub latest_is_last : last chain ≡ some latest
    pub follows : Follows V.platform (bill_block V) latest block
    pub not_issue : block.op_code ≢ BillOpCode.issue
    pub signer : String
    pub action : BillAction
    pub parties : BillParties
    pub signed : verify_and_get_signer V block keys ≡ ok (signer, some action)
    pub parties_known : get_bill_parties V chain keys first ≡ ok parties
    pub allowed : validate V (action_data chain parties first keys block signer action paid) ≡ ok tt

  -- A chain grown from another by admissible blocks, each in the state that it met.
  pub data Grows (chain : BillBlockchain) : BillBlockchain → Type 0 where
    same : Grows chain chain
    grown :
        {middle : BillBlockchain} (block : BillBlock)
        → Grows chain middle
        → Admissible middle block
        → Grows chain (middle ++ block ∷ [])

  check_block_state :
      (chain : BillBlockchain) (block : BillBlock) (st : Store)
      → (check_block V chain first keys block paid st).1 ≡ st
  unfolding check_block
  check_block_state chain block st = ground arith

  record Checked (chain : BillBlockchain) (block : BillBlock) : Type 0 where
    signer : String
    action : BillAction
    parties : BillParties
    signed : verify_and_get_signer V block keys ≡ ok (signer, some action)
    parties_known : get_bill_parties V chain keys first ≡ ok parties
    allowed : validate V (action_data chain parties first keys block signer action paid) ≡ ok tt

  check_block-Checked :
      (chain : BillBlockchain) (block : BillBlock) (st : Store)
      → (check_block V chain first keys block paid st).0 ≡ ok tt
      → Checked chain block
  unfolding check_block
  check_block-Checked chain block st h =
      let ((signer, bill_action), signed, h₁) =
        lift-ok (verify_and_get_signer V block keys) _ _ st h in
      let (parties, parties_known, h₂) = lift-ok (get_bill_parties V chain keys first) _ _ st h₁ in
      let (action, is_action, h₃) = lift-ok (ok_or {E = Unit} bill_action tt) _ _ st h₂ in
      record {
        signer = signer;
        action = action;
        parties = parties;
        signed = signed ∙ ap (λ o. ok (signer, o)) (ok_or-some bill_action tt is_action);
        parties_known = parties_known;
        allowed =
            lift-tt (validate V (action_data chain parties first keys block signer action paid)) _
              st h₃;
      }

  -- The block was appended to the bill's rows, or nothing was written and the call failed.
  abbrev pub Effect : String → BillBlock → Store → Result Error Unit × Store → Type 0
  Effect bill_id block st (r, st') =
      (r ≡ ok tt)
        × (st' ≡ record st { rows = update st.rows bill_id (st.rows bill_id ++ block ∷ []) })
      ⊎ (r ≢ ok tt) × (st' ≡ st)

  -- The effect of `save_block` for a block that carries the bill's own id.
  pub save_block-Effect :
      (bill_id : String) (block : BillBlock) (st : Store)
      → block.bill_id ≡ bill_id
      → Effect bill_id block st (save_block V bill_id block st)
  unfolding save_block Store.add_block
  save_block-Effect bill_id block st own =
      subst
        (λ j.
          Effect j block st (
            relabel persistence (Store.add_block V j block st).0,
            (Store.add_block V j block st).1,
          ))
        own
        (elim (List-cases (st.rows block.bill_id)) [
          | inl e ↦ rw e (ground arith)
          | inr (b, bs, e) ↦ rw e (ground arith)
        ])

  abbrev pub Fails : {A : Type 0} → Result Error A → Type 0
  Fails (ok a) = ⊥
  Fails (err e) = Unit
  Fails panic = Unit

  -- A block is skipped or refused and nothing is written, or it is admissible and is appended to
  -- the bill's rows and to the chain.
  abbrev pub Outcome :
      String
      → BillBlockchain
      → BillBlock
      → Store
      → Result Error (Bool × BillBlockchain) × Store
      → Type 0
  Outcome bill_id chain block st (r, st') =
      (st' ≡ st) × (r ≡ ok (false, chain))
      ⊎ (st' ≡ st) × Fails r
      ⊎ Admissible chain block
        × (r ≡ ok (true, chain ++ block ∷ []))
        × (st' ≡ record st { rows = update st.rows bill_id (st.rows bill_id ++ block ∷ []) })

  -- The last part of `validate_and_save_block`.
  checked_and_saved : String → BillBlockchain → BillBlock → Exec (Bool × BillBlockchain)
  checked_and_saved bill_id chain block =
      e_bill.Handler.Exec.◌>>◌ (check_block V chain first keys block paid) (
        e_bill.Handler.Exec.◌>>◌ (save_block V bill_id block)
          (e_bill.Handler.Exec.pure (true, chain ++ block ∷ [])))

  module _ (bill_id : String) (chain : BillBlockchain) (block : BillBlock) (st : Store)
      (latest : BillBlock) (own : block.bill_id ≡ bill_id) (is_last : last chain ≡ some latest)
      (fits : validate_with_previous V.platform (bill_block V) block latest ≡ true)
      (not_issue : op_eq block.op_code BillOpCode.issue ≡ false) where
    admissible : Checked chain block → Admissible chain block
    admissible c = record {
      latest = latest;
      latest_is_last = is_last;
      follows = validate_with_previous-Follows V.platform (bill_block V) latest block fits;
      not_issue = λ e. ground (arith, op_eq_refl BillOpCode.issue);
      signer = c.signer;
      action = c.action;
      parties = c.parties;
      signed = c.signed;
      parties_known = c.parties_known;
      allowed = c.allowed;
    }

    saved :
        (r : Result Error Unit)
        → (check_block V chain first keys block paid st).0 ≡ r
        → Outcome bill_id chain block st (checked_and_saved bill_id chain block st)
    unfolding checked_and_saved
    saved (ok tt) e =
        let good = admissible (check_block-Checked chain block st e) in
        ground (arith, check_block_state chain block st, save_block-Effect bill_id block st own)
    saved (err x) e = ground (arith, check_block_state chain block st)
    saved panic e = ground (arith, check_block_state chain block st)

  pub validate_and_save_block-Outcome :
      (bill_id : String) (chain : BillBlockchain) (block : BillBlock) (st : Store)
      → block.bill_id ≡ bill_id
      → Outcome bill_id chain block st
          (validate_and_save_block V bill_id chain first keys block paid st)
  unfolding validate_and_save_block get_latest_block try_add_block checked_and_saved
  validate_and_save_block-Outcome bill_id chain block st own = elim (Option-cases (last chain)) [
    | inl e ↦ ground arith
    | inr (latest, e) ↦ elim (Bool-cases (leb block.id latest.id)) [
      | inl old ↦ ground arith
      | inr new ↦ elim (Bool-cases (op_eq block.op_code BillOpCode.issue)) [
        | inl issue ↦ ground arith
        | inr other ↦
            elim (Bool-cases (validate_with_previous V.platform (bill_block V) block latest)) [
              | inl fits ↦ ground (
                arith,
                saved bill_id chain block st latest own e fits other
                    (check_block V chain first keys block paid st).0 refl,
              )
              | inr unfit ↦ ground arith
            ]
      ]
    ]
  ]

  -- What a store keeps: all but the rows of one bill, to which blocks were appended.
  pub record Appended (bill_id : String) (st st' : Store) : Type 0 where
    pub growth : Grows (st.rows bill_id) (st'.rows bill_id)
    pub others : (j : String) → j ≢ bill_id → st'.rows j ≡ st.rows j
    pub same_keys : st'.keys ≡ st.keys
    pub same_paid : st'.is_paid ≡ st.is_paid

  Grows-trans : {a b c : BillBlockchain} → Grows a b → Grows b c → Grows a c
  Grows-trans g same = g
  Grows-trans g (grown block h adm) = grown block (Grows-trans g h) adm

  pub Appended-refl : (bill_id : String) (st : Store) → Appended bill_id st st
  Appended-refl bill_id st = record {
    growth = same;
    others = λ j _. refl;
    same_keys = refl;
    same_paid = refl;
  }

  Appended-trans :
      (bill_id : String) {a b c : Store}
      → Appended bill_id a b
      → Appended bill_id b c
      → Appended bill_id a c
  Appended-trans bill_id h k = record {
    growth = Grows-trans h.growth k.growth;
    others = λ j ne. k.others j ne ∙ h.others j ne;
    same_keys = k.same_keys ∙ h.same_keys;
    same_paid = k.same_paid ∙ h.same_paid;
  }

  abbrev pub with_block : String → BillBlock → Store → Store
  with_block bill_id block st = record st {
    rows = update st.rows bill_id (st.rows bill_id ++ block ∷ []);
  }

  pub rows-with_block :
      (bill_id : String) (block : BillBlock) (st : Store)
      → (with_block bill_id block st).rows bill_id ≡ st.rows bill_id ++ block ∷ []
  rows-with_block bill_id block st = rw (eq_refl bill_id)

  pub with_block-Appended :
      (bill_id : String) (block : BillBlock) (st : Store)
      → Admissible (st.rows bill_id) block
      → Appended bill_id st (with_block bill_id block st)
  with_block-Appended bill_id block st adm = record {
    growth =
        subst (λ l. Grows (st.rows bill_id) l) (sym (rows-with_block bill_id block st))
          (grown block same adm);
    others = λ j ne. ground (arith, eq_iff bill_id j);
    same_keys = refl;
    same_paid = refl;
  }

  module _ (bill_id : String) (chain : BillBlockchain) (block : BillBlock) (st : Store)
      (is_chain : st.rows bill_id ≡ chain) (f : Bool × BillBlockchain → Exec Bool)
      (rest : (added : Bool) (next : BillBlockchain) (mid : Store)
        → mid.rows bill_id ≡ next
        → Appended bill_id mid (f (added, next) mid).1) where
    after_step :
        (r : Result Error (Bool × BillBlockchain)) (st' : Store)
        → Outcome bill_id chain block st (r, st')
        → Appended bill_id st (continue r f st').1
    after_step r st' (inl (kept, skipped)) =
        subst (λ q. Appended bill_id st (continue q f st').1) (sym skipped)
          (subst (λ s. Appended bill_id st (f (false, chain) s).1) (sym kept)
            (rest false chain st is_chain))
    after_step (ok a) st' (inr (inl (kept, fails))) = absurd fails
    after_step (err x) st' (inr (inl (kept, fails))) =
        subst (λ s. Appended bill_id st s) (sym kept) (Appended-refl bill_id st)
    after_step panic st' (inr (inl (kept, fails))) =
        subst (λ s. Appended bill_id st s) (sym kept) (Appended-refl bill_id st)
    after_step r st' (inr (inr (adm, done, written))) =
        let here =
          with_block-Appended bill_id block st
            (subst (λ l. Admissible l block) (sym is_chain) adm) in
        let next = rows-with_block bill_id block st ∙ ap (λ l. l ++ block ∷ []) is_chain in
        subst (λ q. Appended bill_id st (continue q f st').1) (sym done)
          (subst (λ s. Appended bill_id st (f (true, chain ++ block ∷ []) s).1) (sym written)
            (Appended-trans bill_id here
              (rest true (chain ++ block ∷ []) (with_block bill_id block st) next)))

  pub add_blocks-Appended :
      (bill_id : String) (blocks : List BillBlock) (chain : BillBlockchain) (added : Bool)
      (st : Store)
      → AllFor bill_id blocks
      → st.rows bill_id ≡ chain
      → Appended bill_id st (add_blocks V bill_id first keys paid blocks chain added st).1
  unfolding add_blocks
  add_blocks-Appended bill_id [] chain added st own e = Appended-refl bill_id st
  add_blocks-Appended bill_id (block ∷ blocks) chain added st (own, owns) e =
      let step = validate_and_save_block V bill_id chain first keys block paid st in
      after_step bill_id chain block st e (λ x. add_blocks V bill_id first keys paid blocks x.1 x.0)
        (λ added' next mid h. add_blocks-Appended bill_id blocks next added' mid owns h) step.0
        step.1 (validate_and_save_block-Outcome bill_id chain block st own)
