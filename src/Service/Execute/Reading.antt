-- ===== src/Service/Execute/Reading.antt =====
-- The block of an action of the user as other nodes read it: signed by the user, and admissible.
use e_bill.Prelude.{
  ℕ, ◌≡◌, ◌∙◌, refl, sym, ap, subst, String, some, arith, ok, Result-cases, inl, inr, last,
}
use e_bill.Contact.{ContactType, IdentityPublicData}
use e_bill.Util.Crypto.{
  BcrKeys, get_public_key, get_private_key_string, from_private_key, load_keypair,
}
use e_bill.Util.Crypto.Laws.{Laws}
use e_bill.Blockchain.Links.{Follows}
use e_bill.Bill.Data.{BillBlock, BillOpCode, BillAction, op_eq, op_eq_refl}
use e_bill.Bill.Env.{BillEnv}
use e_bill.Bill.Block.{bill_block}
use e_bill.Bill.Validate.{validate_data}
use e_bill.Bill.Signer.{data_type, signed_by, signatory_id, verify_and_get_signer}
use e_bill.Bill.Create.{encrypt_data_create_block_and_validate}
use e_bill.Bill.Create.RoundTrip.{
  ReadsBack, bill_key_strings, signer_of, signatory_of, create-verify_and_get_signer,
}
use e_bill.Bill.Create.RoundTrip.Fields.{create-fields}
use e_bill.Bill.Action.{validate}
use e_bill.Handler.Chain.{action_data}
use e_bill.Handler.Safety.{Admissible}
use e_bill.Ledger.Data.{IdentityWithAll}
use e_bill.Service.State.{ServiceEnv, ServiceState}
use e_bill.Service.Fetch.{Fetched, BillSigningKeys, get_bill_signing_keys}
use e_bill.Service.Fetch.Known.{Known, Names, bill_of-Names}
use e_bill.Service.Block.{action_op, block_data, create_block, address_for, new_block}
use e_bill.Service.Block.Meaning.{
  as_read, block_data-signed_by, action_op-not_issue, validate-as_read, holder_for,
  create_block_lem,
}
use e_bill.Service.Execute.{execute_data}

-- The node ids are the public keys of the keys that sign: the user's, or the company's and its
-- signatory's.
abbrev pub Identified : (V : BillEnv) → IdentityPublicData → BcrKeys → IdentityWithAll → Type 0
Identified V signer signer_keys identity =
    (signer.node_id ≡ get_public_key V.platform signer_keys)
    × (signer.t ≡ ContactType.company
        → identity.identity.node_id ≡ get_public_key V.platform identity.key_pair)

module _ (V : ServiceEnv) (L : Laws V.bill.platform) where
  open V.bill use {platform}

  signing_names :
      (t : ContactType) (signer : IdentityPublicData) (signer_keys : BcrKeys)
      (identity : IdentityWithAll)
      → signer.t ≡ t
      → Identified V.bill signer signer_keys identity
      → let keys = get_bill_signing_keys signer signer_keys identity in
        (signer.node_id ≡ signer_of V.bill L keys.signatory_keys keys.company_keys)
        × (signatory_id keys.signatory_identity
            ≡ signatory_of V.bill L keys.signatory_keys keys.company_keys)
  unfolding get_bill_signing_keys
  signing_names ContactType.person signer signer_keys identity e (own, company) = ground arith
  signing_names ContactType.company signer signer_keys identity e (own, company) =
      ground (arith, company e)

  -- borsh reads back the data of the block of an action.
  abbrev pub ReadsData : BillAction → Fetched → IdentityPublicData → BcrKeys → ℕ → Type 0
  ReadsData action fetched signer signer_keys timestamp =
      (address_to_pay : String)
      → ReadsBack V.bill L (data_type (action_op action)) (
          block_data action fetched.bill signer
            (get_bill_signing_keys signer signer_keys fetched.identity) timestamp address_to_pay)

  from_private_key-back :
      (keys : BcrKeys) → from_private_key platform (get_private_key_string platform keys) ≡ ok keys
  unfolding from_private_key load_keypair get_private_key_string
  from_private_key-back keys = ground (arith, L.secret_text keys.inner)

  module _ (bill_id : String) (action : BillAction) (signer : IdentityPublicData)
      (signer_keys : BcrKeys) (timestamp : ℕ) (st : ServiceState) (bill_keys : BcrKeys)
      (fetched : Fetched) (known : Known V.bill bill_id st fetched)
      (has_keys : st.bills.keys bill_id ≡ some (bill_key_strings V.bill L bill_keys))
      (identified : Identified V.bill signer signer_keys fetched.identity) where
    abbrev pub keys : BillSigningKeys
    keys = get_bill_signing_keys signer signer_keys fetched.identity

    same_keys : fetched.bill_keys ≡ bill_key_strings V.bill L bill_keys
    same_keys = ground (arith, known.has_keys)

    -- What a new block is made of.
    pub record Created (previous block : BillBlock) : Type 0 where
      pub address_to_pay : String
      pub valid :
          validate_data platform
            (data_type (action_op action))
            (block_data action fetched.bill signer keys timestamp address_to_pay)
          ≡ ok tt
      pub makes :
          encrypt_data_create_block_and_validate V.bill
            (data_type (action_op action))
            fetched.bill.id
            previous
            (block_data action fetched.bill signer keys timestamp address_to_pay)
            keys.signatory_keys
            keys.company_keys
            bill_keys
            (holder_for V action)
            timestamp
            (action_op action)
          ≡ ok block

    pub new_block-Created :
        (previous : BillBlock) {block : BillBlock}
        → new_block V fetched.bill previous fetched.bill_keys action signer keys timestamp
          ≡ ok block
        → Created previous block
    unfolding new_block
    new_block-Created previous {block} h =
        elim (Result-cases (address_for V action fetched.bill_keys signer)) [
          | inl (a, e) ↦
              elim (Result-cases (
                validate_data platform (data_type (action_op action))
                  (block_data action fetched.bill signer keys timestamp a))) [
                    | inl (tt, f) ↦
                        elim (Result-cases (
                          create_block V action fetched.bill.id previous
                            (block_data action fetched.bill signer keys timestamp a)
                            keys.signatory_keys keys.company_keys bill_keys timestamp)) [
                              | inl (made, k) ↦ record {
                                address_to_pay = a;
                                valid = f;
                                makes =
                                    sym (
                                      create_block_lem V fetched.bill signer keys timestamp a
                                        fetched.bill.id previous keys.signatory_keys
                                        keys.company_keys bill_keys action)
                                    ∙ ground (arith, same_keys, from_private_key-back bill_keys);
                              }
                              | inr failed ↦
                                  absurd
                                    (ground (arith, same_keys, from_private_key-back bill_keys))
                            ]
                    | inr failed ↦ absurd (ground arith)
                  ]
          | inr failed ↦ absurd (ground arith)
        ]

    -- What the other nodes read from the new block.
    pub record Read (previous block : BillBlock) : Type 0 where
      pub own : block.bill_id ≡ fetched.bill.id
      pub time : block.timestamp ≡ timestamp
      pub op : block.op_code ≡ action_op action
      pub follows : Follows platform (bill_block V.bill) previous block
      pub signed :
          verify_and_get_signer V.bill block fetched.bill_keys
          ≡ ok (signer.node_id, some (as_read action))

    pub Created-Read :
        ReadsData action fetched signer signer_keys timestamp
        → (previous block : BillBlock) → Created previous block
        → Read previous block
    Created-Read back previous block c =
        let payload = block_data action fetched.bill signer keys timestamp c.address_to_pay in
        let (own_id, signatory) =
          signing_names signer.t signer signer_keys fetched.identity refl identified in
        let (own, time, op) =
          create-fields V.bill L (action_op action) payload fetched.bill.id previous
            keys.signatory_keys keys.company_keys bill_keys (holder_for V action) timestamp
            {b = block} c.makes in
        let names : signed_by (action_op action) payload ≡ (
          signer_of V.bill L keys.signatory_keys keys.company_keys,
          signatory_of V.bill L keys.signatory_keys keys.company_keys,
          some (as_read action),
        ) =
          block_data-signed_by action fetched.bill signer keys timestamp c.address_to_pay
          ∙ ap (λ i. (i, signatory_id keys.signatory_identity, some (as_read action))) own_id
          ∙ ap
              (λ o. (
                signer_of V.bill L keys.signatory_keys keys.company_keys,
                o,
                some (as_read action),
              ))
              signatory in
        let (follows, signed) =
          create-verify_and_get_signer V.bill L (action_op action) payload fetched.bill.id previous
            keys.signatory_keys keys.company_keys bill_keys (holder_for V action) timestamp
            (back c.address_to_pay) {b = block} {action = some (as_read action)} c.makes c.valid
            names in
        record {
          own = own;
          time = time;
          op = op;
          follows = follows;
          signed =
              ap (λ k. verify_and_get_signer V.bill block k) same_keys
              ∙ signed
              ∙ ap (λ i. ok (i, some (as_read action))) (sym own_id);
        }

    same_data :
        (block : BillBlock)
        → block.timestamp ≡ timestamp
        → action_data fetched.blockchain known.parties known.first fetched.bill_keys block
            signer.node_id
            (as_read action)
            fetched.is_paid
          ≡ record (execute_data fetched signer action timestamp) { bill_action = as_read action }
    unfolding action_data execute_data
    same_data block time =
        let names : Names fetched.bill known.first known.parties =
          subst (λ b. Names b known.first known.parties) known.same_bill
            (bill_of-Names st fetched.identity.identity known.first known.parties) in
        ground (arith, names.drawee, names.payee, names.endorsee, names.maturity_date, time)

    pub Read-Admissible :
        (previous block : BillBlock)
        → last fetched.blockchain ≡ some previous
        → validate V.bill (execute_data fetched signer action timestamp) ≡ ok tt
        → Read previous block
        → Admissible V.bill known.first fetched.bill_keys fetched.is_paid fetched.blockchain block
    unfolding execute_data
    Read-Admissible previous block is_last allowed r = record {
      latest = previous;
      latest_is_last = is_last;
      follows = r.follows;
      not_issue = λ e. ground (
        arith,
        r.op,
        action_op-not_issue action,
        op_eq_refl BillOpCode.issue,
        ap (λ o. op_eq o BillOpCode.issue) (sym r.op ∙ e),
      );
      signer = signer.node_id;
      action = as_read action;
      parties = known.parties;
      signed = r.signed;
      parties_known = known.parties_known;
      allowed =
          ap (λ d. validate V.bill d) (same_data block r.time)
          ∙ validate-as_read V.bill (execute_data fetched signer action timestamp) action
          ∙ allowed;
    }
