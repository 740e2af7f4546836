-- ===== src/Outbox/Propagation/Blocks.antt =====
-- Which blocks and keys each node receives.
use e_bill.Prelude.{
  ℕ, ◌+◌, ◌≤◌, ◌≡◌, ap, subst, inl, inr, String, true, false, not, ◌&&◌, none, some, List, [], ◌∷◌,
  ◌++◌, ok, any, ◌==◌, arith, All, Bool-cases, Result-cases, eq_iff, eq_refl, length, length-append,
  last-concat, eqb_refl, if◌then◌else◌,
}
use e_bill.Error.{BlockchainError}
use e_bill.Blockchain.{get_latest_block, block_height}
use e_bill.Bill.Data.{BillBlock, BillKeys}
use e_bill.Bill.Env.{BillEnv}
use e_bill.Bill.Block.{get_nodes_from_block}
use e_bill.Bill.Chain.{
  BillBlockchain, add_nodes, heights_from, get_all_nodes_with_added_block_height,
}
use e_bill.Service.Fetch.{BitcreditBill}
use e_bill.Outbox.Propagation.{
  BillChainEvent, get, new_event, get_blocks_for_node, get_keys_for_node,
}

-- `node` is one of the nodes.
abbrev pub Named : String → List String → Type 0
Named node nodes = any (λ n. node == n) nodes ≡ true

-- Nodes and the heights at which they entered.
abbrev Entered : Type 0
Entered = List (String × ℕ)

module _ (V : BillEnv) where
  get-append :
      (node : String) (xs : Entered) (key : String) (height : ℕ)
      → get (xs ++ (key, height) ∷ []) node ≡ (elim (get xs node) [
        | some h ↦ some h
        | none ↦ (if key == node then some height else none)
      ])
  get-append node [] key height = ground arith
  get-append node (x ∷ xs) key height = elim (Bool-cases (x.0 == node)) [
    | inl e ↦ ground arith
    | inr e ↦ ground (arith, get-append node xs key height)
  ]

  contains-get :
      (node : String) (xs : Entered)
      → (any (λ (e : String × ℕ). e.0 == node) xs ≡ true)
      → (h : ℕ) × (get xs node ≡ some h)
  contains-get node [] e = absurd (ground arith)
  contains-get node (x ∷ xs) e = elim (Bool-cases (x.0 == node)) [
    | inl f ↦ (x.1, ground arith)
    | inr f ↦ let (h, k) = contains-get node xs (ground arith) in (h, ground arith)
  ]

  -- A node that is known keeps its height.
  add_nodes-keeps :
      (nodes : List String) (height : ℕ) (xs : Entered) (node : String) {h : ℕ}
      → get xs node ≡ some h
      → get (add_nodes V nodes height xs) node ≡ some h
  unfolding add_nodes
  add_nodes-keeps [] height xs node e = e
  add_nodes-keeps (n ∷ ns) height xs node {h} e =
      elim (Bool-cases (not (any (λ x. x.0 == n) xs) && not (n == ""))) [
        | inl f ↦ rw f (
            add_nodes-keeps ns height (xs ++ (n, height) ∷ []) node {h = h}
              (ground (arith, get-append node xs n height)))
        | inr f ↦ rw f (add_nodes-keeps ns height xs node {h = h} e)
      ]

  -- A node that is not named stays unknown.
  add_nodes-unnamed :
      (nodes : List String) (height : ℕ) (xs : Entered) (node : String)
      → get xs node ≡ none
      → any (λ n. node == n) nodes ≡ false
      → get (add_nodes V nodes height xs) node ≡ none
  unfolding add_nodes
  add_nodes-unnamed [] height xs node e out = e
  add_nodes-unnamed (n ∷ ns) height xs node e out =
      let other : (n == node) ≡ false = ground (arith, eq_iff n node, eq_refl node) in
      elim (Bool-cases (not (any (λ x. x.0 == n) xs) && not (n == ""))) [
        | inl f ↦ rw f (
            add_nodes-unnamed ns height (xs ++ (n, height) ∷ []) node
              (ground (arith, get-append node xs n height)) (ground arith))
        | inr f ↦ rw f (add_nodes-unnamed ns height xs node e (ground arith))
      ]

  -- A new node enters at this height.
  add_nodes-enters :
      (nodes : List String) (height : ℕ) (xs : Entered) (node : String)
      → get xs node ≡ none
      → (node == "") ≡ false
      → Named node nodes
      → get (add_nodes V nodes height xs) node ≡ some height
  unfolding add_nodes
  add_nodes-enters [] height xs node e filled named = absurd (ground arith)
  add_nodes-enters (n ∷ ns) height xs node e filled named = elim (Bool-cases (node == n)) [
    | inl same ↦
        let here : n ≡ node = ground (arith, eq_iff node n) in
        elim (Bool-cases (any (λ x. x.0 == n) xs)) [
          | inl f ↦ let (h, k) = contains-get n xs f in absurd (ground arith)
          | inr f ↦
              let new : (not (any (λ x. x.0 == n) xs) && not (n == "")) ≡ true = ground arith in
              rw new (
                add_nodes-keeps ns height (xs ++ (n, height) ∷ []) node {h = height}
                  (ground (arith, get-append node xs n height, eq_refl node)))
        ]
    | inr other ↦
        let other' : (n == node) ≡ false = ground (arith, eq_iff n node, eq_refl node) in
        elim (Bool-cases (not (any (λ x. x.0 == n) xs) && not (n == ""))) [
          | inl f ↦ rw f (
              add_nodes-enters ns height (xs ++ (n, height) ∷ []) node
                (ground (arith, get-append node xs n height)) filled (ground arith))
          | inr f ↦ rw f (add_nodes-enters ns height xs node e filled (ground arith))
        ]
  ]

  abbrev Low : ℕ → Entered → Type 0
  Low k xs = All (λ (e : String × ℕ). e.1 ≤ k) xs

  Low-append :
      (k : ℕ) (xs : Entered) (node : String) (height : ℕ)
      → Low k xs
      → height ≤ k
      → Low k (xs ++ (node, height) ∷ [])
  Low-append k [] node height h le = (le, tt)
  Low-append k (x ∷ xs) node height (h, hs) le = (h, Low-append k xs node height hs le)

  add_nodes-Low :
      (k : ℕ) (nodes : List String) (height : ℕ) (xs : Entered)
      → Low k xs
      → height ≤ k
      → Low k (add_nodes V nodes height xs)
  unfolding add_nodes
  add_nodes-Low k [] height xs h le = h
  add_nodes-Low k (n ∷ ns) height xs h le =
      elim (Bool-cases (not (any (λ x. x.0 == n) xs) && not (n == ""))) [
        | inl f ↦
            rw f (
              add_nodes-Low k ns height (xs ++ (n, height) ∷ []) (Low-append k xs n height h le) le)
        | inr f ↦ rw f (add_nodes-Low k ns height xs h le)
      ]

  Low-le : (k m : ℕ) (xs : Entered) → k ≤ m → Low k xs → Low m xs
  Low-le k m [] le h = tt
  Low-le k m (x ∷ xs) le (h, hs) = (omega (arith, h, le), Low-le k m xs le hs)

  Low-get : (k : ℕ) (xs : Entered) (node : String) {h : ℕ} → Low k xs → get xs node ≡ some h → h ≤ k
  Low-get k [] node low e = absurd (ground arith)
  Low-get k (x ∷ xs) node {h} (low, lows) e = elim (Bool-cases (x.0 == node)) [
    | inl f ↦ ground arith
    | inr f ↦ Low-get k xs node {h = h} lows (ground arith)
  ]

  heights_from-Low :
      (height : ℕ) (chain : BillBlockchain) (keys : BillKeys) (xs : Entered) {ns : Entered}
      → Low height xs
      → heights_from V height chain keys xs ≡ ok ns
      → Low (height + length chain) ns
  unfolding heights_from
  heights_from-Low height [] keys xs {ns} low e =
      subst (Low (height + 0)) (ground arith) (Low-le height (height + 0) xs (omega arith) low)
  heights_from-Low height (b ∷ bs) keys xs {ns} low e =
      elim (Result-cases (get_nodes_from_block V b keys)) [
        | inl (nodes, f) ↦
            Low-le (height + 1 + length bs) (height + length (b ∷ bs)) ns (omega arith) (
              heights_from-Low (height + 1) bs keys (add_nodes V nodes (height + 1) xs) {ns = ns}
                (add_nodes-Low (height + 1) nodes (height + 1) xs
                  (Low-le height (height + 1) xs (omega arith) low) (omega arith))
                (ground arith))
        | inr failed ↦ absurd (ground arith)
      ]

  heights_from-append :
      (height : ℕ) (chain : BillBlockchain) (block : BillBlock) (keys : BillKeys) (xs : Entered)
      {ns : Entered} {nodes : List String}
      → heights_from V height chain keys xs ≡ ok ns
      → get_nodes_from_block V block keys ≡ ok nodes
      → heights_from V height (chain ++ block ∷ []) keys xs
        ≡ ok (add_nodes V nodes (height + length chain + 1) ns)
  unfolding heights_from
  heights_from-append height [] block keys xs {ns} {nodes} e f = ground arith
  heights_from-append height (b ∷ bs) block keys xs {ns} {nodes} e f =
      elim (Result-cases (get_nodes_from_block V b keys)) [
        | inl (own, g) ↦
            let rest =
              heights_from-append (height + 1) bs block keys (add_nodes V own (height + 1) xs)
                {ns = ns} {nodes = nodes} (ground arith) f in
            let same : height + 1 + length bs + 1 ≡ height + length (b ∷ bs) + 1 = omega arith in
            ground (arith, rest, ap (λ h. add_nodes V nodes h ns) same)
        | inr failed ↦ absurd (ground arith)
      ]

  module _ (bill : BitcreditBill) (chain : BillBlockchain) (block : BillBlock) (keys : BillKeys)
      (sender node : String) {before : List (String × ℕ)} {nodes : List String}
      {event : BillChainEvent}
      (known : get_all_nodes_with_added_block_height V chain keys ≡ ok before)
      (named : get_nodes_from_block V block keys ≡ ok nodes)
      (made : new_event V bill (chain ++ block ∷ []) keys true sender ≡ ok event) where
    event-is : event ≡ record {
      bill = bill;
      chain = chain ++ block ∷ [];
      participants = add_nodes V nodes (length chain + 1) before;
      bill_keys = keys;
      new_blocks = true;
      sender_node_id = sender;
    }
    unfolding new_event get_all_nodes_with_added_block_height
    event-is =
        ground (
          arith,
          heights_from-append 0 chain block keys [] {ns = before} {nodes = nodes} known named,
        )

    -- What a node receives of a new block at the end of a bill's chain. A node that an earlier
    -- block names receives the new block alone, and no keys. A node that the new block is the
    -- first to name receives the whole chain and the bill's keys. A node that no block names
    -- receives neither.
    pub get_blocks_for_node_lem :
        ((h : ℕ)
          → get before node ≡ some h
          → (get_blocks_for_node V event {E = BlockchainError} node ≡ ok (block ∷ []))
            × (get_keys_for_node V event node ≡ none))
        × (get before node ≡ none
            → (node == "") ≡ false
            → Named node nodes
            → (get_blocks_for_node V event {E = BlockchainError} node ≡ ok (chain ++ block ∷ []))
              × (get_keys_for_node V event node ≡ some keys))
        × (get before node ≡ none
            → any (λ n. node == n) nodes ≡ false
            → (get_blocks_for_node V event {E = BlockchainError} node ≡ ok [])
              × (get_keys_for_node V event node ≡ none))
    unfolding get_blocks_for_node get_keys_for_node get_latest_block block_height
        get_all_nodes_with_added_block_height
    get_blocks_for_node_lem = (
      λ h e.
          let le : h ≤ length chain = omega (
            arith,
            Low-get (0 + length chain) before node {h = h}
                (heights_from-Low 0 chain keys [] {ns = before} tt known) e,
          ) in
          ground (
            arith,
            event-is,
            add_nodes-keeps nodes (length chain + 1) before node {h = h} e,
            length-append chain (block ∷ []),
            last-concat chain block,
          ),
      λ e filled n. ground (
        arith,
        event-is,
        add_nodes-enters nodes (length chain + 1) before node e filled n,
        length-append chain (block ∷ []),
        eqb_refl (length chain + 1),
      ),
      λ e out.
          ground (arith, event-is, add_nodes-unnamed nodes (length chain + 1) before node e out),
    )
