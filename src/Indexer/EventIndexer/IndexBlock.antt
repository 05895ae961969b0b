-- ===== src/Indexer/EventIndexer/IndexBlock.antt =====
-- What indexing a whole block does to the index of its contract, and to the events that it stores
-- (internal/indexer/indexer.go).
use carbonable_leaderboard_b.Prelude.{
  ℕ, ◌+◌, ◌≤◌, ◌<◌, ◌≡◌, ◌≢◌, ap, sym, subst, true, false, not, String, List, [], ◌∷◌, arith, inl,
  inr, Bool-cases, ◌==◌, any, All, if◌then◌else◌, eq_iff,
}
use carbonable_leaderboard_b.Starknet.Block.{Event, TransactionReceipt, GetBlockResponse}
use carbonable_leaderboard_b.Indexer.Storage.{Storage, IsReliable}
use carbonable_leaderboard_b.Indexer.ContractIndex.{
  ContractIndex, set_latest_block, add_block, RoundTripsInto,
}
use carbonable_leaderboard_b.Indexer.EventIndexer.{
  Codecs, World, index_key, contract_event_key, event_key, event_id_of, stamped, put_index,
  get_contract_idx, latest_of, save_contract_index_latest_block, index_transactions,
  index_one_event, index_events_from, index_receipts, index,
}
use carbonable_leaderboard_b.Indexer.Keys.{felt-index, event_key-index}
use carbonable_leaderboard_b.Indexer.EventIndexer.IndexKept.{
  sent_by, emitted_by, is_touched, touch, touch_twice, latest_of_bounds, Has, Has-put, Has-set,
  Has-touch, Has-transactions,
}

module _ {S : Type 0} (storage : Storage S) (codecs : Codecs) (reliable : IsReliable storage)
    (indices : RoundTripsInto codecs.index) (address : String) (block : GetBlockResponse) where
  abbrev n : ℕ
  n = block.block_number

  abbrev HasIdx : S → ContractIndex → Type 0
  HasIdx = Has storage codecs reliable indices address n

  Has-one_event :
      (event : Event) (id : String) (w : World S) (c : ContractIndex)
      → emitted_by address event ≡ true
      → HasIdx w.store c
      → HasIdx (index_one_event storage codecs address block id event w).store (add_block c n)
  unfolding index_one_event
  Has-one_event event id w c ours h =
      let key : (contract_event_key address id == index_key address) ≡ false =
        subst (λ a. (contract_event_key a id == index_key address) ≡ false) ((eq_iff _ _).0 ours)
          (felt-index event.from_address _ address) in
      let buf = codecs.event.encode (stamped id block.timestamp event) in
      let s1 = (storage.set w.store (contract_event_key address id) buf).0 in
      let s2 = (storage.set s1 (event_key id) buf).0 in
      Has-touch storage codecs reliable indices address n s2 c (
        Has-set storage codecs reliable indices address n s1 c (event_key id) buf
          (event_key-index id address)
          (Has-set storage codecs reliable indices address n w.store c
            (contract_event_key address id) buf key h))

  Has-event :
      (event : Event) (id : String) (w : World S) (c : ContractIndex)
      → HasIdx w.store c
      → HasIdx
          (if not (emitted_by address event)
            then w
            else index_one_event storage codecs address block id event w).store
          (touch (emitted_by address event) c n)
  Has-event event id w c h = elim (Bool-cases (emitted_by address event)) [
    | inl ours ↦ rw ours (Has-one_event event id w c ours h)
    | inr other ↦ rw other h
  ]

  Has-events :
      (hash : String) (i : ℕ) (events : List Event) (w : World S) (c : ContractIndex)
      → HasIdx w.store c
      → HasIdx
          (index_events_from storage codecs address block hash i events w).store
          (touch (any (emitted_by address) events) c n)
  unfolding index_events_from
  Has-events hash i [] w c h = h
  Has-events hash i (event ∷ events) w c h =
      subst (HasIdx _) (touch_twice (emitted_by address event) _ c n) (
        Has-events hash (i + 1) events _ (touch (emitted_by address event) c n)
          (Has-event event (event_id_of hash i) w c h))

  Has-receipts :
      (txs : List TransactionReceipt) (w : World S) (c : ContractIndex)
      → HasIdx w.store c
      → HasIdx
          (index_receipts storage codecs address block txs w).store
          (touch (any (λ (tx : TransactionReceipt). any (emitted_by address) tx.events) txs) c n)
  unfolding index_receipts
  Has-receipts [] w c h = h
  Has-receipts (tx ∷ txs) w c h =
      subst (HasIdx _) (touch_twice (any (emitted_by address) tx.events) _ c n) (
        Has-receipts txs _ (touch (any (emitted_by address) tx.events) c n)
          (Has-events tx.transaction_hash 0 tx.events w c h))

  -- The index is written whole, so that it is read whatever block it is read for.
  Has-latest :
      (s : S) (c : ContractIndex) (m : ℕ)
      → HasIdx s c
      → 0 < n
      → Has storage codecs reliable indices address m
          (save_contract_index_latest_block storage codecs s address n)
          (record c { latest_block = latest_of storage codecs c.blocks n })
  unfolding save_contract_index_latest_block set_latest_block
  Has-latest s c m h positive =
      subst
        (λ (x : ContractIndex).
          Has storage codecs reliable indices address m
            (put_index storage codecs s address
              (record x { latest_block = latest_of storage codecs x.blocks n }))
            (record c { latest_block = latest_of storage codecs c.blocks n }))
        (sym h.0)
        (Has-put storage codecs reliable indices address m s
          (record c { latest_block = latest_of storage codecs c.blocks n })
          (omega (arith, latest_of_bounds storage codecs c.blocks n)))

  -- What the whole block leaves: the block in the list if it touches the contract, and the latest block.
  pub Has-index :
      (w : World S) (c : ContractIndex) (m : ℕ)
      → HasIdx w.store c
      → 0 < n
      → let t = touch (is_touched address block) c n in
        Has storage codecs reliable indices address m
          (index storage codecs address block w).store
          (record t { latest_block = latest_of storage codecs t.blocks n })
  unfolding index
  Has-index w c m before positive =
      let txs = index_transactions storage codecs address n block.transactions w.store in
      let w' =
        index_receipts storage codecs address block block.transaction_receipts
          (record w { store = txs }) in
      Has-latest w'.store (touch (is_touched address block) c n) m
        (subst (HasIdx w'.store) (touch_twice (any (sent_by address) block.transactions) _ c n) (
          Has-receipts block.transaction_receipts (record w { store = txs }) _
            (Has-transactions storage codecs reliable indices address n block.transactions w.store c
              before)))
        positive

  -- Indexing a block leaves, as the index of the contract, the index from before with the number of the
  -- block in its list, if a transaction or an event of the block is the contract's, and with a latest
  -- block that is not below the number of the block or any number in the list. Before, the index must
  -- be readable with a latest block other than 0; the number of the block is not 0.
  pub index-contract_idx :
      (w : World S) (c : ContractIndex)
      → get_contract_idx storage codecs w.store address block.block_number ≡ c
      → c.latest_block ≢ 0
      → 0 < block.block_number
      → let after = (index storage codecs address block w).store in
        let left = get_contract_idx storage codecs after address block.block_number in
        (left.blocks ≡ (touch (is_touched address block) c block.block_number).blocks)
        × (block.block_number ≤ left.latest_block)
        × All (λ b. b ≤ left.latest_block) left.blocks
  index-contract_idx w c before nonzero positive =
      let left = touch (is_touched address block) c n in
      let bounds = latest_of_bounds storage codecs left.blocks n in
      let saved = Has-index w c n (before, nonzero) positive in
      (ap (λ (x : ContractIndex). x.blocks) saved.0, rw saved.0 bounds.0, rw saved.0 bounds.1)
