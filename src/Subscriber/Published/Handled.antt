-- ===== src/Subscriber/Published/Handled.antt =====
-- A block of a configured contract, from its indexer to the handlers of its events
-- (internal/indexer/indexer.go and internal/subscriber/subscriber.go).
use carbonable_leaderboard_b.Prelude.{
  ℕ, ◌≡◌, ap, sym, subst, ◌∙◌, String, List, [], ◌∷◌, ◌++◌, none, some, All, lookup,
}
use carbonable_leaderboard_b.Go.Outcome.{ok}
use carbonable_leaderboard_b.Starknet.Block.{Event, GetBlockResponse}
use carbonable_leaderboard_b.Config.{Config, Contract, get_contract}
use carbonable_leaderboard_b.Indexer.Storage.{Storage, IsReliable}
use carbonable_leaderboard_b.Indexer.EventIndexer.{
  Codecs, World, index_key, stamped, save_contract_index_latest_block, index_transactions, index,
}
use carbonable_leaderboard_b.Indexer.EventIndexer.Published.{announce}
use carbonable_leaderboard_b.Indexer.EventIndexer.Steps.{
  named_in, own, ids, NoTwice, index_receipts-own, published-own, own-emitted,
}
use carbonable_leaderboard_b.Indexer.Keys.{index_key-event}
use carbonable_leaderboard_b.Subscriber.Base.{Services, Database}
use carbonable_leaderboard_b.Subscriber.Register.{register_subscribers, handled, decoded, deliver}
use carbonable_leaderboard_b.Subscriber.Published.WholeBlock.{
  stored-set, IsKept, IsStored, all-IsStored, publish_all, HasKey, messages_of, all_are_published,
}

module _ {S D : Type 0} (sv : Services) (storage : Storage S) (database : Database D)
    (codecs : Codecs) (reliable : IsReliable storage) (address : String)
    (block : GetBlockResponse) where
  -- The events of the contract in the block, with their ids.
  abbrev pub own_events : List (String × Event)
  own_events = own address (named_in block.transaction_receipts)

  AllStored-latest :
      (s : S) (n : ℕ) (events : List (String × Event))
      → All (IsStored sv storage codecs reliable address block s) events
      → All
          (IsStored sv storage codecs reliable address block
            (save_contract_index_latest_block storage codecs s address n))
          events
  unfolding save_contract_index_latest_block
  AllStored-latest s n [] stored = tt
  AllStored-latest s n ((id, event) ∷ events) stored = (
    stored-set sv storage codecs reliable address block s (index_key address) id _
          (index_key-event id address)
        ∙ stored.0,
    AllStored-latest s n events stored.1,
  )

  -- Behind `Index`, each event of the contract is read under its id.
  pub IsStored-index :
      (w : World S)
      → NoTwice (ids own_events)
      → All (IsKept sv storage codecs reliable address block) own_events
      → All
          (IsStored sv storage codecs reliable address block
            (index storage codecs address block w).store)
          own_events
  unfolding index
  IsStored-index w once kept =
      let txs : World S = record w {
        store =
            index_transactions storage codecs address block.block_number block.transactions w.store;
      } in
      let done = index_receipts-own storage codecs address block block.transaction_receipts txs in
      AllStored-latest _ block.block_number own_events (
        subst
          (λ (v : World S).
            All (IsStored sv storage codecs reliable address block v.store) own_events)
          (sym done)
          (all-IsStored sv storage codecs reliable address block own_events txs
            (own-emitted address (named_in block.transaction_receipts)) once kept))

  published-own_events :
      (w : World S)
      → (index storage codecs address block w).published ≡ w.published ++ announce (ids own_events)
  unfolding index
  published-own_events w =
      let txs : World S = record w {
        store =
            index_transactions storage codecs address block.block_number block.transactions w.store;
      } in
      ap (λ (v : World S). v.published)
        (index_receipts-own storage codecs address block block.transaction_receipts txs)
      ∙ published-own storage codecs address block own_events txs

  -- An event that is handed to the handler of the subject under its id.
  abbrev pub IsHandled : S → String × Event → Type 0
  IsHandled s (id, event) =
      (subject : String) (queries : List D) (d : D)
      → deliver sv storage database s (record { subject = subject; body = id }) queries d
        ≡ handled sv storage database subject (stamped id block.timestamp event) queries d

  pub AllHandled :
      (s : S) (events : List (String × Event))
      → All (IsStored sv storage codecs reliable address block s) events
      → All (IsHandled s) events
  unfolding deliver decoded
  AllHandled s [] stored = tt
  AllHandled s ((id, event) ∷ events) stored = (
    λ subject queries d.
        ap
          (λ o. elim (lookup subject (register_subscribers sv storage database)) [
            | none ↦ ok (some d)
            | some handle ↦ decoded sv storage database handle o queries d
          ])
          stored.0,
    AllHandled s events stored.1,
  )

  -- Over a store that keeps its contract: indexing a block for a configured contract publishes the ids
  -- of the contract's events in the block. Where no id comes twice, each of the events has a key, and
  -- gob reads each as it was written, the subscriber of these messages, over the store behind the
  -- block, publishes for each event, in order, its id under the subject of each name of the contract
  -- whose hash is the event's first key, and under no other; and a message with such an id and any
  -- subject is given to the handler that has subscribed to the subject, with that event, its id and the
  -- time of the block, or is dropped if there is none.
  pub block-IsHandled :
      (cfg : Config) (c : Contract) (w : World S) (keyed : All (HasKey sv storage cfg) own_events)
      → get_contract cfg address ≡ some c
      → NoTwice (ids own_events)
      → All (IsKept sv storage codecs reliable address block) own_events
      → let after = index storage codecs address block w in
        (after.published ≡ w.published ++ announce (ids own_events))
        × (publish_all sv storage cfg after.store (ids own_events) []
            ≡ ok (messages_of sv storage cfg c own_events keyed))
        × All (IsHandled after.store) own_events
  block-IsHandled cfg c w keyed known once kept =
      let after = index storage codecs address block w in
      let stored = IsStored-index w once kept in
      (
        published-own_events w,
        all_are_published sv storage cfg codecs reliable address block c after.store own_events
            keyed [] known (own-emitted address (named_in block.transaction_receipts)) stored,
        AllHandled after.store own_events stored,
      )
