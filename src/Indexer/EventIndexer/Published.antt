-- ===== src/Indexer/EventIndexer/Published.antt =====
-- What indexing a block publishes (internal/indexer/indexer.go).
use carbonable_leaderboard_b.Prelude.{
  ℕ, ◌+◌, ◌≡◌, refl, sym, String, List, [], ◌∷◌, ◌++◌, append-nil, append_assoc, inl, inr,
  Bool-cases, ◌==◌, if◌then◌else◌,
}
use carbonable_leaderboard_b.Starknet.Block.{Event, TransactionReceipt, GetBlockResponse}
use carbonable_leaderboard_b.Starknet.FeltText.{ensure_stark_felt}
use carbonable_leaderboard_b.Indexer.Storage.{Storage}
use carbonable_leaderboard_b.Indexer.EventIndexer.{
  Codecs, World, Msg, event_id_of, index_one_event, index_events_from, index_receipts, index,
}

-- The ids of the contract's events among those of a transaction, numbered from `i`.
abbrev pub ids_from : String → String → ℕ → List Event → List String
ids_from address hash i [] = []
ids_from address hash i (event ∷ events) =
    let rest = ids_from address hash (i + 1) events in
    if ensure_stark_felt event.from_address == address then event_id_of hash i ∷ rest else rest

-- Those of all the receipts of a block.
abbrev pub ids_of : String → List TransactionReceipt → List String
ids_of address [] = []
ids_of address (tx ∷ txs) = ids_from address tx.transaction_hash 0 tx.events ++ ids_of address txs

abbrev pub announce : List String → List Msg
announce [] = []
announce (id ∷ ids) = record { subject = "event:published"; body = id } ∷ announce ids

pub announce-append : (ids jds : List String) → announce (ids ++ jds) ≡ announce ids ++ announce jds
announce-append [] jds = refl
announce-append (id ∷ ids) jds = rw (announce-append ids jds)

module _ {S : Type 0} (storage : Storage S) (codecs : Codecs) where
  published-events :
      (address : String) (block : GetBlockResponse) (hash : String) (i : ℕ) (events : List Event)
      (w : World S)
      → (index_events_from storage codecs address block hash i events w).published
        ≡ w.published ++ announce (ids_from address hash i events)
  unfolding index_events_from
  published-events address block hash i [] w = sym (append-nil w.published)
  published-events address block hash i (event ∷ events) w =
      elim (Bool-cases (ensure_stark_felt event.from_address == address)) [
        | inl ours ↦
            rw (published-events address block hash (i + 1) events, ours)
              (unfold index_one_event in append_assoc w.published _ _)
        | inr other ↦ rw (published-events address block hash (i + 1) events, other)
      ]

  published-receipts :
      (address : String) (block : GetBlockResponse) (txs : List TransactionReceipt) (w : World S)
      → (index_receipts storage codecs address block txs w).published
        ≡ w.published ++ announce (ids_of address txs)
  unfolding index_receipts
  published-receipts address block [] w = sym (append-nil w.published)
  published-receipts address block (tx ∷ txs) w = rw (
    published-receipts address block txs
        (index_events_from storage codecs address block tx.transaction_hash 0 tx.events w),
    published-events address block tx.transaction_hash 0 tx.events w,
    announce-append (ids_from address tx.transaction_hash 0 tx.events) (ids_of address txs),
    append_assoc,
  )

  -- Indexing a block publishes the ids of the contract's events in it, each once, in the order of the
  -- receipts and of the events in them, behind what was published before, and nothing else.
  pub published-index :
      (address : String) (block : GetBlockResponse) (w : World S)
      → (index storage codecs address block w).published
        ≡ w.published ++ announce (ids_of address block.transaction_receipts)
  unfolding index
  published-index address block w = published-receipts address block block.transaction_receipts _
