-- ===== src/Indexer/EventIndexer.antt =====
-- `EventIndexer` of internal/indexer/indexer.go: what indexing one block stores and publishes.
pub mod Published
pub mod IndexKept
pub mod IndexBlock
pub mod Steps
use Prim.Native.String.{◌++◌ as str_append}
use carbonable_leaderboard_b.Prelude.{
  ℕ, ◌+◌, ◌%◌, ◌^◌, ◌-◌, Bool, not, String, List, [], ◌∷◌, ◌++◌, Option, none, some, ◌==◌, ltb,
  if◌then◌else◌,
}
use carbonable_leaderboard_b.Go.Format.{decimal}
use carbonable_leaderboard_b.Go.Gob.{Bytes, Codec}
use carbonable_leaderboard_b.Starknet.Block.{
  Event, Transaction, TransactionReceipt, GetBlockResponse,
}
use carbonable_leaderboard_b.Starknet.FeltText.{ensure_stark_felt}
use carbonable_leaderboard_b.Indexer.Storage.{Storage}
use carbonable_leaderboard_b.Indexer.ContractIndex.{
  ContractIndex, IndexCodec, new_contract_index, set_latest_block, add_block, max_from,
}

-- A message of NATS: its subject and its data.
pub record Msg : Type 0 where
  pub subject : String
  pub body : String

-- The codecs of the values that the indexer stores.
pub record Codecs : Type 0 where
  pub transaction : Codec Transaction
  pub event : Codec Event
  pub block : Codec GetBlockResponse
  pub index : IndexCodec

-- What the indexer changes: the store, and the messages that it has published.
pub record World (S : Type 0) : Type 0 where
  pub store : S
  pub published : List Msg

abbrev pub index_key : String → String
index_key address = str_append "IDX#" address

abbrev pub tx_key : String → String → String
tx_key address hash = str_append address (str_append "#TX#" hash)

abbrev pub contract_event_key : String → String → String
contract_event_key address event_id = str_append address (str_append "#EVENT#" event_id)

abbrev pub event_key : String → String
event_key event_id = str_append "EVENT#" event_id

-- `fmt.Sprintf("%s_%d", tx.TransactionHash, eventIdx)`
abbrev pub event_id_of : String → ℕ → String
event_id_of hash i = str_append hash (str_append "_" (decimal i))

-- `event.EventId = …` and `event.RecordedAt = time.Unix(int64(block.Timestamp), 0)`
abbrev pub stamped : String → ℕ → Event → Event
stamped event_id timestamp event = record event { event_id = event_id; recorded_at = timestamp }

module _ {S : Type 0} (storage : Storage S) (codecs : Codecs) where
  -- `contractIdx.Decode(idx)`; an error is logged, and the new index is kept
  abbrev decoded : ContractIndex → Option ContractIndex → ContractIndex
  decoded new none = new
  decoded new (some c) = c

  unfoldable pub get_contract_idx : S → String → ℕ → ContractIndex
  get_contract_idx s address block =
      let new = new_contract_index block in
      if storage.has s (index_key address)
      then decoded new (codecs.index.decode_into new (storage.get s (index_key address)))
      else new

  abbrev pub put_index : S → String → ContractIndex → S
  put_index s address idx = (storage.set s (index_key address) (codecs.index.encode idx)).0

  unfoldable pub save_contract_index_interessting_block : S → String → ℕ → S
  unfolding get_contract_idx
  save_contract_index_interessting_block s address block =
      put_index s address (add_block (get_contract_idx s address block) block)

  -- `if len(idx.Blocks) > 0 { maxBlock := …; if maxBlock > block { block = maxBlock } }`
  unfoldable pub latest_of : List ℕ → ℕ → ℕ
  latest_of [] block = block
  latest_of (b ∷ bs) block = if ltb block (max_from b bs) then max_from b bs else block

  unfoldable pub save_contract_index_latest_block : S → String → ℕ → S
  unfolding get_contract_idx latest_of
  save_contract_index_latest_block s address block =
      let idx = get_contract_idx s address block in
      put_index s address (set_latest_block idx (latest_of idx.blocks block))

  -- the loop of `indexTransaction`
  unfoldable pub index_transactions : String → ℕ → List Transaction → S → S
  index_transactions address number [] s = s
  index_transactions address number (tx ∷ txs) s = index_transactions address number txs (
      if not (ensure_stark_felt tx.sender_address == address)
      then s
      else save_contract_index_interessting_block
          (storage.set s (tx_key address tx.transaction_hash) (codecs.transaction.encode tx)).0
          address number)

  -- the body of the inner loop of `indexEvent`, behind its test
  unfoldable pub index_one_event : String → GetBlockResponse → String → Event → World S → World S
  index_one_event address block event_id event w =
      let buf = codecs.event.encode (stamped event_id block.timestamp event) in
      let s1 = (storage.set w.store (contract_event_key address event_id) buf).0 in
      let s2 = (storage.set s1 (event_key event_id) buf).0 in
      record {
        store = save_contract_index_interessting_block s2 address block.block_number;
        published = w.published ++ record { subject = "event:published"; body = event_id } ∷ [];
      }

  -- the inner loop, from the index `i`
  unfoldable pub index_events_from :
      String → GetBlockResponse → String → ℕ → List Event → World S → World S
  index_events_from address block hash i [] w = w
  index_events_from address block hash i (event ∷ events) w =
      index_events_from address block hash (i + 1) events (
        if not (ensure_stark_felt event.from_address == address)
        then w
        else index_one_event address block (event_id_of hash i) event w)

  -- the outer loop
  unfoldable pub index_receipts :
      String → GetBlockResponse → List TransactionReceipt → World S → World S
  index_receipts address block [] w = w
  index_receipts address block (tx ∷ txs) w =
      index_receipts address block txs
        (index_events_from address block tx.transaction_hash 0 tx.events w)

  -- `Index`
  unfoldable pub index : String → GetBlockResponse → World S → World S
  index address block w =
      let txs = record w {
        store = index_transactions address block.block_number block.transactions w.store;
      } in
      let w' = index_receipts address block block.transaction_receipts txs in
      record w' { store = save_contract_index_latest_block w'.store address block.block_number }
