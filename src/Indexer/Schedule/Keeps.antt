-- ===== src/Indexer/Schedule/Keeps.antt =====
-- What indexing a block leaves as it is in the store: every key that is not of the contract's own
-- (internal/indexer/indexer.go).
use carbonable_leaderboard_b.Prelude.{
  ℕ, ◌+◌, ◌≡◌, refl, ◌∙◌, subst, true, false, not, String, List, [], ◌∷◌, inl, inr, Bool-cases,
  ◌==◌, eq_iff, if◌then◌else◌,
}
use Prim.Native.String.{◌++◌ as str_append}
use carbonable_leaderboard_b.Go.Gob.{Bytes}
use carbonable_leaderboard_b.Starknet.Block.{
  Event, Transaction, TransactionReceipt, GetBlockResponse,
}
use carbonable_leaderboard_b.Starknet.FeltText.{ensure_stark_felt}
use carbonable_leaderboard_b.Indexer.Storage.{Storage, IsReliable}
use carbonable_leaderboard_b.Indexer.EventIndexer.{
  Codecs, World, index_key, tx_key, contract_event_key, event_key, event_id_of, stamped,
  get_contract_idx, save_contract_index_interessting_block, save_contract_index_latest_block,
  index_transactions, index_one_event, index_events_from, index_receipts, index,
}
use carbonable_leaderboard_b.Indexer.EventIndexer.IndexKept.{sent_by, emitted_by}
use carbonable_leaderboard_b.Indexer.Loop.{fetch_block, block_key}

-- A key that the indexer of the contract does not write.
pub record IsForeign (address k : String) : Type 0 where
  pub not_index : (index_key address == k) ≡ false
  pub not_felt : (felt rest : String) → (str_append (ensure_stark_felt felt) rest == k) ≡ false
  pub not_event : (id : String) → (event_key id == k) ≡ false

module _ {S : Type 0} (storage : Storage S) (k : String) where
  -- Both stores answer alike under the key.
  abbrev pub Keeps : S → S → Type 0
  Keeps s t = (storage.has t k ≡ storage.has s k) × (storage.get t k ≡ storage.get s k)

  Keeps-trans : {s t u : S} → Keeps s t → Keeps t u → Keeps s u
  Keeps-trans g h = (h.0 ∙ g.0, h.1 ∙ g.1)

  Keeps-set :
      (reliable : IsReliable storage) (s : S) (j : String) (v : Bytes)
      → (j == k) ≡ false
      → Keeps s (storage.set s j v).0
  Keeps-set reliable s j v other =
      (rw (reliable.has-set s j k v, other), rw (reliable.get-set s j k v, other))

module _ {S : Type 0} (storage : Storage S) (codecs : Codecs) (reliable : IsReliable storage)
    (address k : String) (foreign : IsForeign address k) where
  Keeps-touch :
      (s : S) (n : ℕ)
      → Keeps storage k s (save_contract_index_interessting_block storage codecs s address n)
  unfolding save_contract_index_interessting_block
  Keeps-touch s n = Keeps-set storage k reliable s (index_key address) _ foreign.not_index

  Keeps-latest :
      (s : S) (n : ℕ)
      → Keeps storage k s (save_contract_index_latest_block storage codecs s address n)
  unfolding save_contract_index_latest_block
  Keeps-latest s n = Keeps-set storage k reliable s (index_key address) _ foreign.not_index

  -- A key that starts with the address, which is the felt of the sender or of the emitter.
  own_key :
      (felt rest : String)
      → (ensure_stark_felt felt == address) ≡ true
      → (str_append address rest == k) ≡ false
  own_key felt rest ours =
      subst (λ a. (str_append a rest == k) ≡ false) ((eq_iff _ _).0 ours)
        (foreign.not_felt felt rest)

  Keeps-transactions :
      (n : ℕ) (txs : List Transaction) (s : S)
      → Keeps storage k s (index_transactions storage codecs address n txs s)
  unfolding index_transactions
  Keeps-transactions n [] s = (refl, refl)
  Keeps-transactions n (tx ∷ txs) s = elim (Bool-cases (sent_by address tx)) [
    | inl ours ↦
        let s1 =
          (storage.set s (tx_key address tx.transaction_hash) (codecs.transaction.encode tx)).0 in
        rw ours (
          Keeps-trans storage k
            (Keeps-trans storage k
              (Keeps-set storage k reliable s (tx_key address tx.transaction_hash) _
                (own_key tx.sender_address _ ours))
              (Keeps-touch s1 n))
            (Keeps-transactions n txs _))
    | inr other ↦ rw other (Keeps-transactions n txs s)
  ]

  Keeps-one_event :
      (block : GetBlockResponse) (id : String) (event : Event) (w : World S)
      → emitted_by address event ≡ true
      → Keeps storage k w.store (index_one_event storage codecs address block id event w).store
  unfolding index_one_event
  Keeps-one_event block id event w ours =
      let buf = codecs.event.encode (stamped id block.timestamp event) in
      let s1 = (storage.set w.store (contract_event_key address id) buf).0 in
      let s2 = (storage.set s1 (event_key id) buf).0 in
      Keeps-trans storage k
        (Keeps-trans storage k
          (Keeps-set storage k reliable w.store (contract_event_key address id) buf
            (own_key event.from_address _ ours))
          (Keeps-set storage k reliable s1 (event_key id) buf (foreign.not_event id)))
        (Keeps-touch s2 block.block_number)

  Keeps-event :
      (block : GetBlockResponse) (id : String) (event : Event) (w : World S)
      → Keeps storage k w.store
          (if not (emitted_by address event)
            then w
            else index_one_event storage codecs address block id event w).store
  Keeps-event block id event w = elim (Bool-cases (emitted_by address event)) [
    | inl ours ↦ rw ours (Keeps-one_event block id event w ours)
    | inr other ↦ rw other (refl, refl)
  ]

  Keeps-events :
      (block : GetBlockResponse) (hash : String) (i : ℕ) (events : List Event) (w : World S)
      → Keeps storage k w.store
          (index_events_from storage codecs address block hash i events w).store
  unfolding index_events_from
  Keeps-events block hash i [] w = (refl, refl)
  Keeps-events block hash i (event ∷ events) w =
      Keeps-trans storage k (Keeps-event block (event_id_of hash i) event w)
        (Keeps-events block hash (i + 1) events _)

  Keeps-receipts :
      (block : GetBlockResponse) (txs : List TransactionReceipt) (w : World S)
      → Keeps storage k w.store (index_receipts storage codecs address block txs w).store
  unfolding index_receipts
  Keeps-receipts block [] w = (refl, refl)
  Keeps-receipts block (tx ∷ txs) w =
      Keeps-trans storage k (Keeps-events block tx.transaction_hash 0 tx.events w)
        (Keeps-receipts block txs _)

  -- Indexing a block changes nothing under a key that the contract's indexer does not write.
  pub Keeps-index :
      (block : GetBlockResponse) (w : World S)
      → Keeps storage k w.store (index storage codecs address block w).store
  unfolding index
  Keeps-index block w =
      Keeps-trans storage k
        (Keeps-trans storage k (Keeps-transactions block.block_number block.transactions w.store)
          (Keeps-receipts block block.transaction_receipts _))
        (Keeps-latest _ block.block_number)

module _ {S : Type 0} (storage : Storage S) (codecs : Codecs) where
  -- What is read of an index, and of a block, is the same over stores that answer alike.
  pub get_contract_idx-Keeps :
      (address : String) (n : ℕ) (s t : S)
      → Keeps storage (index_key address) s t
      → get_contract_idx storage codecs t address n ≡ get_contract_idx storage codecs s address n
  unfolding get_contract_idx
  get_contract_idx-Keeps address n s t h = rw (h.0, h.1)

  pub fetch_block-Keeps :
      (n : ℕ) (s t : S)
      → Keeps storage (block_key n) s t
      → fetch_block storage codecs t n ≡ fetch_block storage codecs s n
  unfolding fetch_block
  fetch_block-Keeps n s t h = rw (h.0, h.1)
