-- ===== src/Indexer/EventIndexer/IndexKept.antt =====
-- What indexing a block does to the index of its contract (internal/indexer/indexer.go).
use text.Mathlib.TextPositions.{eq_refl}
use carbonable_leaderboard_b.Prelude.{
  ℕ, ◌≤◌, ◌≡◌, ◌≢◌, refl, sym, subst, ◌∙◌, Bool, true, false, String, List, [], ◌∷◌, ◌++◌, arith,
  inl, inr, ltb, All, Bool-cases, ◌==◌, ◌||◌, any, if◌then◌else◌, eq_iff,
}
use carbonable_leaderboard_b.Starknet.Block.{
  Event, Transaction, TransactionReceipt, GetBlockResponse,
}
use carbonable_leaderboard_b.Starknet.FeltText.{ensure_stark_felt}
use carbonable_leaderboard_b.Go.Gob.{Bytes}
use carbonable_leaderboard_b.Indexer.Storage.{Storage, IsReliable}
use carbonable_leaderboard_b.Indexer.ContractIndex.{
  ContractIndex, new_contract_index, add_block, contains, max_from, or_blocks, overlay,
  RoundTripsInto,
}
use carbonable_leaderboard_b.Indexer.EventIndexer.{
  Codecs, index_key, tx_key, put_index, get_contract_idx, latest_of,
  save_contract_index_interessting_block, index_transactions,
}
use carbonable_leaderboard_b.Indexer.Keys.{felt-index}

-- Whether a transaction or an event of the block is the contract's.
abbrev pub sent_by : String → Transaction → Bool
sent_by address tx = ensure_stark_felt tx.sender_address == address

abbrev pub emitted_by : String → Event → Bool
emitted_by address event = ensure_stark_felt event.from_address == address

abbrev pub is_touched : String → GetBlockResponse → Bool
is_touched address block =
    any (sent_by address) block.transactions
    || any (λ (tx : TransactionReceipt). any (emitted_by address) tx.events)
        block.transaction_receipts

-- The index with the block in it, if the block touches the contract.
abbrev pub touch : Bool → ContractIndex → ℕ → ContractIndex
touch t c number = if t then add_block c number else c

blocks_self : (l : List ℕ) → or_blocks [] l ≡ l
blocks_self [] = refl
blocks_self (b ∷ bs) = refl

-- An index whose latest block is not 0 is read as it was written.
overlay_self :
    (n : ℕ) (c : ContractIndex) → c.latest_block ≢ 0 → overlay (new_contract_index n) c ≡ c
overlay_self n c h = ground (arith, blocks_self c.blocks)

contains-append : (l : List ℕ) (n : ℕ) → contains (l ++ n ∷ []) n ≡ true
contains-append [] n = ground arith
contains-append (b ∷ l) n = ground (arith, contains-append l n)

-- Adding a block twice is adding it once.
add_block_twice : (c : ContractIndex) (n : ℕ) → add_block (add_block c n) n ≡ add_block c n
unfolding add_block
add_block_twice c n = elim (Bool-cases (contains c.blocks n)) [
  | inl old ↦ rw (old, old)
  | inr new ↦ rw (new, contains-append c.blocks n)
]

pub touch_twice :
    (a b : Bool) (c : ContractIndex) (n : ℕ) → touch b (touch a c n) n ≡ touch (a || b) c n
touch_twice true true c n = add_block_twice c n
touch_twice true false c n = refl
touch_twice false b c n = refl

pub touch-latest :
    (a : Bool) (c : ContractIndex) (n : ℕ) → (touch a c n).latest_block ≡ c.latest_block
unfolding add_block
touch-latest a c n = ground arith

max_from_bounds : (m : ℕ) (l : List ℕ) → (m ≤ max_from m l) × All (λ b. b ≤ max_from m l) l
max_from_bounds m [] = (omega arith, tt)
max_from_bounds m (b ∷ l) =
    let bounds = max_from_bounds (if ltb m b then b else m) l in
    (ground (arith, bounds), (ground (arith, bounds), bounds.1))

All-le : (m n : ℕ) (l : List ℕ) → m ≤ n → All (λ b. b ≤ m) l → All (λ b. b ≤ n) l
All-le m n [] h all = tt
All-le m n (b ∷ l) h all = (omega arith, All-le m n l h all.1)

module _ {S : Type 0} (storage : Storage S) (codecs : Codecs) where
  pub latest_of_bounds :
      (l : List ℕ) (n : ℕ)
      → (n ≤ latest_of storage codecs l n) × All (λ b. b ≤ latest_of storage codecs l n) l
  unfolding latest_of
  latest_of_bounds [] n = (omega arith, tt)
  latest_of_bounds (b ∷ bs) n =
      let (first, all) = max_from_bounds b bs in
      let top : max_from b bs ≤ (if ltb n (max_from b bs) then max_from b bs else n) =
        ground arith in
      (ground arith, (omega arith, All-le _ _ bs top all))

module _ {S : Type 0} (storage : Storage S) (codecs : Codecs) (reliable : IsReliable storage)
    (indices : RoundTripsInto codecs.index) (address : String) (n : ℕ) where
  -- What the store has for the index of the contract, at the block `n`.
  abbrev pub Has : S → ContractIndex → Type 0
  Has s c = (get_contract_idx storage codecs s address n ≡ c) × (c.latest_block ≢ 0)

  pub Has-put :
      (s : S) (c : ContractIndex)
      → c.latest_block ≢ 0
      → Has (put_index storage codecs s address c) c
  unfolding get_contract_idx
  Has-put s c h = (
    rw
        (
          reliable.has-set s (index_key address) (index_key address) (codecs.index.encode c),
          reliable.get-set s (index_key address) (index_key address) (codecs.index.encode c),
          eq_refl,
          indices.decode-encode,
        )
        (overlay_self n c h),
    h,
  )

  pub Has-set :
      (s : S) (c : ContractIndex) (k : String) (v : Bytes)
      → (k == index_key address) ≡ false
      → Has s c
      → Has (storage.set s k v).0 c
  unfolding get_contract_idx
  Has-set s c k v other h = (
    rw
        (
          reliable.has-set s k (index_key address) v,
          reliable.get-set s k (index_key address) v,
          other,
        )
        h.0,
    h.1,
  )

  pub Has-touch :
      (s : S) (c : ContractIndex)
      → Has s c
      → Has (save_contract_index_interessting_block storage codecs s address n) (add_block c n)
  unfolding save_contract_index_interessting_block
  Has-touch s c h =
      subst (λ x. Has (put_index storage codecs s address (add_block x n)) (add_block c n))
        (sym h.0) (Has-put s (add_block c n) (λ e. h.1 (sym (touch-latest true c n) ∙ e)))

  -- Both loops go on with an index that has the block already.
  pub Has-again :
      (s : S) (c : ContractIndex) (t : Bool)
      → Has s (touch t (add_block c n) n)
      → Has s (touch true c n)
  Has-again s c t h = subst (Has s) (touch_twice true t c n) h

  pub Has-transactions :
      (txs : List Transaction) (s : S) (c : ContractIndex)
      → Has s c
      → Has
          (index_transactions storage codecs address n txs s)
          (touch (any (sent_by address) txs) c n)
  unfolding index_transactions
  Has-transactions [] s c h = h
  Has-transactions (tx ∷ txs) s c h = elim (Bool-cases (sent_by address tx)) [
    | inl ours ↦
        let key : (tx_key address tx.transaction_hash == index_key address) ≡ false =
          subst (λ a. (tx_key a tx.transaction_hash == index_key address) ≡ false)
            ((eq_iff _ _).0 ours) (felt-index tx.sender_address _ address) in
        let s1 =
          (storage.set s (tx_key address tx.transaction_hash) (codecs.transaction.encode tx)).0 in
        rw ours (
          Has-again _ c (any (sent_by address) txs)
            (Has-transactions txs _ (add_block c n) (Has-touch s1 c (Has-set s c _ _ key h))))
    | inr other ↦ rw other (Has-transactions txs s c h)
  ]
