-- ===== src/Indexer/Schedule/Apart.antt =====
-- The indexers of several contracts over one store (internal/indexer/indexer.go): the index of a
-- contract is what its own blocks make of it, in whatever order the indexers come.
use carbonable_leaderboard_b.Prelude.{
  ℕ, ◌<◌, ◌≡◌, ◌≢◌, refl, sym, ap, subst, ◌∙◌, false, String, List, [], ◌∷◌, Option, none, some,
  arith, inl, inr, ltb, Bool-cases, All, ◌==◌, eq_iff, if◌then◌else◌,
}
use carbonable_leaderboard_b.Starknet.Block.{GetBlockResponse}
use carbonable_leaderboard_b.Indexer.Storage.{Storage, IsReliable}
use carbonable_leaderboard_b.Indexer.ContractIndex.{
  ContractIndex, new_contract_index, max_from, RoundTripsInto,
}
use carbonable_leaderboard_b.Indexer.EventIndexer.{
  Codecs, World, index_key, get_contract_idx, latest_of, index,
}
use carbonable_leaderboard_b.Indexer.EventIndexer.IndexKept.{is_touched, touch, Has}
use carbonable_leaderboard_b.Indexer.EventIndexer.IndexBlock.{Has-index}
use carbonable_leaderboard_b.Indexer.Keys.{index_key-index, felt-index, event_key-index}
use carbonable_leaderboard_b.Indexer.Schedule.{Delivery, receive, blocks_of}
use carbonable_leaderboard_b.Indexer.Schedule.Keeps.{IsForeign, Keeps-index, get_contract_idx-Keeps}

-- The index behind a block: the block in the list if it touches the contract, and the largest number
-- of the list and the block's own.
abbrev pub index_after : String → ContractIndex → GetBlockResponse → ContractIndex
index_after address c block =
    let t = touch (is_touched address block) c block.block_number in
    record t { latest_block = max_from block.block_number t.blocks }

-- Where nothing is stored, the index starts at the block.
abbrev pub or_new : Option ContractIndex → ℕ → ContractIndex
or_new none n = new_contract_index n
or_new (some c) n = c

-- The index behind the blocks of one indexer.
abbrev pub indices_after :
    String → Option ContractIndex → List GetBlockResponse → Option ContractIndex
indices_after address o [] = o
indices_after address o (b ∷ blocks) =
    indices_after address (some (index_after address (or_new o b.block_number) b)) blocks

max_from-ltb :
    (m n : ℕ) (l : List ℕ)
    → (if ltb n (max_from m l) then max_from m l else n) ≡ max_from (if ltb n m then m else n) l
max_from-ltb m n [] = ground arith
max_from-ltb m n (b ∷ l) = ground (
  arith,
  max_from-ltb (if ltb m b then b else m) n l,
  max_from-ltb b (if ltb n m then m else n) l,
  max_from-ltb b n l,
)

index-IsForeign : (a b : String) → (a == b) ≡ false → IsForeign a (index_key b)
index-IsForeign a b differ = record {
  not_index = index_key-index a b differ;
  not_felt = λ felt rest. felt-index felt rest b;
  not_event = λ id. event_key-index id b;
}

module _ {S : Type 0} (storage : Storage S) (codecs : Codecs) (address : String) where
  -- What is stored of the index: nothing, or an index that is read whatever block it is read for.
  abbrev pub Reads : S → Option ContractIndex → Type 0
  Reads s none = storage.has s (index_key address) ≡ false
  Reads s (some c) =
      ((n : ℕ) → get_contract_idx storage codecs s address n ≡ c) × (c.latest_block ≢ 0)

  latest_of-max : (l : List ℕ) (n : ℕ) → latest_of storage codecs l n ≡ max_from n l
  unfolding latest_of
  latest_of-max [] n = refl
  latest_of-max (b ∷ bs) n = max_from-ltb b n bs

module _ {S : Type 0} (storage : Storage S) (codecs : Codecs) (reliable : IsReliable storage)
    (indices : RoundTripsInto codecs.index) (address : String) where
  Reads-Has :
      (s : S) (o : Option ContractIndex) (n : ℕ)
      → 0 < n
      → Reads storage codecs address s o
      → Has storage codecs reliable indices address n s (or_new o n)
  unfolding get_contract_idx
  Reads-Has s none n positive h = (rw h, λ e. omega (arith, e))
  Reads-Has s (some c) n positive h = (h.0 n, h.1)

  Reads-own :
      (b : GetBlockResponse) (w : World S) (o : Option ContractIndex)
      → 0 < b.block_number
      → Reads storage codecs address w.store o
      → Reads storage codecs address
          (index storage codecs address b w).store
          (some (index_after address (or_new o b.block_number) b))
  Reads-own b w o positive h =
      let t = touch (is_touched address b) (or_new o b.block_number) b.block_number in
      let left = λ (m : ℕ).
        Has-index storage codecs reliable indices address b w (or_new o b.block_number) m
          (Reads-Has w.store o b.block_number positive h) positive in
      let e : latest_of storage codecs t.blocks b.block_number ≡ max_from b.block_number t.blocks =
        latest_of-max storage codecs address t.blocks b.block_number in
      (λ m. (left m).0 ∙ ap (λ k. record t { latest_block = k }) e, λ z. (left 0).1 (e ∙ z))

  Reads-other :
      (a : String) (b : GetBlockResponse) (w : World S) (o : Option ContractIndex)
      → (a == address) ≡ false
      → Reads storage codecs address w.store o
      → Reads storage codecs address (index storage codecs a b w).store o
  Reads-other a b w none differ h =
      (Keeps-index storage codecs reliable a _ (index-IsForeign a address differ) b w).0 ∙ h
  Reads-other a b w (some c) differ h = (
    λ n.
        get_contract_idx-Keeps storage codecs address n w.store _
          (Keeps-index storage codecs reliable a _ (index-IsForeign a address differ) b w)
        ∙ h.0 n,
    h.1,
  )

  -- Over a store that keeps its contract, and for blocks with numbers other than 0: in whatever order
  -- the indexers of several contracts index their blocks, the stored index of a contract is the one
  -- that its own blocks make of it, one after the other, of what was stored before: each block that
  -- touches the contract is in the list, once, and the latest block is the largest of the last block's
  -- number and the list. The index before is none, or one that is read with a latest block other
  -- than 0.
  pub receive-Reads :
      (deliveries : List Delivery) (w : World S) (o : Option ContractIndex)
      → All (λ (d : Delivery). 0 < d.block.block_number) deliveries
      → Reads storage codecs address w.store o
      → Reads storage codecs address
          (receive storage codecs deliveries w).store
          (indices_after address o (blocks_of address deliveries))
  unfolding receive
  receive-Reads [] w o positive h = h
  receive-Reads (d ∷ deliveries) w o positive h = elim (Bool-cases (d.address == address)) [
    | inl ours ↦
        let e : d.address ≡ address = (eq_iff _ _).0 ours in
        rw ours (
          receive-Reads deliveries (index storage codecs d.address d.block w)
            (some (index_after address (or_new o d.block.block_number) d.block)) positive.1
            (subst
              (λ a.
                Reads storage codecs address (index storage codecs a d.block w).store
                  (some (index_after address (or_new o d.block.block_number) d.block)))
              (sym e) (Reads-own d.block w o positive.0 h)))
    | inr other ↦ rw other (
        receive-Reads deliveries (index storage codecs d.address d.block w) o positive.1
          (Reads-other d.address d.block w o other h))
  ]
