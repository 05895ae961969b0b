-- ===== src/Indexer/Schedule/Replayed.antt =====
-- The list of a contract's index, and the blocks that a replay of it has (`replayBlocks` of
-- internal/indexer/indexer.go).
use carbonable_leaderboard_b.Prelude.{
  ℕ, ◌+◌, ◌≡◌, ◌≢◌, refl, sym, ap, subst, ◌∙◌, Bool, true, false, String, List, [], ◌∷◌, ◌++◌,
  Option, none, some, arith, inl, inr, Bool-cases, All, filter, any, map, append_assoc, append-nil,
  if◌then◌else◌,
}
use carbonable_leaderboard_b.Starknet.Block.{Event, TransactionReceipt, GetBlockResponse}
use carbonable_leaderboard_b.Indexer.Storage.{Storage, IsReliable}
use carbonable_leaderboard_b.Indexer.ContractIndex.{ContractIndex, add_block, contains}
use carbonable_leaderboard_b.Indexer.EventIndexer.{Codecs, World, get_contract_idx, index}
use carbonable_leaderboard_b.Indexer.EventIndexer.IndexKept.{is_touched, emitted_by}
use carbonable_leaderboard_b.Indexer.EventIndexer.Published.{
  ids_from, ids_of, announce, announce-append, published-index,
}
use carbonable_leaderboard_b.Indexer.Loop.{block_key, fetch_block, replay_blocks}
use carbonable_leaderboard_b.Indexer.Keys.{index_key-block, felt-block, event_key-block}
use carbonable_leaderboard_b.Indexer.Schedule.{Delivery, receive}
use carbonable_leaderboard_b.Indexer.Schedule.Keeps.{IsForeign, Keeps-index, fetch_block-Keeps}
use carbonable_leaderboard_b.Indexer.Schedule.Apart.{index_after, or_new, indices_after, Reads}

-- No two of the blocks have the same number.
abbrev pub AllDifferent : List GetBlockResponse → Type 0
AllDifferent [] = Unit
AllDifferent (b ∷ blocks) =
    All (λ (c : GetBlockResponse). b.block_number ≢ c.block_number) blocks × AllDifferent blocks

abbrev pub number_of : GetBlockResponse → ℕ
number_of b = b.block_number

abbrev pub list_of : Option ContractIndex → List ℕ
list_of none = []
list_of (some c) = c.blocks

-- The messages of one indexer.
abbrev pub deliveries_of : String → List GetBlockResponse → List Delivery
deliveries_of address [] = []
deliveries_of address (b ∷ blocks) =
    record { address = address; block = b } ∷ deliveries_of address blocks

-- The ids of the events of a contract in blocks.
abbrev pub ids_in : String → List GetBlockResponse → List String
ids_in address [] = []
ids_in address (b ∷ blocks) = ids_of address b.transaction_receipts ++ ids_in address blocks

contains-snoc :
    (l : List ℕ) (n m : ℕ) → contains l m ≡ false → n ≢ m → contains (l ++ n ∷ []) m ≡ false
contains-snoc [] n m h differ = ground arith
contains-snoc (b ∷ l) n m h differ = ground (arith, contains-snoc l n m)

-- The list of the index behind a block that is not in it.
list-index_after :
    (address : String) (o : Option ContractIndex) (b : GetBlockResponse)
    → contains (list_of o) b.block_number ≡ false
    → (index_after address (or_new o b.block_number) b).blocks
      ≡ (if is_touched address b then list_of o ++ b.block_number ∷ [] else list_of o)
unfolding add_block
list-index_after address none b h = ground arith
list-index_after address (some c) b h = ground arith

abbrev pub AreNew : List ℕ → List GetBlockResponse → Type 0
AreNew l blocks = All (λ (b : GetBlockResponse). contains l b.block_number ≡ false) blocks

AreNew-if :
    (t : Bool) (l : List ℕ) (n : ℕ) (blocks : List GetBlockResponse)
    → All (λ (c : GetBlockResponse). n ≢ c.block_number) blocks
    → AreNew l blocks
    → AreNew (if t then l ++ n ∷ [] else l) blocks
AreNew-if t l n [] differ new = tt
AreNew-if true l n (b ∷ blocks) differ new =
    (contains-snoc l n b.block_number new.0 differ.0, AreNew-if true l n blocks differ.1 new.1)
AreNew-if false l n (b ∷ blocks) differ new = new

append-if :
    (t : Bool) (l : List ℕ) (b : GetBlockResponse) (rest : List GetBlockResponse)
    → (if t then l ++ b.block_number ∷ [] else l) ++ map number_of rest
      ≡ l ++ map number_of (if t then b ∷ rest else rest)
append-if true l b rest = append_assoc l (b.block_number ∷ []) (map number_of rest)
append-if false l b rest = refl

-- The list of the index behind new blocks that are all different.
pub list-indices_after :
    (address : String) (o : Option ContractIndex) (blocks : List GetBlockResponse)
    → AreNew (list_of o) blocks
    → AllDifferent blocks
    → list_of (indices_after address o blocks)
      ≡ list_of o ++ map number_of (filter (is_touched address) blocks)
list-indices_after address o [] new different = sym (append-nil (list_of o))
list-indices_after address o (b ∷ blocks) new different =
    let n = b.block_number in
    let e = list-index_after address o b new.0 in
    let rest =
      list-indices_after address (some (index_after address (or_new o n) b)) blocks
        (subst (λ l. AreNew l blocks) (sym e)
          (AreNew-if (is_touched address b) (list_of o) n blocks different.0 new.1))
        different.1 in
    rest
    ∙ ap (λ l. l ++ map number_of (filter (is_touched address) blocks)) e
    ∙ append-if (is_touched address b) (list_of o) b (filter (is_touched address) blocks)

pub AreNew-nil : (blocks : List GetBlockResponse) → AreNew [] blocks
AreNew-nil [] = tt
AreNew-nil (b ∷ blocks) = (refl, AreNew-nil blocks)

pub All-filter :
    (P : GetBlockResponse → Type 0) (p : GetBlockResponse → Bool) (blocks : List GetBlockResponse)
    → All P blocks
    → All P (filter p blocks)
All-filter P p [] h = tt
All-filter P p (b ∷ blocks) h = elim (Bool-cases (p b)) [
  | inl kept ↦ rw kept (h.0, All-filter P p blocks h.1)
  | inr left ↦ rw left (All-filter P p blocks h.1)
]

-- A block that does not touch the contract has no event of it.
ids_from-none :
    (address hash : String) (i : ℕ) (events : List Event)
    → any (emitted_by address) events ≡ false
    → ids_from address hash i events ≡ []
ids_from-none address hash i [] h = refl
ids_from-none address hash i (event ∷ events) h =
    ground (arith, ids_from-none address hash (i + 1) events)

ids_of-none :
    (address : String) (txs : List TransactionReceipt)
    → any (λ (tx : TransactionReceipt). any (emitted_by address) tx.events) txs ≡ false
    → ids_of address txs ≡ []
ids_of-none address [] h = refl
ids_of-none address (tx ∷ txs) h =
    ground (arith, ids_from-none address tx.transaction_hash 0 tx.events, ids_of-none address txs)

pub ids_in-touched :
    (address : String) (blocks : List GetBlockResponse)
    → ids_in address (filter (is_touched address) blocks) ≡ ids_in address blocks
ids_in-touched address [] = refl
ids_in-touched address (b ∷ blocks) = elim (Bool-cases (is_touched address b)) [
  | inl touched ↦ rw (touched, ids_in-touched address blocks)
  | inr other ↦
      let none_in : ids_of address b.transaction_receipts ≡ [] =
        ids_of-none address b.transaction_receipts (ground arith) in
      rw (other, none_in, ids_in-touched address blocks)
]

block-IsForeign : (address : String) (n : ℕ) → IsForeign address (block_key n)
block-IsForeign address n = record {
  not_index = index_key-block address n;
  not_felt = λ felt rest. felt-block felt rest n;
  not_event = λ id. event_key-block id n;
}

module _ {S : Type 0} (storage : Storage S) (codecs : Codecs) (address : String) where
  -- What the indexer of a contract publishes for blocks that it receives.
  pub published-receive :
      (blocks : List GetBlockResponse) (w : World S)
      → (receive storage codecs (deliveries_of address blocks) w).published
        ≡ w.published ++ announce (ids_in address blocks)
  unfolding receive
  published-receive [] w = sym (append-nil w.published)
  published-receive (b ∷ blocks) w =
      published-receive blocks (index storage codecs address b w)
      ∙ ap (λ l. l ++ announce (ids_in address blocks)) (published-index storage codecs address b w)
      ∙ append_assoc w.published _ _
      ∙ ap (λ l. w.published ++ l)
          (sym (announce-append (ids_of address b.transaction_receipts) (ids_in address blocks)))

  -- A replay has the blocks that can be fetched under their numbers.
  pub replay_blocks_lem :
      (s : S) (blocks : List GetBlockResponse)
      → All (λ (b : GetBlockResponse). fetch_block storage codecs s b.block_number ≡ some b) blocks
      → replay_blocks storage codecs s (map number_of blocks) ≡ blocks
  unfolding replay_blocks
  replay_blocks_lem s [] h = refl
  replay_blocks_lem s (b ∷ blocks) h = rw (h.0, replay_blocks, replay_blocks_lem s blocks h.1)

  pub list-Reads :
      (s : S) (o : Option ContractIndex) (n : ℕ)
      → Reads storage codecs address s o
      → (get_contract_idx storage codecs s address n).blocks ≡ list_of o
  unfolding get_contract_idx
  list-Reads s none n h = rw h
  list-Reads s (some c) n h = ap (λ (x : ContractIndex). x.blocks) (h.0 n)

module _ {S : Type 0} (storage : Storage S) (codecs : Codecs) (reliable : IsReliable storage) where
  -- The indexers leave the stored blocks.
  pub fetch_block-receive :
      (deliveries : List Delivery) (w : World S) (n : ℕ)
      → fetch_block storage codecs (receive storage codecs deliveries w).store n
        ≡ fetch_block storage codecs w.store n
  unfolding receive
  fetch_block-receive [] w n = refl
  fetch_block-receive (d ∷ deliveries) w n =
      fetch_block-receive deliveries (index storage codecs d.address d.block w) n
      ∙ fetch_block-Keeps storage codecs n w.store _ (
          Keeps-index storage codecs reliable d.address (block_key n) (block-IsForeign d.address n)
            d.block w)
