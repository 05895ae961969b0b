-- ===== src/Indexer/Loop.antt =====
-- The goroutine `start` of `EventIndexer` and its helpers (internal/indexer/indexer.go): it feeds the
-- stored blocks to the indexer, one number after the other.
pub mod Feeding
use Prim.Native.String.{◌++◌ as str_append}
use carbonable_leaderboard_b.Prelude.{
  ℕ, ◌+◌, ◌%◌, ◌^◌, String, List, [], ◌∷◌, ◌++◌, Option, none, some, ltb, if◌then◌else◌,
}
use carbonable_leaderboard_b.Go.Format.{decimal}
use carbonable_leaderboard_b.Starknet.Block.{GetBlockResponse}
use carbonable_leaderboard_b.Indexer.Storage.{Storage}
use carbonable_leaderboard_b.Indexer.EventIndexer.{Codecs, get_contract_idx}

abbrev pub block_key : ℕ → String
block_key n = str_append "BLOCK#" (decimal n)

-- `client.GetBlock` of the feeder gateway; `none` for an error
abbrev pub Gateway : Type 0
Gateway = ℕ → Option GetBlockResponse

module _ {S : Type 0} (storage : Storage S) (codecs : Codecs) where
  -- `fetchBlock`: `none` for an error, of decoding or "block not found"
  unfoldable pub fetch_block : S → ℕ → Option GetBlockResponse
  fetch_block s n =
      if storage.has s (block_key n)
      then codecs.block.decode (storage.get s (block_key n))
      else none

  -- `syncBlock`: fetches the block anew and stores it under its own number
  unfoldable pub sync_block : Gateway → ℕ → S → S
  sync_block gateway n s = elim (gateway n) [
    | none ↦ s
    | some resp ↦ (storage.set s (block_key resp.block_number) (codecs.block.encode resp)).0
  ]

  -- The variables of `start`, the store that it writes to, and the blocks sent on `msgch`.
  pub record Feed : Type 0 where
    pub block : ℕ
    pub retries : ℕ
    pub store : S
    pub sent : List GetBlockResponse

  -- One round of the loop of `start`, with what the gateway answers in it.
  unfoldable pub round : Gateway → Feed → Feed
  unfolding fetch_block sync_block
  round gateway f = elim (fetch_block f.store f.block) [
    | none ↦
        if ltb 5 f.retries
        then record f { store = sync_block gateway f.block f.store; retries = 1 }
        else record f { retries = f.retries + 1 }
    | some resp ↦ record f { sent = f.sent ++ resp ∷ []; block = (f.block + 1) % 2 ^ 64 }
  ]

  -- The loop of `start`, round by round.
  unfoldable pub rounds : List Gateway → Feed → Feed
  unfolding round
  rounds [] f = f
  rounds (g ∷ gs) f = rounds gs (round g f)

  -- The loop of `replayBlocks`: a block that cannot be fetched is left out.
  unfoldable pub replay_blocks : S → List ℕ → List GetBlockResponse
  replay_blocks s [] = []
  replay_blocks s (b ∷ blocks) = elim (fetch_block s b) [
    | none ↦ replay_blocks s blocks
    | some resp ↦ resp ∷ replay_blocks s blocks
  ]

  -- What `Run` starts: the replay of the blocks of the stored index, and the feed from its latest
  -- block, or from the configured one if that is later.
  unfoldable pub run : S → String → ℕ → List GetBlockResponse × Feed
  unfolding replay_blocks get_contract_idx
  run s address start_block =
      let idx = get_contract_idx storage codecs s address start_block in
      (
        replay_blocks s idx.blocks,
        record {
          block = if ltb idx.latest_block start_block then start_block else idx.latest_block;
          retries = 0;
          store = s;
          sent = [];
        },
      )
