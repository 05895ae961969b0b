-- ===== src/Synchronizer.antt =====
-- internal/synchronizer/synchronizer.go: blocks are fetched one after the other and stored, with the
-- number of the latest.
pub mod Latest
pub mod Answered
use Prim.Native.String.{◌++◌ as str_append}
use carbonable_leaderboard_b.Prelude.{
  ℕ, ◌+◌, ◌%◌, ◌^◌, String, List, [], ◌∷◌, ◌++◌, Option, none, some, ltb, leb, if◌then◌else◌,
}
use carbonable_leaderboard_b.Go.Format.{decimal}
use carbonable_leaderboard_b.Go.Gob.{Codec}
use carbonable_leaderboard_b.Starknet.Block.{GetBlockResponse}
use carbonable_leaderboard_b.Indexer.Storage.{Storage}
use carbonable_leaderboard_b.Indexer.Loop.{Gateway, block_key}

abbrev pub latest_block_key : String
latest_block_key = "LATEST_BLOCK"

-- The codecs of what is stored, and `strconv.ParseUint(…, 10, 64)`, `none` for an error.
pub record Formats : Type 0 where
  pub block : Codec GetBlockResponse
  pub text : Codec String
  pub parse_uint : String → Option ℕ

module _ {S : Type 0} (storage : Storage S) (formats : Formats) where
  abbrev parsed : Option String → Option ℕ
  parsed none = none
  parsed (some bn) = formats.parse_uint bn

  -- `getLatestBlock`; `none` for an error
  unfoldable pub get_latest_block : S → Option ℕ
  get_latest_block s = parsed (formats.text.decode (storage.get s latest_block_key))

  -- The number that a caller goes on with: 0 beside an error.
  abbrev pub or_zero : Option ℕ → ℕ
  or_zero none = 0
  or_zero (some n) = n

  -- `storeBlock`
  unfoldable pub store_block : GetBlockResponse → S → S
  store_block block s =
      (storage.set s (block_key block.block_number) (formats.block.encode block)).0

  -- `storeLatestBlock` behind its read of the latest block, which was `last`
  unfoldable pub write_latest_block : ℕ → ℕ → S → S
  write_latest_block last number s =
      if leb number last
      then s
      else (storage.set s latest_block_key (formats.text.encode (decimal number))).0

  -- `storeLatestBlock`, with nothing between its read and its write
  unfoldable pub store_latest_block : ℕ → S → S
  unfolding get_latest_block write_latest_block
  store_latest_block number s = write_latest_block (or_zero (get_latest_block s)) number s

  -- `SyncBlock`, one of its goroutines after the other
  unfoldable pub sync_block : GetBlockResponse → S → S
  unfolding store_block store_latest_block
  sync_block block s = store_latest_block block.block_number (store_block block s)

  -- `FetchBlock`: from the store, or else from the gateway
  unfoldable pub fetch_block : Gateway → S → ℕ → Option GetBlockResponse
  fetch_block gateway s number =
      if storage.has s (block_key number)
      then formats.block.decode (storage.get s (block_key number))
      else gateway number

  -- The number that `start` begins with.
  unfoldable pub first_block : ℕ → S → ℕ
  unfolding get_latest_block
  first_block start_block s =
      let last_block = or_zero (get_latest_block s) in
      if ltb start_block last_block then last_block else start_block

  -- The state of the loops: the number to fetch, and the store. A round of `start` fetches, and hands
  -- a block to `Start`, which syncs it.
  pub record Sync : Type 0 where
    pub block : ℕ
    pub store : S

  unfoldable pub round : Gateway → Sync → Sync
  unfolding sync_block fetch_block
  round gateway y = elim (fetch_block gateway y.store y.block) [
    | none ↦ y
    | some resp ↦ record { block = (y.block + 1) % 2 ^ 64; store = sync_block resp y.store }
  ]

  unfoldable pub rounds : List Gateway → Sync → Sync
  unfolding round
  rounds [] y = y
  rounds (g ∷ gs) y = rounds gs (round g y)
