-- ===== src/Synchronizer/Latest.antt =====
-- The number of the latest block (internal/synchronizer/synchronizer.go): it never falls while the
-- calls that store it come one after the other, and can fall where they overlap.
use carbonable_leaderboard_b.Prelude.{
  ℕ, ◌^◌, ◌≤◌, ◌<◌, ◌≡◌, List, [], ◌∷◌, some, arith, leb, if◌then◌else◌, Bool-cases, Option-cases,
  All, inl, inr,
}
use carbonable_leaderboard_b.Go.Format.{decimal}
use carbonable_leaderboard_b.Starknet.Block.{GetBlockResponse}
use carbonable_leaderboard_b.Indexer.Storage.{Storage, IsReliable}
use carbonable_leaderboard_b.Indexer.Loop.{Gateway, block_key}
use carbonable_leaderboard_b.Synchronizer.{
  Formats, Sync, latest_block_key, get_latest_block, or_zero, store_block, write_latest_block,
  store_latest_block, sync_block, fetch_block, round, rounds,
}
use carbonable_leaderboard_b.Indexer.Keys.{block_key-latest}

-- gob reads the text of a 64-bit number as it was written, and `ParseUint` reads what `%d` prints.
pub record KeepsNumbers (formats : Formats) : Type 0 where
  pub decode-encode :
      (n : ℕ)
      → n < 2 ^ 64
      → formats.text.decode (formats.text.encode (decimal n)) ≡ some (decimal n)
  pub parse-decimal : (n : ℕ) → n < 2 ^ 64 → formats.parse_uint (decimal n) ≡ some n

module _ {S : Type 0} (storage : Storage S) (formats : Formats) where
  -- The latest block as the callers of `getLatestBlock` take it.
  abbrev pub latest : S → ℕ
  latest s = or_zero storage formats (get_latest_block storage formats s)

module _ {S : Type 0} (storage : Storage S) (formats : Formats) (reliable : IsReliable storage)
    (numbers : KeepsNumbers formats) where
  latest-write :
      (last number : ℕ) (s : S)
      → number < 2 ^ 64
      → latest storage formats (write_latest_block storage formats last number s)
        ≡ (if leb number last then latest storage formats s else number)
  unfolding write_latest_block get_latest_block
  latest-write last number s small = elim (Bool-cases (leb number last)) [
    | inl done ↦ rw (done)
    | inr newer ↦ rw (
      newer,
      reliable.get-set s latest_block_key latest_block_key _,
      numbers.decode-encode number small,
      numbers.parse-decimal number small,
    )
  ]

  latest-store_block :
      (block : GetBlockResponse) (s : S)
      → latest storage formats (store_block storage formats block s) ≡ latest storage formats s
  unfolding store_block get_latest_block
  latest-store_block block s =
      rw (reliable.get-set s (block_key block.block_number) latest_block_key _, block_key-latest)

  latest-sync_block :
      (block : GetBlockResponse) (s : S)
      → block.block_number < 2 ^ 64
      → latest storage formats (sync_block storage formats block s) ≡ (
          if leb block.block_number (latest storage formats s)
          then latest storage formats s
          else block.block_number)
  unfolding sync_block store_latest_block
  latest-sync_block block s small = rw (
    latest-write _ block.block_number (store_block storage formats block s) small,
    latest-store_block block s,
  )

  -- The numbers of the blocks that a round can meet are 64-bit integers.
  abbrev pub AnswersFit : Gateway → Type 0
  AnswersFit gateway =
      (s : S) (n : ℕ) (resp : GetBlockResponse)
      → fetch_block storage formats gateway s n ≡ some resp
      → resp.block_number < 2 ^ 64

  latest-round :
      (gateway : Gateway) (y : Sync storage formats)
      → AnswersFit gateway
      → latest storage formats y.store
        ≤ latest storage formats (round storage formats gateway y).store
  unfolding round
  latest-round gateway y fit =
      elim (Option-cases (fetch_block storage formats gateway y.store y.block)) [
        | inl failed ↦ rw (failed, round) (omega arith)
        | inr (resp, fetched) ↦
            rw (fetched, round, latest-sync_block resp y.store (fit y.store y.block resp fetched))
              (ground arith)
      ]

  -- Whatever blocks with 64-bit numbers the gateway answers, and however often it fails, the number of
  -- the latest block never falls over the rounds of the synchronizer, if the calls that store it come
  -- one after the other.
  pub latest-rounds :
      (gateways : List Gateway) (y : Sync storage formats)
      → All AnswersFit gateways
      → latest storage formats y.store
        ≤ latest storage formats (rounds storage formats gateways y).store
  unfolding rounds
  latest-rounds [] y fit = omega arith
  latest-rounds (g ∷ gs) y fit =
      omega (arith, latest-round g y fit.0, latest-rounds gs (round storage formats g y) fit.1)

  -- Two calls of `storeLatestBlock` for new 64-bit numbers that both read before either writes: where
  -- the one with the larger number writes first, the smaller number is what stays.
  pub overlap_falls :
      (a b : ℕ) (s : S)
      → latest storage formats s < a
      → a < b
      → b < 2 ^ 64
      → let read = latest storage formats s in
        let first = write_latest_block storage formats read b s in
        let second = write_latest_block storage formats read a first in
        (latest storage formats first ≡ b) × (latest storage formats second ≡ a)
  overlap_falls a b s newer order small =
      let read = latest storage formats s in
      let first = write_latest_block storage formats read b s in
      (
        rw (latest-write read b s small) (ground arith),
        rw (latest-write read a first (omega arith)) (ground arith),
      )
