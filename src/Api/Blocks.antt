-- ===== src/Api/Blocks.antt =====
-- What the synchronizer stores, the API answers (internal/api/starknet.go and
-- internal/synchronizer/synchronizer.go).
use text.Mathlib.TextPositions.{eq_refl}
use carbonable_leaderboard_b.Prelude.{ℕ, ◌≡◌, true, String, some, arith}
use carbonable_leaderboard_b.Go.Format.{decimal}
use carbonable_leaderboard_b.Starknet.Block.{GetBlockResponse}
use carbonable_leaderboard_b.Indexer.Storage.{Storage, IsReliable}
use carbonable_leaderboard_b.Indexer.EventIndexer.{Codecs}
use carbonable_leaderboard_b.Indexer.Loop.{Gateway, block_key}
use carbonable_leaderboard_b.Synchronizer.{
  Formats, latest_block_key, store_block, write_latest_block, sync_block, fetch_block,
  store_latest_block,
}
use carbonable_leaderboard_b.Indexer.Keys.{latest-block_key}
use carbonable_leaderboard_b.Api.{status_ok, block}

module _ {S : Type 0} (storage : Storage S) (codecs : Codecs) (formats : Formats)
    (reliable : IsReliable storage) where
  stored_block-kept :
      (last number n : ℕ) (s : S)
      → storage.get (write_latest_block storage formats last number s) (block_key n)
        ≡ storage.get s (block_key n)
  unfolding write_latest_block
  stored_block-kept last number n s = ground (
    arith,
    reliable.get-set s latest_block_key (block_key n) (formats.text.encode (decimal number)),
    latest-block_key n,
  )

  has_block-kept :
      (last number n : ℕ) (s : S)
      → storage.has s (block_key n) ≡ true
      → storage.has (write_latest_block storage formats last number s) (block_key n) ≡ true
  unfolding write_latest_block
  has_block-kept last number n s h = ground (
    arith,
    reliable.has-set s latest_block_key (block_key n) (formats.text.encode (decimal number)),
    latest-block_key n,
  )

  synced_has :
      (b : GetBlockResponse) (s : S)
      → storage.has (sync_block storage formats b s) (block_key b.block_number) ≡ true
  unfolding sync_block store_block store_latest_block
  synced_has b s =
      has_block-kept _ b.block_number b.block_number (store_block storage formats b s)
        (rw (reliable.has-set s (block_key b.block_number) (block_key b.block_number) _, eq_refl))

  synced_decode :
      (b : GetBlockResponse) (s : S)
      → formats.block.decode (formats.block.encode b) ≡ some b
      → formats.block.decode
          (storage.get (sync_block storage formats b s) (block_key b.block_number))
        ≡ some b
  unfolding sync_block store_block store_latest_block
  synced_decode b s kept =
      rw
        (
          stored_block-kept _ b.block_number b.block_number (store_block storage formats b s),
          reliable.get-set s (block_key b.block_number) (block_key b.block_number) _,
          eq_refl,
        )
        kept

  -- A block that has been synced, and that gob reads as it was written, is what `FetchBlock` returns
  -- for its number, and what the API answers to every parameter that parses to its number.
  pub synced_block_is_served :
      (b : GetBlockResponse) (s : S) (gateway : Gateway) (param : String)
      → formats.block.decode (formats.block.encode b) ≡ some b
      → formats.parse_uint param ≡ some b.block_number
      → let s' = sync_block storage formats b s in
        (fetch_block storage formats gateway s' b.block_number ≡ some b)
        × (block storage codecs formats s' param ≡ status_ok b)
  unfolding fetch_block block
  synced_block_is_served b s gateway param kept read = (
    rw (synced_has b s) (synced_decode b s kept),
    rw (read, block, synced_has b s, synced_decode b s kept),
  )
