-- ===== src/Tests/Restarts.antt =====
-- Two contracts over one store, and a restart of an indexer.
use carbonable_leaderboard_b.Prelude.{
  ℕ, ◌≡◌, refl, true, false, String, List, [], ◌∷◌, ◌++◌, Option, none, some, arith, eqb, filter,
  if◌then◌else◌,
}
use carbonable_leaderboard_b.Go.Format.{decimal}
use carbonable_leaderboard_b.Go.Gob.{Bytes}
use carbonable_leaderboard_b.Starknet.Block.{GetBlockResponse}
use carbonable_leaderboard_b.Starknet.FeltText.{ensure_stark_felt}
use carbonable_leaderboard_b.Indexer.EventIndexer.{Codecs, World, index_key}
use carbonable_leaderboard_b.Indexer.EventIndexer.IndexKept.{is_touched}
use carbonable_leaderboard_b.Indexer.EventIndexer.Published.{announce}
use carbonable_leaderboard_b.Indexer.Loop.{block_key, fetch_block, round, run}
use carbonable_leaderboard_b.Indexer.Schedule.{Delivery, receive}
use carbonable_leaderboard_b.Indexer.Schedule.Apart.{indices_after, Reads, receive-Reads}
use carbonable_leaderboard_b.Indexer.Schedule.Replayed.{deliveries_of, ids_in}
use carbonable_leaderboard_b.Indexer.Schedule.Restart.{
  CanFetch, restart_publishes_again, latest_block_is_sent_twice,
}
use carbonable_leaderboard_b.Tests.Chain.{block_9, address}
use carbonable_leaderboard_b.Tests.Stores.{
  Contents, nothing, with_key, memory, memory-IsReliable, index_codec, index_codec-RoundTripsInto,
}

abbrev block_8 : GetBlockResponse
block_8 = record block_9 { block_number = 8; transaction_receipts = [] }

abbrev block_10 : GetBlockResponse
block_10 = record block_9 { block_number = 10 }

abbrev block_at : ℕ → Option GetBlockResponse
block_at n =
    if eqb n 8
    then some block_8
    else if eqb n 9
    then some block_9
    else if eqb n 10
    then some block_10
    else none

abbrev decode_block : Bytes → Option GetBlockResponse
decode_block [] = none
decode_block (n ∷ rest) = block_at n

-- A block is written as its number.
abbrev codecs : Codecs
codecs = record {
  transaction = record { encode = λ tx. 2 ∷ []; decode = λ bytes. none };
  event = record { encode = λ e. 3 ∷ []; decode = λ bytes. none };
  block = record { encode = λ b. b.block_number ∷ []; decode = decode_block };
  index = index_codec;
}

abbrev synced : World Contents
synced = record {
  store =
      with_key (with_key (with_key nothing (block_key 8) (8 ∷ [])) (block_key 9) (9 ∷ []))
        (block_key 10) (10 ∷ []);
  published = [];
}

abbrev other : String
other = "0x0000000000000000000000000000000000000000000000000000000000000007"

-- The last block of the contract comes behind one of another.
abbrev deliveries : List Delivery
deliveries =
    record { address = address; block = block_8 }
    ∷ record { address = address; block = block_9 }
    ∷ record { address = other; block = block_9 }
    ∷ record { address = address; block = block_10 }
    ∷ []

fetched_8 : CanFetch memory codecs synced.store block_8
unfolding fetch_block decimal
fetched_8 = refl

fetched_9 : CanFetch memory codecs synced.store block_9
unfolding fetch_block decimal
fetched_9 = refl

fetched_10 : CanFetch memory codecs synced.store block_10
unfolding fetch_block decimal
fetched_10 = refl

no_index : memory.has synced.store (index_key address) ≡ false
unfolding decimal
no_index = refl

touched_10 : is_touched address block_10 ≡ true
unfolding ensure_stark_felt
touched_10 = refl

receive-Reads_example :
    Reads memory codecs address
      (receive memory codecs deliveries synced).store
      (indices_after address none (block_8 ∷ block_9 ∷ block_10 ∷ []))
receive-Reads_example =
    receive-Reads memory codecs memory-IsReliable index_codec-RoundTripsInto address deliveries
      synced none (omega arith) no_index

restart_publishes_again_example :
    let after = (receive memory codecs deliveries synced).store in
    let replay = (run memory codecs after address 8).0 in
    let again : World Contents = record { store = after; published = [] } in
    (replay ≡ filter (is_touched address) (block_8 ∷ block_9 ∷ block_10 ∷ []))
    × ((receive memory codecs (deliveries_of address replay) again).published
        ≡ announce (ids_in address (block_8 ∷ block_9 ∷ block_10 ∷ [])))
restart_publishes_again_example =
    restart_publishes_again memory codecs memory-IsReliable index_codec-RoundTripsInto address
      deliveries synced 8 no_index (omega arith) (fetched_8, (fetched_9, (fetched_10, tt)))
      (omega arith)

latest_block_is_sent_twice_example :
    let after = (receive memory codecs deliveries synced).store in
    let (replay, feed) = run memory codecs after address 8 in
    (replay ≡ filter (is_touched address) (block_8 ∷ block_9 ∷ []) ++ block_10 ∷ [])
    × ((round memory codecs block_at feed).sent ≡ block_10 ∷ [])
latest_block_is_sent_twice_example =
    latest_block_is_sent_twice memory codecs memory-IsReliable index_codec-RoundTripsInto address
      deliveries synced 8 (block_8 ∷ block_9 ∷ []) block_10 block_at no_index (omega arith)
      (fetched_8, (fetched_9, (fetched_10, tt))) (omega arith) refl (omega arith) touched_10
      (omega arith)
