-- ===== src/Tests/Attempts.antt =====
-- A block that the gateway does not have at first.
use carbonable_leaderboard_b.Prelude.{
  ◌+◌, ◌≡◌, false, true, refl, [], ◌∷◌, ◌++◌, Option, none, some, map, arith,
}
use carbonable_leaderboard_b.Go.Gob.{Bytes}
use carbonable_leaderboard_b.Starknet.Block.{GetBlockResponse}
use carbonable_leaderboard_b.Starknet.Feeder.{FeederClient, new_feeder_gateway_client}
use carbonable_leaderboard_b.Starknet.Feeder.Fetch.{of_fetcher, of_caller}
use carbonable_leaderboard_b.Indexer.Loop.{Gateway}
use carbonable_leaderboard_b.Synchronizer.{Sync, fetch_block, rounds}
use carbonable_leaderboard_b.Synchronizer.Answered.{Attempt, gateway_in, answered_block_is_served}
use carbonable_leaderboard_b.Api.{status_ok, block}
use carbonable_leaderboard_b.Tests.Chain.{block_9}
use carbonable_leaderboard_b.Tests.Stores.{nothing, memory, memory-IsReliable, formats, codecs}

-- A body of one byte is the block.
abbrev unmarshal : Bytes → Option GetBlockResponse
unmarshal [] = none
unmarshal (x ∷ body) = some block_9

abbrev client : FeederClient
client = new_feeder_gateway_client "https://gateway"

abbrev no_block : Attempt
no_block = record {
  responses = λ url. record { status_code = 400; body = 123 ∷ []; read_fails = false };
  turns = of_fetcher ∷ of_caller ∷ of_fetcher ∷ [];
}

abbrev cut_off : Attempt
cut_off = record {
  responses = λ url. record { status_code = 200; body = []; read_fails = true };
  turns = of_caller ∷ of_fetcher ∷ of_fetcher ∷ [];
}

abbrev answers : Attempt
answers = record {
  responses = λ url. record { status_code = 200; body = 123 ∷ []; read_fails = false };
  turns = of_fetcher ∷ of_fetcher ∷ [];
}

abbrev at_9 : Sync memory (formats block_9)
at_9 = record { block = 9; store = nothing }

abbrev silent : Gateway
silent n = none

answered_block_is_served_example :
    let y' =
      rounds memory
        (formats block_9)
        (map (gateway_in unmarshal client) ((no_block ∷ cut_off ∷ []) ++ answers ∷ []))
        at_9 in
    (y'.block ≡ 9 + 1)
    × (fetch_block memory (formats block_9) silent y'.store 9 ≡ some block_9)
    × (block memory (codecs block_9) (formats block_9) y'.store "9" ≡ status_ok block_9)
answered_block_is_served_example =
    answered_block_is_served unmarshal client memory (codecs block_9) (formats block_9)
      memory-IsReliable (no_block ∷ cut_off ∷ []) answers block_9 at_9 silent "9" refl refl
      (omega arith) ((omega arith, refl), ((omega arith, refl), tt)) (omega arith) refl refl refl
      refl
