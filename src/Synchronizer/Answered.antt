-- ===== src/Synchronizer/Answered.antt =====
-- The synchronizer over the client of the gateway (internal/synchronizer/synchronizer.go and `Get` of
-- internal/starknet/rpc.go): the rounds until the gateway has a block.
use Prim.Native.String.{◌++◌ as str_append}
use carbonable_leaderboard_b.Prelude.{
  ℕ, ◌+◌, ◌^◌, ◌<◌, ◌≤◌, ◌≡◌, false, true, refl, ap, ◌∙◌, String, List, [], ◌∷◌, ◌++◌, Option, none,
  some, map, All, arith,
}
use carbonable_leaderboard_b.Go.Format.{decimal}
use carbonable_leaderboard_b.Go.Gob.{Bytes}
use carbonable_leaderboard_b.Starknet.Block.{GetBlockResponse}
use carbonable_leaderboard_b.Starknet.Feeder.{FeederClient, get_block, url_of}
use carbonable_leaderboard_b.Starknet.Feeder.Fetch.{
  Response, responded, Caller, returned, run_fetch, start, is_good, result_of, Turn,
}
use carbonable_leaderboard_b.Starknet.Feeder.Fetch.Ends.{fetcher_turns, then_caller, get_returns}
use carbonable_leaderboard_b.Indexer.Storage.{Storage, IsReliable}
use carbonable_leaderboard_b.Indexer.EventIndexer.{Codecs}
use carbonable_leaderboard_b.Indexer.Loop.{Gateway, block_key}
use carbonable_leaderboard_b.Synchronizer.{Formats, Sync, sync_block, fetch_block, round, rounds}
use carbonable_leaderboard_b.Api.{status_ok, block}
use carbonable_leaderboard_b.Api.Blocks.{synced_block_is_served}

-- What the gateway responds while a block is fetched, and the turns of `Get`'s goroutine and its
-- caller before the caller's last.
pub record Attempt : Type 0 where
  pub responses : String → Response
  pub turns : List Turn

abbrev received : Caller → Option Bytes
received (returned result) = result
received _ = none

-- `Get` of a URL behind its check of the limit, where the caller returns
unfoldable pub get : Attempt → String → Option Bytes
get a url = received (run_fetch (responded (a.responses url)) (then_caller a.turns) start).caller

get_lem :
    (a : Attempt) (url : String)
    → 2 ≤ fetcher_turns a.turns
    → get a url ≡ result_of (responded (a.responses url))
unfolding get
get_lem a url enough = ap (λ s. received s.caller) (get_returns (a.responses url) a.turns enough)

module _ (unmarshal : Bytes → Option GetBlockResponse) (c : FeederClient) where
  -- The response to a request of a block.
  abbrev pub response_of : Attempt → ℕ → Response
  response_of a n = a.responses (url_of c (str_append "get_block?blockNumber=" (decimal n)))

  -- The gateway as the client sees it in an attempt.
  abbrev pub gateway_in : Attempt → Gateway
  gateway_in a = get_block unmarshal (get a) c

  -- The goroutine ends or is held, and the response has another status or cannot be read.
  abbrev pub Fails : ℕ → Attempt → Type 0
  Fails n a = (2 ≤ fetcher_turns a.turns) × (is_good (response_of a n) ≡ false)

  failed_is_none : (n : ℕ) (a : Attempt) → Fails n a → gateway_in a n ≡ none
  unfolding get_block
  failed_is_none n a (enough, bad) = rw (get_lem a _ enough, bad)

  good_is_some :
      (n : ℕ) (a : Attempt) (b : GetBlockResponse)
      → 2 ≤ fetcher_turns a.turns
      → is_good (response_of a n) ≡ true
      → unmarshal (response_of a n).body ≡ some b
      → gateway_in a n ≡ some b
  unfolding get_block
  good_is_some n a b enough good read = rw (get_lem a _ enough, good) read

  module _ {S : Type 0} (storage : Storage S) (codecs : Codecs) (formats : Formats)
      (reliable : IsReliable storage) where
    fetch_missing :
        (gateway : Gateway) (s : S) (n : ℕ)
        → storage.has s (block_key n) ≡ false
        → fetch_block storage formats gateway s n ≡ gateway n
    unfolding fetch_block
    fetch_missing gateway s n missing = rw missing

    failed_round :
        (a : Attempt) (y : Sync storage formats)
        → storage.has y.store (block_key y.block) ≡ false
        → Fails y.block a
        → round storage formats (gateway_in a) y ≡ y
    unfolding round
    failed_round a y missing fails = rw (
      fetch_missing (gateway_in a) y.store y.block missing,
      failed_is_none y.block a fails,
      round,
    )

    good_round :
        (a : Attempt) (b : GetBlockResponse) (y : Sync storage formats)
        → storage.has y.store (block_key y.block) ≡ false
        → gateway_in a y.block ≡ some b
        → y.block + 1 < 2 ^ 64
        → round storage formats (gateway_in a) y
          ≡ record { block = y.block + 1; store = sync_block storage formats b y.store }
    unfolding round
    good_round a b y missing answered small =
        rw (fetch_missing (gateway_in a) y.store y.block missing, answered, round) (ground arith)

    rounds_to_block :
        (before : List Attempt) (a : Attempt) (b : GetBlockResponse) (y : Sync storage formats)
        → storage.has y.store (block_key y.block) ≡ false
        → All (Fails y.block) before
        → gateway_in a y.block ≡ some b
        → y.block + 1 < 2 ^ 64
        → rounds storage formats (map gateway_in (before ++ a ∷ [])) y
          ≡ record { block = y.block + 1; store = sync_block storage formats b y.store }
    unfolding rounds
    rounds_to_block [] a b y missing fail answered small = good_round a b y missing answered small
    rounds_to_block (f ∷ before) a b y missing fail answered small =
        ap (rounds storage formats (map gateway_in (before ++ a ∷ [])))
          (failed_round f y missing fail.0)
        ∙ rounds_to_block before a b y missing fail.1 answered small

    -- Where the block to fetch is not stored and is not the last of the 64-bit numbers: however many
    -- attempts the gateway answers with another status than 200 or a body that cannot be read, the
    -- first one that it answers with a block of that number, which gob reads as it was written, raises
    -- the number to fetch by one and stores the block, which is then what `FetchBlock` returns and what
    -- the API answers for its number. Each attempt passes the check of the limit and gives the
    -- goroutine of `Get` two turns at least, in any order with the caller's, which has the last; the
    -- goroutines that store the block and its number run one after the other.
    pub answered_block_is_served :
        (before : List Attempt) (a : Attempt) (b : GetBlockResponse) (y : Sync storage formats)
        (later : Gateway) (param : String)
        → storage.has y.store (block_key b.block_number) ≡ false
        → y.block ≡ b.block_number
        → b.block_number + 1 < 2 ^ 64
        → All (Fails b.block_number) before
        → 2 ≤ fetcher_turns a.turns
        → is_good (response_of a b.block_number) ≡ true
        → unmarshal (response_of a b.block_number).body ≡ some b
        → formats.block.decode (formats.block.encode b) ≡ some b
        → formats.parse_uint param ≡ some b.block_number
        → let y' = rounds storage formats (map gateway_in (before ++ a ∷ [])) y in
          (y'.block ≡ b.block_number + 1)
          × (fetch_block storage formats later y'.store b.block_number ≡ some b)
          × (block storage codecs formats y'.store param ≡ status_ok b)
    answered_block_is_served before a b y later param missing at small fail enough good read kept
          parsed =
        let ends =
          rounds_to_block before a b (record { block = b.block_number; store = y.store }) missing
            fail (good_is_some b.block_number a b enough good read) small in
        let same =
          ap
            (λ n.
              rounds storage formats (map gateway_in (before ++ a ∷ []))
                (record { block = n; store = y.store }))
            at in
        let served =
          synced_block_is_served storage codecs formats reliable b y.store later param kept
            parsed in
        rw (same, ends) (refl, served.0, served.1)
