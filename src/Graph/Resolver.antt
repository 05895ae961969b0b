-- ===== src/Graph/Resolver.antt =====
-- The resolvers `LeaderboardForWallet`, `BoostForWallet` and `NextBoostForWallet`
-- (graph/schema.resolvers.go). A Go `int` is given by its 64 bits.
use Prim.Native.String.{◌++◌ as str_append}
use mathlib.Core.Option.{map as map_option}
use carbonable_leaderboard_b.Prelude.{ℕ, ◌*◌, ◌%◌, ◌^◌, String, [], ◌∷◌, Option, none, some}
use carbonable_leaderboard_b.Go.Outcome.{Outcome, ok, ◌>>=◌}
use carbonable_leaderboard_b.Go.Format.{decimal_int64, hexadecimal_int64}
use carbonable_leaderboard_b.Go.Sort.{Sorter}
use carbonable_leaderboard_b.Go.Uint256.{Uint256}
use carbonable_leaderboard_b.Leaderboard.Event.{DomainEvent}
use carbonable_leaderboard_b.Leaderboard.Boost.{
  get_interval, default_project_value_boost_calculator,
}
use carbonable_leaderboard_b.Leaderboard.Manager.{mint_page_calculator_manager}
use carbonable_leaderboard_b.Leaderboard.Line.{FormatHundredths, LeaderboardLine}
use carbonable_leaderboard_b.Leaderboard.Ranking.{rank, new_personnal_ranking}
use carbonable_leaderboard_b.Graph.Page.{
  LeaderboardQueryResult, LeaderboardLineData, item_to_gql_model,
}

-- `LeaderboardForWallet`, over what the database answers for a wallet: `none` for a wallet that is no
-- felt, and for an error of the query, which is returned.
unfoldable pub leaderboard_for_wallet :
    (String → Option ℕ)
    → (ℕ → String)
    → (String → Option LeaderboardQueryResult)
    → String
    → Option LeaderboardLineData
leaderboard_for_wallet unmarshal_json felt_to_string raw wallet_address =
    elim (unmarshal_json wallet_address) [
      | none ↦ none
      | some wallet_felt ↦ map_option item_to_gql_model (raw (felt_to_string wallet_felt))
    ]

pub record BoostForValue : Type 0 where
  pub value : String
  pub total_score : String
  pub boost : String

pub record NextBoostForValue : Type 0 where
  pub missing : String
  pub total_score : String
  pub boost : String

-- What the two resolvers take from outside: big integers, the sort, the printing of floats, a ULID
-- and the time.
pub record Runtime : Type 0 where
  pub u256 : Uint256
  pub sorter : Sorter DomainEvent
  pub format : FormatHundredths
  pub ulid : String
  pub now : ℕ

-- The purchase that the resolvers make up.
unfoldable pub fake_buy : Runtime → String → ℕ → DomainEvent
fake_buy rt wallet_address value_to_buy = record {
  recorded_at = rt.now;
  event_data =
      ("value", str_append "0x" (hexadecimal_int64 (value_to_buy * 1000000 % 2 ^ 64))) ∷ [];
  metadata = [];
  event_id = "";
  event_name_felt = "";
  event_name = "minter:buy";
  from_address = "";
  wallet_address = wallet_address;
  keys = [];
  id = "";
}

-- The line of a ranking of that purchase alone.
unfoldable pub mint_page_line : Runtime → String → ℕ → Outcome LeaderboardLine
unfolding fake_buy
mint_page_line rt wallet_address value_to_buy =
    rank rt.u256 rt.format rt.ulid mint_page_calculator_manager (
      new_personnal_ranking rt.sorter wallet_address (fake_buy rt wallet_address value_to_buy ∷ []))
    >>= λ result. ok result.0

unfoldable pub boost_for_wallet : Runtime → String → ℕ → Outcome BoostForValue
unfolding mint_page_line
boost_for_wallet rt wallet_address value_to_buy = do
  line ← mint_page_line rt wallet_address value_to_buy
  let found = get_interval rt.u256 default_project_value_boost_calculator value_to_buy
  ok (record {
    value = decimal_int64 value_to_buy;
    total_score = line.total_score;
    boost = rt.u256.to_string found.boost;
  })

unfoldable pub next_boost_for_wallet : Runtime → String → ℕ → Outcome NextBoostForValue
unfolding mint_page_line
next_boost_for_wallet rt wallet_address value_to_buy = do
  line ← mint_page_line rt wallet_address value_to_buy
  let found = get_interval rt.u256 default_project_value_boost_calculator value_to_buy
  ok (record {
    missing = rt.u256.to_string (rt.u256.sub found.next value_to_buy);
    total_score = line.total_score;
    boost = rt.u256.to_string found.next_boost;
  })
