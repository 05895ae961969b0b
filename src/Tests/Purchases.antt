-- ===== src/Tests/Purchases.antt =====
-- The boost of concrete purchases.
use carbonable_leaderboard_b.Prelude.{
  ℕ, ◌*◌, ◌-◌, ◌/◌, ◌≡◌, refl, none, some, arith, ltb, if◌then◌else◌,
}
use carbonable_leaderboard_b.Go.Format.{decimal_int64, hexadecimal_int64}
use carbonable_leaderboard_b.Go.Outcome.{ok}
use carbonable_leaderboard_b.Go.Uint256.{modulus}
use carbonable_leaderboard_b.Leaderboard.Event.{DomainEvent}
use carbonable_leaderboard_b.Leaderboard.Boost.Tiers.{interval, factor}
use carbonable_leaderboard_b.Graph.Resolver.{
  Runtime, fake_buy, boost_for_wallet, next_boost_for_wallet,
}
use carbonable_leaderboard_b.Graph.Purchase.{value_read, boosts_for_wallet}
use carbonable_leaderboard_b.Tests.Integers.{u256, u256-Documented}
use carbonable_leaderboard_b.Tests.Sorting.{sorter, sorter-Sorts}
use carbonable_leaderboard_b.Tests.Events.{format}

abbrev runtime : Runtime
runtime = record {
  u256 = u256;
  sorter = sorter DomainEvent;
  format = format;
  ulid = "01H";
  now = 1700000000;
}

value_read-700 : value_read runtime u256-Documented "0x4" 700 ≡ some (700 * 1000000)
unfolding fake_buy hexadecimal_int64
value_read-700 = refl

boosts_for_wallet_example :
    let tier = interval u256 u256-Documented 700 in
    let points = u256.to_string (700 * factor tier.boost / 100) in
    let missing = if ltb 700 5000 then tier.next - 700 else modulus - 700 in
    (boost_for_wallet runtime "0x4" 700
      ≡ ok (record {
        value = decimal_int64 700;
        total_score = points;
        boost = u256.to_string tier.boost;
      }))
    × (next_boost_for_wallet runtime "0x4" 700
        ≡ ok (record {
          missing = u256.to_string missing;
          total_score = points;
          boost = u256.to_string tier.next_boost;
        }))
boosts_for_wallet_example =
    boosts_for_wallet runtime u256-Documented (sorter-Sorts DomainEvent) "0x4" 700 value_read-700
      (omega arith)

abbrev minus_one : ℕ
minus_one = 18446744073709551615

value_unread : value_read runtime u256-Documented "0x4" minus_one ≡ none
unfolding fake_buy hexadecimal_int64
value_unread = refl
