-- ===== src/Tests/Totals.antt =====
-- Boosts and totals of concrete scores.
use carbonable_leaderboard_b.Prelude.{ℕ, ◌+◌, ◌*◌, ◌/◌, ◌≤◌, ◌<◌, ◌≡◌, ◌⊎◌, refl, inl, inr, arith}
use carbonable_leaderboard_b.Go.Outcome.{ok}
use carbonable_leaderboard_b.Leaderboard.Event.{Score, amount_fund_rule_name}
use carbonable_leaderboard_b.Leaderboard.Boost.{apply, default_project_value_boost_calculator}
use carbonable_leaderboard_b.Leaderboard.Boost.Tiers.{factor, interval, next_tier, apply-interval}
use carbonable_leaderboard_b.Leaderboard.Total.{total_score, aggregate_categories}
use carbonable_leaderboard_b.Leaderboard.Total.Categories.{categories_split}
use carbonable_leaderboard_b.Tests.Integers.{u256, u256-Documented}
use carbonable_leaderboard_b.Tests.Events.{buy, score, two_scores, no_boost}

next_tier_example :
    let tier = interval u256 u256-Documented 700 in
    ((tier.next ≡ 0) × (5000 ≤ 700) × ((interval u256 u256-Documented 1200).boost ≡ tier.boost))
    ⊎ ((700 < tier.next)
        × ((interval u256 u256-Documented tier.next).boost ≡ tier.next_boost)
        × ((tier.next ≤ 1200) ⊎ ((interval u256 u256-Documented 1200).boost ≡ tier.boost)))
next_tier_example = next_tier u256 u256-Documented 700 1200 (omega arith)

apply-interval_example :
    (r : Score) × (apply u256 default_project_value_boost_calculator buy no_boost
        (score 700000000 amount_fund_rule_name buy)
      ≡ ok r)
    × (r.points ≡ 700 * 1000000 * factor (interval u256 u256-Documented 700).boost / 100)
apply-interval_example =
    apply-interval u256 u256-Documented 700 buy no_boost (score 700000000 amount_fund_rule_name buy)
      (omega arith) refl refl

categories_split_example :
    (fund farming : ℕ) × ((aggregate_categories u256 two_scores).fund ≡ u256.to_string fund)
    × ((aggregate_categories u256 two_scores).farming ≡ u256.to_string farming)
    × ((aggregate_categories u256 two_scores).other ≡ u256.to_string 0)
    × (fund + farming ≤ total_score u256 two_scores)
    × (total_score u256 two_scores ≤ fund + farming + 1)
categories_split_example =
    categories_split u256 u256-Documented two_scores (inl refl, (inr refl, tt)) (omega arith)
