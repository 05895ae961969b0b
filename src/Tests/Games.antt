-- ===== src/Tests/Games.antt =====
-- Rankings of concrete events.
use mathlib.Core.List.{Perm}
use carbonable_leaderboard_b.Prelude.{
  ◌%◌, ◌/◌, ◌≤◌, ◌≡◌, refl, some, ◌⊎◌, List, [], ◌∷◌, ◌++◌, All, inl, length,
}
use carbonable_leaderboard_b.Go.Outcome.{ok, fatal, panic}
use carbonable_leaderboard_b.Go.Uint256.{modulus}
use carbonable_leaderboard_b.Leaderboard.Event.{
  DomainEvent, Score, amount_fund_rule_name, early_adopter_rule_name, number_of_projects_rule_name,
}
use carbonable_leaderboard_b.Leaderboard.Builder.{
  number_of_projects, resaler, offseter, early_adopter, supports, compute,
}
use carbonable_leaderboard_b.Leaderboard.Boost.{check, apply}
use carbonable_leaderboard_b.Leaderboard.Manager.{
  compute_score, run_builder, apply_boosters, apply_booster,
}
use carbonable_leaderboard_b.Leaderboard.Manager.Awards.{AtMostOnce}
use carbonable_leaderboard_b.Leaderboard.Manager.Keeps.{compute_score_adds}
use carbonable_leaderboard_b.Leaderboard.Line.{LeaderboardLine}
use carbonable_leaderboard_b.Leaderboard.Total.{total_score, aggregate_categories}
use carbonable_leaderboard_b.Leaderboard.Total.Sums.{sum_points}
use carbonable_leaderboard_b.Leaderboard.Ranking.{
  PersonnalRanking, handle_events, rank, new_personnal_ranking,
}
use carbonable_leaderboard_b.Leaderboard.Line.{leaderboard_line_from_score}
use carbonable_leaderboard_b.Leaderboard.Ranking.Panics.{OnePanics}
use carbonable_leaderboard_b.Leaderboard.Ranking.Ends.{bad_value_ends_process}
use carbonable_leaderboard_b.Leaderboard.Ranking.Order.{InOrder, new_personnal_ranking-InOrder}
use carbonable_leaderboard_b.Leaderboard.Ranking.Runs.{award_once, rank_lem}
use carbonable_leaderboard_b.Leaderboard.Aggregator.Sold.{MinterBuyValueAt}
use carbonable_leaderboard_b.Tests.Integers.{u256, u256-Documented}
use carbonable_leaderboard_b.Tests.Sorting.{sorter, sorter-Sorts}
use carbonable_leaderboard_b.Tests.Events.{buy, late_buy, transfer, bad_buy, score, manager, format}

abbrev pub three : List DomainEvent
three = transfer ∷ buy ∷ late_buy ∷ []

abbrev three_scores : List Score
three_scores =
    score 200000000 early_adopter_rule_name transfer
    ∷ score 10000000 amount_fund_rule_name buy
    ∷ score 200000000 number_of_projects_rule_name buy
    ∷ score 10000000 amount_fund_rule_name late_buy
    ∷ []

three_handled : handle_events u256 manager three [] [] ≡ ok (three_scores, three)
unfolding handle_events compute_score run_builder supports compute apply_boosters apply_booster
    check apply
three_handled = refl

award_once_example : AtMostOnce number_of_projects_rule_name three_scores
award_once_example =
    award_once u256 manager number_of_projects_rule_name (inl refl) three three_scores three
      three_handled

abbrev ranking : PersonnalRanking
ranking = record { customer_wallet = "0x4"; events = three; handled_events = [] }

abbrev ranked : PersonnalRanking
ranked = record { customer_wallet = "0x4"; events = three; handled_events = three }

abbrev pub line : LeaderboardLine
line =
    leaderboard_line_from_score format u256 "01H" "0x4" three_scores (total_score u256 three_scores)
      (aggregate_categories u256 three_scores)

ranking-ranked : rank u256 format "01H" manager ranking ≡ ok (line, ranked)
unfolding rank compute_score run_builder supports compute apply_boosters apply_booster check apply
ranking-ranked = refl

rank_example :
    (scores : List Score) × (handle_events u256 manager three [] [] ≡ ok (scores, three))
    × (three ≡ [] ++ three)
    × (three ≡ three)
    × (line.wallet_address ≡ "0x4")
    × (length line.points ≡ length scores)
    × (line.total_score ≡ u256.to_string (sum_points scores % modulus / 1000000))
    × (line.categories ≡ aggregate_categories u256 scores)
rank_example = rank_lem u256 u256-Documented format "01H" manager ranking ranked line ranking-ranked

-- What Karathuru has sold: two rows.
abbrev sold_rows : MinterBuyValueAt
sold_rows identifier time = some ("0x989680" ∷ "0x5" ∷ [])

bad_value_ends_process_example :
    (handle_events u256 manager (buy ∷ bad_buy ∷ late_buy ∷ []) [] [] ≡ fatal)
    ⊎ ((handle_events u256 manager (buy ∷ bad_buy ∷ late_buy ∷ []) [] [] ≡ panic)
        × OnePanics manager.booster)
bad_value_ends_process_example =
    bad_value_ends_process u256 manager
      (number_of_projects ∷ resaler ∷ offseter ∷ early_adopter ∷ []) refl (buy ∷ []) (late_buy ∷ [])
      bad_buy [] [] refl refl

new_personnal_ranking-InOrder_example :
    Perm
      (new_personnal_ranking (sorter DomainEvent) "0x4" (late_buy ∷ buy ∷ transfer ∷ [])).events
      (late_buy ∷ buy ∷ transfer ∷ [])
    × InOrder
        (new_personnal_ranking (sorter DomainEvent) "0x4" (late_buy ∷ buy ∷ transfer ∷ [])).events
new_personnal_ranking-InOrder_example =
    new_personnal_ranking-InOrder (sorter DomainEvent) (sorter-Sorts DomainEvent) "0x4"
      (late_buy ∷ buy ∷ transfer ∷ [])

abbrev buy_scores : List Score
buy_scores =
    score 10000000 amount_fund_rule_name buy
    ∷ score 200000000 number_of_projects_rule_name buy
    ∷ score 200000000 early_adopter_rule_name buy
    ∷ []

buy_computed : compute_score u256 manager buy [] ≡ ok buy_scores
unfolding compute_score run_builder supports compute apply_boosters apply_booster check apply
buy_computed = refl

compute_score_adds_example :
    (new : List Score) × (buy_scores ≡ [] ++ new) × All (λ s. s.event ≡ buy) new × (length new ≤ 5)
compute_score_adds_example = compute_score_adds u256 manager buy [] buy_scores buy_computed
