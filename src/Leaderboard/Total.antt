-- ===== src/Leaderboard/Total.antt =====
-- `TotalScore` and `AggregateCategories` of internal/leaderboard/score_calculator.go.
pub mod Sums
pub mod Categories
use carbonable_leaderboard_b.Prelude.{
  ℕ, String, List, [], ◌∷◌, ◌++◌, Option, none, some, lookup, put, at_key,
}
use carbonable_leaderboard_b.Go.Uint256.{Uint256}
use carbonable_leaderboard_b.Leaderboard.Event.{
  Score, StringMap, amount_fund_rule_name, number_of_projects_rule_name, early_adopter_rule_name,
  offseter_rule_name, resaler_rule_name,
}
use carbonable_leaderboard_b.Leaderboard.Points.{
  ScoreCalculator, base, new_addition_score, get_points,
}

pub record CategorisedScore : Type 0 where
  pub fund : String
  pub farming : String
  pub other : String

abbrev pub fund_category : String
fund_category = "fund"

abbrev pub farming_category : String
farming_category = "farming"

abbrev pub other_category : String
other_category = "other"

abbrev pub event_to_categories_mapping : StringMap
event_to_categories_mapping =
    (amount_fund_rule_name, fund_category)
    ∷ (number_of_projects_rule_name, fund_category)
    ∷ (early_adopter_rule_name, fund_category)
    ∷ (offseter_rule_name, farming_category)
    ∷ (resaler_rule_name, farming_category)
    ∷ []

-- `eventToCategoriesMapping[s.Rule]`
abbrev pub category_of : Score → String
category_of s = at_key s.rule event_to_categories_mapping

-- The loop of `TotalScore`.
unfoldable pub add_scores : List Score → ScoreCalculator → ScoreCalculator
add_scores [] sc = sc
add_scores (s ∷ score) sc = add_scores score (new_addition_score s.points sc)

abbrev pub CategorisedEvents : Type 0
CategorisedEvents = List (String × List Score)

abbrev or_nil : Option (List Score) → List Score
or_nil none = []
or_nil (some l) = l

-- `categorisedEvents[c]`
abbrev pub events_of : String → CategorisedEvents → List Score
events_of c m = or_nil (lookup c m)

-- The loop of `AggregateCategories`.
unfoldable pub categorise : List Score → CategorisedEvents → CategorisedEvents
categorise [] m = m
categorise (s ∷ scores) m =
    categorise scores (put (category_of s) (events_of (category_of s) m ++ s ∷ []) m)

abbrev pub no_events : CategorisedEvents
no_events = (fund_category, []) ∷ (farming_category, []) ∷ (other_category, []) ∷ []

module _ (u : Uint256) where
  unfoldable pub total_score : List Score → ℕ
  unfolding add_scores
  total_score score = u.div (get_points u (add_scores score base)) 1000000

  unfoldable pub aggregate_categories : List Score → CategorisedScore
  unfolding total_score categorise
  aggregate_categories scores =
      let categorised = categorise scores no_events in
      record {
        fund = u.to_string (total_score (events_of fund_category categorised));
        farming = u.to_string (total_score (events_of farming_category categorised));
        other = u.to_string (total_score (events_of other_category categorised));
      }
