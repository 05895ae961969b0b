-- ===== src/Leaderboard/Builder.antt =====
-- The five `ScoreBuilder`s of internal/leaderboard/score_calculator.go.
use carbonable_leaderboard_b.Prelude.{
  ℕ, Bool, true, false, not, ◌&&◌, ◌||◌, String, List, [], ◌∷◌, Option, none, some, ◌==◌, lookup,
  at_key, if◌then◌else◌,
}
use carbonable_leaderboard_b.Go.Outcome.{Outcome, ok, fatal}
use carbonable_leaderboard_b.Go.Uint256.{Uint256}
use carbonable_leaderboard_b.Leaderboard.Event.{
  DomainEvent, Score, amount_fund_rule_name, number_of_projects_rule_name, early_adopter_rule_name,
  offseter_rule_name, resaler_rule_name,
}

pub data ScoreBuilder : Type 0 where
  amount_funded number_of_projects resaler offseter early_adopter : ScoreBuilder

-- `metadata["project_name"]`, with the flag of the two-value form.
abbrev pub project_of : DomainEvent → Option String
project_of e = lookup "project_name" e.metadata

-- A score of the rule `rule` whose event names the project.
unfoldable pub is_award : String → String → Score → Bool
is_award rule project_name s = elim (project_of s.event) [
  | none ↦ false
  | some p ↦ s.rule == rule && p == project_name
]

unfoldable pub rule_was_applied : String → String → List Score → Bool
unfolding is_award
rule_was_applied rule project_name [] = false
rule_was_applied rule project_name (s ∷ score) =
    is_award rule project_name s || rule_was_applied rule project_name score

abbrev pub points_per_project : List (String × ℕ)
points_per_project = ("Banegas Farm", 200) ∷ ("Las Delicias", 150) ∷ ("Manjarisoa", 100) ∷ []

abbrev is_known : Option ℕ → Bool
is_known none = false
is_known (some p) = true

unfoldable pub supports : ScoreBuilder → DomainEvent → List Score → Bool
unfolding rule_was_applied
supports amount_funded e score =
    e.event_name == "minter:buy"
    || e.event_name == "minter:airdrop"
    || e.event_name == "migrator:migration"
supports number_of_projects e score = elim (project_of e) [
  | none ↦ false
  | some p ↦ not (rule_was_applied number_of_projects_rule_name p score)
]
supports resaler e score = e.event_name == "yielder:claim"
supports offseter e score = e.event_name == "offseter:claim"
supports early_adopter e score = elim (project_of e) [
  | none ↦ false
  | some p ↦ is_known (lookup p points_per_project)
]

abbrev pub new_score : ℕ → String → DomainEvent → Score
new_score points rule e = record { points = points; rule = rule; boosts = []; event = e }

-- `!ex || pName == projectName && s.Rule == rule`, the test of both loops over the scores.
unfoldable pub is_passed_over : String → String → Score → Bool
is_passed_over rule project_name s = elim (project_of s.event) [
  | none ↦ true
  | some p ↦ p == project_name && s.rule == rule
]

-- Whether the loop of `NumberOfProjectsScoreCalculator.Compute` returns: it meets a score that it
-- does not pass over.
unfoldable pub meets_other : String → List Score → Bool
unfolding is_passed_over
meets_other project_name [] = false
meets_other project_name (s ∷ score) =
    if is_passed_over number_of_projects_rule_name project_name s
    then meets_other project_name score
    else true

-- Whether the loop of `EarlyAdopterScoreCalculator.Compute` returns nil.
unfoldable pub meets_passed_over : String → List Score → Bool
unfolding is_passed_over
meets_passed_over project_name [] = false
meets_passed_over project_name (s ∷ score) =
    if is_passed_over early_adopter_rule_name project_name s
    then true
    else meets_passed_over project_name score

module _ (u : Uint256) where
  -- The product with 10^6 that the source computes first is not used.
  unfoldable pub get_score_from_event_value : DomainEvent → Option Score
  get_score_from_event_value e = elim (u.from_hex (at_key "value" e.event_data)) [
    | none ↦ none
    | some p ↦ some (new_score p number_of_projects_rule_name e)
  ]

  -- What follows the loop; `found` is true after a loop that passed over a score.
  unfoldable pub first_buy : Bool → DomainEvent → Option Score
  unfolding get_score_from_event_value
  first_buy found e =
      if not found && e.event_name == "minter:buy" then get_score_from_event_value e else none

  unfoldable pub compute_number_of_projects : DomainEvent → List Score → Option Score
  unfolding first_buy meets_other
  compute_number_of_projects e score = elim (project_of e) [
    | none ↦ first_buy false e
    | some p ↦
        if meets_other p score
        then some (new_score 200000000 number_of_projects_rule_name e)
        else first_buy (elim score [ [] ↦ false | s ∷ rest ↦ true ]) e
  ]

  -- `p, exists := pointsPerProject[projectName]`, with the default of 50
  abbrev early_points : Option ℕ → ℕ
  early_points none = 50
  early_points (some p) = p

  unfoldable pub award_early_adopter : String → DomainEvent → Score
  award_early_adopter p e =
      new_score (u.mul (early_points (lookup p points_per_project)) 1000000) early_adopter_rule_name
        e

  unfoldable pub compute_early_adopter : DomainEvent → List Score → Option Score
  unfolding meets_passed_over award_early_adopter
  compute_early_adopter e score = elim (project_of e) [
    | none ↦ some (award_early_adopter "" e)
    | some p ↦ if meets_passed_over p score then none else some (award_early_adopter p e)
  ]

  -- `Compute` of each builder. A value that is no hexadecimal number ends the process in the first,
  -- and gives no score in the others.
  unfoldable pub compute : ScoreBuilder → DomainEvent → List Score → Outcome (Option Score)
  unfolding compute_number_of_projects compute_early_adopter
  compute amount_funded e score = elim (u.from_hex (at_key "value" e.event_data)) [
    | none ↦ fatal
    | some value ↦ ok (some (new_score value amount_fund_rule_name e))
  ]
  compute number_of_projects e score = ok (compute_number_of_projects e score)
  compute resaler e score = elim (u.from_hex (at_key "amount" e.event_data)) [
    | none ↦ ok none
    | some p ↦ ok (some (new_score p resaler_rule_name e))
  ]
  compute offseter e score = elim (u.from_hex (at_key "amount" e.event_data)) [
    | none ↦ ok none
    | some p ↦ ok (some (new_score (u.mul p 100) offseter_rule_name e))
  ]
  compute early_adopter e score = ok (compute_early_adopter e score)
