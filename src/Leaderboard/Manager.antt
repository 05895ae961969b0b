-- ===== src/Leaderboard/Manager.antt =====
-- `ScoreCalculatorManager` of internal/leaderboard/score_calculator.go.
pub mod Runs
pub mod Keeps
pub mod Awards
use carbonable_leaderboard_b.Prelude.{List, [], ◌∷◌, ◌++◌, Option, none, some, if◌then◌else◌}
use carbonable_leaderboard_b.Go.Outcome.{Outcome, ok, ◌>>=◌}
use carbonable_leaderboard_b.Go.Uint256.{Uint256}
use carbonable_leaderboard_b.Leaderboard.Event.{DomainEvent, Boost, Score}
use carbonable_leaderboard_b.Leaderboard.Boost.{
  BoostCalculator, BuyValueAggregator, check, apply, new_karat_funding_milestone_boost_calculator,
  default_project_value_boost_calculator,
}
use carbonable_leaderboard_b.Leaderboard.Builder.{
  ScoreBuilder, amount_funded, number_of_projects, resaler, offseter, early_adopter, supports,
  compute,
}

pub record ScoreCalculatorManager : Type 0 where
  pub builder : List ScoreBuilder
  pub booster : List BoostCalculator

-- `ScoreCalculatorManagerFunc`: an option changes the options that the constructor reads. The
-- struct of options has the two fields of the manager that are ever read.
abbrev pub ScoreCalculatorManagerFunc : Type 0
ScoreCalculatorManagerFunc = ScoreCalculatorManager → ScoreCalculatorManager

abbrev default_score_calculator_manager_opts : ScoreCalculatorManager
default_score_calculator_manager_opts = record { builder = []; booster = [] }

abbrev apply_opts :
    List ScoreCalculatorManagerFunc → ScoreCalculatorManager → ScoreCalculatorManager
apply_opts [] opt = opt
apply_opts (opt_fn ∷ opts) opt = apply_opts opts (opt_fn opt)

abbrev pub new_score_calculator_manager : List ScoreCalculatorManagerFunc → ScoreCalculatorManager
new_score_calculator_manager opts = apply_opts opts default_score_calculator_manager_opts

abbrev pub with_builders : List ScoreBuilder → ScoreCalculatorManagerFunc
with_builders builders opt = record opt { builder = opt.builder ++ builders }

abbrev pub with_boosters : List BoostCalculator → ScoreCalculatorManagerFunc
with_boosters boosters opt = record opt { booster = opt.booster ++ boosters }

abbrev pub full_score_calculator_manager : BuyValueAggregator → ScoreCalculatorManager
full_score_calculator_manager aggregator = new_score_calculator_manager (
    with_builders (amount_funded ∷ number_of_projects ∷ resaler ∷ offseter ∷ early_adopter ∷ [])
    ∷ with_boosters (
        new_karat_funding_milestone_boost_calculator aggregator
        ∷ default_project_value_boost_calculator
        ∷ [])
    ∷ [])

abbrev pub mint_page_calculator_manager : ScoreCalculatorManager
mint_page_calculator_manager = new_score_calculator_manager (
    with_builders (amount_funded ∷ [])
    ∷ with_boosters (default_project_value_boost_calculator ∷ [])
    ∷ [])

module _ (u : Uint256) where
  -- `if nil != b { c.Apply(evt, b, s) }`
  unfoldable pub apply_checked :
      Option Boost → BoostCalculator → DomainEvent → Score → Outcome Score
  apply_checked none c e s = ok s
  apply_checked (some b) c e s = apply u c e b s

  -- `Check` and, on a boost, `Apply` of one booster
  unfoldable pub apply_booster : BoostCalculator → DomainEvent → Score → Outcome Score
  unfolding apply_checked
  apply_booster c e s = apply_checked (check c e) c e s

  -- the loop over the boosters
  unfoldable pub apply_boosters : List BoostCalculator → DomainEvent → Score → Outcome Score
  apply_boosters [] e s = ok s
  apply_boosters (c ∷ cs) e s = apply_booster c e s >>= apply_boosters cs e

  -- `if nil != s { …; score = append(score, *s) }`
  unfoldable pub append_boosted :
      List BoostCalculator → DomainEvent → List Score → Option Score → Outcome (List Score)
  append_boosted boosters e score none = ok score
  append_boosted boosters e score (some s) =
      apply_boosters boosters e s >>= λ s'. ok (score ++ s' ∷ [])

  -- one round of the loop over the builders
  unfoldable pub run_builder :
      List BoostCalculator → ScoreBuilder → DomainEvent → List Score → Outcome (List Score)
  unfolding append_boosted
  run_builder boosters c e score =
      if supports c e score
      then (compute u c e score >>= append_boosted boosters e score)
      else ok score

  unfoldable pub run_builders :
      List BoostCalculator → List ScoreBuilder → DomainEvent → List Score → Outcome (List Score)
  run_builders boosters [] e score = ok score
  run_builders boosters (c ∷ cs) e score =
      run_builder boosters c e score >>= run_builders boosters cs e

  -- `ComputeScore` for one event
  unfoldable pub compute_score :
      ScoreCalculatorManager → DomainEvent → List Score → Outcome (List Score)
  unfolding run_builders
  compute_score scm e score = run_builders scm.booster scm.builder e score
