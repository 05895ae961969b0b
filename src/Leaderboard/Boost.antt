-- ===== src/Leaderboard/Boost.antt =====
-- internal/leaderboard/boost.go: the two boost calculators.
pub mod Tiers
pub mod Milestones
use carbonable_leaderboard_b.Prelude.{
  ℕ, ◌*◌, ◌%◌, Bool, true, false, not, ◌&&◌, ◌||◌, String, List, [], ◌∷◌, ◌++◌, Option, none, some,
  Ordering, ◌==◌, at_key, if◌then◌else◌,
}
use carbonable_leaderboard_b.Go.Outcome.{Outcome, ok, ◌>>=◌}
use carbonable_leaderboard_b.Go.Uint256.{Uint256, u64_modulus}
use carbonable_leaderboard_b.Leaderboard.Event.{DomainEvent, Boost, Score, amount_fund_rule_name}

pub record BoostValueItem : Type 0 where
  pub step : ℕ
  pub coef : ℕ

-- `GetMinterCurrentValue` of a `BuyValueAggregator`, which can panic: `none` stands for an error.
abbrev pub BuyValueAggregator : Type 0
BuyValueAggregator = String → ℕ → Outcome (Option ℕ)

-- The implementations of the interface `BoostCalculator`, with their fields.
pub data BoostCalculator : Type 0 where
  karathuru_funding_milestone : BuyValueAggregator → List BoostValueItem → BoostCalculator
  project_value : List BoostValueItem → BoostCalculator

abbrev pub karat_steps : List BoostValueItem
karat_steps =
    record { step = 50000; coef = 300 }
    ∷ record { step = 150000; coef = 200 }
    ∷ record { step = 300000; coef = 150 }
    ∷ record { step = 500000; coef = 120 }
    ∷ record { step = 700000; coef = 110 }
    ∷ []

abbrev pub new_karat_funding_milestone_boost_calculator : BuyValueAggregator → BoostCalculator
new_karat_funding_milestone_boost_calculator a = karathuru_funding_milestone a karat_steps

abbrev pub project_value_steps : List BoostValueItem
project_value_steps =
    record { step = 5000; coef = 300 }
    ∷ record { step = 1000; coef = 200 }
    ∷ record { step = 500; coef = 150 }
    ∷ []

abbrev pub default_project_value_boost_calculator : BoostCalculator
default_project_value_boost_calculator = project_value project_value_steps

-- `Cmp(…) >= 0` and `Cmp(…) <= 0`
abbrev pub at_least : Ordering → Bool
at_least Ordering.lt = false
at_least Ordering.eq = true
at_least Ordering.gt = true

abbrev pub at_most : Ordering → Bool
at_most Ordering.lt = true
at_most Ordering.eq = true
at_most Ordering.gt = false

abbrev new_boost : String → Boost
new_boost name = record { name = name; display_name = ""; value = 0 }

-- `Check` of each calculator.
unfoldable pub check : BoostCalculator → DomainEvent → Option Boost
check (karathuru_funding_milestone a steps) e =
    if not (at_key "project_name" e.metadata == "Karathuru")
      || not (e.event_name == "minter:buy" || e.event_name == "minter:airdrop")
    then none
    else some (new_boost "KarathuruFundingMilestone")
check (project_value steps) e =
    if not (e.event_name == "minter:buy") && not (e.event_name == "minter:airdrop")
    then none
    else some (new_boost "ProjectValue")

-- The three results of `GetInterval`.
pub record Interval : Type 0 where
  pub boost : ℕ
  pub next : ℕ
  pub next_boost : ℕ

module _ (u : Uint256) where
  unfoldable pub mul_coeficient : ℕ → ℕ → ℕ
  mul_coeficient value coef = u.div (u.mul value coef) 100

  -- The body of the `if` in the loops of `Apply`.
  unfoldable pub boosted : BoostValueItem → String → Boost → Score → Score
  unfolding mul_coeficient
  boosted v display b s = record s {
    points = mul_coeficient s.points v.coef;
    boosts = s.boosts ++ record b { display_name = display; value = v.coef } ∷ [];
  }

  unfoldable pub apply_karat : ℕ → List BoostValueItem → Boost → Score → Score
  unfolding boosted
  apply_karat mv [] b s = s
  apply_karat mv (v ∷ steps) b s =
      if at_most (u.cmp mv v.step)
      then boosted v "Funding Karathuru" b s
      else apply_karat mv steps b s

  unfoldable pub apply_project_value : List BoostValueItem → Boost → Score → Score
  unfolding boosted
  apply_project_value [] b s = s
  apply_project_value (v ∷ steps) b s =
      if at_least (u.cmp s.points (v.step * 1000000 % u64_modulus))
      then boosted v "Funding Value" b s
      else apply_project_value steps b s

  -- The Karathuru `Apply` after the call of the aggregator: an error leaves the score as it is.
  unfoldable pub apply_at : Option ℕ → List BoostValueItem → Boost → Score → Score
  unfolding apply_karat
  apply_at none steps b s = s
  apply_at (some mv) steps b s =
      if not (s.rule == amount_fund_rule_name) then s else apply_karat mv steps b s

  -- `Apply` of each calculator: the score as the call leaves it. The pointer that `Apply` returns is
  -- this score or nil, and `ComputeScore` drops it.
  unfoldable pub apply : BoostCalculator → DomainEvent → Boost → Score → Outcome Score
  unfolding apply_at apply_project_value
  apply (karathuru_funding_milestone a steps) e b s =
      a "Karathuru" e.recorded_at >>= λ mv. ok (apply_at mv steps b s)
  apply (project_value steps) e b s =
      ok (if not (s.rule == amount_fund_rule_name) then s else apply_project_value steps b s)

  -- The loop of `GetInterval`; `prev` is `bc.Steps[i-1]`, `none` at the first index.
  unfoldable pub find_interval :
      ℕ → Option BoostValueItem → List BoostValueItem → Interval → Interval
  find_interval v prev [] found = found
  find_interval v prev (item ∷ rest) found =
      let below =
        find_interval v (some item) rest
          (record { boost = 0; next = item.step; next_boost = item.coef }) in
      if at_least (u.cmp v item.step)
      then elim prev [
        | none ↦ record { boost = item.coef; next = 0; next_boost = 0 }
        | some p ↦ record { boost = item.coef; next = p.step; next_boost = p.coef }
      ]
      else below

  unfoldable pub get_interval : BoostCalculator → ℕ → Interval
  unfolding find_interval
  get_interval (karathuru_funding_milestone a steps) value = record {
    boost = 0;
    next = 0;
    next_boost = 0;
  }
  get_interval (project_value steps) value =
      find_interval value none steps (record { boost = 0; next = 0; next_boost = 0 })
