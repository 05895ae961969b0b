-- ===== src/Tests/Events.antt =====
-- A purchase, its neighbours and a manager with every builder.
use carbonable_leaderboard_b.Prelude.{ℕ, String, List, [], ◌∷◌, some}
use carbonable_leaderboard_b.Go.Outcome.{ok}
use carbonable_leaderboard_b.Leaderboard.Event.{
  DomainEvent, Boost, Score, amount_fund_rule_name, resaler_rule_name,
}
use carbonable_leaderboard_b.Leaderboard.Manager.{
  ScoreCalculatorManager, full_score_calculator_manager,
}

abbrev pub event : String → ℕ → String → DomainEvent
event name time value = record {
  recorded_at = time;
  event_data = ("value", value) ∷ [];
  metadata = ("project_name", "Banegas Farm") ∷ ("slot", "1") ∷ [];
  event_id = "0x1_0";
  event_name_felt = "0x2";
  event_name = name;
  from_address = "0x3";
  wallet_address = "0x4";
  keys = [];
  id = "01H";
}

-- 10 dollars
abbrev pub buy : DomainEvent
buy = event "minter:buy" 1700000000 "0x989680"

abbrev pub late_buy : DomainEvent
late_buy = event "minter:buy" 1700000001 "0x989680"

abbrev pub transfer : DomainEvent
transfer = event "project:transfer" 1700000000 "0x0"

abbrev pub bad_buy : DomainEvent
bad_buy = event "minter:buy" 1700000002 "-0x1"

abbrev pub score : ℕ → String → DomainEvent → Score
score points rule e = record { points = points; rule = rule; boosts = []; event = e }

abbrev pub two_scores : List Score
two_scores = score 1500000 amount_fund_rule_name buy ∷ score 700000 resaler_rule_name buy ∷ []

abbrev pub no_boost : Boost
no_boost = record { name = "ProjectValue"; display_name = ""; value = 0 }

abbrev pub manager : ScoreCalculatorManager
manager = full_score_calculator_manager (λ identifier time. ok (some 60000))

abbrev pub format : ℕ → String
format n = "x"
