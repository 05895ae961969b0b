-- ===== src/Leaderboard/Event.antt =====
-- `DomainEvent`, `Score` and `Boost` (internal/leaderboard/leaderboard.go, game.go and boost.go).
use carbonable_leaderboard_b.Prelude.{ℕ, String, List}

-- `map[string]string`: `EventData` and `EventMetadata`.
abbrev pub StringMap : Type 0
StringMap = List (String × String)

-- `RecordedAt` is a Unix time in seconds. The field `Data` of the source is `event_data`.
pub record DomainEvent : Type 0 where
  pub recorded_at : ℕ
  pub event_data : StringMap
  pub metadata : StringMap
  pub event_id : String
  pub event_name_felt : String
  pub event_name : String
  pub from_address : String
  pub wallet_address : String
  pub keys : List String
  pub id : String

abbrev pub amount_fund_rule_name : String
amount_fund_rule_name = "amount_funded"

abbrev pub number_of_projects_rule_name : String
number_of_projects_rule_name = "number_of_projects"

abbrev pub early_adopter_rule_name : String
early_adopter_rule_name = "early_adopter"

abbrev pub offseter_rule_name : String
offseter_rule_name = "offseter"

abbrev pub resaler_rule_name : String
resaler_rule_name = "resaler"

pub record Boost : Type 0 where
  pub name : String
  pub display_name : String
  pub value : ℕ

pub record Score : Type 0 where
  pub points : ℕ
  pub rule : String
  pub boosts : List Boost
  pub event : DomainEvent
