-- ===== src/Leaderboard/Columns.antt =====
-- The `Value` and `Scan` methods of internal/leaderboard/leaderboard.go, between the values of the
-- program and those of the database driver.
use carbonable_leaderboard_b.Prelude.{ℕ, String, List, Option, none, some, get_elem?, [], ◌∷◌}
use carbonable_leaderboard_b.Go.Gob.{Bytes}
use carbonable_leaderboard_b.Go.Outcome.{Outcome, ok, panic}
use carbonable_leaderboard_b.Leaderboard.Event.{StringMap}
use carbonable_leaderboard_b.Leaderboard.Total.{CategorisedScore}
use carbonable_leaderboard_b.Leaderboard.Line.{Point}

pub data ℤ : Type 0 where
  pos : ℕ → ℤ
  negsuc : ℕ → ℤ

-- The dynamic types of a value of the driver that the methods tell apart.
pub data DriverValue : Type 0 where
  of_bytes : Bytes → DriverValue
  of_int : ℤ → DriverValue
  of_int64 : ℤ → DriverValue
  of_other_type : DriverValue

-- `json.Marshal` and `json.Unmarshal` into a target that has a value; `none` for an error.
pub record Json (A : Type 0) : Type 0 where
  pub marshal : A → Option Bytes
  pub unmarshal_into : A → Bytes → Option A

abbrev column_of : Option Bytes → Option DriverValue
column_of none = none
column_of (some b) = some (of_bytes b)

module _ {A : Type 0} (json : Json A) where
  -- `Value` of a column that is written as JSON
  unfoldable pub json_value : A → Option DriverValue
  json_value a = column_of (json.marshal a)

  -- `Scan` into a target: only bytes pass the type assertion
  unfoldable pub json_scan : A → DriverValue → Option A
  json_scan target (of_bytes b) = json.unmarshal_into target b
  json_scan target _ = none

abbrev event_data_value : Json StringMap → StringMap → Option DriverValue
event_data_value json a = json_value json a

abbrev event_data_scan : Json StringMap → StringMap → DriverValue → Option StringMap
event_data_scan json a value = json_scan json a value

abbrev event_metadata_value : Json StringMap → StringMap → Option DriverValue
event_metadata_value json a = json_value json a

abbrev event_metadata_scan : Json StringMap → StringMap → DriverValue → Option StringMap
event_metadata_scan json a value = json_scan json a value

abbrev event_keys_value : Json (List String) → List String → Option DriverValue
event_keys_value json a = json_value json a

abbrev event_keys_scan : Json (List String) → List String → DriverValue → Option (List String)
event_keys_scan json a value = json_scan json a value

abbrev points_value : Json (List Point) → List Point → Option DriverValue
points_value json a = json_value json a

abbrev points_scan : Json (List Point) → List Point → DriverValue → Option (List Point)
points_scan json a value = json_scan json a value

abbrev categorised_score_value : Json CategorisedScore → CategorisedScore → Option DriverValue
categorised_score_value json a = json_value json a

abbrev categorised_score_scan :
    Json CategorisedScore → CategorisedScore → DriverValue → Option CategorisedScore
categorised_score_scan json a value = json_scan json a value

-- `LeaderboardCategory` is an int of Go.
abbrev pub LeaderboardCategory : Type 0
LeaderboardCategory = ℤ

abbrev global_category : LeaderboardCategory
global_category = pos 0

abbrev customer_category : LeaderboardCategory
customer_category = pos 1

abbrev entry_at : Option String → Outcome String
entry_at none = panic
entry_at (some s) = ok s

-- `[]string{"Global", "Customer"}[lbc]`
unfoldable pub category_string : LeaderboardCategory → Outcome String
category_string (pos n) = entry_at (get_elem? ("Global" ∷ "Customer" ∷ []) n)
category_string (negsuc n) = panic

unfoldable pub category_value : LeaderboardCategory → DriverValue
category_value lbc = of_int lbc

-- `value.(int64)` panics on a value of another type
unfoldable pub category_scan : DriverValue → Outcome LeaderboardCategory
category_scan (of_int64 n) = ok n
category_scan _ = panic
