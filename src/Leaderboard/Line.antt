-- ===== src/Leaderboard/Line.antt =====
-- `LeaderboardLineFromScore` and its helpers (internal/leaderboard/leaderboard.go).
pub mod Metadata
use Prim.Native.String.{◌++◌ as str_append}
use carbonable_leaderboard_b.Prelude.{ℕ, ◌*◌, String, List, [], ◌∷◌, ◌++◌, put, at_key}
use carbonable_leaderboard_b.Go.Format.{decimal_int64}
use carbonable_leaderboard_b.Go.Uint256.{Uint256}
use carbonable_leaderboard_b.Leaderboard.Event.{StringMap, Boost, Score}
use carbonable_leaderboard_b.Leaderboard.Total.{CategorisedScore}

pub record Point : Type 0 where
  pub metadata : StringMap
  pub rule : String
  pub value : ℕ

pub record LeaderboardLine : Type 0 where
  pub categories : CategorisedScore
  pub wallet_address : String
  pub total_score : String
  pub points : List Point
  pub id : String

-- `%.1f` of `float32(v)/100`: floats are not modelled, their printing is a parameter.
abbrev pub FormatHundredths : Type 0
FormatHundredths = ℕ → String

-- `strings.Join`
unfoldable pub join : List String → String → String
join [] sep = ""
join (s ∷ []) sep = s
join (s ∷ t ∷ rest) sep = str_append s (str_append sep (join (t ∷ rest) sep))

module _ (format : FormatHundredths) where
  -- the loop of `boostsToString`
  unfoldable pub boost_labels : List Boost → List String
  boost_labels [] = []
  boost_labels (b ∷ bs) =
      str_append "x" (str_append (format b.value) (str_append " - " b.display_name))
      ∷ boost_labels bs

  unfoldable pub boosts_to_string : List Boost → StringMap → StringMap
  unfolding join boost_labels
  boosts_to_string [] metadata = metadata
  boosts_to_string (b ∷ bs) metadata = put "boosts" (join (boost_labels (b ∷ bs)) " // ") metadata

  unfoldable pub build_point_metadata : Score → StringMap
  unfolding boosts_to_string
  build_point_metadata s = boosts_to_string s.boosts (
      put "rule" s.rule (
        put "event" s.event.event_name (
          put "date" (decimal_int64 (s.event.recorded_at * 1000)) (
            put "slot" (at_key "slot" s.event.metadata)
              (put "project_name" (at_key "project_name" s.event.metadata) [])))))

  -- the loop of `LeaderboardLineFromScore`
  unfoldable pub points_of : Uint256 → List Score → List Point
  unfolding build_point_metadata
  points_of u [] = []
  points_of u (s ∷ score) =
      record { metadata = build_point_metadata s; rule = s.rule; value = u.uint64 s.points }
      ∷ points_of u score

  -- `id` is what `ulid.Make()` returns
  unfoldable pub leaderboard_line_from_score :
      Uint256 → String → String → List Score → ℕ → CategorisedScore → LeaderboardLine
  unfolding points_of
  leaderboard_line_from_score u id wallet score total categories = record {
    categories = categories;
    wallet_address = wallet;
    total_score = u.to_string total;
    points = points_of u score;
    id = id;
  }
