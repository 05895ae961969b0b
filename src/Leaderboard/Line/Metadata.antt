-- ===== src/Leaderboard/Line/Metadata.antt =====
-- What a point of the leaderboard says of its score (internal/leaderboard/leaderboard.go).
use carbonable_leaderboard_b.Prelude.{
  ◌*◌, ◌≡◌, refl, false, ◌==◌, String, List, [], ◌∷◌, Option, none, some, lookup, at_key,
}
use carbonable_leaderboard_b.Go.Format.{decimal_int64}
use carbonable_leaderboard_b.Leaderboard.Event.{StringMap, Boost, Score}
use carbonable_leaderboard_b.Leaderboard.Line.{
  FormatHundredths, join, boost_labels, boosts_to_string, build_point_metadata,
}

-- The text under "boosts": none where the score has no boost.
abbrev pub boosts_text : FormatHundredths → List Boost → Option String
boosts_text format [] = none
boosts_text format (b ∷ bs) = some (join (boost_labels format (b ∷ bs)) " // ")

lookup-labelled :
    (format : FormatHundredths) (k : String) (bs : List Boost) (m : StringMap)
    → ("boosts" == k) ≡ false
    → lookup k (boosts_to_string format bs m) ≡ lookup k m
unfolding boosts_to_string
lookup-labelled format k [] m h = refl
lookup-labelled format k (b ∷ bs) m h = rw h

boosts_labelled :
    (format : FormatHundredths) (bs : List Boost) (m : StringMap)
    → lookup "boosts" m ≡ none
    → lookup "boosts" (boosts_to_string format bs m) ≡ boosts_text format bs
unfolding boosts_to_string
boosts_labelled format [] m h = h
boosts_labelled format (b ∷ bs) m h = refl

-- The metadata of a point has the project and the slot of the event's metadata, or the empty string,
-- the event's name, its time in milliseconds, the rule, and the boosts if there are any.
pub build_point_metadata_lem :
    (format : FormatHundredths) (s : Score)
    → (lookup "project_name" (build_point_metadata format s)
        ≡ some (at_key "project_name" s.event.metadata))
      × (lookup "slot" (build_point_metadata format s) ≡ some (at_key "slot" s.event.metadata))
      × (lookup "event" (build_point_metadata format s) ≡ some s.event.event_name)
      × (lookup "date" (build_point_metadata format s)
          ≡ some (decimal_int64 (s.event.recorded_at * 1000)))
      × (lookup "rule" (build_point_metadata format s) ≡ some s.rule)
      × (lookup "boosts" (build_point_metadata format s) ≡ boosts_text format s.boosts)
unfolding build_point_metadata
build_point_metadata_lem format s = (
  lookup-labelled format "project_name" s.boosts _ refl,
  lookup-labelled format "slot" s.boosts _ refl,
  lookup-labelled format "event" s.boosts _ refl,
  lookup-labelled format "date" s.boosts _ refl,
  lookup-labelled format "rule" s.boosts _ refl,
  boosts_labelled format s.boosts _ refl,
)
