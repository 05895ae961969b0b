-- ===== src/Tests/Aggregation.antt =====
-- A run of the aggregator over concrete tables.
use carbonable_leaderboard_b.Prelude.{
  ◌≡◌, refl, String, List, [], ◌∷◌, ◌++◌, Option, none, some, ◌==◌, if◌then◌else◌,
}
use carbonable_leaderboard_b.Go.Outcome.{ok}
use carbonable_leaderboard_b.Leaderboard.Event.{DomainEvent}
use carbonable_leaderboard_b.Leaderboard.Boost.{check, apply}
use carbonable_leaderboard_b.Leaderboard.Builder.{supports, compute}
use carbonable_leaderboard_b.Leaderboard.Manager.{
  compute_score, run_builder, apply_boosters, apply_booster,
}
use carbonable_leaderboard_b.Leaderboard.Ranking.{less, rank, new_personnal_ranking}
use carbonable_leaderboard_b.Leaderboard.Line.{LeaderboardLine}
use carbonable_leaderboard_b.Leaderboard.Aggregator.Sold.{get_minter_current_value}
use carbonable_leaderboard_b.Leaderboard.Aggregator.Run.{
  LineTables, Ranker, lines_table, line_of, run, old_table, create_temp_table, compute_participants,
}
use carbonable_leaderboard_b.Leaderboard.Aggregator.Run.Swap.{
  RunsStatements, IsClean, or_no_lines, run_lem,
}
use carbonable_leaderboard_b.Leaderboard.Aggregator.Run.Overlap.{
  RefusesStatements, finished, overlap_loses_lines,
}
use carbonable_leaderboard_b.Tests.Events.{format}
use carbonable_leaderboard_b.Tests.Games.{three, line}
use carbonable_leaderboard_b.Tests.Integers.{u256}
use carbonable_leaderboard_b.Tests.Sorting.{insertion_sort, sorter}

abbrev Tables : Type 0
Tables = String → Option (List LeaderboardLine)

abbrev if_there : Option (List LeaderboardLine) → (List LeaderboardLine → Tables) → Tables → Tables
if_there none change m = m
if_there (some lines) change m = change lines

abbrev unless_there : Option (List LeaderboardLine) → Tables → Tables → Tables
unless_there none changed m = changed
unless_there (some lines) changed m = m

-- The events of one wallet, and tables that the statements change where they do not fail.
abbrev tables : LineTables Tables
tables = record {
  table = λ m k. m k;
  create_empty = λ m a b. unless_there (m a) (λ k. if a == k then some [] else m k) m;
  create_copy = λ m a b.
      unless_there (m a) (if_there (m b) (λ lines k. if a == k then some lines else m k) m) m;
  insert = λ m a l. if_there (m a) (λ lines k. if a == k then some (lines ++ l ∷ []) else m k) m;
  rename = λ m a b.
      if_there (m a) (λ lines k. if b == k then some lines else if a == k then none else m k) m;
  drop_table = λ m a k. if a == k then none else m k;
  auto_migrate = λ m k. if lines_table == k then some (or_no_lines (m k)) else m k;
  participants = λ m. "0x4" ∷ [];
  events_of = λ m w. three;
}

tables-RunsStatements : RunsStatements tables
tables-RunsStatements = record {
  table-auto_migrate = λ m k. refl;
  table-create_empty = λ m a b k lines there free. rw free;
  table-create_copy = λ m a b k lines there free. rw (free, there);
  table-insert = λ m a k lines l there. rw there;
  table-rename = λ m a b k lines there free. rw there;
  table-drop_table = λ m a k lines there. refl;
  events_of-insert = λ m a w l. refl;
}

abbrev pub ranker : Ranker
ranker = record {
  u256 = u256;
  format = format;
  sorter = sorter DomainEvent;
  ulid = λ w. "01H";
  sold = λ identifier time. some ("0x989680" ∷ []);
}

abbrev no_tables : Tables
no_tables k = none

line_made : line_of ranker "0x4" three ≡ ok line
unfolding line_of rank new_personnal_ranking insertion_sort less compute_score run_builder supports
    compute apply_boosters apply_booster check apply get_minter_current_value
line_made = refl

run_example :
    (d' : Tables) × (run tables ranker no_tables ≡ ok d')
    × (d' lines_table ≡ some (line ∷ []))
    × IsClean tables ranker tables-RunsStatements d'
run_example =
    run_lem tables ranker tables-RunsStatements no_tables (line ∷ []) (refl, refl, refl)
      (line_made, tt)

tables-RefusesStatements : RefusesStatements tables
tables-RefusesStatements = record {
  create_empty-refused = λ m a b lines there. rw there;
  insert-refused = λ m a l gone. rw gone;
  rename-refused = λ m a b gone. rw gone;
  events_of-auto_migrate = λ m w. refl;
  events_of-create_copy = λ m a b w. refl;
  events_of-rename = λ m a b w. refl;
  events_of-drop_table = λ m a w. refl;
}

abbrev both_started : Tables
both_started = create_temp_table tables ranker (create_temp_table tables ranker no_tables)

overlap_loses_lines_example :
    (filled : Tables) × (compute_participants tables ranker ("0x4" ∷ []) both_started ≡ ok filled)
    × (compute_participants tables ranker ("0x4" ∷ []) (finished tables ranker filled)
        ≡ ok (finished tables ranker filled))
    × (finished tables ranker filled lines_table ≡ some (line ∷ []))
    × (finished tables ranker (finished tables ranker filled) lines_table ≡ none)
    × (finished tables ranker (finished tables ranker filled) old_table ≡ none)
overlap_loses_lines_example =
    overlap_loses_lines tables ranker tables-RunsStatements tables-RefusesStatements no_tables
      ("0x4" ∷ []) ("0x4" ∷ []) (line ∷ []) (line ∷ []) (refl, refl, refl) (line_made, tt)
      (line_made, tt)
