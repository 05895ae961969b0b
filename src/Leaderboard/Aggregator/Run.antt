-- ===== src/Leaderboard/Aggregator/Run.antt =====
-- `PgLeaderboardAggregator.Run` of internal/leaderboard/aggregator.go: the lines of all wallets are
-- written to a temporary table, which then takes the place of the old one.
pub mod Swap
pub mod Overlap
use carbonable_leaderboard_b.Prelude.{String, List, [], ◌∷◌, Option, some}
use carbonable_leaderboard_b.Go.Outcome.{Outcome, ok, ◌>>=◌, or_fatal}
use carbonable_leaderboard_b.Go.Sort.{Sorter}
use carbonable_leaderboard_b.Go.Uint256.{Uint256}
use carbonable_leaderboard_b.Leaderboard.Event.{DomainEvent}
use carbonable_leaderboard_b.Leaderboard.Aggregator.Sold.{
  MinterBuyValueAt, get_minter_current_value,
}
use carbonable_leaderboard_b.Leaderboard.Manager.{full_score_calculator_manager}
use carbonable_leaderboard_b.Leaderboard.Line.{FormatHundredths, LeaderboardLine}
use carbonable_leaderboard_b.Leaderboard.Ranking.{rank, new_personnal_ranking}

-- The statements that a run sends to the database, over its states `D`. A statement that fails leaves
-- the database as it is: the program does not look at the errors.
pub record LineTables (D : Type 0) : Type 0 where
  -- the lines of a table, if there is one of the name
  pub table : D → String → Option (List LeaderboardLine)
  -- CREATE TABLE a AS SELECT * FROM b WHERE false
  pub create_empty : D → String → String → D
  -- CREATE TEMP TABLE a AS SELECT * FROM b
  pub create_copy : D → String → String → D
  -- INSERT INTO a
  pub insert : D → String → LeaderboardLine → D
  -- ALTER TABLE a RENAME TO b
  pub rename : D → String → String → D
  -- DROP TABLE a
  pub drop_table : D → String → D
  -- `AutoMigrate` of the lines: creates their table if there is none
  pub auto_migrate : D → D
  -- SELECT DISTINCT wallet_address FROM domain_events
  pub participants : D → List String
  -- the events of a wallet
  pub events_of : D → String → List DomainEvent

abbrev pub lines_table : String
lines_table = "leaderboard_lines"

abbrev pub tmp_table : String
tmp_table = "tmp_leaderboard_lines"

abbrev pub bck_table : String
bck_table = "bck_leaderboard_lines"

abbrev pub old_table : String
old_table = "leaderboard_lines_old"

-- What a computation of a line depends on besides the events of the wallet.
pub record Ranker : Type 0 where
  pub u256 : Uint256
  pub format : FormatHundredths
  pub sorter : Sorter DomainEvent
  -- `ulid.Make()` for the line of a wallet
  pub ulid : String → String
  -- the query for what a minter has sold for
  pub sold : MinterBuyValueAt

-- The line of a wallet, from its events.
unfoldable pub line_of : Ranker → String → List DomainEvent → Outcome LeaderboardLine
line_of r wallet events =
    rank r.u256 r.format (r.ulid wallet)
      (full_score_calculator_manager (get_minter_current_value r.u256 r.sold))
      (new_personnal_ranking r.sorter wallet events)
    >>= λ result. ok result.0

-- The two queries of a run: an error of the database is not looked at, and no other error is returned.
module _ {D : Type 0} (db : LineTables D) where
  abbrev get_participants : D → Option (List String)
  get_participants d = some (db.participants d)

  abbrev get_participant_events : D → String → Option (List DomainEvent)
  get_participant_events d wallet = some (db.events_of d wallet)

module _ {D : Type 0} (db : LineTables D) (r : Ranker) where
  unfoldable pub create_temp_table : D → D
  create_temp_table d = db.create_empty (db.auto_migrate d) tmp_table lines_table

  unfoldable pub compute_participant_events : String → D → Outcome D
  unfolding line_of
  compute_participant_events wallet d = do
    events ← or_fatal (get_participant_events db d wallet)
    line ← line_of r wallet events
    ok (db.insert d tmp_table line)

  -- The loop over the participants: each waits for the goroutine that it starts.
  unfoldable pub compute_participants : List String → D → Outcome D
  compute_participants [] d = ok d
  compute_participants (w ∷ wallets) d =
      compute_participant_events w d >>= compute_participants wallets

  unfoldable pub backup_leaderboard_lines : D → D
  backup_leaderboard_lines d = db.create_copy d bck_table lines_table

  unfoldable pub hot_swap_tables : D → D
  hot_swap_tables d = db.rename (db.rename d lines_table old_table) tmp_table lines_table

  unfoldable pub cleanup_tmp_tables : D → D
  cleanup_tmp_tables d = db.drop_table (db.drop_table d bck_table) old_table

  unfoldable pub run : D → Outcome D
  run d =
      let started = create_temp_table d in
      do
        wallets ← or_fatal (get_participants db started)
        filled ← compute_participants wallets started
        ok (cleanup_tmp_tables (hot_swap_tables (backup_leaderboard_lines filled)))
