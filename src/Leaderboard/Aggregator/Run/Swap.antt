-- ===== src/Leaderboard/Aggregator/Run/Swap.antt =====
-- What a run of the aggregator leaves in the database (internal/leaderboard/aggregator.go).
use carbonable_leaderboard_b.Prelude.{
  ◌≡◌, refl, ap, sym, subst, ◌∙◌, String, List, [], ◌∷◌, ◌++◌, Option, none, some, ◌==◌,
  if◌then◌else◌, append_assoc, append-nil,
}
use carbonable_leaderboard_b.Go.Outcome.{ok, ◌>>=◌}
use carbonable_leaderboard_b.Leaderboard.Event.{DomainEvent}
use carbonable_leaderboard_b.Leaderboard.Line.{LeaderboardLine}
use carbonable_leaderboard_b.Leaderboard.Aggregator.Run.{
  LineTables, Ranker, lines_table, tmp_table, bck_table, old_table, line_of, create_temp_table,
  compute_participant_events, compute_participants, backup_leaderboard_lines, hot_swap_tables,
  cleanup_tmp_tables, run,
}

abbrev pub or_no_lines : Option (List LeaderboardLine) → List LeaderboardLine
or_no_lines none = []
or_no_lines (some lines) = lines

-- What the statements do where the tables that they read are there, and those that they make are
-- not. They do not change the events.
pub record RunsStatements {D : Type 0} (db : LineTables D) : Type 0 where
  pub table-auto_migrate :
      (d : D) (k : String)
      → db.table (db.auto_migrate d) k
        ≡ (if lines_table == k then some (or_no_lines (db.table d k)) else db.table d k)
  pub table-create_empty :
      (d : D) (a b k : String) (lines : List LeaderboardLine)
      → db.table d b ≡ some lines
      → db.table d a ≡ none
      → db.table (db.create_empty d a b) k ≡ (if a == k then some [] else db.table d k)
  pub table-create_copy :
      (d : D) (a b k : String) (lines : List LeaderboardLine)
      → db.table d b ≡ some lines
      → db.table d a ≡ none
      → db.table (db.create_copy d a b) k ≡ (if a == k then some lines else db.table d k)
  pub table-insert :
      (d : D) (a k : String) (lines : List LeaderboardLine) (line : LeaderboardLine)
      → db.table d a ≡ some lines
      → db.table (db.insert d a line) k
        ≡ (if a == k then some (lines ++ line ∷ []) else db.table d k)
  pub table-rename :
      (d : D) (a b k : String) (lines : List LeaderboardLine)
      → db.table d a ≡ some lines
      → db.table d b ≡ none
      → db.table (db.rename d a b) k
        ≡ (if b == k then some lines else if a == k then none else db.table d k)
  pub table-drop_table :
      (d : D) (a k : String) (lines : List LeaderboardLine)
      → db.table d a ≡ some lines
      → db.table (db.drop_table d a) k ≡ (if a == k then none else db.table d k)
  pub events_of-insert :
      (d : D) (a w : String) (line : LeaderboardLine)
      → db.events_of (db.insert d a line) w ≡ db.events_of d w

-- Each line is the one that its wallet's events make.
abbrev pub AreRanked :
    Ranker → (String → List DomainEvent) → List String → List LeaderboardLine → Type 0
AreRanked r events [] [] = Unit
AreRanked r events (w ∷ wallets) (l ∷ lines) =
    (line_of r w (events w) ≡ ok l) × AreRanked r events wallets lines
AreRanked r events [] (l ∷ lines) = ⊥
AreRanked r events (w ∷ wallets) [] = ⊥

module _ {D : Type 0} (db : LineTables D) (r : Ranker) (laws : RunsStatements db) where
  -- The tables that only a run uses are not there.
  abbrev pub IsClean : D → Type 0
  IsClean d =
      (db.table d tmp_table ≡ none) × (db.table d bck_table ≡ none) × (db.table d old_table ≡ none)

  -- The tables while the participants are computed.
  abbrev pub IsFilling : D → List LeaderboardLine → List LeaderboardLine → Type 0
  IsFilling d old lines =
      (db.table d tmp_table ≡ some lines)
      × (db.table d lines_table ≡ some old)
      × (db.table d bck_table ≡ none)
      × (db.table d old_table ≡ none)

  pub IsFilling-create_temp_table :
      (d : D)
      → IsClean d
      → IsFilling (create_temp_table db r d) (or_no_lines (db.table d lines_table)) []
  unfolding create_temp_table
  IsFilling-create_temp_table d clean =
      let e = db.auto_migrate d in
      let old = or_no_lines (db.table d lines_table) in
      let there : db.table e lines_table ≡ some old = laws.table-auto_migrate d lines_table in
      let free : db.table e tmp_table ≡ none = laws.table-auto_migrate d tmp_table ∙ clean.0 in
      (
        laws.table-create_empty e tmp_table lines_table tmp_table old there free,
        laws.table-create_empty e tmp_table lines_table lines_table old there free ∙ there,
        laws.table-create_empty e tmp_table lines_table bck_table old there free
            ∙ laws.table-auto_migrate d bck_table
            ∙ clean.1,
        laws.table-create_empty e tmp_table lines_table old_table old there free
            ∙ laws.table-auto_migrate d old_table
            ∙ clean.2,
      )

  IsFilling-insert :
      (d : D) (old lines : List LeaderboardLine) (line : LeaderboardLine)
      → IsFilling d old lines
      → IsFilling (db.insert d tmp_table line) old (lines ++ line ∷ [])
  IsFilling-insert d old lines line h = (
    laws.table-insert d tmp_table tmp_table lines line h.0,
    laws.table-insert d tmp_table lines_table lines line h.0 ∙ h.1,
    laws.table-insert d tmp_table bck_table lines line h.0 ∙ h.2,
    laws.table-insert d tmp_table old_table lines line h.0 ∙ h.3,
  )

  pub compute_participants_lem :
      (events : String → List DomainEvent) (wallets : List String) (new : List LeaderboardLine)
      (d : D) (old lines : List LeaderboardLine)
      → ((w : String) → db.events_of d w ≡ events w)
      → IsFilling d old lines
      → AreRanked r events wallets new
      → (d' : D) × (compute_participants db r wallets d ≡ ok d') × IsFilling d' old (lines ++ new)
  unfolding compute_participants compute_participant_events
  compute_participants_lem events [] [] d old lines same h ranked =
      (d, refl, subst (IsFilling d old) (sym (append-nil lines)) h)
  compute_participants_lem events [] (l ∷ new) d old lines same h ranked = absurd ranked
  compute_participants_lem events (w ∷ wallets) [] d old lines same h ranked = absurd ranked
  compute_participants_lem events (w ∷ wallets) (l ∷ new) d old lines same h ranked =
      let (d', returned, filled) =
        compute_participants_lem events wallets new (db.insert d tmp_table l) old (lines ++ l ∷ [])
          (λ v. laws.events_of-insert d tmp_table v l ∙ same v) (IsFilling-insert d old lines l h)
          ranked.1 in
      (
        d',
        ap
              (λ o.
                (o >>= λ line. ok (db.insert d tmp_table line))
                >>= compute_participants db r wallets)
              (ap (line_of r w) (same w) ∙ ranked.0)
            ∙ returned,
        subst (IsFilling d' old) (append_assoc lines (l ∷ []) new) filled,
      )

  pub swapped :
      (d : D) (old lines : List LeaderboardLine)
      → IsFilling d old lines
      → let d' = cleanup_tmp_tables db r (hot_swap_tables db r (backup_leaderboard_lines db r d)) in
        (db.table d' lines_table ≡ some lines) × IsClean d'
  unfolding cleanup_tmp_tables hot_swap_tables backup_leaderboard_lines
  swapped d old lines h =
      let b = db.create_copy d bck_table lines_table in
      let s1 = db.rename b lines_table old_table in
      let s2 = db.rename s1 tmp_table lines_table in
      let c = db.drop_table s2 bck_table in
      let at_b = λ (k : String). laws.table-create_copy d bck_table lines_table k old h.1 h.2 in
      let at_s1 = λ (k : String).
        laws.table-rename b lines_table old_table k old (at_b lines_table ∙ h.1)
          (at_b old_table ∙ h.3) in
      let at_s2 = λ (k : String).
        laws.table-rename s1 tmp_table lines_table k lines (at_s1 tmp_table ∙ at_b tmp_table ∙ h.0)
          (at_s1 lines_table) in
      let at_c = λ (k : String).
        laws.table-drop_table s2 bck_table k old
          (at_s2 bck_table ∙ at_s1 bck_table ∙ at_b bck_table) in
      let at_end = λ (k : String).
        laws.table-drop_table c old_table k old
          (at_c old_table ∙ at_s2 old_table ∙ at_s1 old_table) in
      (
        at_end lines_table ∙ at_c lines_table ∙ at_s2 lines_table,
        (
          at_end tmp_table ∙ at_c tmp_table ∙ at_s2 tmp_table,
          at_end bck_table ∙ at_c bck_table,
          at_end old_table,
        ),
      )

  -- Where the events of each participant make a line, a run that starts without the tables that only a
  -- run uses returns, and leaves in the table of the lines those lines, in the order of the
  -- participants, and none of those tables, so that the next run starts as this one did.
  pub run_lem :
      (d : D) (lines : List LeaderboardLine)
      → IsClean d
      → AreRanked r
          (db.events_of (create_temp_table db r d))
          (db.participants (create_temp_table db r d))
          lines
      → (d' : D) × (run db r d ≡ ok d') × (db.table d' lines_table ≡ some lines) × IsClean d'
  unfolding run
  run_lem d lines clean ranked =
      let started = create_temp_table db r d in
      let old = or_no_lines (db.table d lines_table) in
      let (filled, returned, filling) =
        compute_participants_lem (db.events_of started) (db.participants started) lines started old
          [] (λ w. refl) (IsFilling-create_temp_table d clean) ranked in
      let (there, gone) = swapped filled old lines filling in
      (
        cleanup_tmp_tables db r (hot_swap_tables db r (backup_leaderboard_lines db r filled)),
        ap
            (λ o. o >>= λ f.
              ok (cleanup_tmp_tables db r (hot_swap_tables db r (backup_leaderboard_lines db r f))))
            returned,
        there,
        gone,
      )
