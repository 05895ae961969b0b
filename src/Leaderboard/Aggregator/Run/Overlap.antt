-- ===== src/Leaderboard/Aggregator/Run/Overlap.antt =====
-- Two runs of the aggregator that overlap (cmd/aggregator/main.go starts one a minute, and does not wait
-- for the one before).
use carbonable_leaderboard_b.Prelude.{
  ◌≡◌, refl, ap, sym, subst, ◌∙◌, String, List, [], ◌∷◌, none, some,
}
use carbonable_leaderboard_b.Go.Outcome.{ok, ◌>>=◌, >>=-eq-ok, ok_eq}
use carbonable_leaderboard_b.Leaderboard.Event.{DomainEvent}
use carbonable_leaderboard_b.Leaderboard.Line.{LeaderboardLine}
use carbonable_leaderboard_b.Leaderboard.Aggregator.Run.{
  LineTables, Ranker, lines_table, tmp_table, bck_table, old_table, line_of, create_temp_table,
  compute_participant_events, compute_participants, backup_leaderboard_lines, hot_swap_tables,
  cleanup_tmp_tables,
}
use carbonable_leaderboard_b.Leaderboard.Aggregator.Run.Swap.{
  or_no_lines, RunsStatements, AreRanked, IsClean, IsFilling, IsFilling-create_temp_table,
  compute_participants_lem, swapped,
}

-- A statement on a table that is not there, or that makes one that is, fails and changes nothing; and no
-- statement changes the events.
pub record RefusesStatements {D : Type 0} (db : LineTables D) : Type 0 where
  pub create_empty-refused :
      (d : D) (a b : String) (lines : List LeaderboardLine)
      → db.table d a ≡ some lines
      → db.create_empty d a b ≡ d
  pub insert-refused :
      (d : D) (a : String) (line : LeaderboardLine) → db.table d a ≡ none → db.insert d a line ≡ d
  pub rename-refused : (d : D) (a b : String) → db.table d a ≡ none → db.rename d a b ≡ d
  pub events_of-auto_migrate :
      (d : D) (w : String) → db.events_of (db.auto_migrate d) w ≡ db.events_of d w
  pub events_of-create_copy :
      (d : D) (a b w : String) → db.events_of (db.create_copy d a b) w ≡ db.events_of d w
  pub events_of-rename :
      (d : D) (a b w : String) → db.events_of (db.rename d a b) w ≡ db.events_of d w
  pub events_of-drop_table :
      (d : D) (a w : String) → db.events_of (db.drop_table d a) w ≡ db.events_of d w

-- What a run does once its participants are computed.
abbrev pub finished : {D : Type 0} → LineTables D → Ranker → D → D
finished db r d = cleanup_tmp_tables db r (hot_swap_tables db r (backup_leaderboard_lines db r d))

module _ {D : Type 0} (db : LineTables D) (r : Ranker) (laws : RunsStatements db)
    (refusals : RefusesStatements db) where
  -- A second run starts over the tables of the first: its own table is refused.
  second_start :
      (d : D) (old lines : List LeaderboardLine)
      → IsFilling db r laws d old lines
      → IsFilling db r laws (create_temp_table db r d) old lines
  unfolding create_temp_table
  second_start d old lines h =
      let at_m = λ (k : String). laws.table-auto_migrate d k in
      let there : db.table (db.auto_migrate d) tmp_table ≡ some lines = at_m tmp_table ∙ h.0 in
      subst (λ e. IsFilling db r laws e old lines)
        (sym (refusals.create_empty-refused (db.auto_migrate d) tmp_table lines_table lines there))
        (
          there,
          at_m lines_table ∙ ap (λ o. some (or_no_lines o)) h.1,
          at_m bck_table ∙ h.2,
          at_m old_table ∙ h.3,
        )

  -- Without its table, a run inserts nothing.
  nothing_inserted :
      (events : String → List DomainEvent) (wallets : List String) (new : List LeaderboardLine)
      (d : D)
      → ((w : String) → db.events_of d w ≡ events w)
      → db.table d tmp_table ≡ none
      → AreRanked r events wallets new
      → compute_participants db r wallets d ≡ ok d
  unfolding compute_participants compute_participant_events
  nothing_inserted events [] [] d same gone ranked = refl
  nothing_inserted events [] (l ∷ new) d same gone ranked = absurd ranked
  nothing_inserted events (w ∷ wallets) [] d same gone ranked = absurd ranked
  nothing_inserted events (w ∷ wallets) (l ∷ new) d same gone ranked =
      ap
        (λ o. (o >>= λ line. ok (db.insert d tmp_table line)) >>= compute_participants db r wallets)
        (ap (line_of r w) (same w) ∙ ranked.0)
      ∙ ap (compute_participants db r wallets) (refusals.insert-refused d tmp_table l gone)
      ∙ nothing_inserted events wallets new d same gone ranked.1

  -- Its swap then moves the lines away, and its cleanup drops them.
  lines_dropped :
      (d : D) (lines : List LeaderboardLine)
      → db.table d lines_table ≡ some lines
      → IsClean db r laws d
      → (db.table (finished db r d) lines_table ≡ none)
        × (db.table (finished db r d) old_table ≡ none)
  unfolding cleanup_tmp_tables hot_swap_tables backup_leaderboard_lines
  lines_dropped d lines there clean =
      let b = db.create_copy d bck_table lines_table in
      let s1 = db.rename b lines_table old_table in
      let s2 = db.rename s1 tmp_table lines_table in
      let c = db.drop_table s2 bck_table in
      let at_b =
        λ (k : String). laws.table-create_copy d bck_table lines_table k lines there clean.1 in
      let at_s1 = λ (k : String).
        laws.table-rename b lines_table old_table k lines (at_b lines_table ∙ there)
          (at_b old_table ∙ clean.2) in
      let refused : s2 ≡ s1 =
        refusals.rename-refused s1 tmp_table lines_table
          (at_s1 tmp_table ∙ at_b tmp_table ∙ clean.0) in
      let at_s2 = λ (k : String). ap (λ e. db.table e k) refused in
      let at_c = λ (k : String).
        laws.table-drop_table s2 bck_table k lines
          (at_s2 bck_table ∙ at_s1 bck_table ∙ at_b bck_table) in
      let at_end = λ (k : String).
        laws.table-drop_table c old_table k lines
          (at_c old_table ∙ at_s2 old_table ∙ at_s1 old_table) in
      (
        at_end lines_table ∙ at_c lines_table ∙ at_s2 lines_table ∙ at_s1 lines_table,
        at_end old_table,
      )

  events_kept :
      (wallets : List String) (d d' : D) (w : String)
      → compute_participants db r wallets d ≡ ok d'
      → db.events_of d' w ≡ db.events_of d w
  unfolding compute_participants compute_participant_events
  events_kept [] d d' w returned = ap (λ e. db.events_of e w) (sym (ok_eq returned))
  events_kept (v ∷ wallets) d d' w returned =
      let (e, first, rest) =
        >>=-eq-ok (compute_participant_events db r v d) (compute_participants db r wallets)
          returned in
      let (line, ranked, inserted) =
        >>=-eq-ok (line_of r v (db.events_of d v)) (λ line. ok (db.insert d tmp_table line))
          first in
      events_kept wallets e d' w rest
      ∙ ap (λ e. db.events_of e w) (sym (ok_eq inserted))
      ∙ laws.events_of-insert d tmp_table w line

  events_of-finished : (d : D) (w : String) → db.events_of (finished db r d) w ≡ db.events_of d w
  unfolding cleanup_tmp_tables hot_swap_tables backup_leaderboard_lines
  events_of-finished d w =
      refusals.events_of-drop_table _ old_table w
      ∙ refusals.events_of-drop_table _ bck_table w
      ∙ refusals.events_of-rename _ tmp_table lines_table w
      ∙ refusals.events_of-rename _ lines_table old_table w
      ∙ refusals.events_of-create_copy d bck_table lines_table w

  -- A run is started over clean tables, and a second one before the first has computed its participants;
  -- the first then goes on to its end, and the second computes its own participants behind it. Where the
  -- events of all these participants make a line, and are the ones that the second run found at its
  -- start, both runs return, the first leaves its lines in the table of the lines, and the second leaves
  -- no such table, nor the one that it moved the lines to.
  pub overlap_loses_lines :
      (d : D) (wallets others : List String) (lines other_lines : List LeaderboardLine)
      → IsClean db r laws d
      → AreRanked r (db.events_of (create_temp_table db r (create_temp_table db r d))) wallets lines
      → AreRanked r
          (db.events_of (create_temp_table db r (create_temp_table db r d)))
          others
          other_lines
      → (filled : D) × (compute_participants db r wallets
            (create_temp_table db r (create_temp_table db r d))
          ≡ ok filled)
        × (compute_participants db r others (finished db r filled) ≡ ok (finished db r filled))
        × (db.table (finished db r filled) lines_table ≡ some lines)
        × (db.table (finished db r (finished db r filled)) lines_table ≡ none)
        × (db.table (finished db r (finished db r filled)) old_table ≡ none)
  overlap_loses_lines d wallets others lines other_lines clean ranked other_ranked =
      let started = create_temp_table db r (create_temp_table db r d) in
      let old = or_no_lines (db.table d lines_table) in
      let (filled, returned, filling) =
        compute_participants_lem db r laws (db.events_of started) wallets lines started old []
          (λ w. refl)
          (second_start (create_temp_table db r d) old []
            (IsFilling-create_temp_table db r laws d clean))
          ranked in
      let (there, gone) = swapped db r laws filled old lines filling in
      let same = λ (w : String).
        events_of-finished filled w ∙ events_kept wallets started filled w returned in
      let (dropped, moved) = lines_dropped (finished db r filled) lines there gone in
      (
        filled,
        returned,
        nothing_inserted (db.events_of started) others other_lines (finished db r filled) same
            gone.0 other_ranked,
        there,
        dropped,
        moved,
      )
