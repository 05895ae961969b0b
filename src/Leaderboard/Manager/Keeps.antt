-- ===== src/Leaderboard/Manager/Keeps.antt =====
-- Invariants of the scores of one event: what every builder keeps, `ComputeScore` keeps, and the
-- scores that it adds (internal/leaderboard/score_calculator.go).
use carbonable_leaderboard_b.Prelude.{
  ◌≤◌, ◌≡◌, sym, ap, subst, ◌∙◌, List, [], ◌∷◌, ◌++◌, inl, inr, arith, append_assoc, append-nil,
  length, length-append, All, All-append,
}
use carbonable_leaderboard_b.Go.Outcome.{ok, >>=-eq-ok}
use carbonable_leaderboard_b.Go.Uint256.{Uint256}
use carbonable_leaderboard_b.Leaderboard.Event.{DomainEvent, Score}
use carbonable_leaderboard_b.Leaderboard.Boost.{BoostCalculator}
use carbonable_leaderboard_b.Leaderboard.Builder.{ScoreBuilder}
use carbonable_leaderboard_b.Leaderboard.Manager.{
  ScoreCalculatorManager, run_builder, run_builders, compute_score,
}
use carbonable_leaderboard_b.Leaderboard.Manager.Runs.{
  apply_boosters-SameAward, compute_lem, run_builder_cases,
}

module _ (u : Uint256) (boosters : List BoostCalculator) (P : List Score → Type 0) where
  -- every builder keeps `P`
  abbrev pub BuilderKeeps : Type 0
  BuilderKeeps =
      (c : ScoreBuilder) (e : DomainEvent) (score r : List Score)
      → run_builder u boosters c e score ≡ ok r
      → P score
      → P r

  pub run_builders_keep :
      BuilderKeeps
      → (cs : List ScoreBuilder) (e : DomainEvent) (score r : List Score)
      → run_builders u boosters cs e score ≡ ok r
      → P score
      → P r
  unfolding run_builders
  run_builders_keep step [] e score r h p = subst P (ground arith) p
  run_builders_keep step (c ∷ cs) e score r h p =
      let (mid, first, rest) = >>=-eq-ok (run_builder u boosters c e score) _ h in
      run_builders_keep step cs e mid r rest (step c e score mid first p)

module _ (u : Uint256) where
  -- What one builder adds: at most one score, for the event in hand.
  run_builder_adds :
      (boosters : List BoostCalculator) (c : ScoreBuilder) (e : DomainEvent) (score r : List Score)
      → run_builder u boosters c e score ≡ ok r
      → (new : List Score) × (r ≡ score ++ new) × All (λ s. s.event ≡ e) new × (length new ≤ 1)
  run_builder_adds boosters c e score r h = elim (run_builder_cases u boosters c e score r h) [
    | inl same ↦ ([], same ∙ sym (append-nil score), tt, omega arith)
    | inr (s, s', appended, applied, supported, computed) ↦ (
      s' ∷ [],
      appended,
      (
        (apply_boosters-SameAward u boosters e s s' applied).events
            ∙ (compute_lem u c e score s computed).1,
        tt,
      ),
      omega arith,
    )
  ]

  run_builders_add :
      (boosters : List BoostCalculator) (cs : List ScoreBuilder) (e : DomainEvent)
      (score r : List Score)
      → run_builders u boosters cs e score ≡ ok r
      → (new : List Score) × (r ≡ score ++ new)
        × All (λ s. s.event ≡ e) new
        × (length new ≤ length cs)
  unfolding run_builders
  run_builders_add boosters [] e score r h = ([], ground (arith, append-nil score), tt, omega arith)
  run_builders_add boosters (c ∷ cs) e score r h =
      let (mid, first, rest) = >>=-eq-ok (run_builder u boosters c e score) _ h in
      let (new, grown, for_e, few) = run_builder_adds boosters c e score mid first in
      let (more, grown', for_e', few') = run_builders_add boosters cs e mid r rest in
      (
        new ++ more,
        grown' ∙ ap (λ l. l ++ more) grown ∙ append_assoc score new more,
        All-append _ new more for_e for_e',
        omega (arith, length-append new more),
      )

-- Where `ComputeScore` returns, it has kept the scores that it was given, in their order, and added
-- behind them at most as many scores as there are builders, each for the event in hand.
pub compute_score_adds :
    (u : Uint256) (scm : ScoreCalculatorManager) (e : DomainEvent) (score r : List Score)
    → compute_score u scm e score ≡ ok r
    → (new : List Score) × (r ≡ score ++ new)
      × All (λ s. s.event ≡ e) new
      × (length new ≤ length scm.builder)
unfolding compute_score
compute_score_adds u scm e score r h = run_builders_add u scm.booster scm.builder e score r h
