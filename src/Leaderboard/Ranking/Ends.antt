-- ===== src/Leaderboard/Ranking/Ends.antt =====
-- How the computation of a ranking ends (internal/leaderboard/game.go and score_calculator.go).
use carbonable_leaderboard_b.Prelude.{
  ℕ, ◌≡◌, ◌⊎◌, true, String, List, [], ◌∷◌, ◌++◌, none, some, inl, inr, at_key, All, ◌==◌, ◌||◌,
}
use carbonable_leaderboard_b.Go.Outcome.{fatal, panic, is_ok, Outcome-cases}
use carbonable_leaderboard_b.Go.Uint256.{Uint256}
use carbonable_leaderboard_b.Leaderboard.Event.{DomainEvent, Score, Boost}
use carbonable_leaderboard_b.Leaderboard.Boost.{
  BoostCalculator, karathuru_funding_milestone, project_value,
}
use carbonable_leaderboard_b.Leaderboard.Builder.{ScoreBuilder, amount_funded, supports, compute}
use carbonable_leaderboard_b.Leaderboard.Manager.{
  ScoreCalculatorManager, run_builder, run_builders, compute_score,
}
use carbonable_leaderboard_b.Leaderboard.Ranking.{handle_events}
use carbonable_leaderboard_b.Leaderboard.Ranking.Panics.{OnePanics, run_builders-OnePanics}
use carbonable_leaderboard_b.Leaderboard.Aggregator.Sold.{MinterBuyValueAt, IsRead}

-- The event is a purchase, an airdrop or a migration.
abbrev pub IsFunding : DomainEvent → Type 0
IsFunding e =
    ((e.event_name == "minter:buy")
      || (e.event_name == "minter:airdrop")
      || (e.event_name == "migrator:migration"))
    ≡ true

module _ (u : Uint256) where
  -- A purchase, an airdrop or a migration has a value that can be read.
  abbrev pub HasValue : DomainEvent → Type 0
  HasValue e = IsFunding e → (v : ℕ) × (u.from_hex (at_key "value" e.event_data) ≡ some v)

  -- The aggregator of the booster returns, at any time.
  abbrev pub CanApply : BoostCalculator → Type 0
  CanApply (karathuru_funding_milestone a steps) = (t : ℕ) → is_ok (a "Karathuru" t) ≡ true
  CanApply (project_value steps) = Unit

  module _ (boosters : List BoostCalculator) where
    run_funding :
        (cs : List ScoreBuilder) (e : DomainEvent) (score : List Score)
        → IsFunding e
        → u.from_hex (at_key "value" e.event_data) ≡ none
        → run_builders u boosters (amount_funded ∷ cs) e score ≡ fatal
    unfolding run_builders run_builder supports compute
    run_funding cs e score funding bad = rw (funding, bad, compute)

module _ (u : Uint256) (scm : ScoreCalculatorManager) where
  -- One purchase, airdrop or migration whose value cannot be read, wherever it stands among the
  -- events, ends the process, under any manager whose first builder is the amount funded: by `log.Fatal`,
  -- there or before it, or by a panic before it, and this only where the aggregator of one of the boosters
  -- panics.
  pub bad_value_ends_process :
      (cs : List ScoreBuilder)
      → scm.builder ≡ amount_funded ∷ cs
      → (before after : List DomainEvent) (e : DomainEvent) (scores : List Score)
        (handled : List DomainEvent)
      → IsFunding e
      → u.from_hex (at_key "value" e.event_data) ≡ none
      → (handle_events u scm (before ++ e ∷ after) scores handled ≡ fatal)
        ⊎ ((handle_events u scm (before ++ e ∷ after) scores handled ≡ panic)
            × OnePanics scm.booster)
  unfolding handle_events compute_score
  bad_value_ends_process cs first [] after e scores handled funding bad =
      inl (rw (first, run_funding u scm.booster cs e scores funding bad))
  bad_value_ends_process cs first (b ∷ before) after e scores handled funding bad =
      elim (Outcome-cases (compute_score u scm b scores)) [
        | inl (mid, done) ↦
            rw done
              (bad_value_ends_process cs first before after e mid (handled ++ b ∷ []) funding bad)
        | inr (inl ended) ↦ inl (rw ended)
        | inr (inr panicked) ↦
            inr (rw panicked, run_builders-OnePanics u scm.booster scm.builder b scores panicked)
      ]

  -- The same of the first event: it is there that `log.Fatal` is called.
  pub first_value_is_fatal :
      (cs : List ScoreBuilder)
      → scm.builder ≡ amount_funded ∷ cs
      → (after : List DomainEvent) (e : DomainEvent) (scores : List Score)
        (handled : List DomainEvent)
      → IsFunding e
      → u.from_hex (at_key "value" e.event_data) ≡ none
      → handle_events u scm (e ∷ after) scores handled ≡ fatal
  unfolding handle_events compute_score
  first_value_is_fatal cs first after e scores handled funding bad =
      rw (first, run_funding u scm.booster cs e scores funding bad)

module _ (u : Uint256) (query : MinterBuyValueAt) where
  -- The rows that are read for the milestones of Karathuru are texts of numbers.
  abbrev pub HasReadableRows : Type 0
  HasReadableRows =
      (t : ℕ) (lines : List String) → query "Karathuru" t ≡ some lines → All (IsRead u) lines
