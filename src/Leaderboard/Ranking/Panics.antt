-- ===== src/Leaderboard/Ranking/Panics.antt =====
-- Where the computation of a ranking panics: in the aggregator of a booster
-- (internal/leaderboard/score_calculator.go, boost.go and aggregator.go).
use carbonable_leaderboard_b.Prelude.{
  ℕ, ◌≡◌, ◌≢◌, ◌⊎◌, Option, none, some, List, [], ◌∷◌, inl, inr, arith, Bool-cases,
}
use carbonable_leaderboard_b.Go.Outcome.{ok, panic, >>=-eq-panic}
use carbonable_leaderboard_b.Go.Uint256.{Uint256}
use carbonable_leaderboard_b.Leaderboard.Event.{DomainEvent, Score, Boost}
use carbonable_leaderboard_b.Leaderboard.Boost.{
  BoostCalculator, karathuru_funding_milestone, project_value, check, apply,
}
use carbonable_leaderboard_b.Leaderboard.Builder.{
  ScoreBuilder, amount_funded, number_of_projects, resaler, offseter, early_adopter, supports,
  compute,
}
use carbonable_leaderboard_b.Leaderboard.Manager.{
  run_builder, run_builders, apply_checked, apply_booster, apply_boosters, append_boosted,
}

-- The aggregator of the booster panics, at some time.
abbrev pub Panics : BoostCalculator → Type 0
Panics (karathuru_funding_milestone a steps) = (t : ℕ) × (a "Karathuru" t ≡ panic)
Panics (project_value steps) = ⊥

abbrev pub OnePanics : List BoostCalculator → Type 0
OnePanics [] = ⊥
OnePanics (c ∷ boosters) = Panics c ⊎ OnePanics boosters

module _ (u : Uint256) where
  compute_no_panic :
      (c : ScoreBuilder) (e : DomainEvent) (score : List Score) → compute u c e score ≢ panic
  unfolding compute
  compute_no_panic amount_funded e score = ground arith
  compute_no_panic number_of_projects e score = ground arith
  compute_no_panic resaler e score = ground arith
  compute_no_panic offseter e score = ground arith
  compute_no_panic early_adopter e score = ground arith

  apply_checked-Panics :
      (o : Option Boost) (c : BoostCalculator) (e : DomainEvent) (s : Score)
      → apply_checked u o c e s ≡ panic
      → Panics c
  unfolding apply_checked apply
  apply_checked-Panics none c e s h = absurd (cc h)
  apply_checked-Panics (some b) (karathuru_funding_milestone a steps) e s h =
      elim (>>=-eq-panic (a "Karathuru" e.recorded_at) _ h) [
        | inl panicked ↦ (e.recorded_at, panicked)
        | inr (mv, sold, applied) ↦ absurd (cc applied)
      ]
  apply_checked-Panics (some b) (project_value steps) e s h = absurd (cc h)

  apply_boosters-OnePanics :
      (cs : List BoostCalculator) (e : DomainEvent) (s : Score)
      → apply_boosters u cs e s ≡ panic
      → OnePanics cs
  unfolding apply_boosters apply_booster
  apply_boosters-OnePanics [] e s h = absurd (cc h)
  apply_boosters-OnePanics (c ∷ cs) e s h =
      elim (>>=-eq-panic (apply_booster u c e s) (apply_boosters u cs e) h) [
        | inl panicked ↦ inl (apply_checked-Panics (check c e) c e s panicked)
        | inr (mid, applied, rest) ↦ inr (apply_boosters-OnePanics cs e mid rest)
      ]

  module _ (boosters : List BoostCalculator) where
    append_boosted-OnePanics :
        (e : DomainEvent) (score : List Score) (o : Option Score)
        → append_boosted u boosters e score o ≡ panic
        → OnePanics boosters
    unfolding append_boosted
    append_boosted-OnePanics e score none h = absurd (cc h)
    append_boosted-OnePanics e score (some s) h =
        elim (>>=-eq-panic (apply_boosters u boosters e s) _ h) [
          | inl panicked ↦ apply_boosters-OnePanics boosters e s panicked
          | inr (s', applied, appended) ↦ absurd (cc appended)
        ]

    run_builder-OnePanics :
        (c : ScoreBuilder) (e : DomainEvent) (score : List Score)
        → run_builder u boosters c e score ≡ panic
        → OnePanics boosters
    unfolding run_builder
    run_builder-OnePanics c e score h = elim (Bool-cases (supports c e score)) [
      | inl sup ↦
          elim (>>=-eq-panic (compute u c e score) (append_boosted u boosters e score)
            (rw sup at h)) [
              | inl panicked ↦ absurd (compute_no_panic c e score panicked)
              | inr (o, computed, appended) ↦ append_boosted-OnePanics e score o appended
            ]
      | inr other ↦ let returned : ok score ≡ panic = rw other at h in absurd (cc returned)
    ]

    pub run_builders-OnePanics :
        (cs : List ScoreBuilder) (e : DomainEvent) (score : List Score)
        → run_builders u boosters cs e score ≡ panic
        → OnePanics boosters
    unfolding run_builders
    run_builders-OnePanics [] e score h = absurd (cc h)
    run_builders-OnePanics (c ∷ cs) e score h =
        elim (>>=-eq-panic (run_builder u boosters c e score) (run_builders u boosters cs e) h) [
          | inl panicked ↦ run_builder-OnePanics c e score panicked
          | inr (mid, done, rest) ↦ run_builders-OnePanics cs e mid rest
        ]
