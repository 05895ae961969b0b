-- ===== src/Leaderboard/Manager/Runs.antt =====
-- What a builder's result is, and what the boosters leave alone
-- (internal/leaderboard/score_calculator.go and boost.go).
use carbonable_leaderboard_b.Prelude.{
  ℕ, ◌≡◌, refl, sym, subst, ◌∙◌, true, Bool-cases, inl, inr, String, List, [], ◌∷◌, ◌++◌, Option,
  none, some, ◌⊎◌, arith,
}
use carbonable_leaderboard_b.Go.Outcome.{ok, ok_eq, >>=-eq-ok}
use carbonable_leaderboard_b.Go.Uint256.{Uint256}
use carbonable_leaderboard_b.Leaderboard.Event.{
  DomainEvent, Score, Boost, amount_fund_rule_name, number_of_projects_rule_name,
  early_adopter_rule_name, offseter_rule_name, resaler_rule_name,
}
use carbonable_leaderboard_b.Leaderboard.Boost.{
  BoostCalculator, BoostValueItem, karathuru_funding_milestone, project_value, check, apply,
  apply_at, apply_karat, apply_project_value,
}
use carbonable_leaderboard_b.Leaderboard.Builder.{
  ScoreBuilder, amount_funded, number_of_projects, resaler, offseter, early_adopter, supports,
  compute,
}
use carbonable_leaderboard_b.Leaderboard.Manager.{
  apply_booster, apply_checked, apply_boosters, append_boosted, run_builder,
}

-- The rule that a builder writes into its scores.
abbrev pub rule_of : ScoreBuilder → String
rule_of amount_funded = amount_fund_rule_name
rule_of number_of_projects = number_of_projects_rule_name
rule_of resaler = resaler_rule_name
rule_of offseter = offseter_rule_name
rule_of early_adopter = early_adopter_rule_name

-- Two scores of one event under one rule.
pub record SameAward (s t : Score) : Type 0 where
  pub rules : s.rule ≡ t.rule
  pub events : s.event ≡ t.event

SameAward-trans : {s t r : Score} → SameAward s t → SameAward t r → SameAward s r
SameAward-trans a b = record { rules = a.rules ∙ b.rules; events = a.events ∙ b.events }

module _ (u : Uint256) where
  apply_karat-SameAward :
      (mv : ℕ) (steps : List BoostValueItem) (b : Boost) (s : Score)
      → SameAward (apply_karat u mv steps b s) s
  unfolding apply_karat
  apply_karat-SameAward mv [] b s = record { rules = refl; events = refl }
  apply_karat-SameAward mv (v ∷ steps) b s = ground (arith, apply_karat-SameAward mv steps b s)

  apply_project_value-SameAward :
      (steps : List BoostValueItem) (b : Boost) (s : Score)
      → SameAward (apply_project_value u steps b s) s
  unfolding apply_project_value
  apply_project_value-SameAward [] b s = record { rules = refl; events = refl }
  apply_project_value-SameAward (v ∷ steps) b s =
      ground (arith, apply_project_value-SameAward steps b s)

  apply_at-SameAward :
      (o : Option ℕ) (steps : List BoostValueItem) (b : Boost) (s : Score)
      → SameAward (apply_at u o steps b s) s
  unfolding apply_at
  apply_at-SameAward none steps b s = record { rules = refl; events = refl }
  apply_at-SameAward (some mv) steps b s = ground (arith, apply_karat-SameAward mv steps b s)

  apply_checked-SameAward :
      (o : Option Boost) (c : BoostCalculator) (e : DomainEvent) (s r : Score)
      → apply_checked u o c e s ≡ ok r
      → SameAward r s
  unfolding apply_checked apply
  apply_checked-SameAward none c e s r h =
      subst (λ x. SameAward x s) (ok_eq h) (record { rules = refl; events = refl })
  apply_checked-SameAward (some b) (karathuru_funding_milestone a steps) e s r h =
      let (mv, sold, done) = >>=-eq-ok (a "Karathuru" e.recorded_at) _ h in
      subst (λ x. SameAward x s) (ok_eq done) (apply_at-SameAward mv steps b s)
  apply_checked-SameAward (some b) (project_value steps) e s r h =
      subst (λ x. SameAward x s) (ok_eq h) (ground (arith, apply_project_value-SameAward steps b s))

  pub apply_boosters-SameAward :
      (cs : List BoostCalculator) (e : DomainEvent) (s r : Score)
      → apply_boosters u cs e s ≡ ok r
      → SameAward r s
  unfolding apply_boosters apply_booster
  apply_boosters-SameAward [] e s r h =
      subst (λ x. SameAward x s) (ok_eq h) (record { rules = refl; events = refl })
  apply_boosters-SameAward (c ∷ cs) e s r h =
      let (mid, first, rest) = >>=-eq-ok (apply_booster u c e s) (apply_boosters u cs e) h in
      SameAward-trans (apply_boosters-SameAward cs e mid r rest)
        (apply_checked-SameAward (check c e) c e s mid first)

  -- A score that a builder computes is for the event that it is given, under its own rule, unboosted.
  pub compute_lem :
      (c : ScoreBuilder) (e : DomainEvent) (score : List Score) (s : Score)
      → compute u c e score ≡ ok (some s)
      → (s.rule ≡ rule_of c) × (s.event ≡ e) × (s.boosts ≡ [])
  unfolding compute
  compute_lem amount_funded e score s h = ground arith
  compute_lem number_of_projects e score s h = ground arith
  compute_lem resaler e score s h = ground arith
  compute_lem offseter e score s h = ground arith
  compute_lem early_adopter e score s h = ground arith

  -- What a round leaves: the scores from before, with the boosted score of its builder behind them.
  abbrev pub Appends :
      List BoostCalculator → ScoreBuilder → DomainEvent → List Score → List Score → Type 0
  Appends boosters c e score r =
      (s s' : Score) × (r ≡ score ++ s' ∷ [])
      × (apply_boosters u boosters e s ≡ ok s')
      × (supports c e score ≡ true)
      × (compute u c e score ≡ ok (some s))

  appended_cases :
      (boosters : List BoostCalculator) (c : ScoreBuilder) (e : DomainEvent) (score r : List Score)
      (o : Option Score)
      → append_boosted u boosters e score o ≡ ok r
      → supports c e score ≡ true
      → compute u c e score ≡ ok o
      → (r ≡ score) ⊎ Appends boosters c e score r
  unfolding append_boosted
  appended_cases boosters c e score r none h supported computed = inl (sym (ok_eq h))
  appended_cases boosters c e score r (some s) h supported computed =
      let (s', applied, done) =
        >>=-eq-ok (apply_boosters u boosters e s) (λ s'. ok (score ++ s' ∷ [])) h in
      inr (s, s', sym (ok_eq done), applied, supported, computed)

  -- A round of the loop over the builders that returns.
  pub run_builder_cases :
      (boosters : List BoostCalculator) (c : ScoreBuilder) (e : DomainEvent) (score r : List Score)
      → run_builder u boosters c e score ≡ ok r
      → (r ≡ score) ⊎ Appends boosters c e score r
  unfolding run_builder
  run_builder_cases boosters c e score r h = elim (Bool-cases (supports c e score)) [
    | inl supported ↦
        let (o, computed, rest) =
          >>=-eq-ok (compute u c e score) (append_boosted u boosters e score) (rw supported at h) in
        appended_cases boosters c e score r o rest supported computed
    | inr other ↦ inl (sym (ok_eq (rw other at h)))
  ]
