-- ===== src/Leaderboard/Manager/Awards.antt =====
-- The two awards that a project gives once: a score for the project as such, and one for an early
-- adopter (internal/leaderboard/score_calculator.go).
use mathlib.Core.Bool.{false≢true}
use carbonable_leaderboard_b.Prelude.{
  ℕ, ◌≤◌, ◌≡◌, refl, subst, ap, ◌∙◌, ◌⊎◌, not, Option-cases, true, false, String, List, [], ◌∷◌,
  none, some, inl, inr, arith, eq_iff, Bool-cases, count, count-append, ◌==◌,
}
use carbonable_leaderboard_b.Go.Outcome.{ok}
use carbonable_leaderboard_b.Go.Uint256.{Uint256}
use carbonable_leaderboard_b.Leaderboard.Event.{
  DomainEvent, Score, number_of_projects_rule_name, early_adopter_rule_name,
}
use carbonable_leaderboard_b.Leaderboard.Boost.{BoostCalculator}
use carbonable_leaderboard_b.Leaderboard.Builder.{
  ScoreBuilder, number_of_projects, early_adopter, supports, compute, is_award, rule_was_applied,
  meets_passed_over, project_of, compute_early_adopter,
}
use carbonable_leaderboard_b.Leaderboard.Manager.{run_builder}
use carbonable_leaderboard_b.Leaderboard.Manager.Runs.{
  SameAward, apply_boosters-SameAward, compute_lem, run_builder_cases, rule_of,
}

-- How often a rule was applied to a project.
abbrev pub awards : String → String → List Score → ℕ
awards rule p score = count (is_award rule p) score

awards-not_applied :
    (rule p : String) (score : List Score)
    → rule_was_applied rule p score ≡ false
    → awards rule p score ≡ 0
unfolding rule_was_applied
awards-not_applied rule p [] h = refl
awards-not_applied rule p (s ∷ score) h = ground (arith, awards-not_applied rule p score)

awards-not_passed_over :
    (p : String) (score : List Score)
    → meets_passed_over p score ≡ false
    → awards early_adopter_rule_name p score ≡ 0
unfolding meets_passed_over is_award
awards-not_passed_over p [] h = refl
awards-not_passed_over p (s ∷ score) h = ground (arith, awards-not_passed_over p score)

-- An award is told from the rule and the event alone.
is_award-SameAward :
    (rule p : String) (s t : Score) → SameAward s t → is_award rule p s ≡ is_award rule p t
unfolding is_award
is_award-SameAward rule p s t same = rw (same.rules, same.events)

-- For each project the rule has been applied at most once.
abbrev pub AtMostOnce : String → List Score → Type 0
AtMostOnce rule score = (p : String) → awards rule p score ≤ 1

-- A builder of another rule makes no award of this one.
is_award-other :
    (rule p : String) (s : Score) → (s.rule == rule) ≡ false → is_award rule p s ≡ false
unfolding is_award
is_award-other rule p s h = ground arith

is_award-project :
    (rule p : String) (s : Score) → is_award rule p s ≡ true → project_of s.event ≡ some p
unfolding is_award
is_award-project rule p s h = elim (Option-cases (project_of s.event)) [
  | inl absent ↦ absurd (false≢true (rw (absent, is_award) at h))
  | inr (q, found) ↦ found ∙ ap some ((eq_iff q p).0 (ground arith))
]

supports-project :
    (e : DomainEvent) (score : List Score) (p : String)
    → project_of e ≡ some p
    → supports number_of_projects e score
      ≡ not (rule_was_applied number_of_projects_rule_name p score)
unfolding supports
supports-project e score p h = rw (h, supports)

compute-project :
    (u : Uint256) (e : DomainEvent) (score : List Score) (p : String)
    → project_of e ≡ some p
    → meets_passed_over p score ≡ true
    → compute u early_adopter e score ≡ ok none
unfolding compute
compute-project u e score p h met = rw (h, compute_early_adopter, met)

module _ (u : Uint256) (e : DomainEvent) (score : List Score) (s : Score) (p : String) where
  fresh_project :
      supports number_of_projects e score ≡ true
      → compute u number_of_projects e score ≡ ok (some s)
      → is_award number_of_projects_rule_name p s ≡ true
      → awards number_of_projects_rule_name p score ≡ 0
  fresh_project sup h a =
      let for_e = (compute_lem u number_of_projects e score s h).1 in
      let named = subst (λ x. project_of x ≡ some p) for_e (is_award-project _ p s a) in
      awards-not_applied number_of_projects_rule_name p score
        (ground (arith, supports-project e score p named))

  fresh_adopter :
      compute u early_adopter e score ≡ ok (some s)
      → is_award early_adopter_rule_name p s ≡ true
      → awards early_adopter_rule_name p score ≡ 0
  fresh_adopter h a =
      let for_e = (compute_lem u early_adopter e score s h).1 in
      let named = subst (λ x. project_of x ≡ some p) for_e (is_award-project _ p s a) in
      awards-not_passed_over p score (elim (Bool-cases (meets_passed_over p score)) [
        | inl met ↦ cc (compute-project u e score p named met)
        | inr fresh ↦ fresh
      ])

award-rule :
    (u : Uint256) (c : ScoreBuilder) (e : DomainEvent) (score : List Score) (s : Score)
    (rule p : String)
    → compute u c e score ≡ ok (some s)
    → is_award rule p s ≡ true
    → (rule_of c == rule) ≡ true
award-rule u c e score s rule p h a = elim (Bool-cases (rule_of c == rule)) [
  | inl same ↦ same
  | inr other ↦
      let same_rule = (compute_lem u c e score s h).0 in
      cc (a, is_award-other rule p s (rw same_rule other))
]

module _ (u : Uint256) (e : DomainEvent) (score : List Score) (s : Score) (p : String) where
  fresh_for_project :
      (c : ScoreBuilder)
      → supports c e score ≡ true
      → compute u c e score ≡ ok (some s)
      → is_award number_of_projects_rule_name p s ≡ true
      → awards number_of_projects_rule_name p score ≡ 0
  fresh_for_project number_of_projects sup h a = fresh_project u e score s p sup h a
  fresh_for_project c sup h a = cc (award-rule u c e score s number_of_projects_rule_name p h a)

  fresh_for_adopter :
      (c : ScoreBuilder)
      → compute u c e score ≡ ok (some s)
      → is_award early_adopter_rule_name p s ≡ true
      → awards early_adopter_rule_name p score ≡ 0
  fresh_for_adopter early_adopter h a = fresh_adopter u e score s p h a
  fresh_for_adopter c h a = cc (award-rule u c e score s early_adopter_rule_name p h a)

-- The two rules whose awards a project gives once.
abbrev pub IsOnce : String → Type 0
IsOnce rule = (rule ≡ number_of_projects_rule_name) ⊎ (rule ≡ early_adopter_rule_name)

-- An award that a builder computes is the first of its rule for its project.
fresh :
    (u : Uint256) (c : ScoreBuilder) (e : DomainEvent) (score : List Score) (s : Score)
    (p rule : String)
    → IsOnce rule
    → supports c e score ≡ true
    → compute u c e score ≡ ok (some s)
    → is_award rule p s ≡ true
    → awards rule p score ≡ 0
fresh u c e score s p rule (inl w) sup h a =
    rw w (fresh_for_project u e score s p c sup h (subst (λ r. is_award r p s ≡ true) w a))
fresh u c e score s p rule (inr w) sup h a =
    rw w (fresh_for_adopter u e score s p c h (subst (λ r. is_award r p s ≡ true) w a))

-- A builder keeps both: at most one award of the rule for each project.
pub run_builder-AtMostOnce :
    (u : Uint256) (boosters : List BoostCalculator) (c : ScoreBuilder) (e : DomainEvent)
    (score r : List Score) (rule : String)
    → IsOnce rule
    → run_builder u boosters c e score ≡ ok r
    → AtMostOnce rule score
    → AtMostOnce rule r
run_builder-AtMostOnce u boosters c e score r rule which h once p =
    elim (run_builder_cases u boosters c e score r h) [
      | inl same ↦ rw same (once p)
      | inr (s, t, appended, applied, sup, computed) ↦
          let kept =
            is_award-SameAward rule p t s (apply_boosters-SameAward u boosters e s t applied) in
          rw (appended, count-append (is_award rule p) score (t ∷ []), kept)
            (elim (Bool-cases (is_award rule p s)) [
              | inl award ↦
                  rw award (omega (arith, fresh u c e score s p rule which sup computed award))
              | inr other ↦ rw other (omega (arith, once p))
            ])
    ]
