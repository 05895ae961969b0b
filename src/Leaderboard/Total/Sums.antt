-- ===== src/Leaderboard/Total/Sums.antt =====
-- `TotalScore` as a sum: for internal/leaderboard/score_calculator.go.
use mathlib.Core.List.{Perm, Permᴰ}
use mathlib.Core.Logic.{∥∥₁_elim}
use native.Mathlib.Nat.{ℕ_set}
use carbonable_leaderboard_b.Prelude.{
  ℕ, ◌+◌, ◌/◌, ◌%◌, ◌<◌, ◌≡◌, refl, ap, ◌∙◌, List, [], ◌∷◌, arith,
}
use carbonable_leaderboard_b.Go.Uint256.{Uint256, Documented, modulus}
use carbonable_leaderboard_b.Leaderboard.Event.{Score}
use carbonable_leaderboard_b.Leaderboard.Points.{
  ScoreCalculator, base, get_points, new_addition_score,
}
use carbonable_leaderboard_b.Leaderboard.Total.{add_scores, total_score}

-- The points of all scores, added without a bound.
abbrev pub sum_points : List Score → ℕ
sum_points [] = 0
sum_points (s ∷ score) = s.points + sum_points score

module _ (u : Uint256) (d : Documented u) where
  get_points-add_scores :
      (score : List Score) (sc : ScoreCalculator)
      → get_points u sc < modulus
      → get_points u (add_scores score sc) ≡ (sum_points score + get_points u sc) % modulus
  unfolding add_scores
  get_points-add_scores [] sc h = omega arith
  get_points-add_scores (s ∷ score) sc h =
      let outer : get_points u (new_addition_score s.points sc)
          ≡ (s.points + get_points u sc) % modulus =
        unfold get_points in d.add_wraps s.points (get_points u sc) in
      omega (arith, get_points-add_scores score (new_addition_score s.points sc) (omega arith))

  -- The total of any scores is their sum modulo 2^256, divided by a million and rounded down.
  pub total_score-eq-sum :
      (score : List Score) → total_score u score ≡ sum_points score % modulus / 1000000
  unfolding total_score get_points
  total_score-eq-sum score =
      rw (d.div_floors, get_points-add_scores score base (unfold get_points in omega arith))
        (unfold get_points in omega arith)

sum_points-perm : {a b : List Score} → Permᴰ a b → sum_points a ≡ sum_points b
sum_points-perm Permᴰ.nil = refl
sum_points-perm (Permᴰ.cons e p) = omega (arith, ap (λ (s : Score). s.points) e, sum_points-perm p)
sum_points-perm (Permᴰ.swap e f) =
    omega (arith, ap (λ (s : Score). s.points) e, ap (λ (s : Score). s.points) f)
sum_points-perm (Permᴰ.trans p q) = sum_points-perm p ∙ sum_points-perm q

-- The total does not depend on the order of the scores.
pub total_score-perm :
    (u : Uint256) (d : Documented u) {a b : List Score}
    → Perm a b
    → total_score u a ≡ total_score u b
total_score-perm u d {a} {b} p =
    ∥∥₁_elim p (ℕ_set _ _)
      (λ q. rw (total_score-eq-sum u d a, total_score-eq-sum u d b, sum_points-perm q))
