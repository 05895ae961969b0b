-- ===== src/Leaderboard/Boost/Milestones.antt =====
-- The Karathuru funding milestones (internal/leaderboard/boost.go).
use carbonable_leaderboard_b.Prelude.{ℕ, ◌*◌, ◌/◌, ◌^◌, ◌≤◌, ◌≡◌, some, arith, leb, if◌then◌else◌}
use carbonable_leaderboard_b.Go.Outcome.{ok}
use carbonable_leaderboard_b.Go.Uint256.{Uint256, Documented}
use carbonable_leaderboard_b.Leaderboard.Event.{DomainEvent, Boost, Score, amount_fund_rule_name}
use carbonable_leaderboard_b.Leaderboard.Boost.{
  BuyValueAggregator, apply, apply_at, karat_steps, new_karat_funding_milestone_boost_calculator,
}

-- The factor of a milestone in hundredths, by the dollars that the minter has sold for.
abbrev pub milestone_factor : ℕ → ℕ
milestone_factor mv =
    if leb mv 50000
    then 300
    else if leb mv 150000
    then 200
    else if leb mv 300000
    then 150
    else if leb mv 500000
    then 120
    else if leb mv 700000
    then 110
    else 100

module _ (u : Uint256) (d : Documented u) where
  milestone_points :
      (mv : ℕ) (b : Boost) (s : Score)
      → s.points ≤ 2 ^ 240
      → s.rule ≡ amount_fund_rule_name
      → (apply_at u (some mv) karat_steps b s).points ≡ s.points * milestone_factor mv / 100
  unfolding apply_at
  milestone_points mv b s small rule = rw rule (
      ground (
        arith,
        d.cmp_compares mv 50000,
        d.cmp_compares mv 150000,
        d.cmp_compares mv 300000,
        d.cmp_compares mv 500000,
        d.cmp_compares mv 700000,
        d.div_floors (u.mul s.points 300) 100,
        d.mul_wraps s.points 300,
        d.div_floors (u.mul s.points 200) 100,
        d.mul_wraps s.points 200,
        d.div_floors (u.mul s.points 150) 100,
        d.mul_wraps s.points 150,
        d.div_floors (u.mul s.points 120) 100,
        d.mul_wraps s.points 120,
        d.div_floors (u.mul s.points 110) 100,
        d.mul_wraps s.points 110,
      ))

  karat_points-factor :
      (a : BuyValueAggregator) (e : DomainEvent) (b : Boost) (s : Score) (mv : ℕ)
      → a "Karathuru" e.recorded_at ≡ ok (some mv)
      → s.points ≤ 2 ^ 240
      → s.rule ≡ amount_fund_rule_name
      → (r : Score) × (apply u (new_karat_funding_milestone_boost_calculator a) e b s ≡ ok r)
        × (r.points ≡ s.points * milestone_factor mv / 100)
  unfolding apply
  karat_points-factor a e b s mv sold small rule =
      (apply_at u (some mv) karat_steps b s, rw sold, milestone_points mv b s small rule)

  -- Where the minter has sold for `mv` dollars, a score under the rule of the amount funded is
  -- multiplied by the factor of the milestone. So its points never fall, are at most tripled, and a
  -- minter that has sold for more never multiplies by more. The points go up to 2^240, where no
  -- product wraps.
  pub milestone_bounds :
      (a a' : BuyValueAggregator) (e : DomainEvent) (b : Boost) (s : Score) (mv mv' : ℕ)
      → a "Karathuru" e.recorded_at ≡ ok (some mv)
      → a' "Karathuru" e.recorded_at ≡ ok (some mv')
      → mv ≤ mv'
      → s.points ≤ 2 ^ 240
      → s.rule ≡ amount_fund_rule_name
      → (r r' : Score) × (apply u (new_karat_funding_milestone_boost_calculator a) e b s ≡ ok r)
        × (apply u (new_karat_funding_milestone_boost_calculator a') e b s ≡ ok r')
        × (r.points ≡ s.points * milestone_factor mv / 100)
        × (s.points ≤ r.points)
        × (r.points ≤ 3 * s.points)
        × (r'.points ≤ r.points)
  milestone_bounds a a' e b s mv mv' sold sold' more small rule =
      let (r, applied, points) = karat_points-factor a e b s mv sold small rule in
      let (r', applied', points') = karat_points-factor a' e b s mv' sold' small rule in
      (
        r,
        r',
        applied,
        applied',
        points,
        rw points (ground arith),
        rw points (ground arith),
        rw (points, points') (ground arith),
      )
