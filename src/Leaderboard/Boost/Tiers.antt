-- ===== src/Leaderboard/Boost/Tiers.antt =====
-- The tiers of the two boosts (internal/leaderboard/boost.go).
use carbonable_leaderboard_b.Prelude.{
  ℕ, ◌*◌, ◌/◌, ◌≤◌, ◌<◌, ◌≡◌, ◌⊎◌, ◌^◌, eqb, arith, leb, if◌then◌else◌,
}
use carbonable_leaderboard_b.Go.Outcome.{ok}
use carbonable_leaderboard_b.Go.Uint256.{Uint256, Documented}
use carbonable_leaderboard_b.Leaderboard.Event.{DomainEvent, Boost, Score, amount_fund_rule_name}
use carbonable_leaderboard_b.Leaderboard.Boost.{
  Interval, apply, apply_project_value, project_value_steps, get_interval,
  default_project_value_boost_calculator,
}

-- `GetInterval` of a purchase of `v` dollars, tier by tier.
abbrev interval_at : ℕ → Interval
interval_at v =
    if leb 5000 v
    then record { boost = 300; next = 0; next_boost = 0 }
    else if leb 1000 v
    then record { boost = 200; next = 5000; next_boost = 300 }
    else if leb 500 v
    then record { boost = 150; next = 1000; next_boost = 200 }
    else record { boost = 0; next = 500; next_boost = 150 }

-- The same of the tiers as numbers.
tiers :
    (v w : ℕ)
    → v ≤ w
    → (((interval_at v).next ≡ 0) × (5000 ≤ v) × ((interval_at w).boost ≡ (interval_at v).boost))
      ⊎ ((v < (interval_at v).next)
          × ((interval_at (interval_at v).next).boost ≡ (interval_at v).next_boost)
          × (((interval_at v).next ≤ w) ⊎ ((interval_at w).boost ≡ (interval_at v).boost)))
tiers v w more = ground arith

-- The boost that the value itself is multiplied by, in hundredths.
abbrev pub factor : ℕ → ℕ
factor boost = if eqb boost 0 then 100 else boost

module _ (u : Uint256) (d : Documented u) where
  abbrev pub interval : ℕ → Interval
  interval v = get_interval u default_project_value_boost_calculator v

  pub interval-tiers : (v : ℕ) → interval v ≡ interval_at v
  unfolding get_interval
  interval-tiers v =
      ground (arith, d.cmp_compares v 5000, d.cmp_compares v 1000, d.cmp_compares v 500)

  -- Of a value `v` and a value `w` that is not smaller: either `v` has no next tier, is 5000 dollars or
  -- more, and `w` has the same boost; or the tier that `GetInterval` announces for `v` is the next one:
  -- `v` has not reached it, it has the announced boost, and `w` reaches it or has the boost of `v`.
  pub next_tier :
      (v w : ℕ)
      → v ≤ w
      → (((interval v).next ≡ 0) × (5000 ≤ v) × ((interval w).boost ≡ (interval v).boost))
        ⊎ ((v < (interval v).next)
            × ((interval (interval v).next).boost ≡ (interval v).next_boost)
            × (((interval v).next ≤ w) ⊎ ((interval w).boost ≡ (interval v).boost)))
  next_tier v w more =
      rw (interval-tiers v, interval-tiers w, interval-tiers (interval_at v).next) (tiers v w more)

  -- The boost that `GetInterval` announces for `v` dollars is the one that `Apply` makes of a score of
  -- `v` dollars under the rule of the amount funded: the points are multiplied by it, or stay where
  -- it is 0. The values go up to 2^200 dollars, where no product wraps.
  pub apply-interval :
      (v : ℕ) (e : DomainEvent) (b : Boost) (s : Score)
      → v ≤ 2 ^ 200
      → s.points ≡ v * 1000000
      → s.rule ≡ amount_fund_rule_name
      → (r : Score) × (apply u default_project_value_boost_calculator e b s ≡ ok r)
        × (r.points ≡ v * 1000000 * factor (interval v).boost / 100)
  unfolding apply
  apply-interval v e b s small points rule = (
    apply_project_value u project_value_steps b s,
    rw rule,
    rw (interval-tiers v, points)
        (ground (
          arith,
          d.cmp_compares (v * 1000000) 5000000000,
          d.cmp_compares (v * 1000000) 1000000000,
          d.cmp_compares (v * 1000000) 500000000,
          d.div_floors (u.mul (v * 1000000) 300) 100,
          d.mul_wraps (v * 1000000) 300,
          d.div_floors (u.mul (v * 1000000) 200) 100,
          d.mul_wraps (v * 1000000) 200,
          d.div_floors (u.mul (v * 1000000) 150) 100,
          d.mul_wraps (v * 1000000) 150,
        )),
  )
