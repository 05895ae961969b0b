-- ===== src/Graph/Purchase.antt =====
-- What the API answers on the boost of a purchase (graph/schema.resolvers.go).
use carbonable_leaderboard_b.Prelude.{
  ℕ, ◌-◌, ◌*◌, ◌/◌, ◌^◌, ◌<◌, ◌≡◌, refl, ap, ◌∙◌, String, List, [], ◌∷◌, Option, none, some, arith,
  at_key, ltb, if◌then◌else◌,
}
use carbonable_leaderboard_b.Go.Outcome.{Outcome, ok, ok_eq, fatal, ◌>>=◌}
use carbonable_leaderboard_b.Go.Format.{decimal_int64}
use carbonable_leaderboard_b.Go.Sort.{Sorts}
use carbonable_leaderboard_b.Go.Uint256.{Uint256, Documented, modulus}
use carbonable_leaderboard_b.Leaderboard.Event.{DomainEvent, Score, amount_fund_rule_name}
use carbonable_leaderboard_b.Leaderboard.Boost.{
  apply, apply_project_value, check, project_value_steps,
}
use carbonable_leaderboard_b.Leaderboard.Boost.Tiers.{
  interval, interval-tiers, factor, apply-interval,
}
use carbonable_leaderboard_b.Leaderboard.Builder.{new_score, compute, supports, amount_funded}
use carbonable_leaderboard_b.Leaderboard.Manager.{
  ScoreCalculatorManager, mint_page_calculator_manager, apply_boosters, apply_booster,
  compute_score, run_builder, append_boosted,
}
use carbonable_leaderboard_b.Leaderboard.Total.{CategorisedScore, total_score, aggregate_categories}
use text.Mathlib.TextEquality.{IsScalar-prop}
use carbonable_leaderboard_b.Go.Sort.One.{sort_one}
use carbonable_leaderboard_b.Leaderboard.Line.{
  FormatHundredths, LeaderboardLine, leaderboard_line_from_score,
}
use carbonable_leaderboard_b.Leaderboard.Total.Sums.{total_score-eq-sum}
use carbonable_leaderboard_b.Leaderboard.Ranking.{
  PersonnalRanking, rank, handle_events, new_personnal_ranking, less,
}
use carbonable_leaderboard_b.Leaderboard.Ranking.Ends.{IsFunding, first_value_is_fatal}
use carbonable_leaderboard_b.Graph.Resolver.{
  Runtime, fake_buy, mint_page_line, boost_for_wallet, next_boost_for_wallet,
}

line_total :
    (format : FormatHundredths) (u : Uint256) (id wallet : String) (scores : List Score) (total : ℕ)
    (categories : CategorisedScore)
    → (leaderboard_line_from_score format u id wallet scores total categories).total_score
      ≡ u.to_string total
unfolding leaderboard_line_from_score
line_total format u id wallet scores total categories = refl

rank_one :
    (u : Uint256) (format : FormatHundredths) (id wallet : String) (scm : ScoreCalculatorManager)
    (e : DomainEvent) (scores : List Score)
    → compute_score u scm e [] ≡ ok scores
    → rank u format id scm
        (record { customer_wallet = wallet; events = e ∷ []; handled_events = [] })
      ≡ ok (
        leaderboard_line_from_score format u id wallet scores
            (total_score u scores)
            (aggregate_categories u scores),
        record { customer_wallet = wallet; events = e ∷ []; handled_events = e ∷ [] },
      )
unfolding rank handle_events
rank_one u format id wallet scm e scores h = rw h

rank_bad :
    (u : Uint256) (format : FormatHundredths) (id wallet : String) (e : DomainEvent)
    → IsFunding e
    → u.from_hex (at_key "value" e.event_data) ≡ none
    → rank u format id mint_page_calculator_manager
        (record { customer_wallet = wallet; events = e ∷ []; handled_events = [] })
      ≡ fatal
unfolding rank
rank_bad u format id wallet e funding unread =
    rw (first_value_is_fatal u mint_page_calculator_manager [] refl [] e [] [] funding unread)

compute_funded :
    (u : Uint256) (e : DomainEvent) (n : ℕ)
    → u.from_hex (at_key "value" e.event_data) ≡ some n
    → compute u amount_funded e [] ≡ ok (some (new_score n amount_fund_rule_name e))
unfolding compute
compute_funded u e n h = rw (h, compute)

module _ (rt : Runtime) (d : Documented rt.u256) (wallet : String) (v : ℕ) where
  -- What `FromHex` reads of the value in the made-up purchase.
  abbrev pub value_read : Option ℕ
  value_read = rt.u256.from_hex (at_key "value" (fake_buy rt wallet v).event_data)

  -- The score of the purchase.
  abbrev pub boosted_points : ℕ
  boosted_points = v * 1000000 * factor (interval rt.u256 d v).boost / 100

  abbrev buy_score : Score
  buy_score =
      apply_project_value rt.u256 project_value_steps
        (record { name = "ProjectValue"; display_name = ""; value = 0 })
        (new_score (v * 1000000) amount_fund_rule_name (fake_buy rt wallet v))

  compute_buy :
      value_read ≡ some (v * 1000000)
      → compute_score rt.u256 mint_page_calculator_manager (fake_buy rt wallet v) []
        ≡ ok (buy_score ∷ [])
  unfolding compute_score run_builder supports append_boosted apply_boosters apply_booster check
      apply fake_buy
  compute_buy read = rw (compute_funded rt.u256 (fake_buy rt wallet v) (v * 1000000) read)

  total_of_buy :
      v < 2 ^ 43
      → total_score rt.u256 (buy_score ∷ []) ≡ v * factor (interval rt.u256 d v).boost / 100
  unfolding apply
  total_of_buy small =
      let (r, applied, points_of_r) =
        apply-interval rt.u256 d v (fake_buy rt wallet v)
          (record { name = "ProjectValue"; display_name = ""; value = 0 })
          (new_score (v * 1000000) amount_fund_rule_name (fake_buy rt wallet v)) (omega arith) refl
          refl in
      let points : buy_score.points ≡ boosted_points =
        ap (λ (s : Score). s.points) (ok_eq applied) ∙ points_of_r in
      total_score-eq-sum rt.u256 d (buy_score ∷ [])
      ∙ rw (points, interval-tiers rt.u256 d v) (ground arith)

module _ (rt : Runtime) (d : Documented rt.u256) (wallet : String) (v : ℕ) where
  missing_dollars :
      v < 2 ^ 43
      → rt.u256.sub (interval rt.u256 d v).next v
        ≡ (if ltb v 5000 then (interval rt.u256 d v).next - v else modulus - v)
  missing_dollars small =
      d.sub_wraps (interval rt.u256 d v).next v (omega arith)
      ∙ rw (interval-tiers rt.u256 d v) (ground arith)

module _ (rt : Runtime) (d : Documented rt.u256) (sorts : Sorts rt.sorter) (wallet : String)
    (v : ℕ) where
  one_event :
      new_personnal_ranking rt.sorter wallet (fake_buy rt wallet v ∷ [])
      ≡ record { customer_wallet = wallet; events = fake_buy rt wallet v ∷ []; handled_events = [] }
  unfolding new_personnal_ranking
  one_event =
      ap
        (λ (l : List DomainEvent). record {
          customer_wallet = wallet;
          events = l;
          handled_events = [];
        })
        (sort_one rt.sorter sorts (hlevel (IsScalar-prop)) less (fake_buy rt wallet v))

  line_of_buy :
      value_read rt d wallet v ≡ some (v * 1000000)
      → v < 2 ^ 43
      → (line : LeaderboardLine) × (mint_page_line rt wallet v ≡ ok line)
        × (line.total_score ≡ rt.u256.to_string (v * factor (interval rt.u256 d v).boost / 100))
  unfolding mint_page_line
  line_of_buy read small =
      let e = fake_buy rt wallet v in
      let scores = buy_score rt d wallet v ∷ [] in
      (
        leaderboard_line_from_score rt.format rt.u256 rt.ulid wallet scores
            (total_score rt.u256 scores) (aggregate_categories rt.u256 scores),
        ap
              (λ pr. rank rt.u256 rt.format rt.ulid mint_page_calculator_manager pr >>= λ result.
                ok result.0)
              one_event
            ∙ ap (λ (o : Outcome (LeaderboardLine × PersonnalRanking)). o >>= λ result. ok result.0)
                (rank_one rt.u256 rt.format rt.ulid wallet mint_page_calculator_manager e scores
                  (compute_buy rt d wallet v read)),
        line_total rt.format rt.u256 rt.ulid wallet scores _ _
            ∙ ap rt.u256.to_string (total_of_buy rt d wallet v small),
      )

  -- For a purchase of `v` dollars, below 2^43, whose value `FromHex` reads back, `BoostForWallet`
  -- answers `v`, the points that the purchase makes after the boost of its tier, and that boost; and
  -- `NextBoostForWallet` answers the same points, the boost of the next tier, and the dollars that
  -- are missing to it, which from 5000 dollars on, where there is no next tier, are 2^256 less `v`.
  pub boosts_for_wallet :
      value_read rt d wallet v ≡ some (v * 1000000)
      → v < 2 ^ 43
      → let tier = interval rt.u256 d v in
        let points = rt.u256.to_string (v * factor tier.boost / 100) in
        let missing = if ltb v 5000 then tier.next - v else modulus - v in
        (boost_for_wallet rt wallet v
          ≡ ok (record {
            value = decimal_int64 v;
            total_score = points;
            boost = rt.u256.to_string tier.boost;
          }))
        × (next_boost_for_wallet rt wallet v
            ≡ ok (record {
              missing = rt.u256.to_string missing;
              total_score = points;
              boost = rt.u256.to_string tier.next_boost;
            }))
  unfolding boost_for_wallet next_boost_for_wallet
  boosts_for_wallet read small =
      let (line, answered, total) = line_of_buy read small in
      (rw (answered, total), rw (answered, total, missing_dollars rt d wallet v small))

  line_of_bad : value_read rt d wallet v ≡ none → mint_page_line rt wallet v ≡ fatal
  unfolding mint_page_line fake_buy
  line_of_bad unread =
      ap
        (λ pr.
          rank rt.u256 rt.format rt.ulid mint_page_calculator_manager pr >>= λ result. ok result.0)
        one_event
      ∙ ap (λ (o : Outcome (LeaderboardLine × PersonnalRanking)). o >>= λ result. ok result.0)
          (rank_bad rt.u256 rt.format rt.ulid wallet (fake_buy rt wallet v) refl unread)

  -- A purchase whose value `FromHex` cannot read ends the server in both queries.
  pub bad_purchase_ends_server :
      value_read rt d wallet v ≡ none
      → (boost_for_wallet rt wallet v ≡ fatal) × (next_boost_for_wallet rt wallet v ≡ fatal)
  unfolding boost_for_wallet next_boost_for_wallet
  bad_purchase_ends_server unread = let ended = line_of_bad unread in (rw ended, rw ended)
