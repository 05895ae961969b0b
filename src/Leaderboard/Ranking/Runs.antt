-- ===== src/Leaderboard/Ranking/Runs.antt =====
-- What holds of the scores and of the line after a whole ranking (internal/leaderboard/game.go).
use carbonable_leaderboard_b.Prelude.{
  suc, ◌%◌, ◌/◌, ◌≡◌, refl, sym, ap, subst, ◌∙◌, String, List, [], ◌∷◌, ◌++◌, arith, length,
  append_assoc, append-nil,
}
use carbonable_leaderboard_b.Go.Outcome.{Outcome, ok, fatal, panic, >>=-eq-ok}
use carbonable_leaderboard_b.Go.Uint256.{Uint256, Documented, modulus}
use carbonable_leaderboard_b.Leaderboard.Event.{DomainEvent, Score}
use carbonable_leaderboard_b.Leaderboard.Manager.{ScoreCalculatorManager, compute_score}
use carbonable_leaderboard_b.Leaderboard.Manager.Keeps.{BuilderKeeps, run_builders_keep}
use carbonable_leaderboard_b.Leaderboard.Manager.Awards.{AtMostOnce, IsOnce, run_builder-AtMostOnce}
use carbonable_leaderboard_b.Leaderboard.Total.{aggregate_categories}
use carbonable_leaderboard_b.Leaderboard.Total.Sums.{sum_points, total_score-eq-sum}
use carbonable_leaderboard_b.Leaderboard.Line.{
  FormatHundredths, LeaderboardLine, points_of, leaderboard_line_from_score,
}
use carbonable_leaderboard_b.Leaderboard.Ranking.{PersonnalRanking, handle_events, rank}

module _ (u : Uint256) (scm : ScoreCalculatorManager) where
  pub handle_events_keep :
      (P : List Score → Type 0)
      → BuilderKeeps u scm.booster P
      → (events : List DomainEvent) (scores : List Score) (handled : List DomainEvent)
        (scores' : List Score) (handled' : List DomainEvent)
      → handle_events u scm events scores handled ≡ ok (scores', handled')
      → P scores
      → P scores'
  unfolding handle_events compute_score
  handle_events_keep P step [] scores handled scores' handled' h p = subst P (ground arith) p
  handle_events_keep P step (e ∷ events) scores handled scores' handled' h p =
      let (mid, first, rest) = >>=-eq-ok (compute_score u scm e scores) _ h in
      handle_events_keep P step events mid (handled ++ e ∷ []) scores' handled' rest
        (run_builders_keep u scm.booster P step scm.builder e scores mid first p)

  handle_events_all :
      (events : List DomainEvent) (scores : List Score) (handled : List DomainEvent)
      (scores' : List Score) (handled' : List DomainEvent)
      → handle_events u scm events scores handled ≡ ok (scores', handled')
      → handled' ≡ handled ++ events
  unfolding handle_events
  handle_events_all [] scores handled scores' handled' h = ground (arith, append-nil handled)
  handle_events_all (e ∷ events) scores handled scores' handled' h =
      let (mid, first, rest) = >>=-eq-ok (compute_score u scm e scores) _ h in
      handle_events_all events mid (handled ++ e ∷ []) scores' handled' rest
      ∙ append_assoc handled (e ∷ []) events

  -- Whatever the manager and the events, the scores that a ranking returns have at most one award of
  -- each of the rules "number_of_projects" and "early_adopter" for each project.
  pub award_once :
      (rule : String)
      → IsOnce rule
      → (events : List DomainEvent) (scores' : List Score) (handled' : List DomainEvent)
      → handle_events u scm events [] [] ≡ ok (scores', handled')
      → AtMostOnce rule scores'
  award_once rule which events scores' handled' h =
      handle_events_keep (AtMostOnce rule)
        (λ c e score r run once.
          run_builder-AtMostOnce u scm.booster c e score r rule which run once)
        events [] [] scores' handled' h (λ p. omega arith)

length-points_of :
    (format : FormatHundredths) (u : Uint256) (score : List Score)
    → length (points_of format u score) ≡ length score
unfolding points_of
length-points_of format u [] = refl
length-points_of format u (s ∷ score) = ap suc (length-points_of format u score)

ok_pair : {A B : Type 0} {p q : A × B} → ok p ≡ ok q → (p.0 ≡ q.0) × (p.1 ≡ q.1)
ok_pair {A} {B} {p} h = (ap (λ o. (or_first o p).0) h, ap (λ o. (or_first o p).1) h)
  where
    or_first : Outcome (A × B) → A × B → A × B
    or_first (ok r) p = r
    or_first fatal p = p
    or_first panic p = p

-- When a ranking is computed, all of its events have been handled, in their order, and the line is
-- for its wallet, with a point for each score and the sum of the points, modulo 2^256, divided by a
-- million, as the total.
pub rank_lem :
    (u : Uint256) (d : Documented u) (format : FormatHundredths) (id : String)
    (scm : ScoreCalculatorManager) (pr pr' : PersonnalRanking) (line : LeaderboardLine)
    → rank u format id scm pr ≡ ok (line, pr')
    → (scores : List Score) × (handle_events u scm pr.events [] pr.handled_events
        ≡ ok (scores, pr'.handled_events))
      × (pr'.handled_events ≡ pr.handled_events ++ pr.events)
      × (pr'.events ≡ pr.events)
      × (line.wallet_address ≡ pr.customer_wallet)
      × (length line.points ≡ length scores)
      × (line.total_score ≡ u.to_string (sum_points scores % modulus / 1000000))
      × (line.categories ≡ aggregate_categories u scores)
unfolding rank leaderboard_line_from_score
rank_lem u d format id scm pr pr' line h =
    let (out, run, made) = >>=-eq-ok (handle_events u scm pr.events [] pr.handled_events) _ h in
    let handled_all = handle_events_all u scm pr.events [] pr.handled_events out.0 out.1 run in
    let made_line = ok_pair made in
    (
      out.0,
      run ∙ ap (λ (q : PersonnalRanking). ok (out.0, q.handled_events)) made_line.1,
      ap (λ (q : PersonnalRanking). q.handled_events) (sym made_line.1) ∙ handled_all,
      ap (λ (q : PersonnalRanking). q.events) (sym made_line.1),
      ap (λ (l : LeaderboardLine). l.wallet_address) (sym made_line.0),
      ap (λ (l : LeaderboardLine). length l.points) (sym made_line.0)
          ∙ length-points_of format u out.0,
      ap (λ (l : LeaderboardLine). l.total_score) (sym made_line.0)
          ∙ ap u.to_string (total_score-eq-sum u d out.0),
      ap (λ (l : LeaderboardLine). l.categories) (sym made_line.0),
    )
