-- ===== src/Leaderboard/Ranking.antt =====
-- internal/leaderboard/game.go: the order of the events and the ranking of one wallet.
pub mod Runs
pub mod Order
pub mod Panics
pub mod Ends
pub mod RowOrder
use carbonable_leaderboard_b.Prelude.{
  ℕ, suc, ◌+◌, Bool, String, List, [], ◌∷◌, ◌++◌, ◌==◌, eqb, ltb, if◌then◌else◌,
}
use carbonable_leaderboard_b.Go.Outcome.{Outcome, ok, ◌>>=◌}
use carbonable_leaderboard_b.Go.Sort.{Sorter}
use carbonable_leaderboard_b.Go.Uint256.{Uint256}
use carbonable_leaderboard_b.Leaderboard.Event.{DomainEvent, Score}
use carbonable_leaderboard_b.Leaderboard.Manager.{ScoreCalculatorManager, compute_score}
use carbonable_leaderboard_b.Leaderboard.Total.{total_score, aggregate_categories}
use carbonable_leaderboard_b.Leaderboard.Line.{
  FormatHundredths, LeaderboardLine, leaderboard_line_from_score,
}

abbrev pub event_priority : List String
event_priority = "project:transfer" ∷ "project:transfer-value" ∷ "project:slot-changed" ∷ []

-- The loop of `indexOf`, from the index `i`.
unfoldable pub index_from : ℕ → List String → String → ℕ
index_from i [] e = 99999
index_from i (a ∷ s) e = if a == e then i else index_from (i + 1) s e

unfoldable pub index_of : List String → String → ℕ
unfolding index_from
index_of s e = index_from 0 s e

-- `ByRecordedAtAndEventName.Less`, of the two events at the indices.
unfoldable pub less : DomainEvent → DomainEvent → Bool
unfolding index_of
less e1 e2 =
    if eqb e1.recorded_at e2.recorded_at
    then ltb (index_of event_priority e1.event_name) (index_of event_priority e2.event_name)
    else ltb e1.recorded_at e2.recorded_at

pub record PersonnalRanking : Type 0 where
  pub customer_wallet : String
  pub events : List DomainEvent
  pub handled_events : List DomainEvent

unfoldable pub new_personnal_ranking :
    Sorter DomainEvent → String → List DomainEvent → PersonnalRanking
unfolding less
new_personnal_ranking sorter wallet events = record {
  customer_wallet = wallet;
  events = sorter.sort less events;
  handled_events = [];
}

module _ (u : Uint256) (scm : ScoreCalculatorManager) where
  -- The loop of `PersonnalRanking.ComputeScore`: the scores and the handled events.
  unfoldable pub handle_events :
      List DomainEvent → List Score → List DomainEvent → Outcome (List Score × List DomainEvent)
  handle_events [] scores handled = ok (scores, handled)
  handle_events (e ∷ events) scores handled =
      compute_score u scm e scores >>= λ scores'. handle_events events scores' (handled ++ e ∷ [])

-- `PersonnalRanking.ComputeScore`: the line, and the ranking that the call leaves.
unfoldable pub rank :
    Uint256
    → FormatHundredths
    → String
    → ScoreCalculatorManager
    → PersonnalRanking
    → Outcome (LeaderboardLine × PersonnalRanking)
unfolding handle_events
rank u format id scm pr = do
  (scores, handled) ← handle_events u scm pr.events [] pr.handled_events
  let line =
      leaderboard_line_from_score format u id pr.customer_wallet scores (total_score u scores)
        (aggregate_categories u scores)
  ok (line, record pr { handled_events = handled })
