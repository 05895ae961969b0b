-- ===== src/Tests/Rows.antt =====
-- A purchase and a transfer of one second, in both orders.
use mathlib.Core.List.Perm
use carbonable_leaderboard_b.Prelude.{◌≡◌, ◌≢◌, inr, [], ◌∷◌, arith}
use carbonable_leaderboard_b.Leaderboard.Event.{DomainEvent}
use carbonable_leaderboard_b.Leaderboard.Aggregator.Run.{line_of}
use carbonable_leaderboard_b.Leaderboard.Ranking.{index_of}
use carbonable_leaderboard_b.Leaderboard.Ranking.Order.{priority}
use carbonable_leaderboard_b.Leaderboard.Ranking.RowOrder.{line_of-perm}
use carbonable_leaderboard_b.Tests.Aggregation.{ranker}
use carbonable_leaderboard_b.Tests.Events.{buy, transfer}
use carbonable_leaderboard_b.Tests.Sorting.{sorter, sorter-Sorts}

priorities_differ : priority buy ≢ priority transfer
unfolding index_of
priorities_differ = omega arith

line_of-perm_example :
    line_of ranker "0x4" (buy ∷ transfer ∷ [])
    ≡ line_of (record ranker { sorter = sorter DomainEvent }) "0x4" (transfer ∷ buy ∷ [])
line_of-perm_example =
    line_of-perm ranker (sorter DomainEvent) (sorter-Sorts DomainEvent) (sorter-Sorts DomainEvent)
      "0x4" (buy ∷ transfer ∷ []) (transfer ∷ buy ∷ []) (Perm.swap transfer buy [])
      ((inr priorities_differ, tt), (tt, tt))
