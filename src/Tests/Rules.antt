-- ===== src/Tests/Rules.antt =====
-- The answer for a wallet with a purchase and a claim.
use carbonable_leaderboard_b.Prelude.{◌≡◌, refl, [], ◌∷◌, some}
use carbonable_leaderboard_b.Leaderboard.Event.{amount_fund_rule_name, early_adopter_rule_name}
use carbonable_leaderboard_b.Leaderboard.Line.{Point}
use carbonable_leaderboard_b.Graph.Page.{LeaderboardLineData, LeaderboardQueryResult}
use carbonable_leaderboard_b.Graph.Resolver.{leaderboard_for_wallet}
use carbonable_leaderboard_b.Graph.Rules.{IsAnswered, wallet_line-IsAnswered}
use carbonable_leaderboard_b.Tests.Pages.{row}

abbrev funded : Point
funded = record {
  metadata = ("rule", "amount_funded") ∷ [];
  rule = amount_fund_rule_name;
  value = 100;
}

abbrev adopted : Point
adopted = record {
  metadata = ("rule", "early_adopter") ∷ [];
  rule = early_adopter_rule_name;
  value = 20;
}

abbrev two_points : LeaderboardQueryResult
two_points = record (row "0x5" 1) {
  line = record (row "0x5" 1).line { points = funded ∷ adopted ∷ [] };
}

wallet_line-IsAnswered_example :
    (answer : LeaderboardLineData) × (leaderboard_for_wallet
        (λ text. some 5)
        (λ felt. "0x5")
        (λ text. some two_points)
        "0x05"
      ≡ some answer)
    × IsAnswered "early_adopter" (funded ∷ adopted ∷ []) answer.points
wallet_line-IsAnswered_example =
    wallet_line-IsAnswered (λ text. some 5) (λ felt. "0x5") (λ text. some two_points) "0x05" 5
      two_points (funded ∷ []) adopted refl refl refl
