-- ===== src/Graph/Rules.antt =====
-- The points that the resolvers answer (`itemToGqlModel` of graph/schema.resolvers.go).
use carbonable_leaderboard_b.Prelude.{
  ℕ, ◌≡◌, refl, ap, String, List, [], ◌∷◌, ◌++◌, Option, some, All, map, at_key,
}
use carbonable_leaderboard_b.Leaderboard.Line.{Point}
use carbonable_leaderboard_b.Graph.Page.{
  PointDetails, LeaderboardLineData, LeaderboardQueryResult, rule_after, details_from,
  point_details, item_to_gql_model,
}
use carbonable_leaderboard_b.Graph.Resolver.{leaderboard_for_wallet}

rule_after-append :
    (rule : String) (points : List Point) (last : Point)
    → rule_after rule (points ++ last ∷ []) ≡ last.rule
rule_after-append rule [] last = refl
rule_after-append rule (point ∷ points) last = rule_after-append point.rule points last

-- What each point of an answer has of its own, behind one rule for all.
abbrev pub IsAnswered : String → List Point → List PointDetails → Type 0
IsAnswered rule points details =
    All (λ (p : PointDetails). p.rule ≡ rule) details
    × (map (λ (p : PointDetails). p.value) details ≡ map (λ (p : Point). p.value) points)
    × (map (λ (p : PointDetails). p.metadata.rule) details
        ≡ map (λ (p : Point). at_key "rule" p.metadata) points)

details_from-IsAnswered :
    (rule : String) (points : List Point) → IsAnswered rule points (details_from rule points)
details_from-IsAnswered rule [] = (tt, refl, refl)
details_from-IsAnswered rule (point ∷ points) =
    let (rules, values, names) = details_from-IsAnswered rule points in
    (
      (refl, rules),
      ap (λ (l : List ℕ). point.value ∷ l) values,
      ap (λ (l : List String). at_key "rule" point.metadata ∷ l) names,
    )

-- Where the database answers a line with at least one point for a wallet that is a felt,
-- LeaderboardForWallet answers a point for each of the line's, in order, with the value and the rule of
-- its metadata that the line has; but the rule of every point is that of the line's last one.
pub wallet_line-IsAnswered :
    (unmarshal_json : String → Option ℕ) (felt_to_string : ℕ → String)
    (raw : String → Option LeaderboardQueryResult) (wallet : String) (felt : ℕ)
    (row : LeaderboardQueryResult) (points : List Point) (last : Point)
    → unmarshal_json wallet ≡ some felt
    → raw (felt_to_string felt) ≡ some row
    → row.line.points ≡ points ++ last ∷ []
    → (answer : LeaderboardLineData) × (leaderboard_for_wallet unmarshal_json felt_to_string raw
          wallet
        ≡ some answer)
      × IsAnswered last.rule (points ++ last ∷ []) answer.points
unfolding leaderboard_for_wallet item_to_gql_model point_details
wallet_line-IsAnswered unmarshal_json felt_to_string raw wallet felt row points last known found
      has_points =
    (
      item_to_gql_model row,
      rw (known, found, leaderboard_for_wallet),
      rw (has_points, rule_after-append "" points last)
          (details_from-IsAnswered last.rule (points ++ last ∷ [])),
    )
