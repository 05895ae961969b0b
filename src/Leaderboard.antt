-- ===== src/Leaderboard.antt =====
-- internal/leaderboard: events, scores, boosts and rankings.
pub mod Event
pub mod Boost
pub mod Builder
pub mod Manager
pub mod Points
pub mod Total
pub mod Line
pub mod Columns
pub mod Ranking
pub mod Aggregator
