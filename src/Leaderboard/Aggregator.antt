-- ===== src/Leaderboard/Aggregator.antt =====
-- internal/leaderboard/aggregator.go: the value that a minter has sold for, and the run that rebuilds
-- the table of the leaderboard.
pub mod Sold
pub mod Run
