-- ===== src/Tests.antt =====
-- Concrete parameters, and the theorems applied to concrete inputs.
mod Integers
mod Sorting
mod Stores
mod Decimals
mod Events
mod Games
mod Totals
mod Chain
mod Aggregation
mod Attempts
mod Restarts
mod Purchases
mod Subscribers
mod Databases
mod Gateway
mod Sales
mod Rows
mod Resent
mod Recorded
mod Pages
mod Rules
mod Calls
