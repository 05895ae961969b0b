-- ===== src/Subscriber.antt =====
-- internal/subscriber: what the service does with each event that the indexer has stored.
pub mod Base
pub mod Metadata
pub mod BuyValue
pub mod Handlers
pub mod Project
pub mod Published
pub mod Register
