-- ===== src/Indexer.antt =====
-- internal/indexer: the key-value stores, the index of a contract, and the indexer of events.
pub mod Storage
pub mod PgStorage
pub mod PrefixBound
pub mod Entries
pub mod Pebble
pub mod Badger
pub mod Etcd
pub mod ContractIndex
pub mod EventIndexer
pub mod Loop
pub mod Schedule
pub mod Keys
pub mod Calls
