-- ===== src/Graph.antt =====
-- graph: the queries of the API, and the pages of their results.
pub mod Page
pub mod Resolver
pub mod Purchase
pub mod Rules
