-- ===== src/Lib.antt =====
-- The backend of the Carbonable leaderboard: blocks of Starknet are stored and indexed, the events
-- of the configured contracts become domain events of wallets, and the events of a wallet become
-- a line of the leaderboard, which two APIs answer.
--
-- The parts, and how they work together:
--   - the synchronizer (internal/synchronizer/synchronizer.go, Synchronizer) fetches one block after
--     the other, stores it under its number, and stores the number of the latest one; it is joined
--     with the client of the gateway and the API in Synchronizer/Answered;
--   - the indexer of a contract (internal/indexer/indexer.go) reads the stored blocks
--     (Indexer/Loop), stores the contract's transactions and events, keeps an index of the blocks that
--     touch the contract (Indexer/ContractIndex), and publishes the id of each event
--     (Indexer/EventIndexer); the indexers of several contracts, which share the store, take their blocks
--     in any order, and an indexer is started again over what they left (Indexer/Schedule);
--   - the store (internal/indexer/storage.go and postgres.go; Indexer/Storage) is an interface that
--     Postgres, Badger, Pebble and etcd implement (Indexer/PgStorage, Badger, Pebble and Etcd); the
--     calls of the first two are compared with those of a map in Indexer/Calls, and the scans of
--     Badger and Pebble with the entries that a database holds (Indexer/Entries, with the bound of a
--     scan in Indexer/PrefixBound);
--   - the clients (internal/starknet/rpc.go and utils.go; Starknet) ask the feeder gateway for blocks
--     (Feeder, with the goroutine of a request in Feeder/Fetch and the limit of requests in
--     Feeder/Limit) and a node for the results of contracts (Call, with the selector of a name in
--     Keccak, and the readers of the results in Rpc);
--   - the subscribers (internal/subscriber; Subscriber) dispatch a published event by the contract
--     (internal/config/config.go, Config) and the hash of its name, and make a domain event of it, with
--     the metadata that calls of contracts give; a block is followed to the handlers of its events
--     in Subscriber/Published, what each of the twelve handlers records, and what the messages of a
--     block leave, is in Subscriber/Register, and messages that come twice are in
--     Subscriber/Handlers/Resent;
--   - the leaderboard (internal/leaderboard; Leaderboard): leaderboard.go is in Event, Line and
--     Columns, game.go in Ranking (with the order of the rows in Ranking/RowOrder),
--     score_calculator.go in Builder, Manager, Points and Total, boost.go in Boost, and aggregator.go
--     in Aggregator;
--   - the commands (cmd, Commands) choose a node by the network and start the parts, and the migration
--     clears what minters have sold for (Commands/Migration);
--   - the REST API (internal/api/starknet.go, Api) and the GraphQL resolvers (graph/schema.resolvers.go
--     and internal/db/db.go, Graph) answer what is stored, with the points that are answered in
--     Graph/Rules, and the order of the lines in Graph/Page/Order.
--
-- How the code corresponds to the definitions: a function or method of the source has the definition
-- of its name in small letters, and a loop is a recursive definition of its own, named in the comment
-- above it. What changes is passed on: the store is a value of a type S with the operations of the
-- interface, the database one of a type D, and the messages that the indexer publishes are a list. A
-- call that can end the process by log.Fatal, or panic, returns an Outcome (Go/Outcome); an error that
-- is returned or logged is the value none. A time is a Unix time in seconds, a map an association list
-- whose newest entry comes first. A goroutine is a step of its own, or run where it is started; where
-- its order matters, a schedule is a list of turns, and a turn of a part that has to wait changes
-- nothing (Starknet/Feeder). The variable of a loop is one for all iterations, as in Go 1.21, the
-- version of go.mod, where a pointer into it is kept (Graph/Page).
--
-- Numbers are natural numbers with the wrap of their type written out: a uint64 modulo 2^64, and a
-- big integer modulo 2^256 by the operations of its package. Printing a number has 80 digits of fuel,
-- which is more than the 78 digits of 2^256 in decimal (Go/Format). No other definition has fuel: the
-- endless loops of the indexer and the synchronizer are a round, and lists of rounds, and waiting for
-- a transfer event recurs on the answers of the database.
--
-- What is not in the repository is a parameter: the package of big integers (Go/Uint256), sort.Sort
-- (Go/Sort), gob (Go/Gob), felts and the RPC client (Starknet/Rpc), gorm and its tables, JSON, ULIDs,
-- the time and the printing of floats. Where a theorem relies on it, a record names what is
-- documented: Documented of the big integers, Sorts of the sort, Answers of a table, IsReliable of a
-- store, RunsStatements and RefusesStatements of the tables of the aggregator, KeepsRows and
-- FindsRows of those of the minters, KeepsEvents of the table of events, Answers and SeeksIn of the
-- other databases, AnswersQueries of the query of a page, IsKeccak of the hash, RoundTripsInto of the
-- codec of an index and KeepsNumbers of the texts of numbers. A ULID is one value for all rows: that
-- each is fresh is not modelled, and what is stated of the tables does not look at the primary key. The
-- folder Tests has concrete parameters that meet the records, and the theorems at concrete inputs.
--
-- Not modelled: the code that gqlgen generates, but for the records that the resolvers answer, the
-- routes and middleware of the servers, which only name handlers that are modelled, and what the commands do while they wait. What a slice of Pebble
-- reads after it is given back is left open, as a parameter.
pub mod Prelude
pub mod Go
pub mod Leaderboard
pub mod Starknet
pub mod Commands
pub mod Config
pub mod Indexer
pub mod Synchronizer
pub mod Subscriber
pub mod Graph
pub mod Api
pub mod Tests
