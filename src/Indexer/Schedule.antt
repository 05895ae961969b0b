-- ===== src/Indexer/Schedule.antt =====
-- `Run` of internal/indexer/indexer.go: an indexer for each contract, all over one store. Each receives
-- blocks in a goroutine of its own; a schedule lists their calls of `Index` as they come.
pub mod Keeps
pub mod Apart
pub mod Replayed
pub mod Restart
use carbonable_leaderboard_b.Prelude.{String, List, [], ◌∷◌, ◌==◌, if◌then◌else◌}
use carbonable_leaderboard_b.Starknet.Block.{GetBlockResponse}
use carbonable_leaderboard_b.Indexer.Storage.{Storage}
use carbonable_leaderboard_b.Indexer.EventIndexer.{Codecs, World, index}

-- A message on an indexer's `msgch`: the address of its contract, and the block.
pub record Delivery : Type 0 where
  pub address : String
  pub block : GetBlockResponse

module _ {S : Type 0} (storage : Storage S) (codecs : Codecs) where
  -- The loops `for { msg := <-i.msgch; i.Index(msg) }` of all indexers
  unfoldable pub receive : List Delivery → World S → World S
  unfolding index
  receive [] w = w
  receive (d ∷ deliveries) w = receive deliveries (index storage codecs d.address d.block w)

-- The blocks that the indexer of a contract receives.
abbrev pub blocks_of : String → List Delivery → List GetBlockResponse
blocks_of address [] = []
blocks_of address (d ∷ deliveries) =
    let rest = blocks_of address deliveries in if d.address == address then d.block ∷ rest else rest
