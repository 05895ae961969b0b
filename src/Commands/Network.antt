-- ===== src/Commands/Network.antt =====
-- What the commands choose by their environment, and the parts that they put together (cmd/*/main.go,
-- internal/indexer/indexer.go, internal/db/db.go).
use Prim.Native.String.{◌++◌ as str_append}
use carbonable_leaderboard_b.Prelude.{
  ℕ, Bool, true, false, String, List, [], ◌∷◌, Option, none, some, ◌==◌, if◌then◌else◌,
}
use carbonable_leaderboard_b.Go.Outcome.{Outcome, ok, fatal, panic, ◌>>=◌}
use carbonable_leaderboard_b.Config.{Config, Contract, from_yaml_file, ConfigResult, loaded, failed}
use carbonable_leaderboard_b.Starknet.Block.{GetBlockResponse}
use carbonable_leaderboard_b.Starknet.Call.{
  Transport, JsonRpcStarknetClient, mainnet_json_rpc_starknet_client,
  goerli_json_rpc_starknet_client, sepolia_json_rpc_starknet_client,
}
use carbonable_leaderboard_b.Indexer.Storage.{Storage}
use carbonable_leaderboard_b.Indexer.EventIndexer.{Codecs}
use carbonable_leaderboard_b.Indexer.Loop.{Feed, run}

-- The switch over `NETWORK`
unfoldable pub rpc_of_network : Transport → String → JsonRpcStarknetClient
rpc_of_network client network =
    if network == "goerli"
    then goerli_json_rpc_starknet_client client
    else if network == "sepolia"
    then sepolia_json_rpc_starknet_client client
    else if network == "mainnet"
    then mainnet_json_rpc_starknet_client client
    else sepolia_json_rpc_starknet_client client

-- `fmt.Sprintf("contracts.%s.yaml", network)`
abbrev pub config_file : String → String
config_file network = str_append "contracts." (str_append network ".yaml")

-- `GetDbConnection`: `sql.Open` of a URL, and `gorm.Open` of what it gives; `none` for an error
unfoldable pub get_db_connection :
    {Q D : Type 0} → (String → Option Q) → (Q → Option D) → String → Option D
get_db_connection sql_open gorm_open database_url = elim (sql_open database_url) [
  | none ↦ none
  | some pgsql ↦ gorm_open pgsql
]

module _ {S : Type 0} (storage : Storage S) (codecs : Codecs) where
  -- `indexer.Run`: an indexer for each contract, with the blocks that it replays and the feed that it
  -- starts with. The wait group is never done, so that the call does not return.
  unfoldable pub run_indexers :
      List Contract → ℕ → S → List (List GetBlockResponse × Feed storage codecs)
  run_indexers [] start_block s = []
  run_indexers (c ∷ contracts) start_block s =
      run storage codecs s c.address start_block ∷ run_indexers contracts start_block s

-- What the commands read and start; `none` for an error.
pub record World (Q D : Type 0) : Type 0 where
  -- `NETWORK` and `DATABASE_URL`
  pub network : String
  pub database_url : String
  -- reading a file, and its YAML
  pub read_file : String → Option String
  pub unmarshal : String → Option Config
  pub transport : Transport
  -- `sql.Open` and `gorm.Open`
  pub sql_open : String → Option Q
  pub gorm_open : Q → Option D
  -- `server.NewServer`, and whether it is ready within four seconds
  pub new_server : Bool
  pub ready_for_connections : Bool
  -- `nats.Connect`
  pub nats_connect : Bool
  -- `RegisterSubscribers` without an error
  pub subscribers_registered : Bool

abbrev config_or_fatal : ConfigResult → Outcome Config
config_or_fatal (loaded cfg) = ok cfg
config_or_fatal (failed e) = fatal

abbrev db_or_fatal : {D : Type 0} → Option D → Outcome D
db_or_fatal none = fatal
db_or_fatal (some db) = ok db

abbrev or_panics : Bool → Outcome (Unit {0})
or_panics true = ok tt
or_panics false = panic

-- What a command works with once it has started.
pub record Started (D : Type 0) : Type 0 where
  pub rpc : JsonRpcStarknetClient
  pub config : Config
  pub db : D

module _ {Q D : Type 0} (w : World Q D) where
  abbrev connected : Outcome D
  connected = db_or_fatal (get_db_connection w.sql_open w.gorm_open w.database_url)

  abbrev load_config : Outcome Config
  load_config = config_or_fatal (from_yaml_file w.read_file w.unmarshal (config_file w.network))

  -- `main` of cmd/indexer up to `go indexer.Run`, behind which it waits for ever: no error is sent
  unfoldable pub start_indexer : Outcome (Started D)
  unfolding rpc_of_network
  start_indexer = do
    cfg ← load_config
    db ← connected
    server ← or_panics w.new_server
    ready ← or_panics w.ready_for_connections
    nc ← or_panics w.nats_connect
    registered ← or_panics w.subscribers_registered
    ok (record { rpc = rpc_of_network w.transport w.network; config = cfg; db = db })

  -- `main` of cmd/synchronizer up to `go synchronizer.Run`
  unfoldable pub start_synchronizer : Outcome (Config × D)
  start_synchronizer = do cfg ← load_config; db ← connected; ok (cfg, db)

  -- `main` of cmd/api up to `api.Run`
  unfoldable pub start_api : Outcome (JsonRpcStarknetClient × D)
  unfolding rpc_of_network
  start_api = do db ← connected; ok (rpc_of_network w.transport w.network, db)

  -- `main` of cmd/aggregator up to its loop
  unfoldable pub start_aggregator : Outcome D
  start_aggregator = connected
