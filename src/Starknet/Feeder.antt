-- ===== src/Starknet/Feeder.antt =====
-- `FeederGatewayClient` of internal/starknet/rpc.go: the blocks that the gateway answers.
pub mod Fetch
pub mod Limit
use Prim.Native.String.{◌++◌ as str_append}
use carbonable_leaderboard_b.Prelude.{ℕ, String, Option, none, some}
use carbonable_leaderboard_b.Go.Format.{decimal}
use carbonable_leaderboard_b.Go.Gob.{Bytes}
use carbonable_leaderboard_b.Starknet.Block.{GetBlockResponse}
use carbonable_leaderboard_b.Indexer.Loop.{Gateway}

-- `client`, without its channel and its timer
pub record FeederClient : Type 0 where
  pub base_url : String
  pub max_rpm : ℕ

-- `newCLient`
unfoldable pub new_client : String → ℕ → FeederClient
new_client base_url max_rpm = record { base_url = base_url; max_rpm = max_rpm }

unfoldable pub new_feeder_gateway_client : String → FeederClient
unfolding new_client
new_feeder_gateway_client base_url = new_client base_url 200

unfoldable pub new_sepolia_feeder_gateway_client : FeederClient
unfolding new_client
new_sepolia_feeder_gateway_client =
    new_client "https://alpha-sepolia.starknet.io/feeder_gateway" 200

unfoldable pub new_mainnet_feeder_gateway_client : FeederClient
unfolding new_client
new_mainnet_feeder_gateway_client =
    new_client "https://alpha-mainnet.starknet.io/feeder_gateway" 100

-- `DeserializeResponse`, with `json.Unmarshal`; `none` for an error
abbrev pub deserialize_response : {T : Type 0} → (Bytes → Option T) → Bytes → Option T
deserialize_response unmarshal body = unmarshal body

-- `fmt.Sprintf("%s/%s", c.baseUrl, path)`
abbrev pub url_of : FeederClient → String → String
url_of c path = str_append c.base_url (str_append "/" path)

abbrev deserialized : (Bytes → Option GetBlockResponse) → Option Bytes → Option GetBlockResponse
deserialized unmarshal none = none
deserialized unmarshal (some body) = deserialize_response unmarshal body

-- `GetBlock`, where `get` is what `Get` returns for a URL; `none` stands for an error
unfoldable pub get_block :
    (Bytes → Option GetBlockResponse) → (String → Option Bytes) → FeederClient → Gateway
get_block unmarshal get c block_number =
    deserialized unmarshal
      (get (url_of c (str_append "get_block?blockNumber=" (decimal block_number))))
