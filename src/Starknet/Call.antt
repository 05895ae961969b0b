-- ===== src/Starknet/Call.antt =====
-- `JsonRpcStarknetClient.Call` of internal/starknet/rpc.go, and the request that it sends.
pub mod NoResult
use carbonable_leaderboard_b.Prelude.{
  ℕ, String, List, [], ◌∷◌, Option, none, some, map, eqb, if◌then◌else◌,
}
use carbonable_leaderboard_b.Go.Gob.{Bytes}
use carbonable_leaderboard_b.Go.Outcome.{Outcome, or_fatal, ok, fatal, panic, ◌>>=◌}
use carbonable_leaderboard_b.Starknet.Rpc.{Felts}
use carbonable_leaderboard_b.Starknet.Keccak.{Keccak, starknet_keccak}

-- `rpcRequest`
pub record RpcRequest (T : Type 0) : Type 0 where
  pub params : T
  pub json_rpc : String
  pub method : String
  pub id : ℕ

unfoldable pub new_rpc_request : {T : Type 0} → String → T → RpcRequest T
new_rpc_request method params = record {
  params = params;
  json_rpc = "2.0";
  method = method;
  id = 1;
}

-- `rpcResponse`; a body without a result leaves no felts
pub record RpcResponse : Type 0 where
  pub json_rpc : String
  pub result : List ℕ
  pub id : ℕ

unfoldable new_rpc_response : List ℕ → RpcResponse
new_rpc_response result = record { json_rpc = "2.0"; result = result; id = 1 }

-- `callRequest`
pub record CallRequest : Type 0 where
  pub contract_address : String
  pub entry_point_selector : String
  pub calldata : List String

-- `callRequestParams`
pub record CallRequestParams : Type 0 where
  pub block_id : String
  pub request : CallRequest

-- `BlockLatest`
abbrev pub block_latest : String
block_latest = "latest"

-- What the call takes from other packages: felts, the hash, and `[]byte(method)`.
pub record Encoding : Type 0 where
  pub felts : Felts
  pub keccak : Keccak
  pub bytes_of : String → Bytes

unfoldable pub new_call_request_params :
    Encoding → String → String → List ℕ → String → Outcome CallRequestParams
new_call_request_params e address method params block_id = do
  let call_data = map e.felts.to_string params
  hash ← starknet_keccak e.keccak (e.bytes_of method)
  entry_point ← or_fatal hash
  ok (record {
    request = record {
      contract_address = address;
      entry_point_selector = e.felts.to_string entry_point;
      calldata = call_data;
    };
    block_id = block_id;
  })

-- `http.Request`, what the call puts in it
pub record HttpRequest : Type 0 where
  pub http_method : String
  pub url : String
  pub request_body : Bytes
  pub header : List (String × String)

-- `http.Response`; `none` for a body that cannot be read
pub record HttpResponse : Type 0 where
  pub status_code : ℕ
  pub body : Option Bytes

-- JSON and HTTP; `none` for an error.
pub record Transport : Type 0 where
  pub marshal : RpcRequest CallRequestParams → Option Bytes
  pub new_request : String → String → Bytes → Option HttpRequest
  pub do_request : HttpRequest → Option HttpResponse
  pub unmarshal : Bytes → Option RpcResponse

pub record JsonRpcStarknetClient : Type 0 where
  pub client : Transport
  pub endpoint : String

abbrev pub new_json_rpc_starknet_client : Transport → String → JsonRpcStarknetClient
new_json_rpc_starknet_client client endpoint = record { client = client; endpoint = endpoint }

abbrev pub mainnet_json_rpc_starknet_client : Transport → JsonRpcStarknetClient
mainnet_json_rpc_starknet_client client =
    new_json_rpc_starknet_client client "https://rpc.nethermind.io/mainnet-juno"

abbrev pub goerli_json_rpc_starknet_client : Transport → JsonRpcStarknetClient
goerli_json_rpc_starknet_client client =
    new_json_rpc_starknet_client client "https://rpc.nethermind.io/goerli-juno"

abbrev pub sepolia_json_rpc_starknet_client : Transport → JsonRpcStarknetClient
sepolia_json_rpc_starknet_client client =
    new_json_rpc_starknet_client client "https://rpc.nethermind.io/sepolia-juno"

-- Options in sequence: the early returns of the call.
infixl 5 ◌and_then◌
abbrev ◌and_then◌ {ℓ κ} : {A : Type ℓ} {B : Type κ} → Option A → (A → Option B) → Option B
none and_then f = none
some a and_then f = f a

-- A status other than 200 is an error, behind an error of reading the body.
abbrev body_of : HttpResponse → Option Bytes
body_of resp = resp.body and_then λ body. if eqb resp.status_code 200 then some body else none

-- `request.Header.Add("x-apikey", …)`
abbrev with_api_key : String → HttpRequest → HttpRequest
with_api_key key request = record request { header = ("x-apikey", key) ∷ request.header }

-- From the request on: what is returned; `none` for an error
unfoldable pub send :
    JsonRpcStarknetClient → String → RpcRequest CallRequestParams → Option (List ℕ)
send c api_key req = c.client.marshal req and_then λ json_body.
    c.client.new_request "POST" c.endpoint json_body and_then λ request.
    c.client.do_request (with_api_key api_key request) and_then λ resp.
    body_of resp and_then λ body. c.client.unmarshal body and_then λ response. some response.result

-- `Call`, with what `RPC_API_KEY` is in the environment
unfoldable pub call :
    Encoding → JsonRpcStarknetClient → String → String → String → List ℕ → Outcome (Option (List ℕ))
unfolding send
call e c api_key address method params = do
  request ← new_call_request_params e address method params block_latest
  ok (send c api_key (new_rpc_request "starknet_call" request))
