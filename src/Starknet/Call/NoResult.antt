-- ===== src/Starknet/Call/NoResult.antt =====
-- What the callers make of a node's answer with status 200 and without a result, as JSON-RPC has it for
-- an error.
use carbonable_leaderboard_b.Prelude.{ℕ, String, List, [], Option, some, ◌≡◌, sym, ap, ◌∙◌}
use carbonable_leaderboard_b.Go.Gob.{Bytes}
use carbonable_leaderboard_b.Go.Uint256.{Uint256}
use carbonable_leaderboard_b.Go.Outcome.{ok, panic, >>=-eq-ok, ok_eq}
use carbonable_leaderboard_b.Starknet.Rpc.{
  RpcClient, get_slot_of, minter_get_project_address, minter_get_project_slot, get_remaining_value,
  migrator_target_address, get_slot_uri, decode_response_to_struct, Trim, SlotUri,
}
use carbonable_leaderboard_b.Starknet.Call.{
  Encoding, JsonRpcStarknetClient, RpcRequest, RpcResponse, CallRequestParams, HttpRequest,
  Transport, call, send, new_call_request_params, new_rpc_request, block_latest,
}

-- Every request is made, and answered with status 200 and a body that JSON reads without a result.
pub record AnswersNoResult (t : Transport) : Type 0 where
  pub body_without : Bytes
  pub made : (req : RpcRequest CallRequestParams) → (b : Bytes) × (t.marshal req ≡ some b)
  pub posted :
      (url : String) (b : Bytes) → (r : HttpRequest) × (t.new_request "POST" url b ≡ some r)
  pub answered :
      (r : HttpRequest)
      → t.do_request r ≡ some (record { status_code = 200; body = some body_without })
  pub without_result :
      (response : RpcResponse) × (t.unmarshal body_without ≡ some response) × (response.result ≡ [])

send-no_result :
    (c : JsonRpcStarknetClient) (api_key : String) (req : RpcRequest CallRequestParams)
    → AnswersNoResult c.client
    → send c api_key req ≡ some []
unfolding send
send-no_result c api_key req a =
    let (b, made) = a.made req in
    let (r, posted) = a.posted c.endpoint b in
    let (response, read, without) = a.without_result in
    rw (made, posted, a.answered, read) (ap some without)

-- `rpc` is `Call` of a client: what its calls return, none of which ends the process.
abbrev pub Implements : Encoding → JsonRpcStarknetClient → String → RpcClient → Type 0
Implements e c api_key rpc =
    (address method : String) (params : List ℕ)
    → call e c api_key address method params ≡ ok (rpc address method params)

rpc-no_result :
    (e : Encoding) (c : JsonRpcStarknetClient) (api_key : String) (rpc : RpcClient)
    → Implements e c api_key rpc
    → AnswersNoResult c.client
    → (address method : String) (params : List ℕ) → rpc address method params ≡ some []
unfolding call
rpc-no_result e c api_key rpc implements a address method params =
    let (request, params_made, sent) =
      >>=-eq-ok (new_call_request_params e address method params block_latest)
        (λ (request : CallRequestParams).
          ok (send c api_key (new_rpc_request "starknet_call" request)))
        (implements address method params) in
    sym (ok_eq sent) ∙ send-no_result c api_key (new_rpc_request "starknet_call" request) a

-- Where a node answers every request with status 200 and a body without a result, `Call` gives no
-- error, whatever the method and its parameters, and each of the functions that read its result panics.
pub no_result_panics :
    (e : Encoding) (c : JsonRpcStarknetClient) (api_key : String) (rpc : RpcClient)
    → Implements e c api_key rpc
    → AnswersNoResult c.client
    → (address method : String) (params : List ℕ) (n : ℕ) (u : Uint256) (trim : Trim)
      (unmarshal : Bytes → Option SlotUri)
    → (call e c api_key address method params ≡ ok (some []))
      × (get_slot_of e.felts rpc address n ≡ panic)
      × (get_slot_uri e.felts rpc trim unmarshal address n ≡ panic)
      × (minter_get_project_address e.felts rpc address ≡ panic)
      × (minter_get_project_slot e.felts rpc address ≡ panic)
      × (get_remaining_value e.felts rpc u address ≡ panic)
      × (migrator_target_address e.felts rpc address ≡ panic)
unfolding get_slot_of get_slot_uri decode_response_to_struct minter_get_project_address
    minter_get_project_slot get_remaining_value migrator_target_address
no_result_panics e c api_key rpc implements a address method params n u trim unmarshal =
    let none_of : (m : String) (p : List ℕ) → rpc address m p ≡ some [] =
      rpc-no_result e c api_key rpc implements a address in
    (
      implements address method params ∙ ap ok (none_of method params),
      rw none_of,
      rw (get_slot_uri, none_of),
      rw none_of,
      rw none_of,
      rw none_of,
      rw none_of,
    )
