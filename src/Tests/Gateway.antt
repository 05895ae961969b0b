-- ===== src/Tests/Gateway.antt =====
-- Calls of the gateway and of a node, turn by turn.
use carbonable_leaderboard_b.Prelude.{false, refl, ◌≡◌, ◌%◌, ◌^◌, List, [], ◌∷◌, none, some, arith}
use carbonable_leaderboard_b.Go.Gob.{Bytes}
use carbonable_leaderboard_b.Go.Outcome.{ok, panic}
use carbonable_leaderboard_b.Starknet.Rpc.{
  Felts, RpcClient, get_slot_of, get_slot_uri, minter_get_project_address, minter_get_project_slot,
  get_remaining_value, migrator_target_address,
}
use carbonable_leaderboard_b.Starknet.Keccak.{Keccak, IsKeccak, starknet_keccak, big_endian, prime}
use carbonable_leaderboard_b.Starknet.Call.{
  Encoding, Transport, sepolia_json_rpc_starknet_client, call, new_call_request_params,
}
use carbonable_leaderboard_b.Tests.Integers.{u256}
use carbonable_leaderboard_b.Starknet.Call.NoResult.{Implements, AnswersNoResult, no_result_panics}
use carbonable_leaderboard_b.Starknet.Feeder.Fetch
use carbonable_leaderboard_b.Starknet.Feeder.Fetch.{
  run_fetch, of_fetcher, of_caller, start, http_error, responded, crashed, sending_body, returned,
}
use carbonable_leaderboard_b.Starknet.Feeder.Fetch.Ends.{
  then_caller, get_returns, http_error_crashes,
}
use carbonable_leaderboard_b.Starknet.Feeder.Limit
use carbonable_leaderboard_b.Starknet.Feeder.Limit.{
  run_limiter, new_limiter, check_rpm, receive_timer, send_token, answer, take_token, fire,
  at_timer, at_request,
}
use carbonable_leaderboard_b.Starknet.Feeder.Limit.Balance.{IsBalanced}
use carbonable_leaderboard_b.Starknet.Feeder.Limit.Turns.{tokens-IsBalanced}
use carbonable_leaderboard_b.Starknet.Feeder.Limit.Burst.{
  late_call_waits, limit_is_passed, first_checks,
}

abbrev not_found : Fetch.Response
not_found = record { status_code = 404; body = 123 ∷ []; read_fails = false }

-- The caller has its error, and the goroutine still holds the body.
get_returns_example :
    run_fetch
      (responded not_found)
      (then_caller (of_caller ∷ of_fetcher ∷ of_fetcher ∷ of_fetcher ∷ []))
      start
    ≡ record { fetcher = sending_body not_found; caller = returned none }
get_returns_example =
    get_returns not_found (of_caller ∷ of_fetcher ∷ of_fetcher ∷ of_fetcher ∷ []) (omega arith)

http_error_crashes_example :
    (run_fetch http_error (of_fetcher ∷ of_fetcher ∷ of_caller ∷ of_fetcher ∷ []) start).fetcher
    ≡ crashed
http_error_crashes_example =
    http_error_crashes (of_fetcher ∷ of_fetcher ∷ of_caller ∷ of_fetcher ∷ []) (omega arith)

-- With a limit of one, the second and the third call wait for the timer, and the second has its value.
abbrev three_calls : List Limit.Turn
three_calls = check_rpm 0 ∷ send_token 0 ∷ check_rpm 1 ∷ check_rpm 2 ∷ fire ∷ receive_timer 1 ∷ []

late_call_waits_example :
    ((run_limiter 1 (answer 0 ∷ take_token 0 ∷ []) (run_limiter 1 three_calls new_limiter)).calls
      2).main
    ≡ at_timer
unfolding run_limiter
late_call_waits_example =
    late_call_waits 1 (answer 0 ∷ take_token 0 ∷ []) (run_limiter 1 three_calls new_limiter) 2 refl
      refl

limit_is_passed_example :
    ((run_limiter 1 (first_checks 300) new_limiter).tokens ≡ 0)
    × (((run_limiter 1 (first_checks 300) new_limiter).calls 299).main ≡ at_request)
limit_is_passed_example = limit_is_passed 1 300 299 (omega arith) (omega arith)

tokens-IsBalanced_example : IsBalanced 1 3 (run_limiter 1 three_calls new_limiter)
tokens-IsBalanced_example = tokens-IsBalanced 1 3 three_calls (omega arith)

-- A hash of 32 bytes.
abbrev digest_of : Bytes → Bytes
digest_of b =
    255 ∷ 255 ∷ 255 ∷ 255 ∷ 255 ∷ 255 ∷ 255 ∷ 255 ∷ 255 ∷ 255 ∷ 255 ∷ 255 ∷ 255 ∷ 255 ∷ 255 ∷ 255
    ∷ 1 ∷ 2 ∷ 3 ∷ 4 ∷ 5 ∷ 6 ∷ 7 ∷ 8 ∷ 9 ∷ 10 ∷ 11 ∷ 12 ∷ 13 ∷ 14 ∷ 15 ∷ 16 ∷ []

abbrev keccak : Keccak
keccak = record {
  legacy_keccak256 = λ b. some (digest_of b);
  set_bytes = λ d. big_endian 0 d % prime;
}

abbrev keccak-IsKeccak : IsKeccak keccak
keccak-IsKeccak = record {
  digest = digest_of;
  keccak-digest = λ b. refl;
  digest_bytes = λ b. omega arith;
  digest_length = λ b. refl;
  set_bytes-big_endian = λ d. refl;
}

abbrev felts : Felts
felts = record {
  unmarshal_json = λ s. none;
  to_string = λ n. "0x1";
  uint64 = λ n. n % 2 ^ 64;
  marshal = λ n. [];
  starknet_keccak = λ s. 0;
}

abbrev encoding : Encoding
encoding = record { felts = felts; keccak = keccak; bytes_of = λ s. 66 ∷ [] }

-- A node that answers every request with an error of JSON-RPC.
abbrev failing_node : Transport
failing_node = record {
  marshal = λ req. some (1 ∷ []);
  new_request = λ http_method url b.
      some (record { http_method = http_method; url = url; request_body = b; header = [] });
  do_request = λ request. some (record { status_code = 200; body = some (2 ∷ []) });
  unmarshal = λ b. some (record { json_rpc = "2.0"; result = []; id = 1 });
}

failing_node-AnswersNoResult : AnswersNoResult failing_node
failing_node-AnswersNoResult = record {
  body_without = 2 ∷ [];
  made = λ req. (1 ∷ [], refl);
  posted =
      λ url b. (record { http_method = "POST"; url = url; request_body = b; header = [] }, refl);
  answered = λ r. refl;
  without_result = (record { json_rpc = "2.0"; result = []; id = 1 }, refl, refl);
}

abbrev no_felts : RpcClient
no_felts address method params = some []

no_felts-Implements :
    Implements encoding (sepolia_json_rpc_starknet_client failing_node) "key" no_felts
unfolding call new_call_request_params starknet_keccak
no_felts-Implements address method params = refl

no_result_panics_example :
    (call encoding (sepolia_json_rpc_starknet_client failing_node) "key" "0x1" "slot_of" []
      ≡ ok (some []))
    × (get_slot_of felts no_felts "0x1" 3 ≡ panic)
    × (get_slot_uri felts no_felts (λ b. b) (λ b. none) "0x1" 3 ≡ panic)
    × (minter_get_project_address felts no_felts "0x1" ≡ panic)
    × (minter_get_project_slot felts no_felts "0x1" ≡ panic)
    × (get_remaining_value felts no_felts u256 "0x1" ≡ panic)
    × (migrator_target_address felts no_felts "0x1" ≡ panic)
no_result_panics_example =
    no_result_panics encoding (sepolia_json_rpc_starknet_client failing_node) "key" no_felts
      no_felts-Implements failing_node-AnswersNoResult "0x1" "slot_of" [] 3 u256 (λ b. b)
      (λ b. none)
