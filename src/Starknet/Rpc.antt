-- ===== src/Starknet/Rpc.antt =====
-- The calls of contracts in internal/starknet/rpc.go and felt.go. A felt is represented by the number
-- that it holds; the package of felts, JSON and the transport are parameters.
use Prim.Native.String.{◌++◌ as str_append}
use carbonable_leaderboard_b.Prelude.{ℕ, String, List, [], ◌∷◌, ◌++◌, Option, none, some}
use carbonable_leaderboard_b.Go.Outcome.{Outcome, ok, fatal, panic}
use carbonable_leaderboard_b.Go.Gob.{Bytes}
use carbonable_leaderboard_b.Go.Uint256.{Uint256}

-- The package of felts, and the hash of names.
pub record Felts : Type 0 where
  -- `UnmarshalJSON`; `none` for an error
  pub unmarshal_json : String → Option ℕ
  pub to_string : ℕ → String
  -- `Uint64()`
  pub uint64 : ℕ → ℕ
  -- `Marshal()`, the bytes of the felt
  pub marshal : ℕ → Bytes
  -- `StarknetKeccak` of a name
  pub starknet_keccak : String → ℕ

-- What the program reads of a slot's URI.
pub record SlotUri : Type 0 where
  pub name : String

-- `StarknetRpcClient.Call`: address, method and parameters; `none` for an error
abbrev pub RpcClient : Type 0
RpcClient = String → String → List ℕ → Option (List ℕ)

-- `bytes.Trim(b, "\x00")`
abbrev pub Trim : Type 0
Trim = Bytes → Bytes

module _ (felts : Felts) where
  -- `FeltFromString`; `none` stands for nil
  unfoldable pub felt_from_string : String → Option ℕ
  felt_from_string s = felts.unmarshal_json s

  -- `FeltFromUint64`
  abbrev pub felt_from_uint64 : ℕ → ℕ
  felt_from_uint64 i = i

  unfoldable pub hex_string_to_uint64 : String → ℕ
  unfolding felt_from_string
  hex_string_to_uint64 s = elim (felt_from_string s) [ none ↦ 0 | some felt ↦ felts.uint64 felt ]

  unfoldable pub felt_arr_to_bytes_arr : Trim → List ℕ → Bytes
  felt_arr_to_bytes_arr trim [] = []
  felt_arr_to_bytes_arr trim (f ∷ felt_arr) =
      trim (felts.marshal f) ++ felt_arr_to_bytes_arr trim felt_arr

  -- `DecodeToString`, where `text_of` is the conversion of bytes to a string
  unfoldable decode_to_string : Trim → (Bytes → String) → List ℕ → String
  decode_to_string trim text_of [] = ""
  decode_to_string trim text_of (f ∷ felt_arr) =
      str_append (text_of (trim (felts.marshal f))) (decode_to_string trim text_of felt_arr)

-- `res[0]` after a call; an empty result panics
abbrev pub first_of_result : {A : Type 0} → (ℕ → A) → Option (List ℕ) → Outcome (Option A)
first_of_result read none = ok none
first_of_result read (some []) = panic
first_of_result read (some (x ∷ res)) = ok (some (read x))

abbrev or_panic : Option ℕ → Outcome (Option ℕ)
or_panic none = panic
or_panic (some n) = ok (some n)

abbrev must_from_hex : Uint256 → Outcome (Option String) → Outcome (Option ℕ)
must_from_hex u (ok none) = ok none
must_from_hex u (ok (some s)) = or_panic (u.from_hex s)
must_from_hex u fatal = fatal
must_from_hex u panic = panic

module _ (felts : Felts) (rpc : RpcClient) where
  unfoldable pub get_slot_of : String → ℕ → Outcome (Option ℕ)
  get_slot_of address token_id =
      first_of_result felts.uint64
        (rpc address "slot_of" (felt_from_uint64 felts token_id ∷ 0 ∷ []))

  unfoldable pub minter_get_project_address : String → Outcome (Option String)
  minter_get_project_address address =
      first_of_result felts.to_string (rpc address "get_carbonable_project_address" [])

  unfoldable pub minter_get_project_slot : String → Outcome (Option ℕ)
  minter_get_project_slot address =
      first_of_result felts.uint64 (rpc address "get_carbonable_project_slot" [])

  -- `GetRemainingValue`, whose `MustFromHex` panics on a text that is no number
  unfoldable pub get_remaining_value : Uint256 → String → Outcome (Option ℕ)
  get_remaining_value u address =
      must_from_hex u
        (first_of_result felts.to_string (rpc address "get_carbonable_project_address" []))

  unfoldable pub migrator_target_address : String → Outcome (Option String)
  migrator_target_address address =
      first_of_result felts.to_string (rpc address "target_address" [])

  -- `DecodeResponseToStruct`: `data[2:]` panics on fewer than two felts
  unfoldable pub decode_response_to_struct :
      Trim → (Bytes → Option SlotUri) → List ℕ → Outcome (Option SlotUri)
  unfolding felt_arr_to_bytes_arr
  decode_response_to_struct trim unmarshal (a ∷ b ∷ rest) =
      ok (unmarshal (felt_arr_to_bytes_arr felts trim rest))
  decode_response_to_struct trim unmarshal _ = panic

  -- `GetSlotUri`; `none` stands for nil beside an error
  unfoldable pub get_slot_uri :
      Trim → (Bytes → Option SlotUri) → String → ℕ → Outcome (Option SlotUri)
  unfolding decode_response_to_struct
  get_slot_uri trim unmarshal address slot =
      elim (rpc address "slot_uri" (felt_from_uint64 felts slot ∷ 0 ∷ [])) [
        | none ↦ ok none
        | some res ↦ decode_response_to_struct trim unmarshal res
      ]
