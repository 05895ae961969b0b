-- ===== src/Api.antt =====
-- The REST endpoints of internal/api/starknet.go, and `DecodeSlice` of internal/starknet/encoder.go.
pub mod Blocks
use Prim.Native.String.{◌++◌ as str_append}
use carbonable_leaderboard_b.Prelude.{ℕ, String, List, [], ◌∷◌, Option, none, some, if◌then◌else◌}
use carbonable_leaderboard_b.Go.Gob.{Bytes, Codec}
use carbonable_leaderboard_b.Starknet.Block.{Event, Transaction, GetBlockResponse}
use carbonable_leaderboard_b.Indexer.Storage.{Storage}
use carbonable_leaderboard_b.Indexer.ContractIndex.{ContractIndex, new_contract_index}
use carbonable_leaderboard_b.Indexer.EventIndexer.{Codecs, index_key}
use carbonable_leaderboard_b.Indexer.Loop.{block_key}
use carbonable_leaderboard_b.Synchronizer.{Formats, latest_block_key, or_zero}

-- `DecodeSlice`: the values of all the bytes, or `none` where one of them cannot be decoded.
unfoldable pub decode_slice : {A : Type 0} → Codec A → List Bytes → Option (List A)
decode_slice c [] = some []
decode_slice c (d ∷ slice) = elim (c.decode d) [
  | none ↦ none
  | some r ↦ elim (decode_slice c slice) [ none ↦ none | some rest ↦ some (r ∷ rest) ]
]

-- An answer with its status: 200, 404 or 500.
pub data Response (A : Type 0) : Type 0 where
  status_ok : A → Response A
  not_found : String → Response A
  internal_server_error : String → Response A

pub record ContractContent : Type 0 where
  pub txs : Option (List Transaction)
  pub events : Option (List Event)

module _ {S : Type 0} (storage : Storage S) (codecs : Codecs) (formats : Formats) where
  -- GET /latest-block; a number that cannot be parsed is answered as 0
  unfoldable pub latest_block : S → Response ℕ
  latest_block s = elim (formats.text.decode (storage.get s latest_block_key)) [
    | none ↦ internal_server_error ""
    | some bn ↦ status_ok (or_zero storage formats (formats.parse_uint bn))
  ]

  -- the last step of GET /block/:number
  abbrev decoded_block : Option GetBlockResponse → Response GetBlockResponse
  decoded_block none = internal_server_error "failed to decode block"
  decoded_block (some resp) = status_ok resp

  -- GET /block/:number
  unfoldable pub block : S → String → Response GetBlockResponse
  block s param = elim (formats.parse_uint param) [
    | none ↦ internal_server_error "failed to parse block number"
    | some number ↦
        if storage.has s (block_key number)
        then decoded_block (formats.block.decode (storage.get s (block_key number)))
        else not_found "block not found"
  ]

  -- GET /contract/:hash; what cannot be decoded is answered as null
  unfoldable pub contract : S → String → Response ContractContent
  unfolding decode_slice
  contract s hash = status_ok (record {
    txs = decode_slice codecs.transaction (storage.scan s (str_append hash "#TX#"));
    events = decode_slice codecs.event (storage.scan s (str_append hash "#EVENT#"));
  })

  abbrev decoded_index : Option ContractIndex → Response ContractIndex
  decoded_index none = internal_server_error "failed to decode contract index"
  decoded_index (some idx) = status_ok idx

  -- GET /contract-idx/:address
  unfoldable pub contract_idx : S → String → Response ContractIndex
  contract_idx s address =
      if storage.has s (index_key address)
      then decoded_index
          (codecs.index.decode_into (new_contract_index 0) (storage.get s (index_key address)))
      else not_found "contract index not found"
