-- ===== src/Starknet/Block.antt =====
-- internal/starknet/get_block_response.go: what the feeder gateway says of a block.
use carbonable_leaderboard_b.Prelude.{ℕ, String, List}

pub record Transaction : Type 0 where
  pub transaction_hash : String
  pub version : String
  pub max_fee_per_gas : String
  pub nonce : String
  pub sender_address : String
  pub type : String
  pub signatures : List String
  pub calldata : List String

pub record L2ToL1Message : Type 0 where
  pub from_address : String
  pub to_address : String
  pub payload : List String

pub record GasPrice : Type 0 where
  pub price_in_wei : String
  pub price_in_fri : String

pub record DataAvailability : Type 0 where
  pub l1_gas : ℕ
  pub l1_data_gas : ℕ

-- `RecordedAt` is a Unix time in seconds. The field `Data` of the source is `event_data`.
pub record Event : Type 0 where
  pub recorded_at : ℕ
  pub event_id : String
  pub from_address : String
  pub keys : List String
  pub event_data : List String

pub record BuiltinInstanceCounter : Type 0 where
  pub range_check_builtin : ℕ
  pub pedersen_builtin : ℕ
  pub bitwise_builtin : ℕ
  pub output_builtin : ℕ
  pub ecdsa_builtin : ℕ
  pub ec_op_builtin : ℕ

pub record ExecutionResources : Type 0 where
  pub actual_fee : String
  pub builtin_instance_counter : BuiltinInstanceCounter
  pub n_steps : ℕ
  pub n_memory_holes : ℕ
  pub data_availability : DataAvailability

pub record TransactionReceipt : Type 0 where
  pub execution_status : String
  pub transaction_hash : String
  pub actual_fee : String
  pub version : String
  pub l2_to_l1_messages : List L2ToL1Message
  pub events : List Event
  pub execution_resources : ExecutionResources
  pub transaction_index : ℕ

pub record GetBlockResponse : Type 0 where
  pub block_hash : String
  pub parent_block_hash : String
  pub state_root : String
  pub status : String
  pub gas_price : String
  pub sequencer_address : String
  pub starknet_version : String
  pub transactions : List Transaction
  pub transaction_receipts : List TransactionReceipt
  pub block_number : ℕ
  pub timestamp : ℕ
  pub transaction_commitment : String
  pub event_commitment : String
  pub l1_da_mode : String
  pub l1_gas_price : GasPrice
  pub l1_data_gas_price : GasPrice
