-- ===== src/Tests/Chain.antt =====
-- A block, indexed, synced and served.
use carbonable_leaderboard_b.Prelude.{
  ℕ, ◌+◌, ◌%◌, ◌^◌, ◌≤◌, ◌<◌, ◌≡◌, refl, sym, ap, ◌∙◌, String, List, [], ◌∷◌, ◌++◌, none, some, All,
  arith,
}
use carbonable_leaderboard_b.Starknet.Block.{
  Event, TransactionReceipt, GetBlockResponse, GasPrice, ExecutionResources,
}
use carbonable_leaderboard_b.Indexer.ContractIndex.{ContractIndex}
use carbonable_leaderboard_b.Indexer.EventIndexer.{World, put_index, get_contract_idx, index}
use carbonable_leaderboard_b.Indexer.Loop.{Gateway, Feed}
use carbonable_leaderboard_b.Indexer.Loop
use carbonable_leaderboard_b.Indexer.Loop.Feeding.{missing_block_is_sent}
use carbonable_leaderboard_b.Synchronizer.{
  Sync, write_latest_block, fetch_block, rounds, get_latest_block,
}
use carbonable_leaderboard_b.Synchronizer.Latest.{latest, latest-rounds, overlap_falls}
use carbonable_leaderboard_b.Indexer.EventIndexer.IndexKept.{is_touched, touch}
use carbonable_leaderboard_b.Indexer.EventIndexer.IndexBlock.{index-contract_idx}
use carbonable_leaderboard_b.Tests.Stores.{
  Contents, nothing, memory, memory-IsReliable, index_codec-RoundTripsInto, formats,
  formats-KeepsNumbers, codecs,
}

abbrev gas_price : GasPrice
gas_price = record { price_in_wei = "0x1"; price_in_fri = "0x1" }

abbrev resources : ExecutionResources
resources = record {
  actual_fee = "0x0";
  builtin_instance_counter = record {
    range_check_builtin = 1;
    pedersen_builtin = 0;
    bitwise_builtin = 0;
    output_builtin = 0;
    ecdsa_builtin = 0;
    ec_op_builtin = 0;
  };
  n_steps = 100;
  n_memory_holes = 0;
  data_availability = record { l1_gas = 0; l1_data_gas = 0 };
}

abbrev pub emitted : String → Event
emitted address = record {
  recorded_at = 0;
  event_id = "";
  from_address = address;
  keys = "0x9" ∷ [];
  event_data = "0x1" ∷ "0x2" ∷ "0x0" ∷ "0x6" ∷ [];
}

abbrev receipt : TransactionReceipt
receipt = record {
  execution_status = "SUCCEEDED";
  transaction_hash = "0xabc";
  actual_fee = "0x0";
  version = "0x1";
  l2_to_l1_messages = [];
  events = emitted "0x7" ∷ emitted "0x1f" ∷ [];
  execution_resources = resources;
  transaction_index = 0;
}

abbrev pub block_9 : GetBlockResponse
block_9 = record {
  block_hash = "0x99";
  parent_block_hash = "0x98";
  state_root = "0x0";
  status = "ACCEPTED_ON_L2";
  gas_price = "0x1";
  sequencer_address = "0x0";
  starknet_version = "0.13.1";
  transactions = [];
  transaction_receipts = receipt ∷ [];
  block_number = 9;
  timestamp = 1700000000;
  transaction_commitment = "0x0";
  event_commitment = "0x0";
  l1_da_mode = "BLOB";
  l1_gas_price = gas_price;
  l1_data_gas_price = gas_price;
}

abbrev pub address : String
address = "0x000000000000000000000000000000000000000000000000000000000000001f"

abbrev index_4 : ContractIndex
index_4 = record { blocks = 3 ∷ 4 ∷ []; latest_block = 8 }

abbrev pub world : World Contents
world = record { store = put_index memory (codecs block_9) nothing address index_4; published = [] }

world_idx : get_contract_idx memory (codecs block_9) world.store address 9 ≡ index_4
unfolding get_contract_idx
world_idx = refl

index-contract_idx_example :
    let after = (index memory (codecs block_9) address block_9 world).store in
    let left = get_contract_idx memory (codecs block_9) after address 9 in
    (left.blocks ≡ (touch (is_touched address block_9) index_4 9).blocks)
    × (9 ≤ left.latest_block)
    × All (λ b. b ≤ left.latest_block) left.blocks
index-contract_idx_example =
    index-contract_idx memory (codecs block_9) memory-IsReliable index_codec-RoundTripsInto address
      block_9 world index_4 world_idx (λ h. omega arith) (omega arith)

abbrev gateway : Gateway
gateway n = some block_9

abbrev start : Sync memory (formats block_9)
start = record { block = 9; store = nothing }

fetched : (s : Contents) (n : ℕ) → fetch_block memory (formats block_9) gateway s n ≡ some block_9
unfolding fetch_block
fetched s n = ground arith

same_block : (a b : GetBlockResponse) → some a ≡ some b → a ≡ b
same_block a b h = cc

answers_fit :
    (s : Contents) (n : ℕ) (resp : GetBlockResponse)
    → fetch_block memory (formats block_9) gateway s n ≡ some resp
    → resp.block_number < 2 ^ 64
answers_fit s n resp h = omega (
  arith,
  ap (λ (b : GetBlockResponse). b.block_number) (same_block block_9 resp (sym (fetched s n) ∙ h)),
)

latest-rounds_example :
    latest memory (formats block_9) nothing
    ≤ latest memory
        (formats block_9)
        (rounds memory (formats block_9) (gateway ∷ gateway ∷ []) start).store
latest-rounds_example =
    latest-rounds memory (formats block_9) memory-IsReliable (formats-KeepsNumbers block_9)
      (gateway ∷ gateway ∷ []) start (answers_fit, (answers_fit, tt))

latest-nothing : latest memory (formats block_9) nothing ≡ 0
unfolding get_latest_block
latest-nothing = refl

overlap_falls_example :
    let read = latest memory (formats block_9) nothing in
    let first = write_latest_block memory (formats block_9) read 8 nothing in
    let second = write_latest_block memory (formats block_9) read 7 first in
    (latest memory (formats block_9) first ≡ 8) × (latest memory (formats block_9) second ≡ 7)
overlap_falls_example =
    overlap_falls memory (formats block_9) memory-IsReliable (formats-KeepsNumbers block_9) 7 8
      nothing (omega (arith, latest-nothing)) (omega arith) (omega arith)

abbrev feed : Feed memory (codecs block_9)
feed = record { block = 9; retries = 0; store = nothing; sent = [] }

abbrev six : List Gateway
six = gateway ∷ gateway ∷ gateway ∷ gateway ∷ gateway ∷ gateway ∷ []

missing : Loop.fetch_block memory (codecs block_9) nothing 9 ≡ none
unfolding Loop.fetch_block
missing = refl

missing_block_is_sent_example :
    Loop.rounds memory (codecs block_9) (six ++ gateway ∷ gateway ∷ []) feed ≡ record {
      block = (9 + 1) % 2 ^ 64;
      retries = 1;
      store = Loop.sync_block memory (codecs block_9) gateway 9 nothing;
      sent = [] ++ block_9 ∷ [];
    }
missing_block_is_sent_example =
    missing_block_is_sent memory (codecs block_9) memory-IsReliable six gateway gateway feed block_9
      missing refl refl refl refl
