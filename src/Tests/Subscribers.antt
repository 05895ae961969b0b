-- ===== src/Tests/Subscribers.antt =====
-- Concrete events on their way through the subscribers.
use carbonable_leaderboard_b.Prelude.{
  ◌%◌, ◌^◌, ◌≡◌, ◌≢◌, refl, String, List, [], ◌∷◌, ◌++◌, All, Option, none, some,
}
use carbonable_leaderboard_b.Go.Outcome.{ok}
use carbonable_leaderboard_b.Starknet.Block.{Event}
use carbonable_leaderboard_b.Starknet.FeltText.{ensure_stark_felt}
use carbonable_leaderboard_b.Config.{Config, Contract, get_contract}
use carbonable_leaderboard_b.Leaderboard.Event.{DomainEvent}
use carbonable_leaderboard_b.Go.Format.{decimal}
use carbonable_leaderboard_b.Indexer.EventIndexer.{stamped, index}
use carbonable_leaderboard_b.Indexer.EventIndexer.Published.{announce}
use carbonable_leaderboard_b.Indexer.EventIndexer.Steps.{named_in, own, ids, NoTwice}
use carbonable_leaderboard_b.Subscriber.Base.{
  Services, First, record_found, record_not_found, Database,
}
use carbonable_leaderboard_b.Subscriber.Published.WholeBlock.{
  IsKept, publish_all, HasKey, messages_of,
}
use carbonable_leaderboard_b.Subscriber.Published.Handled.{IsHandled, block-IsHandled}
use carbonable_leaderboard_b.Subscriber.Project.{
  project_transfer, project_transfer_value, project_slot_changed,
}
use carbonable_leaderboard_b.Subscriber.Project.Nil.{no_slot_uri_no_event}
use carbonable_leaderboard_b.Tests.Decimals.{parse_uint}
use carbonable_leaderboard_b.Tests.Integers.{u256}
use carbonable_leaderboard_b.Tests.Stores.{memory, memory-IsReliable, codecs}
use carbonable_leaderboard_b.Tests.Chain.{block_9, emitted, world}

abbrev pub id : String
id = "0xabc_1"

abbrev indexed : Event
indexed = stamped id 1700000000 (emitted "0x1f")

-- No call of a contract is answered, and every name has the hash 9.
abbrev pub services : Services
services = record {
  felts = record {
    unmarshal_json = parse_uint;
    to_string = λ n. "0x9";
    uint64 = λ n. n % 2 ^ 64;
    marshal = λ n. n ∷ [];
    starknet_keccak = λ name. 9;
  };
  rpc = λ address method params. none;
  trim = λ bytes. bytes;
  unmarshal_slot_uri = λ bytes. none;
  event_codec = record { encode = λ e. 3 ∷ []; decode = λ bytes. some indexed };
  u256 = u256;
  ulid = "01H";
}

abbrev pub contract : Contract
contract = record {
  events = ("Buy", "minter:buy") ∷ [];
  address = "0x000000000000000000000000000000000000000000000000000000000000001f";
  name = "minter";
}

abbrev config : Config
config = record { contracts = contract ∷ []; start_block = 0 }

abbrev first_of : List DomainEvent → First DomainEvent
first_of [] = record_not_found
first_of (e ∷ events) = record_found e

-- The domain events that have been stored; no table of minters.
abbrev database : Database (List DomainEvent)
database = record {
  create_event = λ events e. e ∷ events;
  first_transfer = λ events token_id slot. first_of events;
  first_minter_value = λ events name slot. record_not_found;
  create_minter_value = λ events row. events;
  update_minter_value = λ events name slot value. events;
}

known : get_contract config contract.address ≡ some contract
unfolding get_contract
known = refl

abbrev pub block_events : List (String × Event)
block_events = own contract.address (named_in block_9.transaction_receipts)

pub only_event : block_events ≡ (id, emitted "0x1f") ∷ []
unfolding ensure_stark_felt decimal
only_event = refl

keyed : All (HasKey services memory config) block_events
keyed = rw only_event (("0x9", [], refl), tt)

pub once : NoTwice (ids block_events)
once = rw only_event (tt, tt)

pub kept :
    All
      (IsKept services memory (codecs block_9) memory-IsReliable contract.address block_9)
      block_events
kept = rw only_event (refl, tt)

block-IsHandled_example :
    let after = index memory (codecs block_9) contract.address block_9 world in
    (after.published ≡ [] ++ announce (ids block_events))
    × (publish_all services memory config after.store (ids block_events) []
        ≡ ok (messages_of services memory config contract block_events keyed))
    × All
        (IsHandled services memory database
          (codecs block_9)
          memory-IsReliable
          contract.address
          block_9
          after.store)
        block_events
block-IsHandled_example =
    block-IsHandled services memory database (codecs block_9) memory-IsReliable contract.address
      block_9 config contract world keyed known once kept

abbrev long_event : Event
long_event = record (emitted "0x1f") {
  keys = "0x9" ∷ "0x1" ∷ "0x2" ∷ "0x3" ∷ [];
  event_data = "0x1" ∷ "0x0" ∷ "0x2" ∷ "0x0" ∷ "0x3" ∷ [];
}

no_slot_uri_no_event_example :
    ((r : List DomainEvent) → project_transfer services database long_event [] ≢ ok r)
    × ((r : Option (List DomainEvent))
        → project_transfer_value services database long_event ([] ∷ []) [] ≢ ok r)
    × ((r : Option (List DomainEvent))
        → project_slot_changed services database long_event ([] ∷ []) [] ≢ ok r)
no_slot_uri_no_event_example =
    no_slot_uri_no_event services database long_event ([] ∷ []) [] (λ params. refl)
