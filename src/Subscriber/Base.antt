-- ===== src/Subscriber/Base.antt =====
-- What the subscribers share: the parameters of the service, the database, and the events that they
-- build (internal/subscriber/subscriber.go and internal/leaderboard/leaderboard.go).
use carbonable_leaderboard_b.Prelude.{ℕ, String, List, [], ◌∷◌, Option, none, some, get_elem?}
use carbonable_leaderboard_b.Go.Outcome.{Outcome, ok, panic, ◌>>=◌}
use carbonable_leaderboard_b.Go.Gob.{Bytes, Codec}
use carbonable_leaderboard_b.Go.Uint256.{Uint256}
use carbonable_leaderboard_b.Starknet.Block.{Event}
use carbonable_leaderboard_b.Starknet.Rpc.{Felts, RpcClient, SlotUri, Trim}
use carbonable_leaderboard_b.Leaderboard.Event.{StringMap, DomainEvent}
use carbonable_leaderboard_b.Indexer.Storage.{Storage}
use carbonable_leaderboard_b.Indexer.EventIndexer.{event_key}

-- What is not in the repository: felts, the chain behind the RPC client, JSON, gob, the big integers,
-- and the ULID that `ulid.Make()` gives an event.
pub record Services : Type 0 where
  pub felts : Felts
  pub rpc : RpcClient
  pub trim : Trim
  pub unmarshal_slot_uri : Bytes → Option SlotUri
  pub event_codec : Codec Event
  pub u256 : Uint256
  pub ulid : String

-- A row of the table of the values that minters have sold for.
pub record MinterBuyValue : Type 0 where
  pub name : String
  pub slot : String
  pub id : String
  pub value : ℕ

-- What `First` answers.
pub data First (A : Type 0) : Type 0 where
  record_found : A → First A
  record_not_found : First A
  query_failed : First A

-- The queries of the subscribers, over the states `D` of the database.
pub record Database (D : Type 0) : Type 0 where
  pub create_event : D → DomainEvent → D
  -- the "project:transfer" event of a token id and a slot
  pub first_transfer : D → String → String → First DomainEvent
  pub first_minter_value : D → String → String → First MinterBuyValue
  pub create_minter_value : D → MinterBuyValue → D
  -- sets the value of the rows of a name and a slot
  pub update_minter_value : D → String → String → ℕ → D

-- `event.Data[i]`: out of range it panics
abbrev pub or_panic : {A : Type 0} → Option A → Outcome A
or_panic none = panic
or_panic (some a) = ok a

-- A map literal of entries `"key": event.Data[i]`.
unfoldable pub read_entries : List (String × ℕ) → List String → Outcome StringMap
read_entries [] words = ok []
read_entries ((key, i) ∷ entries) words = do
  word ← or_panic (get_elem? words i)
  rest ← read_entries entries words
  ok ((key, word) ∷ rest)

-- `event.Keys[0]` and `event.Keys[1:]` panic where there is no key.
unfoldable pub domain_event_from_starknet_event :
    String → Event → String → String → StringMap → StringMap → Outcome DomainEvent
domain_event_from_starknet_event ulid event event_name wallet words metadata = elim event.keys [
  | [] ↦ panic
  | felt ∷ keys ↦ ok (record {
    recorded_at = event.recorded_at;
    event_data = words;
    metadata = metadata;
    event_id = event.event_id;
    event_name_felt = felt;
    event_name = event_name;
    from_address = event.from_address;
    wallet_address = wallet;
    keys = keys;
    id = ulid;
  })
]

-- `decodeEvent` of what the store has for the id of the message; `none` for an error
unfoldable pub stored_event : {S : Type 0} → Services → Storage S → S → String → Option Event
stored_event sv storage s body = sv.event_codec.decode (storage.get s (event_key body))
