-- ===== src/Subscriber/Handlers.antt =====
-- The handlers of minter, offseter, yielder and migrator events (internal/subscriber/minter.go,
-- offseter.go, yielder.go and migrator.go). A handler gives the database that it leaves. An event
-- that cannot be decoded changes nothing.
pub mod Purchases
pub mod Resent
use carbonable_leaderboard_b.Prelude.{ℕ, String, List, [], ◌∷◌, Option, none, some, get_elem?}
use carbonable_leaderboard_b.Go.Outcome.{Outcome, ok, ◌>>=◌}
use carbonable_leaderboard_b.Starknet.Block.{Event}
use carbonable_leaderboard_b.Leaderboard.Event.{DomainEvent}
use carbonable_leaderboard_b.Subscriber.Base.{
  Services, Database, or_panic, read_entries, domain_event_from_starknet_event,
}
use carbonable_leaderboard_b.Subscriber.Metadata.{
  get_metadata_from_event, get_metadata_from_migrator,
}
use carbonable_leaderboard_b.Subscriber.BuyValue.{update_minter_bought_value}

abbrev pub buy_entries : List (String × ℕ)
buy_entries = ("address", 0) ∷ ("value", 1) ∷ ("time", 3) ∷ []

abbrev pub airdrop_entries : List (String × ℕ)
airdrop_entries = ("to", 0) ∷ ("value", 1) ∷ ("time", 3) ∷ []

abbrev pub claim_entries : List (String × ℕ)
claim_entries = ("address", 0) ∷ ("amount", 1) ∷ ("time", 3) ∷ []

abbrev pub migration_entries : List (String × ℕ)
migration_entries =
    ("address", 0) ∷ ("token_id", 1) ∷ ("new_token_id", 3) ∷ ("slot", 5) ∷ ("value", 7) ∷ []

module _ {D : Type 0} (sv : Services) (database : Database D) where
  -- The event of the first word's wallet, with its metadata.
  unfoldable pub event_of : String → List (String × ℕ) → Event → Outcome DomainEvent
  unfolding read_entries domain_event_from_starknet_event
  event_of name entries event = do
    words ← read_entries entries event.event_data
    metadata ← get_metadata_from_event sv event.from_address
    wallet ← or_panic (get_elem? event.event_data 0)
    domain_event_from_starknet_event sv.ulid event name wallet words metadata

  -- Minter `Buy` and `Airdrop`: the event is stored, and its value added to the minter's.
  unfoldable pub handle_minter : String → List (String × ℕ) → Event → D → Outcome D
  unfolding event_of
  handle_minter name entries event d = do
    evt ← event_of name entries event
    update_minter_bought_value sv database evt (database.create_event d evt)

  -- Offseter and yielder `Withdraw`, `Deposit` and `Claim`: the event is stored. Here the metadata is
  -- asked for before the words are read.
  unfoldable pub handle_stored : String → List (String × ℕ) → Event → D → Outcome D
  unfolding read_entries domain_event_from_starknet_event
  handle_stored name entries event d = do
    metadata ← get_metadata_from_event sv event.from_address
    words ← read_entries entries event.event_data
    wallet ← or_panic (get_elem? event.event_data 0)
    evt ← domain_event_from_starknet_event sv.ulid event name wallet words metadata
    ok (database.create_event d evt)

  -- `slot.Uint64()` of a felt that stays zero where its text cannot be read
  abbrev pub slot_number : Option ℕ → ℕ
  slot_number none = sv.felts.uint64 0
  slot_number (some slot) = sv.felts.uint64 slot

  -- Migrator `Migration`
  unfoldable pub handle_migration : Event → D → Outcome D
  unfolding read_entries domain_event_from_starknet_event
  handle_migration event d = do
    words ← read_entries migration_entries event.event_data
    text ← or_panic (get_elem? event.event_data 5)
    metadata ←
        get_metadata_from_migrator sv event.from_address
          (slot_number (sv.felts.unmarshal_json text))
    wallet ← or_panic (get_elem? event.event_data 0)
    evt ← domain_event_from_starknet_event sv.ulid event "migrator:migration" wallet words metadata
    update_minter_bought_value sv database evt (database.create_event d evt)

  unfoldable pub minter_buy : Event → D → Outcome D
  unfolding handle_minter
  minter_buy = handle_minter "minter:buy" buy_entries

  unfoldable pub minter_airdrop : Event → D → Outcome D
  unfolding handle_minter
  minter_airdrop = handle_minter "minter:airdrop" airdrop_entries

  unfoldable pub offseter_withdraw : Event → D → Outcome D
  unfolding handle_stored
  offseter_withdraw = handle_stored "offseter:withdraw" buy_entries

  unfoldable pub offseter_deposit : Event → D → Outcome D
  unfolding handle_stored
  offseter_deposit = handle_stored "offseter:deposit" buy_entries

  unfoldable pub offseter_claim : Event → D → Outcome D
  unfolding handle_stored
  offseter_claim = handle_stored "offseter:claim" claim_entries

  unfoldable pub yielder_withdraw : Event → D → Outcome D
  unfolding handle_stored
  yielder_withdraw = handle_stored "yielder:withdraw" buy_entries

  unfoldable pub yielder_deposit : Event → D → Outcome D
  unfolding handle_stored
  yielder_deposit = handle_stored "yielder:deposit" buy_entries

  unfoldable pub yielder_claim : Event → D → Outcome D
  unfolding handle_stored
  yielder_claim = handle_stored "yielder:claim" claim_entries
