-- ===== src/Subscriber/Project.antt =====
-- The handlers of project events (internal/subscriber/project.go).
pub mod Nil
use carbonable_leaderboard_b.Prelude.{
  ℕ, String, List, [], ◌∷◌, Option, none, some, at_key, ◌==◌, if◌then◌else◌,
}
use carbonable_leaderboard_b.Go.Outcome.{Outcome, ok, ◌>>=◌}
use carbonable_leaderboard_b.Starknet.Block.{Event}
use carbonable_leaderboard_b.Starknet.Rpc.{felt_from_uint64, hex_string_to_uint64, get_slot_of}
use carbonable_leaderboard_b.Leaderboard.Event.{StringMap, DomainEvent}
use carbonable_leaderboard_b.Subscriber.Base.{
  Services, First, record_found, record_not_found, query_failed, Database, read_entries,
  domain_event_from_starknet_event,
}
use carbonable_leaderboard_b.Subscriber.Metadata.{metadata_from_slot_uri, slot_uri_of}

abbrev pub transfer_entries : List (String × ℕ)
transfer_entries = ("from", 1) ∷ ("to", 2) ∷ ("token_id", 3) ∷ []

abbrev pub transfer_value_entries : List (String × ℕ)
transfer_value_entries = ("from_token_id", 0) ∷ ("to_token_id", 2) ∷ ("value", 4) ∷ []

abbrev pub slot_changed_entries : List (String × ℕ)
slot_changed_entries = ("token_id", 0) ∷ ("old_slot", 2) ∷ ("new_slot", 4) ∷ []

-- `evt.WalletAddress` after `First`; the zero event has none
abbrev pub wallet_of : First DomainEvent → String
wallet_of (record_found evt) = evt.wallet_address
wallet_of record_not_found = ""
wallet_of query_failed = ""

abbrev slot_or_zero : Option ℕ → ℕ
slot_or_zero none = 0
slot_or_zero (some slot) = slot

module _ {D : Type 0} (sv : Services) (database : Database D) where
  -- The slot of a token and its metadata: an error of `GetSlotOf` leaves the slot 0, and one of
  -- `GetSlotUri` leaves a nil URI.
  unfoldable pub slot_of_token : String → String → Outcome ℕ
  slot_of_token address token_id =
      get_slot_of sv.felts sv.rpc address (hex_string_to_uint64 sv.felts token_id) >>= λ slot.
      ok (slot_or_zero slot)

  unfoldable pub metadata_of_token : String → ℕ → Outcome StringMap
  metadata_of_token address slot =
      slot_uri_of sv address slot >>= λ slot_uri. metadata_from_slot_uri sv slot_uri slot

  -- `Transfer`, whose words are keys of the event
  unfoldable pub project_transfer : Event → D → Outcome D
  unfolding read_entries domain_event_from_starknet_event slot_of_token metadata_of_token
  project_transfer event d = do
    words ← read_entries transfer_entries event.keys
    slot ← slot_of_token event.from_address (at_key "token_id" words)
    metadata ← metadata_of_token event.from_address slot
    evt ←
        domain_event_from_starknet_event sv.ulid event "project:transfer" (at_key "to" words) words
          metadata
    ok (database.create_event d evt)

  -- `getTransferEvent` queries again until it finds an event with a wallet. The list has the database
  -- at each of the queries; `none` means that the call has not returned by the last of them.
  unfoldable pub get_wallet_from_transfer_event : List D → String → String → Option String
  get_wallet_from_transfer_event [] token_id slot = none
  get_wallet_from_transfer_event (d ∷ later) token_id slot =
      let wallet = wallet_of (database.first_transfer d token_id slot) in
      let again = get_wallet_from_transfer_event later token_id slot in
      if wallet == "" then again else some wallet

  -- `TransferValue` and `SlotChanged`; `token_key` names the word with the token. The result is `none`
  -- as long as the handler waits for the wallet.
  unfoldable pub handle_of_token :
      String → List (String × ℕ) → String → Event → List D → D → Outcome (Option D)
  unfolding read_entries domain_event_from_starknet_event slot_of_token metadata_of_token
      get_wallet_from_transfer_event
  handle_of_token name entries token_key event queries d = do
    words ← read_entries entries event.event_data
    slot ← slot_of_token event.from_address (at_key token_key words)
    metadata ← metadata_of_token event.from_address slot
    let waited =
        get_wallet_from_transfer_event queries (at_key token_key words)
          (sv.felts.to_string (felt_from_uint64 sv.felts slot))
    elim waited [
      | none ↦ ok none
      | some wallet ↦
          domain_event_from_starknet_event sv.ulid event name wallet words metadata >>= λ evt.
          ok (some (database.create_event d evt))
    ]

  unfoldable pub project_transfer_value : Event → List D → D → Outcome (Option D)
  unfolding handle_of_token
  project_transfer_value =
      handle_of_token "project:transfer-value" transfer_value_entries "to_token_id"

  unfoldable pub project_slot_changed : Event → List D → D → Outcome (Option D)
  unfolding handle_of_token
  project_slot_changed = handle_of_token "project:slot-changed" slot_changed_entries "token_id"
