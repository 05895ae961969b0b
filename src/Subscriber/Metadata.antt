-- ===== src/Subscriber/Metadata.antt =====
-- The metadata of events, asked of the chain (internal/subscriber/minter.go, migrator.go and
-- project.go).
use carbonable_leaderboard_b.Prelude.{ℕ, String, [], ◌∷◌, Option, none, some}
use carbonable_leaderboard_b.Go.Outcome.{Outcome, ok, panic, ◌>>=◌}
use carbonable_leaderboard_b.Starknet.Rpc.{
  SlotUri, felt_from_uint64, get_slot_uri, minter_get_project_address, minter_get_project_slot,
  migrator_target_address,
}
use carbonable_leaderboard_b.Leaderboard.Event.{StringMap}
use carbonable_leaderboard_b.Subscriber.Base.{Services}

module _ (sv : Services) where
  -- `slotUri.Name` panics where `slotUri` is nil.
  unfoldable pub metadata_from_slot_uri : Option SlotUri → ℕ → Outcome StringMap
  metadata_from_slot_uri none slot = panic
  metadata_from_slot_uri (some slot_uri) slot = ok (
      ("slot", sv.felts.to_string (felt_from_uint64 sv.felts slot))
      ∷ ("project_name", slot_uri.name)
      ∷ [])

  abbrev pub slot_uri_of : String → ℕ → Outcome (Option SlotUri)
  slot_uri_of address slot = get_slot_uri sv.felts sv.rpc sv.trim sv.unmarshal_slot_uri address slot

  -- What `getMetadataFromEvent` and `getMetadataFromMigrator` do last: an error gives an empty map.
  unfoldable pub metadata_or_empty : Option SlotUri → ℕ → Outcome StringMap
  unfolding metadata_from_slot_uri
  metadata_or_empty none slot = ok []
  metadata_or_empty (some slot_uri) slot = metadata_from_slot_uri (some slot_uri) slot

  -- The two calls that need the slot and the address that were asked for before.
  unfoldable pub metadata_of_project : Option String → ℕ → Outcome StringMap
  unfolding metadata_or_empty
  metadata_of_project none slot = ok []
  metadata_of_project (some address) slot =
      slot_uri_of address slot >>= λ slot_uri. metadata_or_empty slot_uri slot

  unfoldable pub metadata_of_slot : String → Option ℕ → Outcome StringMap
  unfolding metadata_of_project
  metadata_of_slot project_address none = ok []
  metadata_of_slot project_address (some slot) = metadata_of_project (some project_address) slot

  -- `getMetadataFromEvent`, behind its first call
  unfoldable pub metadata_at : String → Option String → Outcome StringMap
  unfolding metadata_of_slot
  metadata_at address none = ok []
  metadata_at address (some project_address) =
      minter_get_project_slot sv.felts sv.rpc address >>= metadata_of_slot project_address

  unfoldable pub get_metadata_from_event : String → Outcome StringMap
  unfolding metadata_at
  get_metadata_from_event address =
      minter_get_project_address sv.felts sv.rpc address >>= metadata_at address

  unfoldable pub get_metadata_from_migrator : String → ℕ → Outcome StringMap
  unfolding metadata_of_project
  get_metadata_from_migrator address slot =
      migrator_target_address sv.felts sv.rpc address >>= λ project_address.
      metadata_of_project project_address slot
