-- ===== src/Subscriber/Project/Nil.antt =====
-- The handlers of project events where the URI of the slot cannot be had, and where the wallet is
-- late (internal/subscriber/project.go).
use carbonable_leaderboard_b.Prelude.{
  ℕ, ◌≡◌, ◌≢◌, false, String, List, [], ◌∷◌, ◌++◌, Option, none, some, at_key, ◌==◌, All,
}
use carbonable_leaderboard_b.Go.Outcome.{ok, panic, >>=-eq-ok}
use carbonable_leaderboard_b.Starknet.Block.{Event}
use carbonable_leaderboard_b.Starknet.Rpc.{get_slot_uri}
use carbonable_leaderboard_b.Subscriber.Base.{Services, Database, read_entries}
use carbonable_leaderboard_b.Subscriber.Metadata.{metadata_from_slot_uri}
use carbonable_leaderboard_b.Subscriber.Project.{
  wallet_of, transfer_entries, transfer_value_entries, slot_changed_entries, slot_of_token,
  metadata_of_token, project_transfer, project_transfer_value, project_slot_changed,
  handle_of_token, get_wallet_from_transfer_event,
}

module _ {D : Type 0} (sv : Services) (database : Database D) where
  -- Every call of the contract for the URI of a slot fails.
  abbrev pub HidesSlotUri : String → Type 0
  HidesSlotUri address = (params : List ℕ) → sv.rpc address "slot_uri" params ≡ none

  no_metadata :
      (address : String) (slot : ℕ)
      → HidesSlotUri address
      → metadata_of_token sv database address slot ≡ panic
  unfolding metadata_of_token metadata_from_slot_uri get_slot_uri
  no_metadata address slot h = rw (h, get_slot_uri)

  handle_of_token_fails :
      (name : String) (entries : List (String × ℕ)) (token_key : String) (event : Event)
      (queries : List D) (d : D) (r : Option D)
      → HidesSlotUri event.from_address
      → handle_of_token sv database name entries token_key event queries d ≢ ok r
  unfolding handle_of_token
  handle_of_token_fails name entries token_key event queries d r h returned =
      let (words, read, next) = >>=-eq-ok (read_entries entries event.event_data) _ returned in
      let (slot, known, last) =
        >>=-eq-ok (slot_of_token sv database event.from_address (at_key token_key words)) _ next in
      let (metadata, had, rest) =
        >>=-eq-ok (metadata_of_token sv database event.from_address slot) _ last in
      cc (had, no_metadata event.from_address slot h)

  transfer_fails :
      (event : Event) (d r : D)
      → HidesSlotUri event.from_address
      → project_transfer sv database event d ≢ ok r
  unfolding project_transfer
  transfer_fails event d r h returned =
      let (words, read, next) = >>=-eq-ok (read_entries transfer_entries event.keys) _ returned in
      let (slot, known, last) =
        >>=-eq-ok (slot_of_token sv database event.from_address (at_key "token_id" words)) _ next in
      let (metadata, had, rest) =
        >>=-eq-ok (metadata_of_token sv database event.from_address slot) _ last in
      cc (had, no_metadata event.from_address slot h)

  -- Where the contract does not answer the call for the URI of a slot, no handler of a project event
  -- returns, whatever the event.
  pub no_slot_uri_no_event :
      (event : Event) (queries : List D) (d : D)
      → HidesSlotUri event.from_address
      → ((r : D) → project_transfer sv database event d ≢ ok r)
        × ((r : Option D) → project_transfer_value sv database event queries d ≢ ok r)
        × ((r : Option D) → project_slot_changed sv database event queries d ≢ ok r)
  unfolding project_transfer_value project_slot_changed
  no_slot_uri_no_event event queries d h = (
    λ r. transfer_fails event d r h,
    λ r.
        handle_of_token_fails "project:transfer-value" transfer_value_entries "to_token_id" event
          queries d r h,
    λ r.
        handle_of_token_fails "project:slot-changed" slot_changed_entries "token_id" event queries d
          r h,
  )

  -- The wait for the wallet of a token ends at the first query that finds a transfer event with a
  -- wallet, and answers that wallet; queries that find none, or fail, are passed over.
  pub wallet_of_first_transfer :
      (before later : List D) (d : D) (token_id slot wallet : String)
      → All (λ b. wallet_of (database.first_transfer b token_id slot) ≡ "") before
      → wallet_of (database.first_transfer d token_id slot) ≡ wallet
      → (wallet == "") ≡ false
      → get_wallet_from_transfer_event sv database (before ++ d ∷ later) token_id slot ≡ some wallet
  unfolding get_wallet_from_transfer_event
  wallet_of_first_transfer [] later d token_id slot wallet none_yet found named = rw (found, named)
  wallet_of_first_transfer (b ∷ before) later d token_id slot wallet none_yet found named =
      rw (none_yet.0)
        (wallet_of_first_transfer before later d token_id slot wallet none_yet.1 found named)
