-- ===== src/Subscriber/Register/Recorded.antt =====
-- What each handler leaves in the table of events (internal/subscriber/*.go).
use carbonable_leaderboard_b.Prelude.{
  ℕ, ◌≡◌, refl, ap, sym, ◌∙◌, String, List, ◌∷◌, Option, none, some, at_key, get_elem?,
}
use carbonable_leaderboard_b.Go.Outcome.{ok, ok_of, ◌>>=◌, >>=-ok}
use carbonable_leaderboard_b.Starknet.Block.{Event}
use carbonable_leaderboard_b.Starknet.Rpc.{felt_from_uint64}
use carbonable_leaderboard_b.Leaderboard.Event.{StringMap, DomainEvent}
use carbonable_leaderboard_b.Subscriber.Base.{
  Services, Database, or_panic, read_entries, domain_event_from_starknet_event,
}
use carbonable_leaderboard_b.Subscriber.BuyValue.{update_minter_bought_value}
use carbonable_leaderboard_b.Subscriber.Metadata.{
  get_metadata_from_event, get_metadata_from_migrator,
}
use carbonable_leaderboard_b.Subscriber.Handlers.{
  handle_migration, handle_minter, handle_stored, event_of, migration_entries, slot_number,
}
use carbonable_leaderboard_b.Subscriber.Handlers.Resent.{KeepsEvents, insert_unique, events-update}
use carbonable_leaderboard_b.Subscriber.Project.{
  project_transfer, handle_of_token, slot_of_token, metadata_of_token,
  get_wallet_from_transfer_event, transfer_entries,
}

-- A domain event with the id, the time, the address and the keys of an event, and a subject.
abbrev pub IsMade : String → Event → DomainEvent → Type 0
IsMade name event evt =
    (evt.event_id ≡ event.event_id)
    × (evt.recorded_at ≡ event.recorded_at)
    × (evt.event_name ≡ name)
    × (evt.from_address ≡ event.from_address)
    × (evt.event_name_felt ∷ evt.keys ≡ event.keys)

module _ {D : Type 0} (sv : Services) (database : Database D) (table : KeepsEvents database) where
  -- The database that is left has one event more, made of the given one, where there was none of its
  -- id, and the same events else.
  abbrev pub IsRecorded : String → Event → D → D → Type 0
  IsRecorded name event d d' =
      (evt : DomainEvent) × (table.events d' ≡ insert_unique evt (table.events d))
      × IsMade name event evt

  IsRecorded-still :
      (name : String) (event : Event) (d d' d'' : D)
      → table.events d'' ≡ table.events d'
      → IsRecorded name event d d'
      → IsRecorded name event d d''
  IsRecorded-still name event d d' d'' same (evt, inserted, same_event) =
      (evt, same ∙ inserted, same_event)

  made_event :
      (event : Event) (name wallet felt : String) (keys : List String) (words metadata : StringMap)
      (d : D)
      → event.keys ≡ felt ∷ keys
      → (evt : DomainEvent) × (domain_event_from_starknet_event sv.ulid event name wallet words
            metadata
          ≡ ok evt)
        × IsRecorded name event d (database.create_event d evt)
        × (evt.event_data ≡ words)
  unfolding domain_event_from_starknet_event
  made_event event name wallet felt keys words metadata d k =
      let evt : DomainEvent = record {
        recorded_at = event.recorded_at;
        event_data = words;
        metadata = metadata;
        event_id = event.event_id;
        event_name_felt = felt;
        event_name = name;
        from_address = event.from_address;
        wallet_address = wallet;
        keys = keys;
        id = sv.ulid;
      } in
      (
        evt,
        rw (k, domain_event_from_starknet_event),
        (evt, table.events-create_event d evt, (refl, refl, refl, refl, sym k)),
        refl,
      )

  pub stored_lem :
      (name : String) (entries : List (String × ℕ)) (event : Event) (words metadata : StringMap)
      (felt wallet : String) (keys more : List String) (d : D)
      → read_entries entries event.event_data ≡ ok words
      → event.event_data ≡ wallet ∷ more
      → event.keys ≡ felt ∷ keys
      → get_metadata_from_event sv event.from_address ≡ ok metadata
      → (d' : D) × (handle_stored sv database name entries event d ≡ ok d')
        × IsRecorded name event d d'
  unfolding handle_stored
  stored_lem name entries event words metadata felt wallet keys more d read first k answered =
      let (evt, made, recorded, has) = made_event event name wallet felt keys words metadata d k in
      (
        database.create_event d evt,
        >>=-ok _ answered (
            >>=-ok _ read
              (>>=-ok _ (ap (λ l. or_panic (get_elem? l 0)) first) (>>=-ok _ made refl))),
        recorded,
      )

  -- The value of a purchase, an airdrop or a migration is added to the minter's.
  updated_lem :
      (evt : DomainEvent) (v : ℕ) (d : D)
      → sv.u256.from_hex (at_key "value" evt.event_data) ≡ some v
      → (d' : D) × (update_minter_bought_value sv database evt d ≡ ok d')
        × (table.events d' ≡ table.events d)
  unfolding update_minter_bought_value
  updated_lem evt v d read =
      let (d', returned) : (d' : D) × (update_minter_bought_value sv database evt d ≡ ok d') =
        ok_of (update_minter_bought_value sv database evt d)
          (rw (read, update_minter_bought_value)) in
      (d', returned, events-update sv database table evt d d' returned)

  pub minter_lem :
      (name : String) (entries : List (String × ℕ)) (event : Event) (words metadata : StringMap)
      (felt wallet : String) (keys more : List String) (v : ℕ) (d : D)
      → read_entries entries event.event_data ≡ ok words
      → event.event_data ≡ wallet ∷ more
      → event.keys ≡ felt ∷ keys
      → get_metadata_from_event sv event.from_address ≡ ok metadata
      → sv.u256.from_hex (at_key "value" words) ≡ some v
      → (d' : D) × (handle_minter sv database name entries event d ≡ ok d')
        × IsRecorded name event d d'
  unfolding handle_minter event_of
  minter_lem name entries event words metadata felt wallet keys more v d read first k answered
        number =
      let (evt, made, recorded, has) = made_event event name wallet felt keys words metadata d k in
      let (d', returned, same) =
        updated_lem evt v (database.create_event d evt)
          (ap (λ m. sv.u256.from_hex (at_key "value" m)) has ∙ number) in
      (
        d',
        >>=-ok _
            (>>=-ok _ read
              (>>=-ok _ answered (>>=-ok _ (ap (λ l. or_panic (get_elem? l 0)) first) made)))
            returned,
        IsRecorded-still name event d _ d' same recorded,
      )

  pub migration_lem :
      (event : Event) (words metadata : StringMap) (felt wallet text : String)
      (keys more : List String) (v : ℕ) (d : D)
      → read_entries migration_entries event.event_data ≡ ok words
      → get_elem? event.event_data 5 ≡ some text
      → event.event_data ≡ wallet ∷ more
      → event.keys ≡ felt ∷ keys
      → get_metadata_from_migrator sv event.from_address
          (slot_number sv database (sv.felts.unmarshal_json text))
        ≡ ok metadata
      → sv.u256.from_hex (at_key "value" words) ≡ some v
      → (d' : D) × (handle_migration sv database event d ≡ ok d')
        × IsRecorded "migrator:migration" event d d'
  unfolding handle_migration
  migration_lem event words metadata felt wallet text keys more v d read there first k answered
        number =
      let (evt, made, recorded, has) =
        made_event event "migrator:migration" wallet felt keys words metadata d k in
      let (d', returned, same) =
        updated_lem evt v (database.create_event d evt)
          (ap (λ m. sv.u256.from_hex (at_key "value" m)) has ∙ number) in
      (
        d',
        >>=-ok _ read (
            >>=-ok _ (ap or_panic there) (
              >>=-ok _ answered
                (>>=-ok _ (ap (λ l. or_panic (get_elem? l 0)) first) (>>=-ok _ made returned)))),
        IsRecorded-still "migrator:migration" event d _ d' same recorded,
      )

  pub transfer_lem :
      (event : Event) (words metadata : StringMap) (slot : ℕ) (felt : String) (keys : List String)
      (d : D)
      → read_entries transfer_entries event.keys ≡ ok words
      → event.keys ≡ felt ∷ keys
      → slot_of_token sv database event.from_address (at_key "token_id" words) ≡ ok slot
      → metadata_of_token sv database event.from_address slot ≡ ok metadata
      → (d' : D) × (project_transfer sv database event d ≡ ok d')
        × IsRecorded "project:transfer" event d d'
  unfolding project_transfer
  transfer_lem event words metadata slot felt keys d read k found answered =
      let (evt, made, recorded, has) =
        made_event event "project:transfer" (at_key "to" words) felt keys words metadata d k in
      (
        database.create_event d evt,
        >>=-ok _ read (>>=-ok _ found (>>=-ok _ answered (>>=-ok _ made refl))),
        recorded,
      )

  pub of_token_lem :
      (name : String) (entries : List (String × ℕ)) (token_key : String) (event : Event)
      (words metadata : StringMap) (slot : ℕ) (wallet felt : String) (keys : List String)
      (queries : List D) (d : D)
      → read_entries entries event.event_data ≡ ok words
      → event.keys ≡ felt ∷ keys
      → slot_of_token sv database event.from_address (at_key token_key words) ≡ ok slot
      → metadata_of_token sv database event.from_address slot ≡ ok metadata
      → get_wallet_from_transfer_event sv database queries
          (at_key token_key words)
          (sv.felts.to_string (felt_from_uint64 sv.felts slot))
        ≡ some wallet
      → (d' : D) × (handle_of_token sv database name entries token_key event queries d
          ≡ ok (some d'))
        × IsRecorded name event d d'
  unfolding handle_of_token
  of_token_lem name entries token_key event words metadata slot wallet felt keys queries d read k
        found answered had =
      let (evt, made, recorded, has) = made_event event name wallet felt keys words metadata d k in
      (
        database.create_event d evt,
        >>=-ok _ read (
            >>=-ok _ found (
              >>=-ok _ answered (
                ap
                  (λ (o : Option String). elim o [
                    | none ↦ ok none
                    | some wallet ↦
                        domain_event_from_starknet_event sv.ulid event name wallet words metadata
                        >>= λ evt. ok (some (database.create_event d evt))
                  ])
                  had
                ∙ >>=-ok _ made refl))),
        recorded,
      )
