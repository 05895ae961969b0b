-- ===== src/Subscriber/Register/Every.antt =====
-- Each of the twelve subscribers, on an event that it can read (internal/subscriber/*.go).
use carbonable_leaderboard_b.Prelude.{
  ◌≡◌, refl, ap, String, List, [], ◌∷◌, some, get_elem?, false, ◌==◌,
}
use carbonable_leaderboard_b.Go.Outcome.{Outcome, ok, ◌>>=◌, >>=-ok}
use carbonable_leaderboard_b.Starknet.Block.{Event}
use carbonable_leaderboard_b.Indexer.Storage.{Storage}
use carbonable_leaderboard_b.Subscriber.Base.{Services, Database, read_entries}
use carbonable_leaderboard_b.Subscriber.Handlers.{
  minter_buy, minter_airdrop, offseter_withdraw, offseter_deposit, offseter_claim, yielder_withdraw,
  yielder_deposit, yielder_claim, migration_entries, handle_stored, handle_minter, handle_migration,
}
use carbonable_leaderboard_b.Subscriber.Handlers.Resent.{KeepsEvents}
use carbonable_leaderboard_b.Subscriber.Project.{
  project_transfer, project_transfer_value, project_slot_changed, transfer_entries,
  transfer_value_entries, slot_changed_entries,
}
use carbonable_leaderboard_b.Subscriber.Register.{handled}
use carbonable_leaderboard_b.Subscriber.Register.CanRead.{
  Subject, transfer, transfer_value, slot_changed, buy, airdrop, offseter_withdrawal,
  offseter_deposition, offseter_claiming, yielder_withdrawal, yielder_deposition, yielder_claiming,
  migration, name_of, IsStake, IsSale, IsMigration, IsTransfer, IsOfToken, CanRead,
}
use carbonable_leaderboard_b.Subscriber.Register.Recorded.{
  IsRecorded, stored_lem, minter_lem, migration_lem, transfer_lem, of_token_lem,
}

module _ {S D : Type 0} (sv : Services) (storage : Storage S) (database : Database D) where
  module _ (table : KeepsEvents database) where
    four_words :
        (p q r : String) (event : Event) (h : IsStake sv database event)
        → read_entries ((p, 0) ∷ (q, 1) ∷ (r, 3) ∷ []) event.event_data
          ≡ ok ((p, h.wallet) ∷ (q, h.amount) ∷ (r, h.time) ∷ [])
    unfolding read_entries
    four_words p q r event h = ap (read_entries ((p, 0) ∷ (q, 1) ∷ (r, 3) ∷ [])) h.words

    -- The subscribers of the offseter and the yielder.
    stake-IsRecorded :
        (name p q r : String) (event : Event) (h : IsStake sv database event) (d : D)
        → (d' : D) × (handle_stored sv database name ((p, 0) ∷ (q, 1) ∷ (r, 3) ∷ []) event d
            ≡ ok d')
          × IsRecorded sv database table name event d d'
    stake-IsRecorded name p q r event h d =
        stored_lem sv database table name _ event _ h.metadata h.felt h.wallet h.keys _ d
          (four_words p q r event h) h.words h.keyed h.answered

    -- Those of the minter, whose second word is the value.
    sale-IsRecorded :
        (name p r : String) (event : Event) (h : IsSale sv database event) (d : D)
        → (p == "value") ≡ false
        → (d' : D) × (handle_minter sv database name ((p, 0) ∷ ("value", 1) ∷ (r, 3) ∷ []) event d
            ≡ ok d')
          × IsRecorded sv database table name event d d'
    sale-IsRecorded name p r event h d other =
        minter_lem sv database table name _ event _ h.stake.metadata h.stake.felt h.stake.wallet
          h.stake.keys _ h.number d (four_words p "value" r event h.stake) h.stake.words
          h.stake.keyed h.stake.answered (rw other h.is_number)

    migration-IsRecorded :
        (event : Event) (h : IsMigration sv database event) (d : D)
        → (d' : D) × (handle_migration sv database event d ≡ ok d')
          × IsRecorded sv database table "migrator:migration" event d d'
    unfolding read_entries
    migration-IsRecorded event h d =
        migration_lem sv database table event _ h.metadata h.felt h.wallet h.slot h.keys _ h.number
          d (ap (read_entries migration_entries) h.words) (ap (λ l. get_elem? l 5) h.words) h.words
          h.keyed h.answered h.is_number

    transfer-IsRecorded :
        (event : Event) (h : IsTransfer sv database event) (d : D)
        → (d' : D) × (project_transfer sv database event d ≡ ok d')
          × IsRecorded sv database table "project:transfer" event d d'
    unfolding read_entries
    transfer-IsRecorded event h d =
        transfer_lem sv database table event _ h.metadata h.slot h.felt _ d
          (ap (read_entries transfer_entries) h.keyed) h.keyed h.found h.answered

    value-IsRecorded :
        (event : Event) (queries : List D)
        (h : IsOfToken sv database (λ first third. third) event queries) (d : D)
        → (d' : D) × (project_transfer_value sv database event queries d ≡ ok (some d'))
          × IsRecorded sv database table "project:transfer-value" event d d'
    unfolding read_entries project_transfer_value
    value-IsRecorded event queries h d =
        of_token_lem sv database table "project:transfer-value" transfer_value_entries "to_token_id"
          event _ h.metadata h.slot h.wallet h.felt h.keys queries d
          (ap (read_entries transfer_value_entries) h.words) h.keyed h.found h.answered h.queried

    slot-IsRecorded :
        (event : Event) (queries : List D)
        (h : IsOfToken sv database (λ first third. first) event queries) (d : D)
        → (d' : D) × (project_slot_changed sv database event queries d ≡ ok (some d'))
          × IsRecorded sv database table "project:slot-changed" event d d'
    unfolding read_entries project_slot_changed
    slot-IsRecorded event queries h d =
        of_token_lem sv database table "project:slot-changed" slot_changed_entries "token_id" event
          _ h.metadata h.slot h.wallet h.felt h.keys queries d
          (ap (read_entries slot_changed_entries) h.words) h.keyed h.found h.answered h.queried

    -- A handler that does not wait.
    at_once_records :
        (name : String) (event : Event) (d : D) (o : Outcome D)
        → (d' : D) × (o ≡ ok d') × IsRecorded sv database table name event d d'
        → (d' : D) × ((o >>= λ e. ok (some e)) ≡ ok (some d'))
          × IsRecorded sv database table name event d d'
    at_once_records name event d o (d', returned, recorded) =
        (d', >>=-ok (λ e. ok (some e)) returned refl, recorded)

    -- A subscriber gets an event that it can read: it has a key and the words that the handler reads,
    -- with a number where its value is added to a minter's; the calls for the slot and the metadata of
    -- its contract return; and for an event of a token, one of the queries finds the wallet of its
    -- transfer. Then the handler returns, and leaves in the table of events the same events and, unless
    -- there was one of its id, one more, which has the id, the time, the address and the keys of the
    -- event and the subject for its name.
    pub event-IsRecorded :
        (s : Subject) (event : Event) (queries : List D) (d : D)
        → CanRead sv database s event queries
        → (d' : D) × (handled sv storage database (name_of s) event queries d ≡ ok (some d'))
          × IsRecorded sv database table (name_of s) event d d'
    unfolding minter_buy minter_airdrop offseter_withdraw offseter_deposit offseter_claim
        yielder_withdraw yielder_deposit yielder_claim
    event-IsRecorded transfer event queries d h =
        at_once_records "project:transfer" event d _ (transfer-IsRecorded event h d)
    event-IsRecorded transfer_value event queries d h = value-IsRecorded event queries h d
    event-IsRecorded slot_changed event queries d h = slot-IsRecorded event queries h d
    event-IsRecorded buy event queries d h =
        at_once_records "minter:buy" event d _
          (sale-IsRecorded "minter:buy" "address" "time" event h d refl)
    event-IsRecorded airdrop event queries d h =
        at_once_records "minter:airdrop" event d _
          (sale-IsRecorded "minter:airdrop" "to" "time" event h d refl)
    event-IsRecorded offseter_withdrawal event queries d h =
        at_once_records "offseter:withdraw" event d _
          (stake-IsRecorded "offseter:withdraw" "address" "value" "time" event h d)
    event-IsRecorded offseter_deposition event queries d h =
        at_once_records "offseter:deposit" event d _
          (stake-IsRecorded "offseter:deposit" "address" "value" "time" event h d)
    event-IsRecorded offseter_claiming event queries d h =
        at_once_records "offseter:claim" event d _
          (stake-IsRecorded "offseter:claim" "address" "amount" "time" event h d)
    event-IsRecorded yielder_withdrawal event queries d h =
        at_once_records "yielder:withdraw" event d _
          (stake-IsRecorded "yielder:withdraw" "address" "value" "time" event h d)
    event-IsRecorded yielder_deposition event queries d h =
        at_once_records "yielder:deposit" event d _
          (stake-IsRecorded "yielder:deposit" "address" "value" "time" event h d)
    event-IsRecorded yielder_claiming event queries d h =
        at_once_records "yielder:claim" event d _
          (stake-IsRecorded "yielder:claim" "address" "amount" "time" event h d)
    event-IsRecorded migration event queries d h =
        at_once_records "migrator:migration" event d _ (migration-IsRecorded event h d)
