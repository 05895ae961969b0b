-- ===== src/Subscriber/Register/Delivered.antt =====
-- The messages of a block's events, delivered to the subscribers one after the other
-- (internal/indexer/indexer.go and internal/subscriber/*.go).
use carbonable_leaderboard_b.Prelude.{
  ℕ, zero, suc, ◌≡◌, refl, ap, ◌∙◌, subst, String, List, [], ◌∷◌, Option, none, some, All,
  get_elem?,
}
use carbonable_leaderboard_b.Go.Outcome.{Outcome, ok, ◌>>=◌, >>=-ok}
use carbonable_leaderboard_b.Starknet.Block.{Event, GetBlockResponse}
use carbonable_leaderboard_b.Leaderboard.Event.{DomainEvent}
use carbonable_leaderboard_b.Indexer.Storage.{Storage, IsReliable}
use carbonable_leaderboard_b.Indexer.EventIndexer.{Codecs, World, stamped, index}
use carbonable_leaderboard_b.Indexer.EventIndexer.Steps.{ids, NoTwice}
use carbonable_leaderboard_b.Subscriber.Base.{Services, Database}
use carbonable_leaderboard_b.Subscriber.Handlers.Resent.{KeepsEvents, insert_all}
use carbonable_leaderboard_b.Subscriber.Published.WholeBlock.{IsKept}
use carbonable_leaderboard_b.Subscriber.Published.Handled.{
  own_events, IsStored-index, IsHandled, AllHandled,
}
use carbonable_leaderboard_b.Subscriber.Register.{deliver}
use carbonable_leaderboard_b.Subscriber.Register.CanRead.{Subject, name_of, CanRead}
use carbonable_leaderboard_b.Subscriber.Register.Recorded.{IsMade}
use carbonable_leaderboard_b.Subscriber.Register.Every.{event-IsRecorded}

-- A message for a subject with the id of an event, and the database at each query of its handler.
pub record Sent (D : Type 0) : Type 0 where
  pub subject : Subject
  pub id : String
  pub event : Event
  pub queries : List D

All-get_elem? :
    {A : Type 0} (P : A → Type 0) (l : List A) (i : ℕ) (x : A)
    → All P l
    → get_elem? l i ≡ some x
    → P x
All-get_elem? P [] i x all there = cc
All-get_elem? P (y ∷ l) zero x all there = subst P (cc there) all.0
All-get_elem? P (y ∷ l) (suc i) x all there = All-get_elem? P l i x all.1 there

module _ {D : Type 0} where
  -- A handler that waits for ever keeps the ones behind it from their messages.
  abbrev when_done : (D → Outcome (Option D)) → Option D → Outcome (Option D)
  when_done next none = ok none
  when_done next (some d) = next d

  -- What the handler of a message reads in a block of a time.
  abbrev pub read_by : ℕ → Sent D → Event
  read_by time m = stamped m.id time m.event

  abbrev pub AreMade : ℕ → List (Sent D) → List DomainEvent → Type 0
  AreMade time [] [] = Unit
  AreMade time [] (evt ∷ made) = ⊥
  AreMade time (m ∷ sent) [] = ⊥
  AreMade time (m ∷ sent) (evt ∷ made) =
      IsMade (name_of m.subject) (read_by time m) evt × AreMade time sent made

module _ {S D : Type 0} (sv : Services) (storage : Storage S) (database : Database D) where
  -- The handlers run one after the other.
  abbrev pub deliver_all : S → List (Sent D) → D → Outcome (Option D)
  deliver_all s [] d = ok (some d)
  deliver_all s (m ∷ sent) d =
      deliver sv storage database s (record { subject = name_of m.subject; body = m.id }) m.queries
        d
      >>= when_done (deliver_all s sent)

  -- A message of one of the events, which its handler can read.
  abbrev pub IsReadable : ℕ → List (String × Event) → Sent D → Type 0
  IsReadable time events m =
      ((i : ℕ) × (get_elem? events i ≡ some (m.id, m.event)))
      × CanRead sv database m.subject (read_by time m) m.queries

  module _ (table : KeepsEvents database) (codecs : Codecs) (reliable : IsReliable storage)
      (address : String) (block : GetBlockResponse) where
    deliver_all_lem :
        (s : S) (events : List (String × Event)) (sent : List (Sent D)) (d : D)
        → All (IsHandled sv storage database codecs reliable address block s) events
        → All (IsReadable block.timestamp events) sent
        → (d' : D) × (made : List DomainEvent) × (deliver_all s sent d ≡ ok (some d'))
          × (table.events d' ≡ insert_all made (table.events d))
          × AreMade block.timestamp sent made
    deliver_all_lem s events [] d known readable = (d, [], refl, refl, tt)
    deliver_all_lem s events (m ∷ sent) d known readable =
        let ((i, there), can_read) = readable.0 in
        let handed =
          All-get_elem? (IsHandled sv storage database codecs reliable address block s) events i
            (m.id, m.event) known there (name_of m.subject) m.queries d in
        let (mid, returned, (evt, inserted, same)) =
          event-IsRecorded sv storage database table m.subject (read_by block.timestamp m) m.queries
            d can_read in
        let (d', made, rest, all_inserted, all_made) =
          deliver_all_lem s events sent mid known readable.1 in
        (
          d',
          evt ∷ made,
          >>=-ok (when_done (deliver_all s sent)) (handed ∙ returned) rest,
          all_inserted ∙ ap (insert_all made) inserted,
          (same, all_made),
        )

    -- Over a store that keeps its contract, a block is indexed for a contract whose events in the block
    -- have ids of which no two are the same, and are read by gob as they were written. Then messages
    -- with these ids are delivered one after the other over the store behind the block, in any order and
    -- any number of times, each for one of the twelve subjects, whose handler can read its event: the
    -- event has a key and the words that are read, with a number where the value is added to a minter's;
    -- the calls for the slot and the metadata return; and for an event of a token, one of the queries
    -- finds the wallet of its transfer. All handlers return, on tables that keep the documented
    -- behaviour, and the table of events then has, behind what was there, one domain event for each
    -- message in order, less those whose id is there already: it has the id, the time of the block, the
    -- address and the keys of the event, and the subject for its name.
    pub block-IsRecorded :
        (w : World S) (sent : List (Sent D)) (d : D)
        → let events = own_events sv storage database codecs reliable address block in
          NoTwice (ids events)
          → All (IsKept sv storage codecs reliable address block) events
          → All (IsReadable block.timestamp events) sent
          → let after = index storage codecs address block w in
            (d' : D) × (made : List DomainEvent) × (deliver_all after.store sent d ≡ ok (some d'))
            × (table.events d' ≡ insert_all made (table.events d))
            × AreMade block.timestamp sent made
    block-IsRecorded w sent d once kept readable =
        let events = own_events sv storage database codecs reliable address block in
        let after = index storage codecs address block w in
        let stored = IsStored-index sv storage database codecs reliable address block w once kept in
        deliver_all_lem after.store events sent d
          (AllHandled sv storage database codecs reliable address block after.store events stored)
          readable
