-- ===== src/Subscriber/Handlers/Resent.antt =====
-- Purchases and airdrops that are published again (internal/subscriber/minter.go): the ids of the
-- stored events are unique (`EventId` of internal/leaderboard/leaderboard.go), what a minter has sold
-- for has no such guard.
use text.Mathlib.TextPositions.{eq_refl}
use carbonable_leaderboard_b.Prelude.{
  ℕ, ◌+◌, ◌%◌, ◌^◌, ◌<◌, ◌≡◌, refl, ap, sym, ◌∙◌, Bool, true, ◌||◌, String, List, [], ◌∷◌, ◌++◌,
  All, any, arith, at_key, Option-cases, inl, inr, ◌==◌, if◌then◌else◌,
}
use carbonable_leaderboard_b.Go.Outcome.{ok, ok_eq, >>=-eq-ok}
use carbonable_leaderboard_b.Go.Uint256.{Documented}
use carbonable_leaderboard_b.Leaderboard.Event.{DomainEvent}
use carbonable_leaderboard_b.Subscriber.Base.{
  Services, MinterBuyValue, First, record_found, record_not_found, query_failed, Database,
}
use carbonable_leaderboard_b.Subscriber.BuyValue.{save_value, update_minter_bought_value}
use carbonable_leaderboard_b.Subscriber.BuyValue.Sums.{
  KeepsRows, HasValue, sum_for, record_events, number_in,
}
use carbonable_leaderboard_b.Subscriber.Handlers.Purchases.{
  Sale, handle_sales, MakeEvents, handle_sales-record, minter_value_adds_up,
}

abbrev has_id : String → List DomainEvent → Bool
has_id id stored = any (λ (e : DomainEvent). e.event_id == id) stored

-- An insert behind the unique constraint.
abbrev pub insert_unique : DomainEvent → List DomainEvent → List DomainEvent
insert_unique evt stored = if has_id evt.event_id stored then stored else stored ++ evt ∷ []

abbrev pub insert_all : List DomainEvent → List DomainEvent → List DomainEvent
insert_all [] stored = stored
insert_all (evt ∷ events) stored = insert_all events (insert_unique evt stored)

-- The documented behaviour of the table of events on a database that answers: a second event of an id
-- is refused, and the statements on the values of minters do not touch it.
pub record KeepsEvents {D : Type 0} (database : Database D) : Type 0 where
  pub events : D → List DomainEvent
  pub events-create_event :
      (d : D) (evt : DomainEvent)
      → events (database.create_event d evt) ≡ insert_unique evt (events d)
  pub events-create_minter_value :
      (d : D) (v : MinterBuyValue) → events (database.create_minter_value d v) ≡ events d
  pub events-update_minter_value :
      (d : D) (n s : String) (v : ℕ) → events (database.update_minter_value d n s v) ≡ events d

has_id-append :
    (id : String) (l : List DomainEvent) (evt : DomainEvent)
    → has_id id (l ++ evt ∷ []) ≡ (has_id id l || evt.event_id == id)
has_id-append id [] evt = ground arith
has_id-append id (e ∷ l) evt = ground (arith, has_id-append id l evt)

-- An event that is inserted has its id in the table, and an id stays there.
has_id-inserted :
    (evt : DomainEvent) (stored : List DomainEvent)
    → has_id evt.event_id (insert_unique evt stored) ≡ true
has_id-inserted evt stored =
    ground (arith, has_id-append evt.event_id stored evt, eq_refl evt.event_id)

has_id-kept :
    (id : String) (evt : DomainEvent) (stored : List DomainEvent)
    → has_id id stored ≡ true
    → has_id id (insert_unique evt stored) ≡ true
has_id-kept id evt stored there = ground (arith, has_id-append id stored evt)

has_id-insert_all :
    (id : String) (events stored : List DomainEvent)
    → has_id id stored ≡ true
    → has_id id (insert_all events stored) ≡ true
has_id-insert_all id [] stored there = there
has_id-insert_all id (evt ∷ events) stored there =
    has_id-insert_all id events (insert_unique evt stored) (has_id-kept id evt stored there)

abbrev AreThere : List DomainEvent → List DomainEvent → Type 0
AreThere events stored = All (λ (e : DomainEvent). has_id e.event_id stored ≡ true) events

inserted-AreThere : (events stored : List DomainEvent) → AreThere events (insert_all events stored)
inserted-AreThere [] stored = tt
inserted-AreThere (evt ∷ events) stored = (
  has_id-insert_all evt.event_id events (insert_unique evt stored) (has_id-inserted evt stored),
  inserted-AreThere events (insert_unique evt stored),
)

insert_all_none :
    (events stored : List DomainEvent) → AreThere events stored → insert_all events stored ≡ stored
insert_all_none [] stored there = refl
insert_all_none (evt ∷ events) stored there = rw (there.0) (insert_all_none events stored there.1)

module _ {D : Type 0} (sv : Services) (database : Database D) (table : KeepsEvents database) where
  events-save_value :
      (f : First MinterBuyValue) (v : MinterBuyValue) (d : D)
      → table.events (save_value sv database f v d) ≡ table.events d
  unfolding save_value
  events-save_value (record_found r) v d = table.events-update_minter_value d v.name v.slot _
  events-save_value record_not_found v d = table.events-create_minter_value d _
  events-save_value query_failed v d = table.events-update_minter_value d v.name v.slot _

  pub events-update :
      (evt : DomainEvent) (d d' : D)
      → update_minter_bought_value sv database evt d ≡ ok d'
      → table.events d' ≡ table.events d
  unfolding update_minter_bought_value
  events-update evt d d' returned =
      elim (Option-cases (sv.u256.from_hex (at_key "value" evt.event_data))) [
        | inl unread ↦ absurd (cc (rw (unread, update_minter_bought_value) at returned))
        | inr (v, read) ↦
            ap table.events (sym (ok_eq (rw (read, update_minter_bought_value) at returned)))
            ∙ events-save_value _ _ d
      ]

  events-record :
      (events : List DomainEvent) (d d' : D)
      → record_events sv database events d ≡ ok d'
      → table.events d' ≡ insert_all events (table.events d)
  events-record [] d d' returned = ap table.events (sym (ok_eq returned))
  events-record (evt ∷ events) d d' returned =
      let (mid, first, rest) =
        >>=-eq-ok (update_minter_bought_value sv database evt (database.create_event d evt)) _
          returned in
      events-record events mid d' rest
      ∙ ap (insert_all events) (
          events-update evt (database.create_event d evt) mid first
          ∙ table.events-create_event d evt)

  -- On a database that answers, with unique ids of events: a run of purchases and airdrops whose
  -- messages make events with values that are numbers, handled a second time, inserts no event, and yet
  -- raises the value of each name and slot, if it was below 2^64 at first, by the sum of the run once
  -- more, modulo 2^64.
  pub resent_sales_count_twice :
      Documented sv.u256
      → (laws : KeepsRows database) (sales : List Sale) (events : List DomainEvent) (d : D)
        (name slot : String)
      → MakeEvents sv database sales events
      → All (HasValue sv.u256) events
      → number_in (laws.row d name slot) < 2 ^ 64
      → let sum = sum_for sv.u256 name slot events in
        (d' d'' : D) × (handle_sales sv database sales d ≡ ok d')
        × (handle_sales sv database sales d' ≡ ok d'')
        × (table.events d' ≡ insert_all events (table.events d))
        × (table.events d'' ≡ table.events d')
        × (number_in (laws.row d'' name slot)
            ≡ (number_in (laws.row d name slot) + sum + sum) % 2 ^ 64)
  resent_sales_count_twice u laws sales events d name slot made readable small =
      let (d', once, first) =
        minter_value_adds_up sv database u laws sales events d name slot made readable small in
      let (d'', twice, second) =
        minter_value_adds_up sv database u laws sales events d' name slot made readable
          (omega (arith, first)) in
      let inserted : table.events d' ≡ insert_all events (table.events d) =
        events-record events d d'
          (sym (handle_sales-record sv database sales events d made) ∙ once) in
      let again : table.events d'' ≡ insert_all events (table.events d') =
        events-record events d' d''
          (sym (handle_sales-record sv database sales events d' made) ∙ twice) in
      let there : insert_all events (table.events d') ≡ table.events d' =
        rw inserted (insert_all_none events _ (inserted-AreThere events (table.events d))) in
      (d', d'', once, twice, inserted, again ∙ there, omega (arith, first, second))
