-- ===== src/Subscriber/BuyValue/Sums.antt =====
-- What the value of a minter adds up to over the events that are handled.
use text.Mathlib.TextPositions.{eq_refl}
use carbonable_leaderboard_b.Prelude.{
  eq_iff, Bool-cases, ℕ, ◌+◌, ◌%◌, ◌^◌, ◌<◌, ◌≡◌, refl, ap, sym, subst, ◌∙◌, Bool, true, false,
  ◌&&◌, String, List, [], ◌∷◌, Option, none, some, All, at_key, arith, ◌==◌, if◌then◌else◌,
  Option-cases, inl, inr,
}
use carbonable_leaderboard_b.Go.Outcome.{Outcome, ok, ◌>>=◌}
use carbonable_leaderboard_b.Go.Uint256.{Uint256, Documented}
use carbonable_leaderboard_b.Leaderboard.Event.{DomainEvent}
use carbonable_leaderboard_b.Subscriber.Base.{
  Services, MinterBuyValue, First, record_found, record_not_found, Database,
}
use carbonable_leaderboard_b.Subscriber.BuyValue.{
  current_value, save_value, update_minter_bought_value,
}

abbrev pub found : Option MinterBuyValue → First MinterBuyValue
found none = record_not_found
found (some row) = record_found row

abbrev pub is_of : String → String → String → String → Bool
is_of name slot n s = (name == n) && (slot == s)

abbrev pub with_value : ℕ → Option MinterBuyValue → Option MinterBuyValue
with_value v none = none
with_value v (some row) = some (record row { value = v })

-- The documented behaviour of the queries on a database that answers: one row for each name and slot.
pub record KeepsRows {D : Type 0} (database : Database D) : Type 0 where
  pub row : D → String → String → Option MinterBuyValue
  pub first-row :
      (d : D) (name slot : String)
      → database.first_minter_value d name slot ≡ found (row d name slot)
  pub row_named :
      (d : D) (name slot : String) (v : MinterBuyValue)
      → row d name slot ≡ some v
      → (v.name ≡ name) × (v.slot ≡ slot)
  pub row-create_event :
      (d : D) (evt : DomainEvent) (name slot : String)
      → row (database.create_event d evt) name slot ≡ row d name slot
  pub row-create_minter_value :
      (d : D) (v : MinterBuyValue) (name slot : String)
      → row d v.name v.slot ≡ none
      → row (database.create_minter_value d v) name slot
        ≡ (if is_of v.name v.slot name slot then some v else row d name slot)
  pub row-update_minter_value :
      (d : D) (n s : String) (v : ℕ) (name slot : String)
      → row (database.update_minter_value d n s v) name slot
        ≡ (if is_of n s name slot then with_value v (row d name slot) else row d name slot)

abbrev pub number_in : Option MinterBuyValue → ℕ
number_in none = 0
number_in (some v) = v.value

-- An event whose value is a number.
abbrev pub HasValue : Uint256 → DomainEvent → Type 0
HasValue u evt = (v : ℕ) × (u.from_hex (at_key "value" evt.event_data) ≡ some v)

abbrev or_zero : Option ℕ → ℕ
or_zero none = 0
or_zero (some v) = v

-- The sum of the values of the events of a name and a slot.
abbrev pub sum_for : Uint256 → String → String → List DomainEvent → ℕ
sum_for u name slot [] = 0
sum_for u name slot (evt ∷ events) =
    (if is_of (at_key "project_name" evt.metadata) (at_key "slot" evt.metadata) name slot
      then or_zero (u.from_hex (at_key "value" evt.event_data))
      else 0)
    + sum_for u name slot events

pub is_of-true : (n s name slot : String) → is_of n s name slot ≡ true → (n ≡ name) × (s ≡ slot)
is_of-true n s name slot h = ((eq_iff n name).0 (ground arith), (eq_iff s slot).0 (ground arith))

pub is_of_refl : (n s : String) → is_of n s n s ≡ true
is_of_refl n s = rw (eq_refl n, eq_refl s)

-- One more value, and the sum of the rest.
one_more :
    (test : Bool) (m v next rest last : ℕ)
    → m < 2 ^ 64
    → next ≡ (if test then (m + v) % 2 ^ 64 else m)
    → (next < 2 ^ 64 → last ≡ (next + rest) % 2 ^ 64)
    → last ≡ (m + ((if test then v else 0) + rest)) % 2 ^ 64
one_more true m v next rest last small here further =
    omega (arith, here, further (omega (arith, here)))
one_more false m v next rest last small here further =
    omega (arith, here, further (omega (arith, here, small)))

module _ {D : Type 0} (sv : Services) (database : Database D) where
  -- The last two steps of the handlers of purchases, airdrops and migrations, event by event.
  abbrev pub record_events : List DomainEvent → D → Outcome D
  record_events [] d = ok d
  record_events (evt ∷ events) d =
      update_minter_bought_value sv database evt (database.create_event d evt)
      >>= record_events events

  module _ (u : Documented sv.u256) (laws : KeepsRows database) where
    abbrev pub number_at : D → String → String → ℕ
    number_at d name slot = number_in (laws.row d name slot)

    truncated : (a v : ℕ) → sv.u256.uint64 (sv.u256.add a v) ≡ (a + v) % 2 ^ 64
    truncated a v = ap sv.u256.uint64 (u.add_wraps a v) ∙ u.uint64_truncates _ ∙ omega arith

    -- A row's number after the step, where the row of the event's name and slot has the new number and
    -- the others are as they were.
    number_after :
        (d d' : D) (n s name slot : String) (v : ℕ)
        → number_at d' n s ≡ (number_at d n s + v) % 2 ^ 64
        → (is_of n s name slot ≡ false → number_at d' name slot ≡ number_at d name slot)
        → number_at d' name slot ≡ (
            if is_of n s name slot
            then (number_at d name slot + v) % 2 ^ 64
            else number_at d name slot)
    number_after d d' n s name slot v here there = elim (Bool-cases (is_of n s name slot)) [
      | inl same ↦
          let (same_name, same_slot) = is_of-true n s name slot same in
          rw same (
            subst (λ (m : String). number_at d' m slot ≡ (number_at d m slot + v) % 2 ^ 64)
              same_name
              (subst (λ (t : String). number_at d' n t ≡ (number_at d n t + v) % 2 ^ 64) same_slot
                here))
      | inr apart ↦ rw apart (there apart)
    ]

    -- What is saved, by what the query for the event's row answers.
    saved :
        (d : D) (evt : DomainEvent) (v : ℕ) (f : First MinterBuyValue)
        → sv.u256.from_hex (at_key "value" evt.event_data) ≡ some v
        → database.first_minter_value d
            (at_key "project_name" evt.metadata)
            (at_key "slot" evt.metadata)
          ≡ f
        → update_minter_bought_value sv database evt d
          ≡ ok (
              save_value sv database f
                (record (current_value sv database evt f) {
                  value = sv.u256.add (current_value sv database evt f).value v;
                })
                d)
    unfolding update_minter_bought_value
    saved d evt v f read e = rw (update_minter_bought_value, read, e)

    updated :
        (d : D) (evt : DomainEvent) (v : ℕ)
        → sv.u256.from_hex (at_key "value" evt.event_data) ≡ some v
        → (d' : D) × (update_minter_bought_value sv database evt d ≡ ok d')
          × ((name slot : String)
              → number_at d' name slot ≡ (
                  if is_of
                    (at_key "project_name" evt.metadata)
                    (at_key "slot" evt.metadata)
                    name
                    slot
                  then (number_at d name slot + v) % 2 ^ 64
                  else number_at d name slot))
    unfolding update_minter_bought_value current_value save_value
    updated d evt v read =
        let n = at_key "project_name" evt.metadata in
        let s = at_key "slot" evt.metadata in
        elim (Option-cases (laws.row d n s)) [
          | inl none_there ↦
              let new : MinterBuyValue = record {
                name = n;
                slot = s;
                id = sv.ulid;
                value = sv.u256.uint64 (sv.u256.add 0 v);
              } in
              let d' = database.create_minter_value d new in
              let at_d' =
                λ (name slot : String). laws.row-create_minter_value d new name slot none_there in
              (
                d',
                saved d evt v record_not_found read (laws.first-row d n s ∙ ap found none_there),
                λ name slot.
                    number_after d d' n s name slot v
                      (ap number_in (at_d' n s) ∙ rw (is_of_refl n s, none_there) (truncated 0 v))
                      (λ apart. ap number_in (at_d' name slot) ∙ rw apart),
              )
          | inr (r, there) ↦
              let (name_is, slot_is) = laws.row_named d n s r there in
              let new = sv.u256.uint64 (sv.u256.add r.value v) in
              let d' = database.update_minter_value d n s new in
              let at_d' =
                λ (name slot : String). laws.row-update_minter_value d n s new name slot in
              (
                d',
                saved d evt v (record_found r) read (laws.first-row d n s ∙ ap found there)
                    ∙ ap (λ (m : String). ok (database.update_minter_value d m r.slot new)) name_is
                    ∙ ap (λ (t : String). ok (database.update_minter_value d n t new)) slot_is,
                λ name slot.
                    number_after d d' n s name slot v
                      (ap number_in (at_d' n s) ∙ rw (is_of_refl n s, there) (truncated r.value v))
                      (λ apart. ap number_in (at_d' name slot) ∙ rw apart),
              )
        ]

    pub recorded :
        (events : List DomainEvent) (d : D)
        → All (HasValue sv.u256) events
        → (d' : D) × (record_events events d ≡ ok d')
          × ((name slot : String)
              → number_at d name slot < 2 ^ 64
              → number_at d' name slot
                ≡ (number_at d name slot + sum_for sv.u256 name slot events) % 2 ^ 64)
    recorded [] d readable = (d, refl, λ name slot small. omega (arith, small))
    recorded (evt ∷ events) d readable =
        let created = database.create_event d evt in
        let (next, returned, numbers) = updated created evt readable.0.0 readable.0.1 in
        let (last, all_returned, all_numbers) = recorded events next readable.1 in
        (
          last,
          ap (λ o. o >>= record_events events) returned ∙ all_returned,
          λ name slot small.
              let before : number_at created name slot ≡ number_at d name slot =
                ap number_in (laws.row-create_event d evt name slot) in
              one_more
                (is_of (at_key "project_name" evt.metadata) (at_key "slot" evt.metadata) name slot)
                (number_at d name slot) _ (number_at next name slot)
                (sum_for sv.u256 name slot events) (number_at last name slot) small
                (numbers name slot
                  ∙ ap
                      (λ (m : ℕ).
                        if is_of (at_key "project_name" evt.metadata) (at_key "slot" evt.metadata)
                          name slot
                        then (m + readable.0.0) % 2 ^ 64
                        else m)
                      before
                  ∙ ap
                      (λ (o : Option ℕ).
                        if is_of (at_key "project_name" evt.metadata) (at_key "slot" evt.metadata)
                          name slot
                        then (number_at d name slot + or_zero o) % 2 ^ 64
                        else number_at d name slot)
                      (sym readable.0.1))
                (all_numbers name slot),
        )
