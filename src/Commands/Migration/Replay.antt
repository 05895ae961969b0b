-- ===== src/Commands/Migration/Replay.antt =====
-- A replay of the messages behind a migration: the values start again at zero.
use carbonable_leaderboard_b.Prelude.{
  ℕ, ◌+◌, ◌%◌, ◌^◌, ◌≡◌, ap, ◌∙◌, Bool, true, String, List, [], ◌∷◌, Option, none, some, All, any,
  arith, ◌==◌, if◌then◌else◌, Option-cases, Bool-cases, inl, inr,
}
use carbonable_leaderboard_b.Go.Outcome.{ok}
use carbonable_leaderboard_b.Go.Uint256.{Documented}
use carbonable_leaderboard_b.Leaderboard.Event.{DomainEvent}
use carbonable_leaderboard_b.Subscriber.Base.{Services, MinterBuyValue, Database}
use carbonable_leaderboard_b.Subscriber.BuyValue.Sums.{KeepsRows, HasValue, sum_for, number_in}
use carbonable_leaderboard_b.Subscriber.Handlers.Purchases.{
  Sale, handle_sales, MakeEvents, minter_value_adds_up,
}
use carbonable_leaderboard_b.Commands.Migration.{
  Migrator, clear_values, clear_minter_buy_value, migrate,
}

abbrev pub set_if_id : String → ℕ → Option MinterBuyValue → Option MinterBuyValue
set_if_id id number none = none
set_if_id id number (some v) = if id == v.id then some (record v { value = number }) else some v

abbrev pub any_of_id : String → List MinterBuyValue → Bool
any_of_id id values = any (λ (w : MinterBuyValue). w.id == id) values

-- The documented behaviour of the statements on a database that answers: `Find` lists every row, and
-- the update sets the value of the row of an id.
pub record FindsRows {D : Type 0} (m : Migrator D)
    (row : D → String → String → Option MinterBuyValue) : Type 0 where
  pub find_values-row :
      (d : D) (name slot : String) (v : MinterBuyValue)
      → row d name slot ≡ some v
      → any_of_id v.id (m.find_values d) ≡ true
  pub row-update_value :
      (d : D) (id : String) (number : ℕ) (name slot : String)
      → row (m.update_value d id number) name slot ≡ set_if_id id number (row d name slot)

zero_kept :
    (id : String) (o : Option MinterBuyValue) → number_in o ≡ 0 → number_in (set_if_id id 0 o) ≡ 0
zero_kept id none zero = zero
zero_kept id (some v) zero = ground arith

module _ {D : Type 0} (m : Migrator D) (row : D → String → String → Option MinterBuyValue)
    (finds : FindsRows m row) where
  zero_stays :
      (values : List MinterBuyValue) (d : D) (name slot : String)
      → number_in (row d name slot) ≡ 0
      → number_in (row (clear_values m values d) name slot) ≡ 0
  unfolding clear_values
  zero_stays [] d name slot zero = zero
  zero_stays (w ∷ values) d name slot zero = zero_stays values (m.update_value d w.id 0) name slot (
      ap number_in (finds.row-update_value d w.id 0 name slot)
      ∙ zero_kept w.id (row d name slot) zero)

  cleared :
      (values : List MinterBuyValue) (d : D) (name slot : String) (v : MinterBuyValue)
      → row d name slot ≡ some v
      → any_of_id v.id values ≡ true
      → number_in (row (clear_values m values d) name slot) ≡ 0
  unfolding clear_values
  cleared [] d name slot v there listed = cc
  cleared (w ∷ values) d name slot v there listed =
      let after = finds.row-update_value d w.id 0 name slot ∙ ap (set_if_id w.id 0) there in
      elim (Bool-cases (w.id == v.id)) [
        | inl same ↦
            zero_stays values (m.update_value d w.id 0) name slot (ap number_in after ∙ rw same)
        | inr apart ↦
            cleared values (m.update_value d w.id 0) name slot v (after ∙ rw apart) (ground arith)
      ]

  clear_minter_buy_value-zero :
      (d : D) (name slot : String) → number_in (row (clear_minter_buy_value m d) name slot) ≡ 0
  unfolding clear_minter_buy_value
  clear_minter_buy_value-zero d name slot = elim (Option-cases (row d name slot)) [
    | inl gone ↦ zero_stays (m.find_values d) d name slot (ap number_in gone)
    | inr (v, there) ↦
        cleared (m.find_values d) d name slot v there (finds.find_values-row d name slot v there)
  ]

-- On a database that answers, a run of purchases and airdrops whose messages make events with values
-- that are numbers, handled behind a migration, fresh or not, leaves for each name and slot the sum of
-- the values of the events of that name and slot, modulo 2^64, whatever was there before.
pub replay_adds_up :
    {D : Type 0} (sv : Services) (database : Database D) (m : Migrator D)
    → Documented sv.u256
    → (laws : KeepsRows database) → FindsRows m laws.row
    → (fresh : Bool) (sales : List Sale) (events : List DomainEvent) (d : D) (name slot : String)
    → MakeEvents sv database sales events
    → All (HasValue sv.u256) events
    → (d' : D) × (handle_sales sv database sales (migrate m fresh d) ≡ ok d')
      × (number_in (laws.row d' name slot) ≡ sum_for sv.u256 name slot events % 2 ^ 64)
unfolding migrate
replay_adds_up sv database m u laws finds fresh sales events d name slot made readable =
    let zero =
      clear_minter_buy_value-zero m laws.row finds
        (m.auto_migrate (if fresh then m.drop_tables d else d)) name slot in
    let (d', returned, value) =
      minter_value_adds_up sv database u laws sales events (migrate m fresh d) name slot made
        readable (omega (arith, zero)) in
    (
      d',
      returned,
      value ∙ ap (λ (n : ℕ). (n + sum_for sv.u256 name slot events) % 2 ^ 64) zero ∙ omega arith,
    )
