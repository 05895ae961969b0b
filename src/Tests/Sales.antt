-- ===== src/Tests/Sales.antt =====
-- Purchases and airdrops over concrete rows of minters.
use text.Mathlib.TextPositions.{eq_refl}
use carbonable_leaderboard_b.Prelude.{
  ◌==◌, ap, sym, ◌∙◌, List, Bool, false, true, ℕ, ◌≡◌, refl, String, [], ◌∷◌, Option, none, some,
  arith, if◌then◌else◌, Bool-cases, inl, inr,
}
use carbonable_leaderboard_b.Go.Outcome.{ok}
use carbonable_leaderboard_b.Starknet.Block.{Event}
use carbonable_leaderboard_b.Leaderboard.Event.{DomainEvent}
use carbonable_leaderboard_b.Subscriber.Base.{MinterBuyValue, record_not_found, Database}
use carbonable_leaderboard_b.Subscriber.BuyValue.Sums.{
  KeepsRows, found, is_of, is_of-true, is_of_refl, with_value, number_in,
}
use carbonable_leaderboard_b.Starknet.Rpc.{minter_get_project_address}
use carbonable_leaderboard_b.Subscriber.Metadata.{get_metadata_from_event}
use carbonable_leaderboard_b.Subscriber.Handlers.{event_of}
use carbonable_leaderboard_b.Subscriber.Handlers.Purchases.{
  buy, airdrop, handle_sales, minter_value_adds_up,
}
use carbonable_leaderboard_b.Commands.Migration.{Migrator, migrate}
use carbonable_leaderboard_b.Commands.Migration.Replay.{
  FindsRows, set_if_id, any_of_id, replay_adds_up,
}
use carbonable_leaderboard_b.Tests.Chain.{emitted}
use carbonable_leaderboard_b.Tests.Integers.{u256-Documented}
use carbonable_leaderboard_b.Tests.Subscribers.{services}

-- The row of a name and a slot, the first one.
abbrev pub row_of : List MinterBuyValue → String → String → Option MinterBuyValue
row_of [] name slot = none
row_of (v ∷ d) name slot =
    let further = row_of d name slot in if is_of v.name v.slot name slot then some v else further

abbrev pub set_named : List MinterBuyValue → String → String → ℕ → List MinterBuyValue
set_named [] n s number = []
set_named (v ∷ d) n s number =
    (if is_of v.name v.slot n s then record v { value = number } else v) ∷ set_named d n s number

abbrev set_id : List MinterBuyValue → String → ℕ → List MinterBuyValue
set_id [] id number = []
set_id (v ∷ d) id number =
    (if id == v.id then record v { value = number } else v) ∷ set_id d id number

abbrev sold : Database (List MinterBuyValue)
sold = record {
  create_event = λ d evt. d;
  first_transfer = λ d token_id slot. record_not_found;
  first_minter_value = λ d name slot. found (row_of d name slot);
  create_minter_value = λ d row. row ∷ d;
  update_minter_value = set_named;
}

abbrev migrator : Migrator (List MinterBuyValue)
migrator = record {
  drop_tables = λ d. [];
  auto_migrate = λ d. d;
  find_values = λ d. d;
  update_value = set_id;
}

pub row_of_named :
    (d : List MinterBuyValue) (name slot : String) (v : MinterBuyValue)
    → row_of d name slot ≡ some v
    → (v.name ≡ name) × (v.slot ≡ slot)
row_of_named [] name slot v e = cc
row_of_named (w ∷ d) name slot v e = elim (Bool-cases (is_of w.name w.slot name slot)) [
  | inl same ↦
      let (of_name, of_slot) = is_of-true w.name w.slot name slot same in
      let here : w ≡ v = ground arith in
      (
        sym (ap (λ (u : MinterBuyValue). u.name) here) ∙ of_name,
        sym (ap (λ (u : MinterBuyValue). u.slot) here) ∙ of_slot,
      )
  | inr apart ↦ row_of_named d name slot v (ground arith)
]

set_either :
    (v : MinterBuyValue) (o : Option MinterBuyValue) (number : ℕ) (test : Bool)
    → (if test then some (record v { value = number }) else if test then with_value number o else o)
      ≡ (if test
          then with_value number (if test then some v else o)
          else if test
          then some v
          else o)
set_either v o number true = refl
set_either v o number false = refl

-- A row of another name or slot than the ones asked for is not the one of those.
not_of :
    (v : MinterBuyValue) (n s name slot : String)
    → is_of v.name v.slot n s ≡ false
    → is_of v.name v.slot name slot ≡ true
    → is_of n s name slot ≡ false
not_of v n s name slot apart here = elim (Bool-cases (is_of n s name slot)) [
  | inr f ↦ f
  | inl same ↦
      let (p, q) = is_of-true n s name slot same in
      let (of_name, of_slot) = is_of-true v.name v.slot name slot here in
      let alike : is_of v.name v.slot n s ≡ is_of n s n s =
        ap (λ (m : String). is_of m v.slot n s) (of_name ∙ sym p)
        ∙ ap (λ (t : String). is_of n t n s) (of_slot ∙ sym q) in
      absurd (cc (sym apart ∙ alike ∙ is_of_refl n s))
]

pub row_of-set_named :
    (d : List MinterBuyValue) (n s : String) (number : ℕ) (name slot : String)
    → row_of (set_named d n s number) name slot
      ≡ (if is_of n s name slot then with_value number (row_of d name slot) else row_of d name slot)
row_of-set_named [] n s number name slot = ground arith
row_of-set_named (v ∷ d) n s number name slot =
    let rest = row_of-set_named d n s number name slot in
    elim (Bool-cases (is_of v.name v.slot n s)) [
      | inl same ↦
          let (of_name, of_slot) = is_of-true v.name v.slot n s same in
          let alike : is_of v.name v.slot name slot ≡ is_of n s name slot =
            ap (λ (m : String). is_of m v.slot name slot) of_name
            ∙ ap (λ (t : String). is_of n t name slot) of_slot in
          rw (same, alike, rest) (set_either v (row_of d name slot) number (is_of n s name slot))
      | inr apart ↦ elim (Bool-cases (is_of v.name v.slot name slot)) [
        | inl here ↦
            let (of_name, of_slot) = is_of-true v.name v.slot name slot here in
            let other : is_of n s name slot ≡ false = not_of v n s name slot apart here in
            rw (apart, here, other)
        | inr elsewhere ↦ rw (apart, elsewhere, rest)
      ]
    ]

row_of-set_id :
    (d : List MinterBuyValue) (id : String) (number : ℕ) (name slot : String)
    → row_of (set_id d id number) name slot ≡ set_if_id id number (row_of d name slot)
row_of-set_id [] id number name slot = refl
row_of-set_id (v ∷ d) id number name slot = ground (arith, row_of-set_id d id number name slot)

row_of-listed :
    (d : List MinterBuyValue) (name slot : String) (v : MinterBuyValue)
    → row_of d name slot ≡ some v
    → any_of_id v.id d ≡ true
row_of-listed [] name slot v e = cc
row_of-listed (w ∷ d) name slot v e = ground (arith, row_of-listed d name slot v, eq_refl v.id)

abbrev sold-KeepsRows : KeepsRows sold
sold-KeepsRows = record {
  row = row_of;
  first-row = λ d name slot. refl;
  row_named = row_of_named;
  row-create_event = λ d evt name slot. refl;
  row-create_minter_value = λ d v name slot free. refl;
  row-update_minter_value = row_of-set_named;
}

migrator-FindsRows : FindsRows migrator row_of
migrator-FindsRows = record { find_values-row = row_of-listed; row-update_value = row_of-set_id }

abbrev pub sale : String → Event
sale value = record (emitted "0x1f") { event_data = "0x4" ∷ value ∷ "0x0" ∷ "0x6" ∷ [] }

-- No contract answers, so that the events have no metadata.
abbrev pub sale_made : String → String → String → DomainEvent
sale_made event_name wallet_key value = record {
  recorded_at = 0;
  event_data = (wallet_key, "0x4") ∷ ("value", value) ∷ ("time", "0x6") ∷ [];
  metadata = [];
  event_id = "";
  event_name_felt = "0x9";
  event_name = event_name;
  from_address = "0x1f";
  wallet_address = "0x4";
  keys = [];
  id = "01H";
}

abbrev pub stale_row : MinterBuyValue
stale_row = record { name = ""; slot = ""; id = "01G"; value = 77 }

minter_value_adds_up_example :
    (d' : List MinterBuyValue) × (handle_sales services sold
        (buy (sale "0x989680") ∷ airdrop (sale "0x5") ∷ [])
        (stale_row ∷ [])
      ≡ ok d')
    × (number_in (row_of d' "" "") ≡ 10000082)
unfolding event_of get_metadata_from_event minter_get_project_address
minter_value_adds_up_example =
    minter_value_adds_up services sold u256-Documented sold-KeepsRows
      (buy (sale "0x989680") ∷ airdrop (sale "0x5") ∷ [])
      (sale_made "minter:buy" "address" "0x989680" ∷ sale_made "minter:airdrop" "to" "0x5" ∷ [])
      (stale_row ∷ []) "" "" (refl, (refl, tt)) ((10000000, refl), ((5, refl), tt)) (omega arith)

replay_adds_up_example :
    (d' : List MinterBuyValue) × (handle_sales services sold
        (buy (sale "0x989680") ∷ airdrop (sale "0x5") ∷ [])
        (migrate migrator false (stale_row ∷ []))
      ≡ ok d')
    × (number_in (row_of d' "" "") ≡ 10000005)
unfolding event_of get_metadata_from_event minter_get_project_address
replay_adds_up_example =
    replay_adds_up services sold migrator u256-Documented sold-KeepsRows migrator-FindsRows false
      (buy (sale "0x989680") ∷ airdrop (sale "0x5") ∷ [])
      (sale_made "minter:buy" "address" "0x989680" ∷ sale_made "minter:airdrop" "to" "0x5" ∷ [])
      (stale_row ∷ []) "" "" (refl, (refl, tt)) ((10000000, refl), ((5, refl), tt))
