-- ===== src/Tests/Resent.antt =====
-- A purchase and an airdrop that are handled twice.
use carbonable_leaderboard_b.Prelude.{◌≡◌, refl, List, [], ◌∷◌, arith}
use carbonable_leaderboard_b.Go.Outcome.{ok}
use carbonable_leaderboard_b.Starknet.Block.{Event}
use carbonable_leaderboard_b.Starknet.Rpc.{minter_get_project_address}
use carbonable_leaderboard_b.Leaderboard.Event.{DomainEvent}
use carbonable_leaderboard_b.Subscriber.Base.{MinterBuyValue, record_not_found, Database}
use carbonable_leaderboard_b.Subscriber.BuyValue.Sums.{KeepsRows, found, number_in}
use carbonable_leaderboard_b.Subscriber.Metadata.{get_metadata_from_event}
use carbonable_leaderboard_b.Subscriber.Handlers.{event_of}
use carbonable_leaderboard_b.Subscriber.Handlers.Purchases.{Sale, buy, airdrop, handle_sales}
use carbonable_leaderboard_b.Subscriber.Handlers.Resent.{
  KeepsEvents, insert_unique, insert_all, resent_sales_count_twice,
}
use carbonable_leaderboard_b.Tests.Integers.{u256-Documented}
use carbonable_leaderboard_b.Tests.Sales.{
  row_of, row_of_named, row_of-set_named, set_named, sale, sale_made, stale_row,
}
use carbonable_leaderboard_b.Tests.Subscribers.{services}

-- The rows of the minters, and the events.
abbrev pub Tables : Type 0
Tables = List MinterBuyValue × List DomainEvent

abbrev pub tables : Database Tables
tables = record {
  create_event = λ d evt. (d.0, insert_unique evt d.1);
  first_transfer = λ d token_id slot. record_not_found;
  first_minter_value = λ d name slot. found (row_of d.0 name slot);
  create_minter_value = λ d row. (row ∷ d.0, d.1);
  update_minter_value = λ d n s number. (set_named d.0 n s number, d.1);
}

abbrev tables-KeepsRows : KeepsRows tables
tables-KeepsRows = record {
  row = λ d. row_of d.0;
  first-row = λ d name slot. refl;
  row_named = λ d. row_of_named d.0;
  row-create_event = λ d evt name slot. refl;
  row-create_minter_value = λ d v name slot free. refl;
  row-update_minter_value = λ d. row_of-set_named d.0;
}

abbrev pub tables-KeepsEvents : KeepsEvents tables
tables-KeepsEvents = record {
  events = λ d. d.1;
  events-create_event = λ d evt. refl;
  events-create_minter_value = λ d v. refl;
  events-update_minter_value = λ d n s number. refl;
}

abbrev pub bought : Event
bought = record (sale "0x989680") { event_id = "0xa_0" }

abbrev airdropped : Event
airdropped = record (sale "0x5") { event_id = "0xa_1" }

abbrev sales : List Sale
sales = buy bought ∷ airdrop airdropped ∷ []

abbrev made : List DomainEvent
made =
    record (sale_made "minter:buy" "address" "0x989680") { event_id = "0xa_0" }
    ∷ record (sale_made "minter:airdrop" "to" "0x5") { event_id = "0xa_1" }
    ∷ []

resent_sales_count_twice_example :
    (d' d'' : Tables) × (handle_sales services tables sales (stale_row ∷ [], []) ≡ ok d')
    × (handle_sales services tables sales d' ≡ ok d'')
    × (d'.1 ≡ insert_all made [])
    × (d''.1 ≡ d'.1)
    × (number_in (row_of d''.0 "" "") ≡ 20000087)
unfolding event_of get_metadata_from_event minter_get_project_address
resent_sales_count_twice_example =
    resent_sales_count_twice services tables tables-KeepsEvents u256-Documented tables-KeepsRows
      sales made (stale_row ∷ [], []) "" "" (refl, (refl, tt)) ((10000000, refl), ((5, refl), tt))
      (omega arith)
