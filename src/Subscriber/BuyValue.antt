-- ===== src/Subscriber/BuyValue.antt =====
-- `updateMinterBoughtValue` (internal/subscriber/minter.go).
pub mod Sums
use carbonable_leaderboard_b.Prelude.{none, some, at_key}
use carbonable_leaderboard_b.Go.Outcome.{Outcome, ok, panic}
use carbonable_leaderboard_b.Leaderboard.Event.{DomainEvent}
use carbonable_leaderboard_b.Subscriber.Base.{
  Services, MinterBuyValue, First, record_found, record_not_found, query_failed, Database,
}

module _ {D : Type 0} (sv : Services) (database : Database D) where
  -- `minterBuyValue` behind the first `if`: a new one where there is no row, the zero value after
  -- another error
  unfoldable pub current_value : DomainEvent → First MinterBuyValue → MinterBuyValue
  current_value evt (record_found row) = row
  current_value evt record_not_found = record {
    name = at_key "project_name" evt.metadata;
    slot = at_key "slot" evt.metadata;
    id = sv.ulid;
    value = 0;
  }
  current_value evt query_failed = record { name = ""; slot = ""; id = ""; value = 0 }

  -- The last lines: a new row, or the new value in the rows of the name and the slot.
  unfoldable pub save_value : First MinterBuyValue → MinterBuyValue → D → D
  save_value record_not_found row d =
      database.create_minter_value d (record row { value = sv.u256.uint64 row.value })
  save_value _ row d = database.update_minter_value d row.name row.slot (sv.u256.uint64 row.value)

  -- A value that is no hexadecimal number is nil, and its addition panics.
  unfoldable pub update_minter_bought_value : DomainEvent → D → Outcome D
  unfolding current_value save_value
  update_minter_bought_value evt d =
      let found =
        database.first_minter_value d (at_key "project_name" evt.metadata)
          (at_key "slot" evt.metadata) in
      let current = current_value evt found in
      elim (sv.u256.from_hex (at_key "value" evt.event_data)) [
        | none ↦ panic
        | some value ↦
            ok (save_value found (record current { value = sv.u256.add current.value value }) d)
      ]
