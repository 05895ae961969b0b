-- ===== src/Commands/Migration.antt =====
-- `main` and `clearMinterBuyValue` of cmd/migration/main.go.
pub mod Replay
use carbonable_leaderboard_b.Prelude.{ℕ, Bool, String, List, [], ◌∷◌, if◌then◌else◌}
use carbonable_leaderboard_b.Subscriber.Base.{MinterBuyValue}

-- The statements of the migration, over the states `D` of the database; their errors are dropped.
pub record Migrator (D : Type 0) : Type 0 where
  -- `DropTable` of the events, the lines and the values of the minters
  pub drop_tables : D → D
  pub auto_migrate : D → D
  -- `Find` of the values of the minters
  pub find_values : D → List MinterBuyValue
  -- sets the value of the row of an id
  pub update_value : D → String → ℕ → D

module _ {D : Type 0} (m : Migrator D) where
  -- the loop of `clearMinterBuyValue`
  unfoldable pub clear_values : List MinterBuyValue → D → D
  clear_values [] d = d
  clear_values (v ∷ values) d = clear_values values (m.update_value d v.id 0)

  unfoldable pub clear_minter_buy_value : D → D
  unfolding clear_values
  clear_minter_buy_value d = clear_values (m.find_values d) d

  -- `main` behind the connection
  unfoldable pub migrate : Bool → D → D
  unfolding clear_minter_buy_value
  migrate fresh d = clear_minter_buy_value (m.auto_migrate (if fresh then m.drop_tables d else d))
