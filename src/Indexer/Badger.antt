-- ===== src/Indexer/Badger.antt =====
-- `BadgerStorage` of internal/indexer/storage.go, over a database of Badger.
pub mod Contract
use carbonable_leaderboard_b.Prelude.{
  Bool, true, false, not, ◌≡◌, String, List, [], ◌∷◌, Option, none, some, map, if◌then◌else◌,
}
use carbonable_leaderboard_b.Go.Gob.{Bytes}
use carbonable_leaderboard_b.Go.Bytes.{has_prefix}
use carbonable_leaderboard_b.Go.Outcome.{Outcome, ok, fatal}
use carbonable_leaderboard_b.Indexer.Entries.{Entry, has_key_prefix}
use carbonable_leaderboard_b.Indexer.Pebble.{with_options}
use carbonable_leaderboard_b.Indexer.Storage.{Storage}

-- How `txn.Get` of a view ends: with an item and what `ValueCopy` answers for it, with
-- `ErrKeyNotFound`, or with another error, of the transaction or of the view itself.
pub data Lookup : Type 0 where
  item : Option Bytes → Lookup
  key_not_found : Lookup
  view_failed : Lookup

-- The calls of Badger, over the states `D` of the database.
pub record BadgerDb (D : Type 0) : Type 0 where
  pub view_get : D → Bytes → Lookup
  -- the database after an update that sets a key, and whether its error is nil
  pub update_set : D → Bytes → Bytes → D × Bool
  -- the items from `Seek` on, with what `ValueCopy` gives beside its error; none in a failed view
  pub seek : D → Bytes → List Entry

-- `BadgerStorageOptions`
pub record BadgerStorageOptions : Type 0 where
  pub path : String

abbrev pub default_badger_options : BadgerStorageOptions
default_badger_options = record { path = "sheshat/badger_storage" }

-- `NewBadgerStorage`; what opens a database is a parameter, with `none` for an error
unfoldable pub new_badger_storage :
    {D : Type 0}
    → (String → Option D)
    → List (BadgerStorageOptions → BadgerStorageOptions)
    → Outcome D
new_badger_storage open_db opts = elim (open_db (with_options default_badger_options opts).path) [
  | none ↦ fatal
  | some db ↦ ok db
]

-- The body of `Get`: the copy, or nil after any error
abbrev pub value_copied : Lookup → Bytes
value_copied (item (some val)) = val
value_copied (item none) = []
value_copied key_not_found = []
value_copied view_failed = []

-- `errors.Is(err, badger.ErrKeyNotFound)`
abbrev pub is_key_not_found : Lookup → Bool
is_key_not_found key_not_found = true
is_key_not_found (item copy) = false
is_key_not_found view_failed = false

-- `it.ValidForPrefix(prefix); it.Next()`
abbrev pub while_valid : Bytes → List Entry → List Bytes
while_valid prefix [] = []
while_valid prefix (e ∷ entries) =
    let further = while_valid prefix entries in
    if has_key_prefix prefix e then e.value ∷ further else []

module _ {D : Type 0} (db : BadgerDb D) where
  unfoldable pub get : D → Bytes → Bytes
  get d id = value_copied (db.view_get d id)

  unfoldable pub has : D → Bytes → Bool
  has d id = not (is_key_not_found (db.view_get d id))

  unfoldable pub set : D → Bytes → Bytes → D × Bool
  set d key value = db.update_set d key value

  unfoldable pub scan : D → Bytes → List Bytes
  scan d prefix = while_valid prefix (db.seek d prefix)

  -- The four methods as a store; `bytes` is the conversion `[]byte(s)` of a key.
  abbrev pub badger_storage : (String → Bytes) → Storage D
  badger_storage bytes = record {
    get = λ d id. get d (bytes id);
    has = λ d id. has d (bytes id);
    set = λ d key value. set d (bytes key) value;
    scan = λ d prefix. scan d (bytes prefix);
  }
