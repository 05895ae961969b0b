-- ===== src/Indexer/PgStorage.antt =====
-- internal/indexer/postgres.go: the store over a table of Postgres, which gorm reads and writes.
use carbonable_leaderboard_b.Prelude.{
  Bool, true, false, String, List, [], ◌≡◌, ◌==◌, arith, if◌then◌else◌,
}
use carbonable_leaderboard_b.Go.Gob.{Bytes}
use carbonable_leaderboard_b.Indexer.Storage.{Storage, IsReliable}

pub record KvStore : Type 0 where
  pub id : String
  pub value : Bytes

-- What `db.First` answers: a record, `ErrRecordNotFound`, or another error.
pub data First : Type 0 where
  record_found : KvStore → First
  record_not_found : First
  query_failed : First

-- The calls of gorm on the table, over the states `D` of the database.
pub record Table (D : Type 0) : Type 0 where
  pub first : D → String → First
  -- the database after `Save`, and whether its error is nil
  pub save : D → KvStore → D × Bool
  -- the values whose id is LIKE the prefix
  pub find_like : D → String → List Bytes

-- The documented behaviour of `First` by a primary key and of `Save`, which inserts or updates, on a
-- database that answers.
pub record Answers {D : Type 0} (t : Table D) : Type 0 where
  pub first-save :
      (d : D) (row : KvStore) (k : String)
      → t.first (t.save d row).0 k ≡ (if row.id == k then record_found row else t.first d k)
  pub save_succeeds : (d : D) (row : KvStore) → (t.save d row).1 ≡ true

-- `val.Value` after `First`: the record that was found, or the zero value
abbrev pub value_of : First → Bytes
value_of (record_found row) = row.value
value_of record_not_found = []
value_of query_failed = []

abbrev pub is_found : First → Bool
is_found (record_found row) = true
is_found record_not_found = false
is_found query_failed = false

module _ {D : Type 0} (t : Table D) where
  unfoldable pub get : D → String → Bytes
  get d id = value_of (t.first d id)

  unfoldable pub has : D → String → Bool
  has d id = is_found (t.first d id)

  unfoldable pub set : D → String → Bytes → D × Bool
  set d key value = t.save d (record { id = key; value = value })

  unfoldable pub scan : D → String → List Bytes
  scan d prefix = t.find_like d prefix

  unfoldable pub new_pg_storage : Storage D
  unfolding get has set scan
  new_pg_storage = record { get = get; has = has; set = set; scan = scan }

-- On a database that answers, the store over Postgres keeps the contract of a store.
pub new_pg_storage-IsReliable :
    {D : Type 0} (t : Table D) → Answers t → IsReliable (new_pg_storage t)
unfolding new_pg_storage get has set scan
new_pg_storage-IsReliable t a = record {
  get-set = λ s k j v. ground (arith, a.first-save s (record { id = k; value = v }) j);
  has-set = λ s k j v. ground (arith, a.first-save s (record { id = k; value = v }) j);
  set_succeeds = λ s k v. a.save_succeeds s _;
}
