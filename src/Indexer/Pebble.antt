-- ===== src/Indexer/Pebble.antt =====
-- `PebbleStorage` of internal/indexer/storage.go, over a database of Pebble.
use carbonable_leaderboard_b.Prelude.{
  Bool, true, false, ◌||◌, ◌≡◌, String, List, [], ◌∷◌, Option, none, some, map, filter, All, arith,
  if◌then◌else◌,
}
use carbonable_leaderboard_b.Go.Gob.{Bytes}
use carbonable_leaderboard_b.Go.Bytes.{in_range, same_bytes, same_bytes_refl, IsByte}
use carbonable_leaderboard_b.Go.Outcome.{Outcome, ok, fatal, panic}
use carbonable_leaderboard_b.Indexer.Entries.{
  Entry, has_key_prefix, with_prefix, KeysAreBytes, filter-agree,
}
use carbonable_leaderboard_b.Indexer.PrefixBound.{key_upper_bound}
use carbonable_leaderboard_b.Indexer.PrefixBound.Range.{key_upper_bound-in_range}

-- The calls of Pebble, over the states `D` of the database.
pub record PebbleDb (D : Type 0) : Type 0 where
  -- the value under a key, as the slice reads before its closer is closed; `none` for an error
  pub get : D → Bytes → Option Bytes
  -- what such a slice reads once its closer is closed, or the iterator has gone on: Pebble may use
  -- the memory again
  pub released : D → Bytes → Bytes
  -- the database after `Set`, and whether its error is nil
  pub set : D → Bytes → Bytes → D × Bool
  -- what the iterator between two bounds visits, and whether closing it gives no error
  pub new_iter : D → Bytes → Option Bytes → List Entry
  pub close_iter : D → Bytes → Option Bytes → Bool

-- `PebbleStorageOptions`
pub record PebbleStorageOptions : Type 0 where
  pub path : String

abbrev pub default_pebble_options : PebbleStorageOptions
default_pebble_options = record { path = "sheshat/pebble_storage" }

abbrev pub with_options {ℓ} : {O : Type ℓ} → O → List (O → O) → O
with_options o [] = o
with_options o (opt_fn ∷ opts) = with_options (opt_fn o) opts

-- `NewPebbleStorage`; what opens a database is a parameter, with `none` for an error
unfoldable pub new_pebble_storage :
    {D : Type 0}
    → (String → Option D)
    → List (PebbleStorageOptions → PebbleStorageOptions)
    → Outcome D
new_pebble_storage open_db opts = elim (open_db (with_options default_pebble_options opts).path) [
  | none ↦ panic
  | some handle ↦ ok handle
]

module _ {D : Type 0} (db : PebbleDb D) where
  abbrev after_close : D → Option Bytes → Bytes
  after_close d none = []
  after_close d (some value) = db.released d value

  abbrev has_slice : Option Bytes → Bool
  has_slice none = false
  has_slice (some value) = true

  unfoldable pub get : D → Bytes → Bytes
  get d id = after_close d (db.get d id)

  unfoldable pub has : D → Bytes → Bool
  has d id = has_slice (db.get d id)

  unfoldable pub set : D → Bytes → Bytes → D × Bool
  set d id value = db.set d id value

  -- The results are read when the loop is over.
  unfoldable pub scan : D → Bytes → Outcome (List Bytes)
  scan d prefix =
      let upper = key_upper_bound prefix in
      if db.close_iter d prefix upper
      then ok (map (λ (e : Entry). db.released d e.value) (db.new_iter d prefix upper))
      else fatal

-- The documented behaviour of a database that answers.
pub record Answers {D : Type 0} (db : PebbleDb D) : Type 0 where
  pub entries : D → List Entry
  pub get-set :
      (d : D) (k j v : Bytes)
      → db.get (db.set d k v).0 j ≡ (if same_bytes k j then some v else db.get d j)
  pub set_succeeds : (d : D) (k v : Bytes) → (db.set d k v).1 ≡ true
  pub new_iter-entries :
      (d : D) (lower : Bytes) (upper : Option Bytes)
      → db.new_iter d lower upper ≡ filter (λ (e : Entry). in_range lower upper e.key) (entries d)
  pub close_succeeds :
      (d : D) (lower : Bytes) (upper : Option Bytes) → db.close_iter d lower upper ≡ true

in_range-agree :
    (prefix : Bytes) (entries : List Entry)
    → All IsByte prefix
    → KeysAreBytes entries
    → All
        (λ (e : Entry). in_range prefix (key_upper_bound prefix) e.key ≡ has_key_prefix prefix e)
        entries
in_range-agree prefix [] bp bs = tt
in_range-agree prefix (e ∷ entries) bp bs =
    (key_upper_bound-in_range prefix e.key bp bs.0, in_range-agree prefix entries bp bs.1)

-- On a database that answers and holds keys of bytes below 256, a scan of a prefix of such bytes
-- returns one value for each entry whose key has the prefix, in the database's order, and each is
-- what the entry's slice reads after the iterator is closed.
pub scan-with_prefix :
    {D : Type 0} (db : PebbleDb D) (a : Answers db) (d : D) (prefix : Bytes)
    → All IsByte prefix
    → KeysAreBytes (a.entries d)
    → scan db d prefix
      ≡ ok (map (λ (e : Entry). db.released d e.value) (with_prefix prefix (a.entries d)))
unfolding scan
scan-with_prefix db a d prefix bp bs =
    let visited = a.new_iter-entries d prefix (key_upper_bound prefix) in
    let same = filter-agree _ _ (a.entries d) (in_range-agree prefix (a.entries d) bp bs) in
    rw (a.close_succeeds d prefix (key_upper_bound prefix), visited, same)

-- On a database that answers, a set succeeds, the key is there afterwards beside every key that was
-- there, and a get of it reads the value's slice after its closer is closed.
pub set-released :
    {D : Type 0} (db : PebbleDb D)
    → Answers db
    → (d : D) (k j v : Bytes)
    → ((set db d k v).1 ≡ true)
      × (has db (set db d k v).0 j ≡ (same_bytes k j || has db d j))
      × (get db (set db d k v).0 k ≡ db.released (set db d k v).0 v)
unfolding set has get
set-released db a d k j v = (
  a.set_succeeds d k v,
  ground (arith, a.get-set d k j v),
  ground (arith, a.get-set d k k v, same_bytes_refl k),
)
