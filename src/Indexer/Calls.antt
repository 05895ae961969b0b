-- ===== src/Indexer/Calls.antt =====
-- The calls of a store, one after the other (`Storage` of internal/indexer/storage.go, with the stores of
-- postgres.go and storage.go): what they answer beside a map.
use carbonable_leaderboard_b.Prelude.{
  ◌≡◌, Bool, true, false, String, List, [], ◌∷◌, Option, none, some, ◌==◌, if◌then◌else◌,
}
use carbonable_leaderboard_b.Go.Gob.{Bytes}
use carbonable_leaderboard_b.Indexer.Storage.{Storage}
use carbonable_leaderboard_b.Indexer.PgStorage
use carbonable_leaderboard_b.Indexer.PgStorage.{Table, First, record_found, record_not_found}
use carbonable_leaderboard_b.Indexer.Badger
use carbonable_leaderboard_b.Indexer.Badger.{BadgerDb, Lookup, item, key_not_found}
use carbonable_leaderboard_b.Indexer.Badger.Contract

pub data Call : Type 0 where
  get : String → Call
  has : String → Call
  set : String → Bytes → Call

-- What a call returns: the value, whether the key is there, or whether the error is nil.
pub data Answer : Type 0 where
  value : Bytes → Answer
  there : Bool → Answer
  done : Bool → Answer

abbrev pub run_calls : {S : Type 0} → Storage S → List Call → S → List Answer
run_calls storage [] s = []
run_calls storage (get k ∷ calls) s = value (storage.get s k) ∷ run_calls storage calls s
run_calls storage (has k ∷ calls) s = there (storage.has s k) ∷ run_calls storage calls s
run_calls storage (set k v ∷ calls) s =
    done (storage.set s k v).1 ∷ run_calls storage calls (storage.set s k v).0

abbrev pub Map : Type 0
Map = String → Option Bytes

abbrev or_nil : Option Bytes → Bytes
or_nil none = []
or_nil (some v) = v

abbrev is_there : Option Bytes → Bool
is_there none = false
is_there (some v) = true

abbrev with_key : Map → String → Bytes → Map
with_key m k v j = if k == j then some v else m j

-- What the calls answer of a map.
abbrev pub run_map : List Call → Map → List Answer
run_map [] m = []
run_map (get k ∷ calls) m = value (or_nil (m k)) ∷ run_map calls m
run_map (has k ∷ calls) m = there (is_there (m k)) ∷ run_map calls m
run_map (set k v ∷ calls) m = done true ∷ run_map calls (with_key m k v)

-- A store and a map that hold the same, in the sense of the relation.
record Simulates {S : Type 0} (storage : Storage S) (Holds : S → Map → Type 0) : Type 0 where
  gets : (s : S) (m : Map) (k : String) → Holds s m → storage.get s k ≡ or_nil (m k)
  tells : (s : S) (m : Map) (k : String) → Holds s m → storage.has s k ≡ is_there (m k)
  sets :
      (s : S) (m : Map) (k : String) (v : Bytes)
      → Holds s m
      → Holds (storage.set s k v).0 (with_key m k v)
  succeeds : (s : S) (k : String) (v : Bytes) → (storage.set s k v).1 ≡ true

-- What `First` answers for a key of the map.
abbrev pub row_of : String → Option Bytes → First
row_of k none = record_not_found
row_of k (some v) = record_found (record { id = k; value = v })

-- What a view answers for a key of the map.
abbrev pub lookup_of : Option Bytes → Lookup
lookup_of none = key_not_found
lookup_of (some v) = item (some v)

module _ {D : Type 0} (t : Table D) where
  abbrev pub HoldsRows : D → Map → Type 0
  HoldsRows d m = (k : String) → t.first d k ≡ row_of k (m k)

module _ {D : Type 0} (db : BadgerDb D) (bytes : String → Bytes) where
  abbrev pub HoldsItems : D → Map → Type 0
  HoldsItems d m = (k : String) → db.view_get d (bytes k) ≡ lookup_of (m k)
