-- ===== src/Indexer/Badger/Contract.antt =====
-- The store over Badger against the contract of a store, and its scan against what the database holds.
use carbonable_leaderboard_b.Prelude.{
  Bool, true, false, not, ◌==◌, ◌≡◌, refl, ap, ◌∙◌, String, List, [], ◌∷◌, some, map, filter, All,
  arith, Bool-cases, inl, inr, if◌then◌else◌,
}
use carbonable_leaderboard_b.Go.Gob.{Bytes}
use carbonable_leaderboard_b.Go.Bytes.{less_bytes, has_prefix, same_bytes}
use carbonable_leaderboard_b.Indexer.Storage.{IsReliable}
use carbonable_leaderboard_b.Indexer.Entries.{Entry, has_key_prefix, with_prefix, IsAscending}
use carbonable_leaderboard_b.Indexer.Badger.{
  BadgerDb, item, view_failed, while_valid, get, has, set, scan, badger_storage,
}

-- The documented behaviour of a database that answers: what is set last under a key is found.
pub record Answers {D : Type 0} (db : BadgerDb D) : Type 0 where
  pub view_get-update_set :
      (d : D) (k j v : Bytes)
      → db.view_get (db.update_set d k v).0 j
        ≡ (if same_bytes k j then item (some v) else db.view_get d j)
  pub update_succeeds : (d : D) (k v : Bytes) → (db.update_set d k v).1 ≡ true

-- Different texts have different bytes.
abbrev pub KeepsTextsApart : (String → Bytes) → Type 0
KeepsTextsApart bytes = (k j : String) → same_bytes (bytes k) (bytes j) ≡ (k == j)

-- Where the database answers and different keys have different bytes, the store over Badger keeps the
-- contract of a store.
pub badger_storage-IsReliable :
    {D : Type 0} (db : BadgerDb D) (bytes : String → Bytes)
    → Answers db
    → KeepsTextsApart bytes
    → IsReliable (badger_storage db bytes)
unfolding get has set
badger_storage-IsReliable db bytes a apart = record {
  get-set = λ s k j v. ground (arith, a.view_get-update_set s (bytes k) (bytes j) v, apart k j);
  has-set = λ s k j v. ground (arith, a.view_get-update_set s (bytes k) (bytes j) v, apart k j);
  set_succeeds = λ s k v. a.update_succeeds s _ v;
}

-- In ascending keys from the prefix on, no key has the prefix after one that has not.
less_bytes-has_prefix :
    (prefix k j : Bytes)
    → less_bytes k prefix ≡ false
    → less_bytes j k ≡ false
    → has_prefix prefix k ≡ false
    → has_prefix prefix j ≡ false
less_bytes-has_prefix [] k j from after apart = apart
less_bytes-has_prefix (x ∷ prefix) [] j from after apart = absurd (cc from)
less_bytes-has_prefix (x ∷ prefix) (y ∷ k) [] from after apart = refl
less_bytes-has_prefix (x ∷ prefix) (y ∷ k) (z ∷ j) from after apart =
    ground (arith, less_bytes-has_prefix prefix k j)

has_prefix-below : (prefix k : Bytes) → less_bytes k prefix ≡ true → has_prefix prefix k ≡ false
has_prefix-below [] [] h = absurd (cc h)
has_prefix-below [] (y ∷ k) h = absurd (cc h)
has_prefix-below (x ∷ prefix) [] h = refl
has_prefix-below (x ∷ prefix) (y ∷ k) h = ground (arith, has_prefix-below prefix k)

abbrev pub from : Bytes → Entry → Bool
from prefix e = not (less_bytes e.key prefix)

-- Behind an entry from the prefix on that has not the prefix, no entry has it.
with_prefix-nil :
    (prefix : Bytes) (e : Entry) (entries : List Entry)
    → All (λ (further : Entry). less_bytes further.key e.key ≡ false) entries
    → less_bytes e.key prefix ≡ false
    → has_key_prefix prefix e ≡ false
    → with_prefix prefix entries ≡ []
with_prefix-nil prefix e [] after start apart = refl
with_prefix-nil prefix e (further ∷ entries) after start apart =
    let here = less_bytes-has_prefix prefix e.key further.key start after.0 apart in
    rw (here, with_prefix-nil prefix e entries after.1 start apart)

while_valid-from :
    (prefix : Bytes) (entries : List Entry)
    → IsAscending entries
    → while_valid prefix (filter (from prefix) entries)
      ≡ map (λ (e : Entry). e.value) (with_prefix prefix entries)
while_valid-from prefix [] up = refl
while_valid-from prefix (e ∷ entries) up =
    let rest = while_valid-from prefix entries up.1 in
    elim (Bool-cases (less_bytes e.key prefix)) [
      | inl before ↦ rw (before, has_prefix-below prefix e.key before, rest)
      | inr start ↦ elim (Bool-cases (has_key_prefix prefix e)) [
        | inl has_it ↦ rw (start, has_it, rest)
        | inr apart ↦ rw (start, apart, with_prefix-nil prefix e entries up.0 start apart)
      ]
    ]

-- The documented behaviour of an iterator: it seeks the first key that is not below the prefix, and
-- goes on from there through what the database holds.
pub record SeeksIn {D : Type 0} (db : BadgerDb D) : Type 0 where
  pub entries : D → List Entry
  pub seek-entries : (d : D) (prefix : Bytes) → db.seek d prefix ≡ filter (from prefix) (entries d)

-- Where the iterator seeks among entries in ascending order of their keys, a scan returns the values of the entries whose key has
-- the prefix, all of them and in order: the loop stops at the first key without it.
pub scan-while_valid :
    {D : Type 0} (db : BadgerDb D) (o : SeeksIn db) (d : D) (prefix : Bytes)
    → IsAscending (o.entries d)
    → scan db d prefix ≡ map (λ (e : Entry). e.value) (with_prefix prefix (o.entries d))
unfolding scan
scan-while_valid db o d prefix up =
    ap (while_valid prefix) (o.seek-entries d prefix) ∙ while_valid-from prefix (o.entries d) up

-- After an error that is not of a key that is missing, a key is said to be there while its value reads
-- as nil.
pub has-view_failed :
    {D : Type 0} (db : BadgerDb D) (d : D) (k : Bytes)
    → db.view_get d k ≡ view_failed
    → (has db d k ≡ true) × (get db d k ≡ [])
unfolding has get
has-view_failed db d k e = (rw e, rw e)
