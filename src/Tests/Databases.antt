-- ===== src/Tests/Databases.antt =====
-- The stores over Badger, Pebble and etcd, over databases that keep what is set.
use Prim.Native.Char.{code}
use Prim.Native.String.{compare as compare_texts, then}
use Prim.Native.String.compare
use Prim.Native.Nat.{Ordering, compare as compare_numbers}
use text.Mathlib.Text.{is_eq}
use carbonable_leaderboard_b.Prelude.{
  ℕ, Bool, true, refl, ◌≡◌, ap, sym, ◌∙◌, String, List, [], ◌∷◌, Option, none, some, filter, ◌&&◌,
  eqb, arith, ◌==◌, if◌then◌else◌,
}
use carbonable_leaderboard_b.Go.Gob.{Bytes}
use carbonable_leaderboard_b.Go.Bytes.{same_bytes, in_range}
use carbonable_leaderboard_b.Go.Outcome.{ok}
use carbonable_leaderboard_b.Indexer.Entries.{Entry}
use carbonable_leaderboard_b.Indexer.Pebble
use carbonable_leaderboard_b.Indexer.Badger
use carbonable_leaderboard_b.Indexer.Badger.{BadgerDb, Lookup, item, view_failed, badger_storage}
use carbonable_leaderboard_b.Indexer.Badger.Contract
use carbonable_leaderboard_b.Indexer.Etcd
use carbonable_leaderboard_b.Indexer.Etcd.{EtcdClient, answer}

-- The characters' numbers as bytes.
abbrev pub codes : String → Bytes
codes String.[] = []
codes (String.◌∷◌ c s) = code c ∷ codes s

split_first :
    (m n : ℕ) (front : Bool) (o : Ordering)
    → front ≡ is_eq o
    → eqb m n && front ≡ is_eq ((then) (compare_numbers m n) o)
split_first m n front o h = ground arith

pub codes-KeepsTextsApart : Contract.KeepsTextsApart codes
codes-KeepsTextsApart String.[] String.[] = refl
codes-KeepsTextsApart String.[] (String.◌∷◌ d j) = sym (ap is_eq (compare.nil-cons d j))
codes-KeepsTextsApart (String.◌∷◌ c k) String.[] = sym (ap is_eq (compare.cons-nil c k))
codes-KeepsTextsApart (String.◌∷◌ c k) (String.◌∷◌ d j) =
    let rest = codes-KeepsTextsApart k j in
    split_first (code c) (code d) _ (compare_texts k j) rest
    ∙ sym (ap is_eq (compare.cons-cons c d k j))

abbrev lookup_entry : List Entry → Bytes → Option Bytes
lookup_entry [] k = none
lookup_entry (e ∷ entries) k =
    let further = lookup_entry entries k in if same_bytes e.key k then some e.value else further

abbrev pebble_list : Pebble.PebbleDb (List Entry)
pebble_list = record {
  get = lookup_entry;
  released = λ d value. value;
  set = λ d k v. (record { key = k; value = v } ∷ d, true);
  new_iter = λ d lower upper. filter (λ (e : Entry). in_range lower upper e.key) d;
  close_iter = λ d lower upper. true;
}

abbrev pebble_list-Answers : Pebble.Answers pebble_list
pebble_list-Answers = record {
  entries = λ d. d;
  get-set = λ d k j v. refl;
  set_succeeds = λ d k v. refl;
  new_iter-entries = λ d lower upper. refl;
  close_succeeds = λ d lower upper. refl;
}

abbrev two_blocks : List Entry
two_blocks =
    record { key = 66 ∷ 35 ∷ 57 ∷ []; value = 9 ∷ [] }
    ∷ record { key = 67 ∷ []; value = 1 ∷ [] }
    ∷ []

-- Both keys that start with the prefix are below its upper bound, and the third is not.
scan-with_prefix_example : Pebble.scan pebble_list two_blocks (66 ∷ 35 ∷ []) ≡ ok ((9 ∷ []) ∷ [])
scan-with_prefix_example =
    Pebble.scan-with_prefix pebble_list pebble_list-Answers two_blocks (66 ∷ 35 ∷ []) (omega arith)
      (omega arith)

-- A database of Badger, as the lookups of its keys.
abbrev pub badger_keys : BadgerDb (Bytes → Lookup)
badger_keys = record {
  view_get = λ d k. d k;
  update_set = λ d k v. (λ j. if same_bytes k j then item (some v) else d j, true);
  seek = λ d prefix. [];
}

pub badger_keys-Answers : Contract.Answers badger_keys
badger_keys-Answers = record {
  view_get-update_set = λ d k j v. refl;
  update_succeeds = λ d k v. refl;
}

-- A database of Badger, as its entries.
abbrev badger_entries : BadgerDb (List Entry)
badger_entries = record {
  view_get = λ d k. view_failed;
  update_set = λ d k v. (d, true);
  seek = λ d prefix. filter (Contract.from prefix) d;
}

abbrev badger_entries-SeeksIn : Contract.SeeksIn badger_entries
badger_entries-SeeksIn = record { entries = λ d. d; seek-entries = λ d prefix. refl }

scan-while_valid_example : Badger.scan badger_entries two_blocks (66 ∷ 35 ∷ []) ≡ (9 ∷ []) ∷ []
scan-while_valid_example =
    Contract.scan-while_valid badger_entries badger_entries-SeeksIn two_blocks (66 ∷ 35 ∷ [])
      ((refl, tt), (tt, tt))

abbrev etcd_keys : EtcdClient (String → Option Bytes)
etcd_keys = record {
  get = λ d k. some (answer k (d k));
  get_with_prefix = λ d prefix. none;
  put = λ d k v. (λ j. if k == j then some v else d j, true);
}

abbrev etcd_keys-Answers : Etcd.Answers etcd_keys
etcd_keys-Answers = record {
  contents = λ d. d;
  get-contents = λ d k. refl;
  contents-put = λ d k j v. refl;
  put_succeeds = λ d k v. refl;
}

abbrev etcd_nothing : String → Option Bytes
etcd_nothing k = none
