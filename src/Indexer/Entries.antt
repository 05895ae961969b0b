-- ===== src/Indexer/Entries.antt =====
-- What a database holds, as a list of keys with their values: the abstract view that the scans of
-- internal/indexer/storage.go are compared with.
use carbonable_leaderboard_b.Prelude.{Bool, false, ◌≡◌, refl, List, [], ◌∷◌, filter, All}
use carbonable_leaderboard_b.Go.Gob.{Bytes}
use carbonable_leaderboard_b.Go.Bytes.{less_bytes, has_prefix, IsByte}

pub record Entry : Type 0 where
  pub key : Bytes
  pub value : Bytes

abbrev pub has_key_prefix : Bytes → Entry → Bool
has_key_prefix prefix e = has_prefix prefix e.key

-- The entries whose key has the prefix, in order.
abbrev pub with_prefix : Bytes → List Entry → List Entry
with_prefix prefix entries = filter (has_key_prefix prefix) entries

abbrev pub KeysAreBytes : List Entry → Type 0
KeysAreBytes entries = All (λ (e : Entry). All IsByte e.key) entries

-- No entry stands before one with a smaller key.
abbrev pub IsAscending : List Entry → Type 0
IsAscending [] = Unit
IsAscending (e ∷ entries) =
    All (λ (further : Entry). less_bytes further.key e.key ≡ false) entries × IsAscending entries

-- Two tests that agree on the entries keep the same ones.
pub filter-agree :
    (test other : Entry → Bool) (entries : List Entry)
    → All (λ (e : Entry). test e ≡ other e) entries
    → filter test entries ≡ filter other entries
filter-agree test other [] agree = refl
filter-agree test other (e ∷ entries) agree =
    let rest = filter-agree test other entries agree.1 in rw (rest, agree.0)
