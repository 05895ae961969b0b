-- ===== src/Indexer/PrefixBound.antt =====
-- The closure `keyUpperBound` in `PebbleStorage.Scan` (internal/indexer/storage.go): the end of the
-- range of keys that a scan of a prefix reads.
pub mod Range
use mathlib.Core.List.{reverse}
use carbonable_leaderboard_b.Prelude.{◌+◌, ◌%◌, [], ◌∷◌, Option, none, some, eqb, if◌then◌else◌}
use carbonable_leaderboard_b.Go.Gob.{Bytes}

-- The loop from the last byte to the first, over the bytes in reverse: `end[:i+1]` is what is left,
-- with its last byte raised.
unfoldable pub raise_last : Bytes → Option Bytes
raise_last [] = none
raise_last (x ∷ front) =
    if eqb ((x + 1) % 256) 0 then raise_last front else some (reverse (((x + 1) % 256) ∷ front))

-- `none` stands for nil, "no upper-bound"
unfoldable pub key_upper_bound : Bytes → Option Bytes
unfolding raise_last
key_upper_bound b = raise_last (reverse b)
