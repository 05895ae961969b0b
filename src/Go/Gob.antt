-- ===== src/Go/Gob.antt =====
-- `encoding/gob`: bytes are a list of numbers, and what writes and reads them is a parameter.
use carbonable_leaderboard_b.Prelude.{ℕ, List, Option}

abbrev pub Bytes : Type 0
Bytes = List ℕ

pub record Codec (A : Type 0) : Type 0 where
  -- `NewEncoder(&buf).Encode(a)`
  pub encode : A → Bytes
  -- `NewDecoder(buf).Decode(&a)` into a zero value; `none` for an error
  pub decode : Bytes → Option A
