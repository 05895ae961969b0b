-- ===== src/Indexer/ContractIndex.antt =====
-- `ContractIndex` of internal/indexer/indexer.go.
use carbonable_leaderboard_b.Prelude.{
  ℕ, Bool, not, ◌≡◌, List, [], ◌∷◌, ◌++◌, Option, some, eqb, ltb, any, if◌then◌else◌,
}
use carbonable_leaderboard_b.Go.Gob.{Bytes}

pub record ContractIndex : Type 0 where
  pub blocks : List ℕ
  pub latest_block : ℕ

abbrev pub new_contract_index : ℕ → ContractIndex
new_contract_index start_block = record { blocks = []; latest_block = start_block }

unfoldable pub set_latest_block : ContractIndex → ℕ → ContractIndex
set_latest_block c block = record c { latest_block = block }

-- `slices.Contains`
abbrev pub contains : List ℕ → ℕ → Bool
contains blocks block = any (λ b. eqb b block) blocks

unfoldable pub add_block : ContractIndex → ℕ → ContractIndex
add_block c block =
    if not (contains c.blocks block) then record c { blocks = c.blocks ++ block ∷ [] } else c

-- `slices.Max` of a list that is not empty, from its first element
abbrev pub max_from : ℕ → List ℕ → ℕ
max_from m [] = m
max_from m (b ∷ blocks) = max_from (if ltb m b then b else m) blocks

-- What gob writes of an index and reads into one. A field with a zero value is not written, so
-- reading leaves that field of the target as it is.
pub record IndexCodec : Type 0 where
  pub encode : ContractIndex → Bytes
  pub decode_into : ContractIndex → Bytes → Option ContractIndex

abbrev pub or_blocks : List ℕ → List ℕ → List ℕ
or_blocks target [] = target
or_blocks target (b ∷ bs) = b ∷ bs

abbrev pub overlay : ContractIndex → ContractIndex → ContractIndex
overlay target c = record {
  blocks = or_blocks target.blocks c.blocks;
  latest_block = if eqb c.latest_block 0 then target.latest_block else c.latest_block;
}

pub record RoundTripsInto (codec : IndexCodec) : Type 0 where
  pub decode-encode :
      (target c : ContractIndex)
      → codec.decode_into target (codec.encode c) ≡ some (overlay target c)
