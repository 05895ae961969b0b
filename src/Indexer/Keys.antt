-- ===== src/Indexer/Keys.antt =====
-- The keys of the store (internal/indexer/indexer.go and internal/synchronizer/synchronizer.go): those
-- of different kinds are different.
use Prim.Native.String.{◌++◌ as str_append}
use Prim.Native.String.append
use Prim.Native.Char.{Char, code}
use text.Mathlib.TextLemmas.{append_cancel_left}
use carbonable_leaderboard_b.Prelude.{
  ℕ, ◌≡◌, ◌≢◌, refl, ap, ◌∙◌, false, true, String, arith, eq_iff, ◌==◌, Bool-cases, inl, inr,
}
use carbonable_leaderboard_b.Go.Format.{decimal}
use carbonable_leaderboard_b.Starknet.FeltText.{ensure_stark_felt, pad_64, drop_prefix}
use carbonable_leaderboard_b.Indexer.EventIndexer.{index_key, event_key}
use carbonable_leaderboard_b.Indexer.Loop.{block_key}
use carbonable_leaderboard_b.Synchronizer.{latest_block_key}

abbrev head_code : String → ℕ
head_code String.[] = 0
head_code (String.◌∷◌ c s) = code c

head_code-append : (c : Char) (s t : String) → head_code (str_append (String.◌∷◌ c s) t) ≡ code c
head_code-append c s t = ap head_code (append.cons c s t)

-- Texts that start with different characters are different.
apart : (s t : String) (m n : ℕ) → head_code s ≡ m → head_code t ≡ n → m ≢ n → (s == t) ≡ false
apart s t m n hs ht differ = elim (Bool-cases (s == t)) [
  | inl same ↦ absurd (differ (omega (arith, ap head_code ((eq_iff s t).0 same))))
  | inr other ↦ other
]

index_key-head : (address : String) → head_code (index_key address) ≡ b'I'
index_key-head address = head_code-append "I" "DX#" address

event_key-head : (id : String) → head_code (event_key id) ≡ b'E'
event_key-head id = head_code-append "E" "VENT#" id

felt-head : (felt rest : String) → head_code (str_append (ensure_stark_felt felt) rest) ≡ b'0'
unfolding ensure_stark_felt
felt-head felt rest =
    ap (λ s. head_code (str_append s rest)) (append.cons "0" "x" (pad_64 (drop_prefix felt)))
    ∙ head_code-append "0" _ rest

pub block_key-latest : (n : ℕ) → (block_key n == latest_block_key) ≡ false
block_key-latest n =
    apart _ _ b'B' b'L' (head_code-append "B" "LOCK#" (decimal n)) refl (omega arith)

pub event_key-index : (id address : String) → (event_key id == index_key address) ≡ false
event_key-index id address =
    apart _ _ b'E' b'I' (event_key-head id) (index_key-head address) (omega arith)

pub index_key-event : (id address : String) → (index_key address == event_key id) ≡ false
index_key-event id address =
    apart _ _ b'I' b'E' (index_key-head address) (event_key-head id) (omega arith)

-- The keys of a contract start with its address.
pub felt-index :
    (felt rest a : String) → (str_append (ensure_stark_felt felt) rest == index_key a) ≡ false
felt-index felt rest a = apart _ _ b'0' b'I' (felt-head felt rest) (index_key-head a) (omega arith)

pub felt-event :
    (felt rest id : String) → (str_append (ensure_stark_felt felt) rest == event_key id) ≡ false
felt-event felt rest id =
    apart _ _ b'0' b'E' (felt-head felt rest) (event_key-head id) (omega arith)

pub latest-block_key : (n : ℕ) → (latest_block_key == block_key n) ≡ false
latest-block_key n =
    apart _ _ b'L' b'B' refl (head_code-append "B" "LOCK#" (decimal n)) (omega arith)

block_key-head : (n : ℕ) → head_code (block_key n) ≡ b'B'
block_key-head n = head_code-append "B" "LOCK#" (decimal n)

pub index_key-block : (address : String) (n : ℕ) → (index_key address == block_key n) ≡ false
index_key-block address n =
    apart _ _ b'I' b'B' (index_key-head address) (block_key-head n) (omega arith)

pub event_key-block : (id : String) (n : ℕ) → (event_key id == block_key n) ≡ false
event_key-block id n = apart _ _ b'E' b'B' (event_key-head id) (block_key-head n) (omega arith)

pub felt-block :
    (felt rest : String) (n : ℕ) → (str_append (ensure_stark_felt felt) rest == block_key n) ≡ false
felt-block felt rest n = apart _ _ b'0' b'B' (felt-head felt rest) (block_key-head n) (omega arith)

-- Different contracts have different indices.
pub index_key-index : (a b : String) → (a == b) ≡ false → (index_key a == index_key b) ≡ false
index_key-index a b differ = elim (Bool-cases (index_key a == index_key b)) [
  | inl same ↦
      let e : (a == b) ≡ true =
        (eq_iff a b).1 (append_cancel_left "IDX#" a b ((eq_iff _ _).0 same)) in
      absurd (cc (e, differ))
  | inr other ↦ other
]
