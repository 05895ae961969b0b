-- ===== src/Go/Uint256.antt =====
-- The package `github.com/holiman/uint256`. An `*uint256.Int` is represented by the number that it
-- holds, so `NewInt` of a number is that number. The operations are parameters of the model.
use carbonable_leaderboard_b.Prelude.{
  ℕ, ◌+◌, ◌-◌, ◌*◌, ◌/◌, ◌%◌, ◌^◌, ◌<◌, ◌≡◌, compare, Ordering, String, Option, some,
}

-- 2 ^ 256, and the modulus of a `uint64`.
abbrev pub modulus : ℕ
modulus = 2 ^ 256

abbrev pub u64_modulus : ℕ
u64_modulus = 2 ^ 64

pub record Uint256 : Type 0 where
  pub add : ℕ → ℕ → ℕ
  pub sub : ℕ → ℕ → ℕ
  pub mul : ℕ → ℕ → ℕ
  pub div : ℕ → ℕ → ℕ
  pub cmp : ℕ → ℕ → Ordering
  -- `Uint64()`, the low 64 bits
  pub uint64 : ℕ → ℕ
  -- `FromHex`, `none` for an error
  pub from_hex : String → Option ℕ
  -- `String()`
  pub to_string : ℕ → String

-- What the package documents of the operations.
pub record Documented (u : Uint256) : Type 0 where
  pub add_wraps : (a b : ℕ) → u.add a b ≡ (a + b) % modulus
  pub sub_wraps : (a b : ℕ) → b < modulus → u.sub a b ≡ (a + modulus - b) % modulus
  pub mul_wraps : (a b : ℕ) → u.mul a b ≡ (a * b) % modulus
  pub div_floors : (a b : ℕ) → u.div a b ≡ a / b
  pub cmp_compares : (a b : ℕ) → u.cmp a b ≡ compare a b
  pub uint64_truncates : (a : ℕ) → u.uint64 a ≡ a % u64_modulus
  pub from_hex_fits : (s : String) (n : ℕ) → u.from_hex s ≡ some n → n < modulus
