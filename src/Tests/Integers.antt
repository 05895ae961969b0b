-- ===== src/Tests/Integers.antt =====
-- 256-bit integers with a reader of hexadecimal digits.
use carbonable_leaderboard_b.Prelude.{
  ℕ, ◌+◌, ◌-◌, ◌*◌, ◌/◌, ◌%◌, ◌<◌, ◌≡◌, refl, ◌&&◌, compare, String, Option, none, some, arith, ltb,
  leb, eqb, if◌then◌else◌,
}
use Prim.Native.Char.{code}
use carbonable_leaderboard_b.Go.Format.{decimal}
use carbonable_leaderboard_b.Go.Uint256.{Uint256, Documented, modulus, u64_modulus}

abbrev fits : ℕ → Option ℕ
fits n = if ltb n modulus then some n else none

-- The digits `0` to `9` and `a` to `f`, behind the number read so far.
abbrev digits_from : ℕ → String → Option ℕ
digits_from n String.[] = fits n
digits_from n (String.◌∷◌ c s) =
    let as_digit = digits_from (n * 16 + (code c - 48)) s in
    let as_letter = digits_from (n * 16 + (code c - 87)) s in
    if leb 48 (code c) && leb (code c) 57
    then as_digit
    else if leb 97 (code c) && leb (code c) 102
    then as_letter
    else none

-- Two characters for the prefix, and the digits.
abbrev read_hex : String → Option ℕ
read_hex (String.◌∷◌ a (String.◌∷◌ b s)) =
    if eqb (code a) 48 && eqb (code b) 120 then digits_from 0 s else none
read_hex s = none

digits_from_fit : (s : String) (n m : ℕ) → digits_from n s ≡ some m → m < modulus
digits_from_fit String.[] n m h = ground arith
digits_from_fit (String.◌∷◌ c s) n m h = ground (
  arith,
  digits_from_fit s (n * 16 + (code c - 48)) m,
  digits_from_fit s (n * 16 + (code c - 87)) m,
)

read_hex_fits : (s : String) (m : ℕ) → read_hex s ≡ some m → m < modulus
read_hex_fits String.[] m h = cc
read_hex_fits (String.◌∷◌ a String.[]) m h = cc
read_hex_fits (String.◌∷◌ a (String.◌∷◌ b s)) m h = ground (arith, digits_from_fit s 0 m)

abbrev pub u256 : Uint256
u256 = record {
  add = λ a b. (a + b) % modulus;
  sub = λ a b. (a + modulus - b) % modulus;
  mul = λ a b. (a * b) % modulus;
  div = λ a b. a / b;
  cmp = compare;
  uint64 = λ a. a % u64_modulus;
  from_hex = read_hex;
  to_string = decimal;
}

pub u256-Documented : Documented u256
u256-Documented = record {
  add_wraps = λ a b. refl;
  sub_wraps = λ a b h. refl;
  mul_wraps = λ a b. refl;
  div_floors = λ a b. refl;
  cmp_compares = λ a b. refl;
  uint64_truncates = λ a. refl;
  from_hex_fits = read_hex_fits;
}

reads_ten : u256.from_hex "0x989680" ≡ some 10000000
reads_ten = refl
