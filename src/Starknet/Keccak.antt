-- ===== src/Starknet/Keccak.antt =====
-- `StarknetKeccak` of internal/starknet/utils.go: the selector of a name, as a felt of 250 bits.
use native.Mathlib.Nat.{mul-le-mul_right}
use carbonable_leaderboard_b.Prelude.{
  ℕ, suc, ◌+◌, ◌*◌, ◌%◌, ◌^◌, ◌≤◌, ◌<◌, ◌≡◌, refl, ap, subst, ◌∙◌, [], ◌∷◌, Option, none, some, All,
  length, arith,
}
use carbonable_leaderboard_b.Go.Gob.{Bytes}
use carbonable_leaderboard_b.Go.Bytes.{IsByte}
use carbonable_leaderboard_b.Go.Outcome.{Outcome, ok, panic}

-- The packages that the hash takes.
pub record Keccak : Type 0 where
  -- `Sum(nil)` after `Write(b)` to a new hash; `none` for an error of `Write`
  pub legacy_keccak256 : Bytes → Option Bytes
  -- `new(felt.Felt).SetBytes(d)`
  pub set_bytes : Bytes → ℕ

-- `d[0] &= 3`, which keeps two bits; no bytes panic
abbrev mask_first : Bytes → Outcome Bytes
mask_first [] = panic
mask_first (x ∷ d) = ok (x % 4 ∷ d)

abbrev felt_of : Keccak → Outcome Bytes → Outcome (Option ℕ)
felt_of k (ok d) = ok (some (k.set_bytes d))
felt_of k _ = panic

abbrev hashed : Keccak → Option Bytes → Outcome (Option ℕ)
hashed k none = ok none
hashed k (some d) = felt_of k (mask_first d)

-- `none` stands for nil beside an error
unfoldable pub starknet_keccak : Keccak → Bytes → Outcome (Option ℕ)
starknet_keccak k b = hashed k (k.legacy_keccak256 b)

-- The prime of the field of felts.
abbrev pub prime : ℕ
prime = 2 ^ 251 + 17 * 2 ^ 192 + 1

-- The number that bytes spell, from the highest.
abbrev pub big_endian : ℕ → Bytes → ℕ
big_endian acc [] = acc
big_endian acc (x ∷ b) = big_endian (acc * 256 + x) b

-- The documented behaviour of the packages: writing to the hash gives no error, a digest has 32
-- bytes, and a felt is set to the number of the bytes modulo the prime.
pub record IsKeccak (k : Keccak) : Type 0 where
  pub digest : Bytes → Bytes
  pub keccak-digest : (b : Bytes) → k.legacy_keccak256 b ≡ some (digest b)
  pub digest_bytes : (b : Bytes) → All IsByte (digest b)
  pub digest_length : (b : Bytes) → length (digest b) ≡ 32
  pub set_bytes-big_endian : (d : Bytes) → k.set_bytes d ≡ big_endian 0 d % prime

pow_suc : (n : ℕ) → 256 ^ suc n ≡ 256 * 256 ^ n
pow_suc n = omega arith

distribute : (a x p : ℕ) → (a * 256 + x) * p ≡ a * (256 * p) + x * p
distribute a x p = omega arith

big_endian-first : (x : ℕ) (b : Bytes) → big_endian 0 (x ∷ b) ≡ big_endian x b
big_endian-first x b = ap (λ (n : ℕ). big_endian n b) (omega arith)

big_endian-split : (b : Bytes) (acc : ℕ) → big_endian acc b ≡ acc * 256 ^ length b + big_endian 0 b
big_endian-split [] acc = omega arith
big_endian-split (x ∷ b) acc =
    let now : big_endian acc (x ∷ b) ≡ big_endian (acc * 256 + x) b = refl in
    let at_zero : big_endian 0 (x ∷ b) ≡ big_endian x b = big_endian-first x b in
    omega (
      arith,
      now,
      at_zero,
      big_endian-split b (acc * 256 + x),
      big_endian-split b x,
      distribute acc x (256 ^ length b),
      ap (λ (p : ℕ). acc * p) (pow_suc (length b)),
    )

big_endian-lt : (b : Bytes) → All IsByte b → big_endian 0 b < 256 ^ length b
big_endian-lt [] hb = omega arith
big_endian-lt (x ∷ b) hb =
    let at_zero : big_endian 0 (x ∷ b) ≡ big_endian x b = big_endian-first x b in
    let under : x * 256 ^ length b ≤ 255 * 256 ^ length b =
      mul-le-mul_right (256 ^ length b) (omega (arith, hb.0)) in
    omega (arith, at_zero, big_endian-split b x, big_endian-lt b hb.1, under, pow_suc (length b))

low_bits :
    (x rest : ℕ) → rest < 256 ^ 31 → (x * 256 ^ 31 + rest) % 2 ^ 250 ≡ x % 4 * 256 ^ 31 + rest
low_bits x rest h = omega arith

big_endian-at_31 :
    (x : ℕ) (d : Bytes) → length d ≡ 31 → big_endian 0 (x ∷ d) ≡ x * 256 ^ 31 + big_endian 0 d
big_endian-at_31 x d h =
    big_endian-first x d ∙ big_endian-split d x ∙ ap (λ (n : ℕ). x * 256 ^ n + big_endian 0 d) h

masked :
    (k : Keccak) (d : Bytes)
    → All IsByte d
    → length d ≡ 32
    → ((b : Bytes) → k.set_bytes b ≡ big_endian 0 b % prime)
    → hashed k (some d) ≡ ok (some (big_endian 0 d % 2 ^ 250))
masked k [] hd hl sets = absurd (omega (arith, hl))
masked k (x ∷ d) hd hl sets =
    let long : length d ≡ 31 = omega (arith, hl) in
    let rest_lt : big_endian 0 d < 256 ^ 31 =
      subst (λ (n : ℕ). big_endian 0 d < 256 ^ n) long (big_endian-lt d hd.1) in
    ap (λ (n : ℕ). ok (some n))
      (sets (x % 4 ∷ d)
        ∙ omega (arith, rest_lt, big_endian-at_31 (x % 4) d long, big_endian-at_31 x d long))

-- Where the packages behave as documented, the selector of a name is the low 250 bits of its digest:
-- the field never reduces it.
pub starknet_keccak-low_bits :
    (k : Keccak) (a : IsKeccak k) (b : Bytes)
    → starknet_keccak k b ≡ ok (some (big_endian 0 (a.digest b) % 2 ^ 250))
unfolding starknet_keccak
starknet_keccak-low_bits k a b =
    ap (hashed k) (a.keccak-digest b)
    ∙ masked k (a.digest b) (a.digest_bytes b) (a.digest_length b) a.set_bytes-big_endian
