-- ===== src/Go/Bytes.antt =====
-- The order of the package `bytes`, in which the stores keep their keys.
use carbonable_leaderboard_b.Prelude.{
  ℕ, ◌<◌, Bool, true, false, not, ◌&&◌, ◌≡◌, refl, arith, [], ◌∷◌, Option, none, some, ltb, eqb,
  if◌then◌else◌,
}
use carbonable_leaderboard_b.Go.Gob.{Bytes}

-- `bytes.Compare(a, b) < 0`
abbrev pub less_bytes : Bytes → Bytes → Bool
less_bytes [] [] = false
less_bytes [] (y ∷ ys) = true
less_bytes (x ∷ xs) [] = false
less_bytes (x ∷ xs) (y ∷ ys) =
    let further = less_bytes xs ys in if ltb x y then true else if eqb x y then further else false

-- `bytes.HasPrefix(k, prefix)`
abbrev pub has_prefix : Bytes → Bytes → Bool
has_prefix [] k = true
has_prefix (x ∷ prefix) [] = false
has_prefix (x ∷ prefix) (y ∷ k) = eqb x y && has_prefix prefix k

abbrev pub below : Option Bytes → Bytes → Bool
below none k = true
below (some upper) k = less_bytes k upper

-- A key that is not before the lower bound and is before the upper one, if there is one.
abbrev pub in_range : Bytes → Option Bytes → Bytes → Bool
in_range lower upper k = not (less_bytes k lower) && below upper k

abbrev pub IsByte : ℕ → Type 0
IsByte n = n < 256

-- `bytes.Equal(a, b)`
abbrev pub same_bytes : Bytes → Bytes → Bool
same_bytes [] [] = true
same_bytes [] (y ∷ ys) = false
same_bytes (x ∷ xs) [] = false
same_bytes (x ∷ xs) (y ∷ ys) = eqb x y && same_bytes xs ys

pub same_bytes_refl : (b : Bytes) → same_bytes b b ≡ true
same_bytes_refl [] = refl
same_bytes_refl (x ∷ b) = ground (arith, same_bytes_refl b)
