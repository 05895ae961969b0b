-- ===== src/Indexer/PrefixBound/Range.antt =====
-- The range from a prefix to its upper bound, against the keys that have the prefix.
use mathlib.Core.List.{reverse, reverse-cons, reverse-append}
use carbonable_leaderboard_b.Prelude.{
  ℕ, ◌+◌, ◌%◌, ◌≡◌, refl, ap, ◌∙◌, [], ◌∷◌, ◌++◌, false, Option, none, some, All, arith, eqb,
  Bool-cases, inl, inr, if◌then◌else◌,
}
use carbonable_leaderboard_b.Go.Gob.{Bytes}
use carbonable_leaderboard_b.Go.Bytes.{less_bytes, has_prefix, in_range, IsByte}
use carbonable_leaderboard_b.Indexer.PrefixBound.{raise_last, key_upper_bound}

-- What the loop does at the first byte, after the rest.
abbrev raised_before : ℕ → Option Bytes → Option Bytes
raised_before x none = if eqb ((x + 1) % 256) 0 then none else some (((x + 1) % 256) ∷ [])
raised_before x (some upper) = some (x ∷ upper)

-- The loop from the front.
abbrev raised : Bytes → Option Bytes
raised [] = none
raised (x ∷ b) = raised_before x (raised b)

raise_last-append : (b : Bytes) (x : ℕ) → raise_last (b ++ x ∷ []) ≡ raised_before x (raise_last b)
unfolding raise_last
raise_last-append [] x = ground arith
raise_last-append (y ∷ b) x = ground (
  arith,
  raise_last-append b x,
  reverse-append (((y + 1) % 256) ∷ b) (x ∷ []),
  reverse-append (x ∷ []) (((y + 1) % 256) ∷ b),
)

key_upper_bound-eq-raised : (b : Bytes) → key_upper_bound b ≡ raised b
unfolding key_upper_bound
key_upper_bound-eq-raised [] = refl
key_upper_bound-eq-raised (x ∷ b) =
    ap raise_last (reverse-cons x b)
    ∙ raise_last-append (reverse b) x
    ∙ ap (raised_before x) (key_upper_bound-eq-raised b)

less_bytes-nil : (k : Bytes) → less_bytes k [] ≡ false
less_bytes-nil [] = refl
less_bytes-nil (y ∷ k) = refl

raised_before-none :
    (x : ℕ) → IsByte x → eqb ((x + 1) % 256) 0 ≡ false → raised_before x none ≡ some ((x + 1) ∷ [])
raised_before-none x bx further = ground arith

raised_by_one :
    (x y : ℕ) (prefix k : Bytes)
    → in_range prefix none k ≡ has_prefix prefix k
    → in_range (x ∷ prefix) (some ((x + 1) ∷ [])) (y ∷ k) ≡ has_prefix (x ∷ prefix) (y ∷ k)
raised_by_one x y prefix k same = ground (arith, less_bytes-nil k)

-- Whatever comes behind the first byte, it is in its range exactly when it has its prefix.
raised_before-in_range :
    (x y : ℕ) (prefix k : Bytes) (upper : Option Bytes)
    → IsByte x
    → IsByte y
    → in_range prefix upper k ≡ has_prefix prefix k
    → in_range (x ∷ prefix) (raised_before x upper) (y ∷ k) ≡ has_prefix (x ∷ prefix) (y ∷ k)
raised_before-in_range x y prefix k none bx by same = elim (Bool-cases (eqb ((x + 1) % 256) 0)) [
  | inl top ↦ ground arith
  | inr further ↦
      ap (λ upper. in_range (x ∷ prefix) upper (y ∷ k)) (raised_before-none x bx further)
      ∙ raised_by_one x y prefix k same
]
raised_before-in_range x y prefix k (some upper) bx by same = ground arith

raised-in_range :
    (prefix k : Bytes)
    → All IsByte prefix
    → All IsByte k
    → in_range prefix (raised prefix) k ≡ has_prefix prefix k
raised-in_range [] [] bp bk = refl
raised-in_range [] (y ∷ k) bp bk = refl
raised-in_range (x ∷ prefix) [] bp bk = refl
raised-in_range (x ∷ prefix) (y ∷ k) bp bk =
    raised_before-in_range x y prefix k (raised prefix) bp.0 bk.0
      (raised-in_range prefix k bp.1 bk.1)

-- For bytes below 256, a key lies between a prefix and the prefix's upper bound exactly when it has
-- the prefix.
pub key_upper_bound-in_range :
    (prefix k : Bytes)
    → All IsByte prefix
    → All IsByte k
    → in_range prefix (key_upper_bound prefix) k ≡ has_prefix prefix k
key_upper_bound-in_range prefix k bp bk =
    ap (λ upper. in_range prefix upper k) (key_upper_bound-eq-raised prefix)
    ∙ raised-in_range prefix k bp bk
