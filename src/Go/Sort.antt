-- ===== src/Go/Sort.antt =====
-- `sort.Sort`: it orders by a given `Less`, and does not promise to keep the order of equal elements.
pub mod One
use mathlib.Core.List.{Perm}
use carbonable_leaderboard_b.Prelude.{Bool, true, false, List, [], ◌∷◌, ◌≡◌, All}

-- What `sort.Interface` asks of `Less`.
pub record IsStrictWeakOrder {ℓ} {A : Type ℓ} (less : A → A → Bool) : Type ℓ where
  pub irreflexive : (a : A) → less a a ≡ false
  pub transitive : (a b c : A) → less a b ≡ true → less b c ≡ true → less a c ≡ true
  -- not being less is transitive, so that "neither is less" is an equivalence
  pub not_less_transitive : (a b c : A) → less a b ≡ false → less b c ≡ false → less a c ≡ false

-- No element is less than one before it.
abbrev pub IsSortedBy {ℓ} : {A : Type ℓ} → (A → A → Bool) → List A → Type 0
IsSortedBy less [] = Unit
IsSortedBy less (x ∷ xs) = All (λ y. less y x ≡ false) xs × IsSortedBy less xs

pub record Sorter (A : Type 0) : Type 0 where
  pub sort : (A → A → Bool) → List A → List A

-- The documented contract of `sort.Sort`.
pub record Sorts {A : Type 0} (s : Sorter A) : Type 0 where
  pub permutes : (less : A → A → Bool) (l : List A) → Perm (s.sort less l) l
  pub orders :
      (less : A → A → Bool) (l : List A) → IsStrictWeakOrder less → IsSortedBy less (s.sort less l)
