-- ===== src/Go/Sort/One.antt =====
-- A sort of one element.
use mathlib.Core.List.{Permᴰ}
use mathlib.Core.Logic.{∥∥₁_elim}
use carbonable_leaderboard_b.Prelude.{Bool, List, [], ◌∷◌, ◌≡◌, ap, ◌∙◌}
use carbonable_leaderboard_b.Go.Sort.{Sorter, Sorts}

module _ {A : Type 0} where
  abbrev IsNil : List A → Type 0
  IsNil [] = Unit
  IsNil (x ∷ l) = ⊥

  abbrev IsOnly : A → List A → Type 0
  IsOnly a [] = ⊥
  IsOnly a (x ∷ []) = x ≡ a
  IsOnly a (x ∷ y ∷ l) = ⊥

  IsNil-perm : {l m : List A} → Permᴰ l m → IsNil m → IsNil l
  IsNil-perm Permᴰ.nil h = tt
  IsNil-perm (Permᴰ.cons e p) h = absurd h
  IsNil-perm (Permᴰ.swap e f) h = absurd h
  IsNil-perm (Permᴰ.trans p q) h = IsNil-perm p (IsNil-perm q h)

  IsOnly-perm : (a : A) {l m : List A} → Permᴰ l m → IsOnly a m → IsOnly a l
  IsOnly-perm a Permᴰ.nil h = absurd h
  IsOnly-perm a (Permᴰ.cons {l₁ = []} {l₂ = []} e p) h = e ∙ h
  IsOnly-perm a (Permᴰ.cons {l₁ = y ∷ l} {l₂ = []} e p) h = absurd (IsNil-perm p tt)
  IsOnly-perm a (Permᴰ.cons {l₂ = z ∷ m} e p) h = absurd h
  IsOnly-perm a (Permᴰ.swap e f) h = absurd h
  IsOnly-perm a (Permᴰ.trans p q) h = IsOnly-perm a p (IsOnly-perm a q h)

  only_eq : (a : A) (l : List A) → IsOnly a l → l ≡ a ∷ []
  only_eq a [] h = absurd h
  only_eq a (x ∷ []) h = ap (λ y. y ∷ []) h
  only_eq a (x ∷ y ∷ l) h = absurd h

  -- A sort that keeps its contract leaves a list of one element as it is.
  pub sort_one :
      (s : Sorter A)
      → Sorts s
      → IsSet (List A)
      → (less : A → A → Bool) (a : A) → s.sort less (a ∷ []) ≡ a ∷ []
  sort_one s sorts set less a =
      ∥∥₁_elim (sorts.permutes less (a ∷ [])) (set _ _)
        (λ p. only_eq a (s.sort less (a ∷ [])) (IsOnly-perm a p refl_a))
    where
      refl_a : a ≡ a
      refl_a = λ i. a
