-- ===== src/Prelude/Perms.antt =====
-- What the entries of a list have in any order.
use mathlib.Core.List.{Perm, Permᴰ}
use mathlib.Core.Path.{◌≡◌, ap, subst, ◌∙◌, refl}
use mathlib.Core.List.{List, [], ◌∷◌}
use mathlib.Core.Logic.{∥∥₁_elim}
use native.Mathlib.Nat.{ℕ_set}
use Prim.Native.Nat.{ℕ, suc}
use carbonable_leaderboard_b.Prelude.Lists.{All, length}

module _ {A : Type 0} where
  pub All-perm : (P : A → Type 0) {l m : List A} → Permᴰ l m → All P l → All P m
  All-perm P Permᴰ.nil h = tt
  All-perm P (Permᴰ.cons e p) h = (subst P e h.0, All-perm P p h.1)
  All-perm P (Permᴰ.swap {l = l} e f) h = (subst P f h.1.0, (subst P e h.0, h.1.1))
  All-perm P (Permᴰ.trans p q) h = All-perm P q (All-perm P p h)

  length-permᴰ : {l m : List A} → Permᴰ l m → length l ≡ length m
  length-permᴰ Permᴰ.nil = refl
  length-permᴰ (Permᴰ.cons e p) = ap (λ (n : ℕ). suc n) (length-permᴰ p)
  length-permᴰ (Permᴰ.swap e f) = refl
  length-permᴰ (Permᴰ.trans p q) = length-permᴰ p ∙ length-permᴰ q

  pub length-perm : {l m : List A} → Perm l m → length l ≡ length m
  length-perm p = ∥∥₁_elim p (ℕ_set _ _) length-permᴰ

  -- Each two entries are related.
  abbrev pub Pairwise : (A → A → Type 0) → List A → Type 0
  Pairwise R [] = Unit
  Pairwise R (x ∷ l) = All (R x) l × Pairwise R l

  module _ (R : A → A → Type 0) (symmetric : (x y : A) → R x y → R y x) where
    pub Pairwise-perm : {l m : List A} → Permᴰ l m → Pairwise R l → Pairwise R m
    Pairwise-perm Permᴰ.nil h = tt
    Pairwise-perm (Permᴰ.cons {a} {b} {l₂ = m} e p) h =
        (subst (λ x. All (R x) m) e (All-perm (R a) p h.0), Pairwise-perm p h.1)
    Pairwise-perm (Permᴰ.swap {a} {b} {a'} {b'} {l} e f) h = (
      (
        subst (λ x. R x b') f (subst (R b) e (symmetric a b h.0.0)),
        subst (λ x. All (R x) l) f h.1.0,
      ),
      (subst (λ x. All (R x) l) e h.0.1, h.1.1),
    )
    Pairwise-perm (Permᴰ.trans p q) h = Pairwise-perm q (Pairwise-perm p h)
