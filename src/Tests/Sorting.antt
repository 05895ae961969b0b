-- ===== src/Tests/Sorting.antt =====
-- A sort that keeps the contract of `sort.Sort`: insertion.
use mathlib.Core.List.{Perm}
use mathlib.Core.List.Perm
use carbonable_leaderboard_b.Prelude.{
  ◌≡◌, Bool, true, false, List, [], ◌∷◌, inl, inr, All, Bool-cases, if◌then◌else◌,
}
use carbonable_leaderboard_b.Go.Sort.{IsStrictWeakOrder, IsSortedBy, Sorter, Sorts}

module _ {A : Type 0} (less : A → A → Bool) where
  unfoldable insert : A → List A → List A
  insert x [] = x ∷ []
  insert x (y ∷ ys) = let rest = insert x ys in if less x y then x ∷ y ∷ ys else y ∷ rest

  unfoldable pub insertion_sort : List A → List A
  unfolding insert
  insertion_sort [] = []
  insertion_sort (x ∷ xs) = insert x (insertion_sort xs)

  insert-Perm : (x : A) (ys : List A) → Perm (insert x ys) (x ∷ ys)
  unfolding insert
  insert-Perm x [] = Perm.refl (x ∷ [])
  insert-Perm x (y ∷ ys) = elim (Bool-cases (less x y)) [
    | inl here ↦ rw here (Perm.refl (x ∷ y ∷ ys))
    | inr later ↦ rw later (Perm.trans (Perm.cons y (insert-Perm x ys)) (Perm.swap x y ys))
  ]

  pub sort-Perm : (l : List A) → Perm (insertion_sort l) l
  unfolding insertion_sort
  sort-Perm [] = Perm.nil
  sort-Perm (x ∷ xs) = Perm.trans (insert-Perm x (insertion_sort xs)) (Perm.cons x (sort-Perm xs))

  All-insert : (P : A → Type 0) (x : A) (ys : List A) → P x → All P ys → All P (insert x ys)
  unfolding insert
  All-insert P x [] p h = (p, tt)
  All-insert P x (y ∷ ys) p h = elim (Bool-cases (less x y)) [
    | inl here ↦ rw here (p, h)
    | inr later ↦ rw later (h.0, All-insert P x ys p h.1)
  ]

  module _ (order : IsStrictWeakOrder less) where
    -- What is not less than `y` is not less than what is less than `y`.
    All-below :
        (x y : A) (ys : List A)
        → less x y ≡ true
        → All (λ z. less z y ≡ false) ys
        → All (λ z. less z x ≡ false) ys
    All-below x y [] h all = tt
    All-below x y (z ∷ ys) h all = (below, All-below x y ys h all.1)
      where
        below : less z x ≡ false
        below = elim (Bool-cases (less z x)) [
          | inl under ↦ cc (all.0, order.transitive z x y under h)
          | inr fine ↦ fine
        ]

    not_above : (x y : A) → less x y ≡ true → less y x ≡ false
    not_above x y h = elim (Bool-cases (less y x)) [
      | inl above ↦ cc (order.irreflexive x, order.transitive x y x h above)
      | inr fine ↦ fine
    ]

    insert-IsSortedBy : (x : A) (ys : List A) → IsSortedBy less ys → IsSortedBy less (insert x ys)
    unfolding insert
    insert-IsSortedBy x [] h = (tt, tt)
    insert-IsSortedBy x (y ∷ ys) h = elim (Bool-cases (less x y)) [
      | inl here ↦ rw here ((not_above x y here, All-below x y ys here h.0), h)
      | inr later ↦
          rw later (All-insert (λ z. less z y ≡ false) x ys later h.0, insert-IsSortedBy x ys h.1)
    ]

    pub sort-IsSortedBy : (l : List A) → IsSortedBy less (insertion_sort l)
    unfolding insertion_sort
    sort-IsSortedBy [] = tt
    sort-IsSortedBy (x ∷ xs) = insert-IsSortedBy x (insertion_sort xs) (sort-IsSortedBy xs)

abbrev pub sorter : (A : Type 0) → Sorter A
sorter A = record { sort = λ less l. insertion_sort less l }

pub sorter-Sorts : (A : Type 0) → Sorts (sorter A)
sorter-Sorts A = record {
  permutes = λ less l. sort-Perm less l;
  orders = λ less l order. sort-IsSortedBy less order l;
}
