-- ===== src/Graph/Page/Order.antt =====
-- The order of the lines of the leaderboard (graph/schema.resolvers.go, `leaderboardQuery`).
use mathlib.Core.List.{Perm, Permᴰ}
use mathlib.Core.List.Perm
use mathlib.Core.List.Permᴰ
use mathlib.Core.Logic.{∥∥₁_elim}
use text.Mathlib.TextEquality.{IsScalar-prop}
use carbonable_leaderboard_b.Prelude.{
  ℕ, ◌≤◌, ◌<◌, ◌≡◌, ◌≢◌, ◌⊎◌, inl, inr, sym, ap, subst, refl, ◌∙◌, String, List, [], ◌∷◌, arith,
  All,
}
use carbonable_leaderboard_b.Prelude.Perms.{All-perm, Pairwise, Pairwise-perm}
use carbonable_leaderboard_b.Graph.Page.{LeaderboardQueryResult}

-- `total_score::INT` of a line
abbrev pub Cast : Type 0
Cast = String → ℕ

module _ (cast : Cast) where
  abbrev pub score_of : LeaderboardQueryResult → ℕ
  score_of row = cast row.line.total_score

  -- ORDER BY l.total_score::INT DESC
  abbrev pub IsDescending : List LeaderboardQueryResult → Type 0
  IsDescending = Pairwise (λ (a b : LeaderboardQueryResult). score_of b ≤ score_of a)

  -- No two lines have the same total score.
  abbrev Differ : LeaderboardQueryResult → LeaderboardQueryResult → Type 0
  Differ a b = score_of a ≢ score_of b

  abbrev pub HasNoTies : List LeaderboardQueryResult → Type 0
  HasNoTies = Pairwise Differ

  abbrev IsFirst : LeaderboardQueryResult → LeaderboardQueryResult → Type 0
  IsFirst a b = (a ≡ b) ⊎ (score_of b < score_of a)

  below : (m n : ℕ) → n ≤ m → m ≢ n → n < m
  below m n h k = ground arith

  IsFirst-All :
      (a : LeaderboardQueryResult) (rows : List LeaderboardQueryResult)
      → All (λ b. score_of b ≤ score_of a) rows
      → All (Differ a) rows
      → All (IsFirst a) rows
  IsFirst-All a [] h k = tt
  IsFirst-All a (b ∷ rows) h k =
      (inr (below (score_of a) (score_of b) h.0 k.0), IsFirst-All a rows h.1 k.1)

  same_first : (a b : LeaderboardQueryResult) → IsFirst a b → IsFirst b a → a ≡ b
  same_first a b (inl e) k = e
  same_first a b (inr h) (inl e) = sym e
  same_first a b (inr h) (inr k) = absurd (omega (arith, h, k))

  rows-IsSet : IsSet (List LeaderboardQueryResult)
  rows-IsSet = hlevel (IsScalar-prop)

  apart-perm : {l m : List LeaderboardQueryResult} → Permᴰ l m → HasNoTies l → HasNoTies m
  apart-perm = Pairwise-perm Differ (λ a b h e. h (sym e))

  -- Lines without ties have one order only.
  pub one_order :
      (l m : List LeaderboardQueryResult)
      → Perm l m
      → HasNoTies l
      → IsDescending l
      → IsDescending m
      → l ≡ m
  one_order [] m p apart h k = Perm.nil-eq p
  one_order (a ∷ l) [] p apart h k = Perm.eq-nil p
  one_order (a ∷ l) (b ∷ m) p apart h k = ∥∥₁_elim p (rows-IsSet _ _) λ d.
      let apart_m = apart-perm d apart in
      let e : a ≡ b =
        same_first a b (All-perm (IsFirst a) d (inl refl, IsFirst-All a l h.0 apart.0)).0
          (All-perm (IsFirst b) (Permᴰ.symm d) (inl refl, IsFirst-All b m k.0 apart_m.0)).0 in
      let tail : Perm l m = Perm.cons_inv (subst (λ x. Perm (a ∷ l) (x ∷ m)) (sym e) p) in
      ap (λ x. x ∷ l) e ∙ ap (λ rest. b ∷ rest) (one_order l m tail apart.1 h.1 k.1)

  -- Two answers to the query over the same lines are the same.
  pub same_answer :
      (rows rows' lines : List LeaderboardQueryResult)
      → Perm rows lines
      → Perm rows' lines
      → HasNoTies lines
      → IsDescending rows
      → IsDescending rows'
      → rows ≡ rows'
  same_answer rows rows' lines p p' apart h h' =
      ∥∥₁_elim p (rows-IsSet _ _) λ d.
        one_order rows rows' (Perm.trans p (Perm.symm p')) (apart-perm (Permᴰ.symm d) apart) h h'
