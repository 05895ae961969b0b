-- ===== src/Leaderboard/Total/Categories.antt =====
-- The split of the scores into categories: for internal/leaderboard/score_calculator.go.
use carbonable_leaderboard_b.Prelude.{
  ℕ, ◌+◌, ◌≤◌, ◌<◌, ◌≡◌, or_empty, none, some, refl, Bool, true, false, String, List, [], ◌∷◌, ◌++◌,
  ◌⊎◌, inl, inr, arith, append_assoc, append-nil, eq_iff, Bool-cases, ◌==◌, filter, put, All,
  if◌then◌else◌,
}
use carbonable_leaderboard_b.Go.Uint256.{Uint256, Documented, modulus}
use carbonable_leaderboard_b.Leaderboard.Event.{
  Score, amount_fund_rule_name, number_of_projects_rule_name, early_adopter_rule_name,
  offseter_rule_name, resaler_rule_name,
}
use carbonable_leaderboard_b.Leaderboard.Total.{
  CategorisedEvents, events_of, category_of, categorise, total_score, aggregate_categories,
  fund_category, farming_category, other_category,
}
use carbonable_leaderboard_b.Leaderboard.Total.Sums.{sum_points, total_score-eq-sum}

-- The scores whose rule maps to the category.
abbrev pub in_category : String → List Score → List Score
in_category c scores = filter (λ s. category_of s == c) scores

events_of-put :
    (c k : String) (s : Score) (m : CategorisedEvents)
    → events_of c (put k (events_of k m ++ s ∷ []) m)
      ≡ events_of c m ++ (if k == c then s ∷ [] else [])
events_of-put c k s m = elim (Bool-cases (k == c)) [
  | inl e ↦ rw ((eq_iff k c).0 e) (ground (arith, eq_iff c c))
  | inr e ↦ rw (e, append-nil)
]

events_of-categorise :
    (c : String) (scores : List Score) (m : CategorisedEvents)
    → events_of c (categorise scores m) ≡ events_of c m ++ in_category c scores
unfolding categorise
events_of-categorise c [] m = rw append-nil
events_of-categorise c (s ∷ scores) m =
    rw
      (
        events_of-categorise c scores
            (put (category_of s) (events_of (category_of s) m ++ s ∷ []) m),
        events_of-put c (category_of s) s m,
      )
      (elim (Bool-cases (category_of s == c)) [
        | inl e ↦ rw (e, append_assoc)
        | inr e ↦ rw (e, append-nil)
      ])

abbrev first_of_five : Bool → Bool → Bool → Bool → Bool → String
first_of_five a n e o r = or_empty (
    if a
    then some fund_category
    else if n
    then some fund_category
    else if e
    then some fund_category
    else if o
    then some farming_category
    else if r
    then some farming_category
    else none)

first_of_five_ne_other : (a n e o r : Bool) → (first_of_five a n e o r == other_category) ≡ false
first_of_five_ne_other true n e o r = refl
first_of_five_ne_other false true e o r = refl
first_of_five_ne_other false false true o r = refl
first_of_five_ne_other false false false true r = refl
first_of_five_ne_other false false false false true = refl
first_of_five_ne_other false false false false false = refl

-- No rule maps to the category "other".
never_other : (s : Score) → (category_of s == other_category) ≡ false
never_other s =
    first_of_five_ne_other (amount_fund_rule_name == s.rule)
      (number_of_projects_rule_name == s.rule) (early_adopter_rule_name == s.rule)
      (offseter_rule_name == s.rule) (resaler_rule_name == s.rule)

in_category-other : (scores : List Score) → in_category other_category scores ≡ []
in_category-other [] = refl
in_category-other (s ∷ scores) = rw (never_other s, in_category-other scores)

module _ (u : Uint256) where
  -- The three totals are those of the scores whose rules map to "fund" and to "farming", and of no
  -- score at all.
  pub aggregate_categories_lem :
      (scores : List Score)
      → aggregate_categories u scores ≡ record {
        fund = u.to_string (total_score u (in_category fund_category scores));
        farming = u.to_string (total_score u (in_category farming_category scores));
        other = u.to_string (total_score u []);
      }
  unfolding aggregate_categories
  aggregate_categories_lem scores = simp (events_of-categorise, in_category-other)

-- The rule of the score is one of the five that the mapping knows.
abbrev pub IsClassified : Score → Type 0
IsClassified s = (category_of s ≡ fund_category) ⊎ (category_of s ≡ farming_category)

sum_points-split :
    (scores : List Score)
    → All IsClassified scores
    → sum_points scores
      ≡ sum_points (in_category fund_category scores)
        + sum_points (in_category farming_category scores)
sum_points-split [] h = refl
sum_points-split (s ∷ scores) (inl e, h) = rw e (omega (arith, sum_points-split scores h))
sum_points-split (s ∷ scores) (inr e, h) = rw e (omega (arith, sum_points-split scores h))

-- For scores whose rules are all known and whose points do not pass 2^256 - 1, the totals of the
-- categories "fund" and "farming" add up to the total score, up to one point lost by rounding, and
-- the category "other" is printed as zero.
pub categories_split :
    (u : Uint256) (d : Documented u) (scores : List Score)
    → All IsClassified scores
    → sum_points scores < modulus
    → (fund farming : ℕ) × ((aggregate_categories u scores).fund ≡ u.to_string fund)
      × ((aggregate_categories u scores).farming ≡ u.to_string farming)
      × ((aggregate_categories u scores).other ≡ u.to_string 0)
      × (fund + farming ≤ total_score u scores)
      × (total_score u scores ≤ fund + farming + 1)
categories_split u d scores h fits = (
  total_score u (in_category fund_category scores),
  total_score u (in_category farming_category scores),
  rw aggregate_categories_lem,
  rw aggregate_categories_lem,
  rw (aggregate_categories_lem, total_score-eq-sum u d []),
  bounds.0,
  bounds.1,
)
  where
    bounds :
        (total_score u (in_category fund_category scores)
            + total_score u (in_category farming_category scores)
          ≤ total_score u scores)
        × (total_score u scores
            ≤ total_score u (in_category fund_category scores)
              + total_score u (in_category farming_category scores)
              + 1)
    bounds = omega (
      arith,
      total_score-eq-sum u d scores,
      total_score-eq-sum u d (in_category fund_category scores),
      total_score-eq-sum u d (in_category farming_category scores),
      sum_points-split scores h,
    )
