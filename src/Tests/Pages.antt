-- ===== src/Tests/Pages.antt =====
-- Three lines of the leaderboard on two pages.
use mathlib.Core.List.{Perm, reverse_perm}
use carbonable_leaderboard_b.Prelude.{
  ◌<◌, ℕ, zero, suc, ◌+◌, ◌-◌, ◌/◌, ◌≡◌, refl, true, String, List, [], ◌∷◌, arith, ◌==◌,
  if◌then◌else◌,
}
use carbonable_leaderboard_b.Graph.Page.{
  LeaderboardQueryResult, CeilQuotient, db_model_to_gql_model, leaderboard,
}
use carbonable_leaderboard_b.Go.Format.{decimal}
use carbonable_leaderboard_b.Graph.Page.Order.{Cast, IsDescending, HasNoTies}
use carbonable_leaderboard_b.Graph.Page.Cover.{
  take, drop, statement, page_of, first_pages, AnswersQueries, pages_cover,
}

abbrev pub row : String → ℕ → LeaderboardQueryResult
row wallet position = record {
  line = record {
    categories = record { fund = "1"; farming = "2"; other = "0" };
    wallet_address = wallet;
    total_score = "3";
    points = [];
    id = "01H";
  };
  position = position;
}

abbrev scored : String → ℕ → String → LeaderboardQueryResult
scored wallet position total = record (row wallet position) {
  line = record (row wallet position).line { total_score = total };
}

abbrev rows : List LeaderboardQueryResult
rows = scored "0x1" 1 "9" ∷ scored "0x2" 2 "5" ∷ scored "0x3" 3 "2" ∷ []

-- The lines as they stand in the table.
abbrev lines : List LeaderboardQueryResult
lines = scored "0x3" 3 "2" ∷ scored "0x2" 2 "5" ∷ scored "0x1" 1 "9" ∷ []

abbrev cast : Cast
cast text = if text == "9" then 9 else if text == "5" then 5 else 2

abbrev answered : String → List LeaderboardQueryResult
answered text =
    if text == statement 0 2
    then scored "0x1" 1 "9" ∷ scored "0x2" 2 "5" ∷ []
    else if text == statement 1 2
    then scored "0x2" 2 "5" ∷ scored "0x3" 3 "2" ∷ []
    else scored "0x3" 3 "2" ∷ []

abbrev round_up : CeilQuotient
round_up count size = (count + size - 1) / size

rows-lines : Perm rows lines
rows-lines = reverse_perm lines

rows-IsDescending : IsDescending cast rows
rows-IsDescending = ((omega arith, (omega arith, tt)), ((omega arith, tt), (tt, tt)))

lines-HasNoTies : HasNoTies cast lines
lines-HasNoTies = (
  (λ e. absurd (omega (arith, e)), (λ e. absurd (omega (arith, e)), tt)),
  ((λ e. absurd (omega (arith, e)), tt), (tt, tt)),
)

answered-page :
    (offset : ℕ) → offset < 3 → answered (statement offset 2) ≡ take 2 (drop offset rows)
unfolding decimal
answered-page zero h = refl
answered-page (suc zero) h = refl
answered-page (suc (suc zero)) h = refl
answered-page (suc (suc (suc n))) h = absurd (omega (arith, h))

answered-AnswersQueries : AnswersQueries cast lines answered 2
answered-AnswersQueries = record {
  order = λ offset. rows;
  order-perm = λ offset. rows-lines;
  order-IsDescending = λ offset. rows-IsDescending;
  answer = answered-page;
}

pages_cover_example :
    (order : List LeaderboardQueryResult) × Perm order lines
    × IsDescending cast order
    × (first_pages round_up lines answered 2 2 ≡ db_model_to_gql_model order)
    × ((page_of round_up lines answered 2 1).page_info.has_next_page ≡ true)
unfolding leaderboard
pages_cover_example =
    pages_cover round_up lines answered 2 cast answered-AnswersQueries lines-HasNoTies (omega arith)
      (omega arith) (omega arith) refl 1 (omega arith)
