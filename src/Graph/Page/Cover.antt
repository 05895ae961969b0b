-- ===== src/Graph/Page/Cover.antt =====
-- The pages of the leaderboard together (graph/schema.resolvers.go, `Leaderboard`).
use native.Mathlib.Nat.{mul-le-mul_left, mul-le-mul_right, div-add-mod, mod-lt}
use mathlib.Core.List.{Perm}
use Prim.Native.String.{◌++◌ as str_append}
use carbonable_leaderboard_b.Prelude.Perms.{length-perm}
use carbonable_leaderboard_b.Prelude.{
  ◌%◌, true, ℕ, zero, suc, ◌+◌, ◌-◌, ◌*◌, ◌/◌, ◌^◌, ◌≤◌, ◌<◌, ◌≡◌, refl, ap, sym, ◌∙◌, String, List,
  [], ◌∷◌, ◌++◌, length, arith, ltb,
}
use carbonable_leaderboard_b.Go.Format.{lt_int64, decimal, decimal_int64}
use carbonable_leaderboard_b.Graph.Page.{
  trim_semicolon, leaderboard_query, offset_of, paginate_raw, LeaderboardLineData,
  LeaderboardQueryResult, item_to_gql_model, db_model_to_gql_model, CeilQuotient, page_info_of,
  Leaderboard, leaderboard,
}
use carbonable_leaderboard_b.Graph.Page.Order.{Cast, IsDescending, HasNoTies, same_answer}

module _ {ℓ} {A : Type ℓ} where
  abbrev pub take : ℕ → List A → List A
  take n [] = []
  take zero (x ∷ xs) = []
  take (suc n) (x ∷ xs) = x ∷ take n xs

  abbrev pub drop : ℕ → List A → List A
  drop n [] = []
  drop zero (x ∷ xs) = x ∷ xs
  drop (suc n) (x ∷ xs) = drop n xs

  take-zero : (xs : List A) → take 0 xs ≡ []
  take-zero [] = refl
  take-zero (x ∷ xs) = refl

  drop-zero : (xs : List A) → drop 0 xs ≡ xs
  drop-zero [] = refl
  drop-zero (x ∷ xs) = refl

  take-add : (m n : ℕ) (xs : List A) → take m xs ++ take n (drop m xs) ≡ take (m + n) xs
  take-add m n [] = refl
  take-add zero n (x ∷ xs) = ap (λ (k : ℕ). take k (x ∷ xs)) (omega arith)
  take-add (suc m) n (x ∷ xs) =
      ap (λ (rest : List A). x ∷ rest) (take-add m n xs)
      ∙ (let same : suc (m + n) ≡ suc m + n = omega arith in ap (λ (k : ℕ). take k (x ∷ xs)) same)

  take_all : (n : ℕ) (xs : List A) → length xs ≤ n → take n xs ≡ xs
  take_all n [] h = refl
  take_all zero (x ∷ xs) h = absurd (omega arith)
  take_all (suc n) (x ∷ xs) h = ap (λ (rest : List A). x ∷ rest) (take_all n xs (omega arith))

db_model-append :
    (xs ys : List LeaderboardQueryResult)
    → db_model_to_gql_model (xs ++ ys) ≡ db_model_to_gql_model xs ++ db_model_to_gql_model ys
unfolding db_model_to_gql_model
db_model-append [] ys = refl
db_model-append (x ∷ xs) ys =
    ap (λ (rest : List LeaderboardLineData). item_to_gql_model x ∷ rest) (db_model-append xs ys)

times_wrap : (k limit : ℕ) → (k + 2 ^ 64) * limit ≡ k * limit + limit * 2 ^ 64
times_wrap k limit = omega arith

offset_of-small :
    (k limit : ℕ) → k < 2 ^ 64 → k * limit < 2 ^ 64 → offset_of (suc k) limit ≡ k * limit
unfolding offset_of
offset_of-small k limit hk h =
    let whole : (suc k + 2 ^ 64 - 1) * limit ≡ k * limit + limit * 2 ^ 64 =
      ap (λ (n : ℕ). n * limit) (omega arith) ∙ times_wrap k limit in
    omega (arith, whole, h)

le_times : (n limit : ℕ) → 0 < limit → n ≤ n * limit
le_times n limit h =
    let once : n * 1 ≤ n * limit = mul-le-mul_left n (omega (arith, h)) in omega (arith, once)

times_le : (k n limit : ℕ) → k ≤ n → k * limit ≤ n * limit
times_le k n limit h = mul-le-mul_right limit h

quotient_bounds :
    (n limit : ℕ)
    → 0 < limit
    → (n ≤ (n + limit - 1) / limit * limit) × ((n + limit - 1) / limit * limit < n + limit)
quotient_bounds n limit h =
    let whole = div-add-mod (n + limit - 1) limit in
    let rest = mod-lt (n + limit - 1) h in
    (omega (arith, whole, rest, h), omega (arith, whole, rest, h))

lt_int64-small : (a b : ℕ) → a < 2 ^ 63 → b < 2 ^ 63 → lt_int64 a b ≡ ltb a b
lt_int64-small a b ha hb = ground arith

-- The text of the query without its last character.
abbrev ordered_lines : String
ordered_lines = str_append "WITH leaderboard AS (\n   SELECT l.*,\n" (
    str_append "\tROW_NUMBER() OVER(ORDER BY l.total_score::INT DESC) AS position\n" (
      str_append "     FROM leaderboard_lines l)\nSELECT l.*\n"
        "\tFROM leaderboard l ORDER BY l.total_score::INT DESC"))

-- The statement that asks for `count` lines from the offset on.
abbrev pub statement : ℕ → ℕ → String
statement offset count = str_append ordered_lines (
    str_append " OFFSET "
      (str_append (decimal offset) (str_append " LIMIT " (str_append (decimal count) ";"))))

-- The documented behaviour of ORDER BY, OFFSET and LIMIT over lines that do not change: the answer for
-- each offset is of a descending order of its own, in which ties can stand otherwise than in another's.
pub record AnswersQueries (cast : Cast) (lines : List LeaderboardQueryResult)
    (raw : String → List LeaderboardQueryResult) (limit : ℕ) : Type 0 where
  pub order : ℕ → List LeaderboardQueryResult
  pub order-perm : (offset : ℕ) → Perm (order offset) lines
  pub order-IsDescending : (offset : ℕ) → IsDescending cast (order offset)
  pub answer :
      (offset : ℕ)
      → offset < length lines
      → raw (statement offset limit) ≡ take limit (drop offset (order offset))

decimal_int64-small : (n : ℕ) → n < 2 ^ 63 → decimal_int64 n ≡ decimal n
unfolding decimal_int64
decimal_int64-small n h =
    let same : n % 2 ^ 64 ≡ n = omega (arith, h) in
    let positive : ltb n (2 ^ 63) ≡ true = ground arith in rw (same, positive)

trimmed : trim_semicolon leaderboard_query ≡ ordered_lines
unfolding trim_semicolon
trimmed = refl

paginate_raw-statement :
    (page limit offset : ℕ)
    → offset_of page limit ≡ offset
    → offset < 2 ^ 63
    → limit < 2 ^ 63
    → paginate_raw leaderboard_query page limit ≡ statement offset limit
unfolding paginate_raw
paginate_raw-statement page limit offset at_offset small few =
    ap
      (λ (text : String). str_append text (
        str_append " OFFSET " (
          str_append (decimal_int64 (offset_of page limit))
            (str_append " LIMIT " (str_append (decimal_int64 limit) ";")))))
      trimmed
    ∙ rw (at_offset, decimal_int64-small offset small, decimal_int64-small limit few)

module _ (ceil_quotient : CeilQuotient) (lines : List LeaderboardQueryResult)
    (raw : String → List LeaderboardQueryResult) (limit : ℕ) where
  abbrev pub page_of : ℕ → Leaderboard
  page_of page = leaderboard ceil_quotient (length lines) raw page limit

  -- The lines of the first pages.
  abbrev pub first_pages : ℕ → List LeaderboardLineData
  first_pages zero = []
  first_pages (suc n) = first_pages n ++ (page_of (suc n)).lines

  module _ (rows : List LeaderboardQueryResult) where
    -- The pages of one order.
    abbrev ArePages : ℕ → Type 0
    ArePages last =
        (k : ℕ)
        → k < last
        → raw (paginate_raw leaderboard_query (suc k) limit) ≡ take limit (drop (k * limit) rows)

    first_pages-take :
        (n : ℕ) → ArePages n → first_pages n ≡ db_model_to_gql_model (take (n * limit) rows)
    unfolding leaderboard
    first_pages-take zero answers =
        sym (ap db_model_to_gql_model (ap (λ (k : ℕ). take k rows) (omega arith) ∙ take-zero rows))
    first_pages-take (suc n) answers =
        ap
          (λ (before : List LeaderboardLineData).
            before ++ db_model_to_gql_model (raw (paginate_raw leaderboard_query (suc n) limit)))
          (first_pages-take n (λ k below. answers k (omega (arith, below))))
        ∙ ap
            (λ (r : List LeaderboardQueryResult).
              db_model_to_gql_model (take (n * limit) rows) ++ db_model_to_gql_model r)
            (answers n (omega arith))
        ∙ sym (db_model-append (take (n * limit) rows) (take limit (drop (n * limit) rows)))
        ∙ ap db_model_to_gql_model (take-add (n * limit) limit rows)
        ∙ ap (λ (k : ℕ). db_model_to_gql_model (take k rows)) (omega arith)

  module _ (cast : Cast) (db : AnswersQueries cast lines raw limit)
      (apart : HasNoTies cast lines) where
    -- Without ties, all answers are of one order.
    abbrev the_order : List LeaderboardQueryResult
    the_order = db.order 0

    one_order_for_all : (offset : ℕ) → db.order offset ≡ the_order
    one_order_for_all offset =
        same_answer cast (db.order offset) the_order lines (db.order-perm offset) (db.order-perm 0)
          apart (db.order-IsDescending offset) (db.order-IsDescending 0)

    the_page :
        (k : ℕ)
        → k < 2 ^ 63
        → length lines < 2 ^ 63
        → limit < 2 ^ 63
        → k * limit < length lines
        → raw (paginate_raw leaderboard_query (suc k) limit)
          ≡ take limit (drop (k * limit) the_order)
    the_page k hk few small h =
        ap raw (
          paginate_raw-statement (suc k) limit (k * limit)
            (offset_of-small k limit (omega (arith, hk)) (omega (arith, h, few)))
            (omega (arith, h, few)) small)
        ∙ db.answer (k * limit) h
        ∙ ap (λ (rows : List LeaderboardQueryResult). take limit (drop (k * limit) rows))
            (one_order_for_all (k * limit))

    -- Where the database answers the query with ORDER BY, OFFSET and LIMIT over lines that do not change,
    -- of which no two have the same total score, for a limit of at least one and below 2^53, fewer
    -- than 2^53 lines, and a number of pages that is the quotient rounded up: the pages from the first
    -- to the last are together all lines, each once, by descending total score; and a page with a
    -- number below 2^63 says that another follows exactly if its number is below the last one's.
    pub pages_cover :
        0 < limit
        → limit < 2 ^ 53
        → length lines < 2 ^ 53
        → ceil_quotient (length lines) limit ≡ (length lines + limit - 1) / limit
        → (page : ℕ) → page < 2 ^ 63
        → (rows : List LeaderboardQueryResult) × Perm rows lines
          × IsDescending cast rows
          × (first_pages (page_of page).page_info.max_page ≡ db_model_to_gql_model rows)
          × ((page_of page).page_info.has_next_page ≡ ltb page (page_of page).page_info.max_page)
    unfolding leaderboard page_info_of
    pages_cover some_room small few rounds_up page hp =
        let last = ceil_quotient (length lines) limit in
        let (enough, bounded) = quotient_bounds (length lines) limit some_room in
        let covers : length lines ≤ last * limit = rw rounds_up enough in
        let fits : last * limit < length lines + limit = rw rounds_up bounded in
        let last_le : last ≤ last * limit = le_times last limit some_room in
        let same_length : length the_order ≡ length lines = length-perm (db.order-perm 0) in
        (
          the_order,
          db.order-perm 0,
          db.order-IsDescending 0,
          first_pages-take the_order last (λ k below.
                let up_to : suc k * limit ≤ last * limit =
                  times_le (suc k) last limit (omega (arith, below)) in
                the_page k (omega (arith, below, last_le, fits, small, few)) (omega (arith, few))
                  (omega (arith, small)) (omega (arith, up_to, fits)))
              ∙ ap db_model_to_gql_model
                  (take_all (last * limit) the_order (omega (arith, same_length, covers))),
          lt_int64-small page last hp (omega (arith, last_le, fits, small, few)),
        )
