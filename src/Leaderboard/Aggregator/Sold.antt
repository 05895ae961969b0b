-- ===== src/Leaderboard/Aggregator/Sold.antt =====
-- `GetMinterCurrentValue` of internal/leaderboard/aggregator.go.
use carbonable_leaderboard_b.Prelude.{
  ℕ, ◌+◌, ◌/◌, ◌%◌, ◌<◌, ◌≡◌, refl, true, All, ap, ◌∙◌, String, List, [], ◌∷◌, Option, none, some,
  arith,
}
use carbonable_leaderboard_b.Go.Outcome.{Outcome, ok, panic, is_ok, ◌>>=◌}
use carbonable_leaderboard_b.Go.Uint256.{Uint256, Documented, modulus}

-- The values of the purchases and airdrops of a project up to a time; `none` for an error of the
-- query.
abbrev pub MinterBuyValueAt : Type 0
MinterBuyValueAt = String → ℕ → Option (List String)

module _ (u : Uint256) where
  -- `MustFromHex` panics on a text that is no hexadecimal number.
  unfoldable pub add_lines : List String → ℕ → Outcome ℕ
  add_lines [] sum = ok sum
  add_lines (l ∷ lines) sum = elim (u.from_hex l) [
    | none ↦ panic
    | some lv ↦ add_lines lines (u.add lv sum)
  ]

  -- `none` is the error of the query, which is handed on.
  unfoldable pub get_minter_current_value : MinterBuyValueAt → String → ℕ → Outcome (Option ℕ)
  unfolding add_lines
  get_minter_current_value query identifier recorded_at = elim (query identifier recorded_at) [
    | none ↦ ok none
    | some lines ↦ add_lines lines 0 >>= λ sum. ok (some (u.div sum 1000000))
  ]

module _ (u : Uint256) where
  -- The text of a number.
  abbrev pub IsRead : String → Type 0
  IsRead l = (v : ℕ) × (u.from_hex l ≡ some v)

  pub add_lines_returns :
      (lines : List String) (sum : ℕ) → All IsRead lines → is_ok (add_lines u lines sum) ≡ true
  unfolding add_lines
  add_lines_returns [] sum h = refl
  add_lines_returns (l ∷ lines) sum h =
      let (v, read) = h.0 in rw (read, add_lines) (add_lines_returns lines (u.add v sum) h.1)

-- Each line is the text of a number, in their order.
abbrev pub AreRead : Uint256 → List String → List ℕ → Type 0
AreRead u [] [] = Unit
AreRead u (l ∷ lines) (v ∷ values) = (u.from_hex l ≡ some v) × AreRead u lines values
AreRead u [] (v ∷ values) = ⊥
AreRead u (l ∷ lines) [] = ⊥

abbrev pub sum : List ℕ → ℕ
sum [] = 0
sum (v ∷ values) = v + sum values

module _ (u : Uint256) (d : Documented u) where
  add_lines-sum :
      (lines : List String) (values : List ℕ) (acc : ℕ)
      → AreRead u lines values
      → acc < modulus
      → add_lines u lines acc ≡ ok ((sum values + acc) % modulus)
  unfolding add_lines
  add_lines-sum [] [] acc read small = ap ok (omega arith)
  add_lines-sum [] (v ∷ values) acc read small = absurd read
  add_lines-sum (l ∷ lines) [] acc read small = absurd read
  add_lines-sum (l ∷ lines) (v ∷ values) acc read small =
      let step = d.add_wraps v acc in
      let rest = add_lines-sum lines values (u.add v acc) read.1 (omega arith) in
      rw (read.0, add_lines) (rest ∙ ap ok (omega arith))

  -- Where each line of the query is a number, the value that a minter has sold for is their sum,
  -- modulo 2^256, divided by a million and rounded down.
  pub get_minter_current_value_lem :
      (query : String → ℕ → Option (List String)) (identifier : String) (recorded_at : ℕ)
      (lines : List String) (values : List ℕ)
      → query identifier recorded_at ≡ some lines
      → AreRead u lines values
      → get_minter_current_value u query identifier recorded_at
        ≡ ok (some (sum values % modulus / 1000000))
  unfolding get_minter_current_value
  get_minter_current_value_lem query identifier recorded_at lines values answered read =
      rw
        (
          answered,
          get_minter_current_value,
          add_lines-sum lines values 0 read (omega arith),
          d.div_floors,
        )
        (ap (λ n. ok (some n)) (omega arith))
