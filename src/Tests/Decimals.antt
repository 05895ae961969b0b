-- ===== src/Tests/Decimals.antt =====
-- A reader of decimal numbers that reads what `%d` prints.
use Prim.Native.String.{◌++◌ as str_append}
use Prim.Native.String.append
use Prim.Native.Char.{code}
use carbonable_leaderboard_b.Prelude.{
  ℕ, zero, suc, ◌+◌, ◌-◌, ◌*◌, ◌/◌, ◌%◌, ◌^◌, ◌<◌, ◌≡◌, ap, ◌∙◌, String, Option, some, arith, ltb,
  Bool-cases, inl, inr,
}
use carbonable_leaderboard_b.Go.Format.{digit, digits, decimal}

-- The number that the digits spell behind `acc`.
abbrev value_from : ℕ → String → ℕ
value_from acc String.[] = acc
value_from acc (String.◌∷◌ c s) = value_from (acc * 10 + (code c - 48)) s

abbrev pub parse_uint : String → Option ℕ
parse_uint s = some (value_from 0 s)

value_from-append :
    (s t : String) (acc : ℕ) → value_from acc (str_append s t) ≡ value_from (value_from acc s) t
value_from-append String.[] t acc = ap (value_from acc) (append.nil t)
value_from-append (String.◌∷◌ c s) t acc =
    ap (value_from acc) (append.cons c s t) ∙ value_from-append s t (acc * 10 + (code c - 48))

value_from-digit : (n acc : ℕ) → n < 10 → value_from acc (digit n) ≡ acc * 10 + n
value_from-digit zero acc h = omega arith
value_from-digit (suc zero) acc h = omega arith
value_from-digit (suc (suc zero)) acc h = omega arith
value_from-digit (suc (suc (suc zero))) acc h = omega arith
value_from-digit (suc (suc (suc (suc zero)))) acc h = omega arith
value_from-digit (suc (suc (suc (suc (suc zero))))) acc h = omega arith
value_from-digit (suc (suc (suc (suc (suc (suc zero)))))) acc h = omega arith
value_from-digit (suc (suc (suc (suc (suc (suc (suc zero))))))) acc h = omega arith
value_from-digit (suc (suc (suc (suc (suc (suc (suc (suc zero)))))))) acc h = omega arith
value_from-digit (suc (suc (suc (suc (suc (suc (suc (suc (suc zero))))))))) acc h = omega arith
value_from-digit (suc (suc (suc (suc (suc (suc (suc (suc (suc (suc n)))))))))) acc h =
    absurd (omega arith)

value_from-digits : (fuel n : ℕ) → n < 10 ^ fuel → value_from 0 (digits fuel 10 n) ≡ n
unfolding digits
value_from-digits zero n h = omega arith
value_from-digits (suc fuel) n h = elim (Bool-cases (ltb n 10)) [
  | inl small ↦ rw small (value_from-digit n 0 (ground arith) ∙ omega arith)
  | inr large ↦
      rw
        (
          large,
          value_from-append (digits fuel 10 (n / 10)) (digit (n % 10)) 0,
          value_from-digits fuel (n / 10) (omega arith),
        )
        (value_from-digit (n % 10) (n / 10) (omega arith) ∙ omega arith)
]

pub parse_uint-decimal : (n : ℕ) → n < 2 ^ 64 → parse_uint (decimal n) ≡ some n
unfolding decimal
parse_uint-decimal n h = ap some (value_from-digits 80 n (omega arith))
