-- ===== src/Go/Format.antt =====
-- What the program prints with `fmt.Sprintf` and `strconv`: numbers in decimal and hexadecimal.
use Prim.Native.String.{◌++◌}
use carbonable_leaderboard_b.Prelude.{
  ℕ, zero, suc, Bool, ◌+◌, ◌-◌, ◌/◌, ◌%◌, ◌^◌, String, ltb, if◌then◌else◌,
}

abbrev pub digit : ℕ → String
digit zero = "0"
digit (suc zero) = "1"
digit (suc (suc zero)) = "2"
digit (suc (suc (suc zero))) = "3"
digit (suc (suc (suc (suc zero)))) = "4"
digit (suc (suc (suc (suc (suc zero))))) = "5"
digit (suc (suc (suc (suc (suc (suc zero)))))) = "6"
digit (suc (suc (suc (suc (suc (suc (suc zero))))))) = "7"
digit (suc (suc (suc (suc (suc (suc (suc (suc zero)))))))) = "8"
digit (suc (suc (suc (suc (suc (suc (suc (suc (suc zero))))))))) = "9"
digit (suc (suc (suc (suc (suc (suc (suc (suc (suc (suc zero)))))))))) = "a"
digit (suc (suc (suc (suc (suc (suc (suc (suc (suc (suc (suc zero))))))))))) = "b"
digit (suc (suc (suc (suc (suc (suc (suc (suc (suc (suc (suc (suc zero)))))))))))) = "c"
digit (suc (suc (suc (suc (suc (suc (suc (suc (suc (suc (suc (suc (suc zero))))))))))))) = "d"
digit (suc (suc (suc (suc (suc (suc (suc (suc (suc (suc (suc (suc (suc (suc zero)))))))))))))) = "e"
digit _ = "f"

-- The digits of `n` in the base `b`, the fuel bounding their number.
unfoldable pub digits : ℕ → ℕ → ℕ → String
digits zero b n = ""
digits (suc fuel) b n =
    let front = digits fuel b (n / b) in if ltb n b then digit n else front ++ digit (n % b)

-- `%d` of a number that is not negative; 80 digits are enough for every integer of the program.
unfoldable pub decimal : ℕ → String
unfolding digits
decimal n = digits 80 10 n

-- `%x` of a number that is not negative
unfoldable pub hexadecimal : ℕ → String
unfolding digits
hexadecimal n = digits 80 16 n

-- `%d` of an `int64` with the bits of `n`
unfoldable pub decimal_int64 : ℕ → String
unfolding decimal
decimal_int64 n =
    let bits = n % 2 ^ 64 in
    if ltb bits (2 ^ 63) then decimal bits else "-" ++ decimal (2 ^ 64 - bits)

-- `%x` of an `int64` with the bits of `n`
unfoldable pub hexadecimal_int64 : ℕ → String
unfolding hexadecimal
hexadecimal_int64 n =
    let bits = n % 2 ^ 64 in
    if ltb bits (2 ^ 63) then hexadecimal bits else "-" ++ hexadecimal (2 ^ 64 - bits)

-- `<` of two `int64`, given by their bits
abbrev pub lt_int64 : ℕ → ℕ → Bool
lt_int64 a b = ltb ((a + 2 ^ 63) % 2 ^ 64) ((b + 2 ^ 63) % 2 ^ 64)
