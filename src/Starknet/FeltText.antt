-- ===== src/Starknet/FeltText.antt =====
-- `EnsureStarkFelt` of internal/starknet/utils.go.
pub mod Canonical
use Prim.Native.String.{◌++◌}
use Prim.Native.Char.{code}
use carbonable_leaderboard_b.Prelude.{
  ℕ, zero, suc, ◌-◌, String, Bool, false, ◌&&◌, eqb, if◌then◌else◌,
}

-- Whether the text starts with an `x`, and the text behind its first character.
abbrev starts_x : String → Bool
starts_x String.[] = false
starts_x (String.◌∷◌ c s) = eqb (code c) b'x'

abbrev tail : String → String
tail String.[] = ""
tail (String.◌∷◌ c s) = s

-- `strings.Replace(s, "0x", "", 1)`
unfoldable pub drop_prefix : String → String
drop_prefix String.[] = ""
drop_prefix (String.◌∷◌ c s) =
    if eqb (code c) b'0' && starts_x s then tail s else String.◌∷◌ c (drop_prefix s)

abbrev pub count_chars : String → ℕ
count_chars String.[] = 0
count_chars (String.◌∷◌ c s) = suc (count_chars s)

abbrev pub zeros : ℕ → String → String
zeros zero s = s
zeros (suc n) s = String.◌∷◌ "0" (zeros n s)

-- `%064s`: padded with zeros on the left to 64 characters
unfoldable pub pad_64 : String → String
pad_64 s = zeros (64 - count_chars s) s

unfoldable pub ensure_stark_felt : String → String
unfolding drop_prefix pad_64
ensure_stark_felt felt = "0x" ++ pad_64 (drop_prefix felt)
