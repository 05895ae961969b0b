-- ===== src/Starknet/FeltText/Canonical.antt =====
-- `EnsureStarkFelt` makes one text of an address (internal/starknet/utils.go).
use Prim.Native.String.{◌++◌ as str_append}
use Prim.Native.String.append
use carbonable_leaderboard_b.Prelude.{ℕ, zero, suc, ◌+◌, ◌-◌, ◌≤◌, ◌≡◌, ap, ◌∙◌, String, arith}
use carbonable_leaderboard_b.Starknet.FeltText.{
  drop_prefix, count_chars, zeros, pad_64, ensure_stark_felt,
}

count_chars-zeros : (n : ℕ) (s : String) → count_chars (zeros n s) ≡ n + count_chars s
count_chars-zeros zero s = omega arith
count_chars-zeros (suc n) s = omega (arith, count_chars-zeros n s)

pad_64-full : (s : String) → 64 ≤ count_chars s → pad_64 s ≡ s
unfolding pad_64
pad_64-full s full = ap (λ n. zeros n s) none_missing
  where
    none_missing : 64 - count_chars s ≡ 0
    none_missing = omega arith

count_chars-pad_64 : (s : String) → 64 ≤ count_chars (pad_64 s)
unfolding pad_64
count_chars-pad_64 s = omega (arith, count_chars-zeros (64 - count_chars s) s)

prefixed : (s : String) → str_append "0x" s ≡ String.◌∷◌ "0" (String.◌∷◌ "x" s)
prefixed s =
    append.cons "0" "x" s
    ∙ ap (String.◌∷◌ "0") (append.cons "x" "" s ∙ ap (String.◌∷◌ "x") (append.nil s))

drop_prefix-prefixed : (s : String) → drop_prefix (str_append "0x" s) ≡ s
unfolding drop_prefix
drop_prefix-prefixed s = ap drop_prefix (prefixed s)

count_chars-prefixed : (s : String) → count_chars (str_append "0x" s) ≡ 2 + count_chars s
count_chars-prefixed s = ap count_chars (prefixed s) ∙ omega arith

-- An address that has been brought into its form stays as it is, and has the prefix and 64 digits, or
-- its own digits where there are more.
pub ensure_stark_felt_idem :
    (felt : String)
    → let own = count_chars (drop_prefix felt) in
      (ensure_stark_felt (ensure_stark_felt felt) ≡ ensure_stark_felt felt)
      × (count_chars (ensure_stark_felt felt) ≡ 2 + (64 - own) + own)
unfolding ensure_stark_felt pad_64
ensure_stark_felt_idem felt =
    let padded = pad_64 (drop_prefix felt) in
    (
      ap (λ s. str_append "0x" (pad_64 s)) (drop_prefix-prefixed padded)
          ∙ ap (λ s. str_append "0x" s)
              (pad_64-full padded (count_chars-pad_64 (drop_prefix felt))),
      count_chars-prefixed padded
          ∙ omega
              (arith, count_chars-zeros (64 - count_chars (drop_prefix felt)) (drop_prefix felt)),
    )
