-- ===== src/Starknet/Feeder/Limit/Balance.antt =====
-- The tokens in the channel against the calls that have put one in and those that have taken one.
use carbonable_leaderboard_b.Prelude.{
  ℕ, zero, suc, ◌+◌, ◌≤◌, ◌<◌, Bool, true, false, ◌≡◌, refl, ap, arith, eqb, Bool-cases, inl, inr,
  if◌then◌else◌,
}
use carbonable_leaderboard_b.Starknet.Feeder.Limit.{
  Main, at_check, at_timer, at_end, Sender, not_started, sent, Call, Limiter, Turn, check_rpm,
  receive_timer, send_token, answer, take_token, fire,
}

abbrev pub has_sent : Call → ℕ
has_sent call = of_sender call.sender
  where
    of_sender : Sender → ℕ
    of_sender sent = 1
    of_sender _ = 0

abbrev pub has_ended : Call → ℕ
has_ended call = of_main call.main
  where
    of_main : Main → ℕ
    of_main at_end = 1
    of_main _ = 0

-- A measure of the first calls, summed.
abbrev pub total : (Call → ℕ) → ℕ → (ℕ → Call) → ℕ
total measure zero calls = 0
total measure (suc n) calls = total measure n calls + measure (calls n)

abbrev set_call : ℕ → Call → (ℕ → Call) → ℕ → Call
set_call i call calls j = if eqb j i then call else calls j

total-above :
    (measure : Call → ℕ) (n i : ℕ) (call : Call) (calls : ℕ → Call)
    → n ≤ i
    → total measure n (set_call i call calls) ≡ total measure n calls
total-above measure zero i call calls h = refl
total-above measure (suc n) i call calls h =
    let apart : set_call i call calls n ≡ calls n = ground arith in
    rw (apart, total-above measure n i call calls (omega (arith, h)))

pub total-set :
    (measure : Call → ℕ) (n i : ℕ) (call : Call) (calls : ℕ → Call)
    → i < n
    → total measure n (set_call i call calls) + measure (calls i)
      ≡ total measure n calls + measure call
total-set measure zero i call calls h = absurd (omega arith)
total-set measure (suc n) i call calls h = elim (Bool-cases (eqb n i)) [
  | inl last ↦
      let same : n ≡ i = ground arith in
      let there : set_call i call calls n ≡ call = ground arith in
      omega (
        arith,
        ap measure there,
        total-above measure n i call calls (omega (arith, same)),
        ap (λ (j : ℕ). measure (calls j)) same,
      )
  | inr before ↦
      let apart : set_call i call calls n ≡ calls n = ground arith in
      let below : i < n = ground arith in
      omega (arith, ap measure apart, total-set measure n i call calls below)
]

-- What the turn's call is; the timer's turn is of none.
abbrev pub IsBelow : ℕ → Turn → Type 0
IsBelow n (check_rpm i) = i < n
IsBelow n (receive_timer i) = i < n
IsBelow n (send_token i) = i < n
IsBelow n (answer i) = i < n
IsBelow n (take_token i) = i < n
IsBelow n fire = Unit

abbrev pub is_early : Main → Bool
is_early at_check = true
is_early at_timer = true
is_early _ = false

-- As many tokens as calls that have sent one and calls that have taken one differ by, no more than the
-- channel has room for, and no sender before its call's request.
pub record IsBalanced (max_rpm n : ℕ) (s : Limiter) : Type 0 where
  pub balanced : s.tokens + total has_ended n s.calls ≡ total has_sent n s.calls
  pub bounded : s.tokens ≤ max_rpm
  pub early : (i : ℕ) → is_early (s.calls i).main ≡ true → (s.calls i).sender ≡ not_started

pub total-zero :
    (measure : Call → ℕ) (n : ℕ) (call : Call) → measure call ≡ 0 → total measure n (λ i. call) ≡ 0
total-zero measure zero call h = refl
total-zero measure (suc n) call h = omega (arith, total-zero measure n call h, h)
