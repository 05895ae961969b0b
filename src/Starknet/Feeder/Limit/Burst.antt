-- ===== src/Starknet/Feeder/Limit/Burst.antt =====
-- What the limit of requests keeps, and what it lets through.
use carbonable_leaderboard_b.Prelude.{
  ℕ, zero, suc, ◌≤◌, ◌<◌, ◌≡◌, refl, sym, subst, List, [], ◌∷◌, ◌++◌, arith,
}
use carbonable_leaderboard_b.Starknet.Feeder.Limit.{
  spent, at_check, at_timer, at_request, Limiter, new_limiter, Turn, check_rpm, receive_timer,
  send_token, answer, take_token, fire, step_limiter, run_limiter,
}

-- No turn puts more tokens into the channel than it has room for.
step_limiter-le :
    (max_rpm : ℕ) (t : Turn) (s : Limiter)
    → s.tokens ≤ max_rpm
    → (step_limiter max_rpm t s).tokens ≤ max_rpm
unfolding step_limiter
step_limiter-le max_rpm (check_rpm i) s h = ground arith
step_limiter-le max_rpm (receive_timer i) s h = ground arith
step_limiter-le max_rpm (send_token i) s h = ground arith
step_limiter-le max_rpm (answer i) s h = ground arith
step_limiter-le max_rpm (take_token i) s h = ground arith
step_limiter-le max_rpm fire s h = ground arith

-- A call that waits for the timer after its one value was taken still waits after any turn.
step_limiter-waits :
    (max_rpm : ℕ) (t : Turn) (s : Limiter) (i : ℕ)
    → s.timer ≡ spent
    → (s.calls i).main ≡ at_timer
    → ((step_limiter max_rpm t s).timer ≡ spent)
      × (((step_limiter max_rpm t s).calls i).main ≡ at_timer)
unfolding step_limiter
step_limiter-waits max_rpm (check_rpm j) s i gone waits = ground arith
step_limiter-waits max_rpm (receive_timer j) s i gone waits = ground arith
step_limiter-waits max_rpm (send_token j) s i gone waits = ground arith
step_limiter-waits max_rpm (answer j) s i gone waits = ground arith
step_limiter-waits max_rpm (take_token j) s i gone waits = ground arith
step_limiter-waits max_rpm fire s i gone waits = ground arith

run_limiter-append :
    (max_rpm : ℕ) (turns further : List Turn) (s : Limiter)
    → run_limiter max_rpm (turns ++ further) s
      ≡ run_limiter max_rpm further (run_limiter max_rpm turns s)
unfolding run_limiter
run_limiter-append max_rpm [] further s = refl
run_limiter-append max_rpm (t ∷ turns) further s = run_limiter-append max_rpm turns further _

-- The timer has one value: whatever turns follow, a call that waits for it after another has taken it
-- waits for ever, also when the tokens are back.
pub late_call_waits :
    (max_rpm : ℕ) (turns : List Turn) (s : Limiter) (i : ℕ)
    → s.timer ≡ spent
    → (s.calls i).main ≡ at_timer
    → ((run_limiter max_rpm turns s).calls i).main ≡ at_timer
unfolding run_limiter
late_call_waits max_rpm [] s i gone waits = waits
late_call_waits max_rpm (t ∷ turns) s i gone waits =
    let (still_gone, still_waits) = step_limiter-waits max_rpm t s i gone waits in
    late_call_waits max_rpm turns _ i still_gone still_waits

-- The calls up to a number come to their check, one after the other.
abbrev pub first_checks : ℕ → List Turn
first_checks zero = []
first_checks (suc n) = first_checks n ++ check_rpm n ∷ []

-- Some calls are at their requests and the others at their checks.
abbrev IsBurst : ℕ → Limiter → Type 0
IsBurst n s =
    (s.tokens ≡ 0)
    × ((i : ℕ) → i < n → (s.calls i).main ≡ at_request)
    × ((i : ℕ) → n ≤ i → (s.calls i).main ≡ at_check)

check_rpm-IsBurst :
    (max_rpm n : ℕ) (s : Limiter)
    → 0 < max_rpm
    → IsBurst n s
    → IsBurst (suc n) (step_limiter max_rpm (check_rpm n) s)
unfolding step_limiter
check_rpm-IsBurst max_rpm n s some_room (none_yet, running, later) = (
  ground (arith, later n),
  λ i h. ground (arith, later n, running i),
  λ i h. ground (arith, later n, later i),
)

first_checks-IsBurst :
    (max_rpm n : ℕ) → 0 < max_rpm → IsBurst n (run_limiter max_rpm (first_checks n) new_limiter)
unfolding run_limiter
first_checks-IsBurst max_rpm zero some_room = (refl, λ i h. absurd (omega arith), λ i h. refl)
first_checks-IsBurst max_rpm (suc n) some_room =
    subst (IsBurst (suc n))
      (sym (run_limiter-append max_rpm (first_checks n) (check_rpm n ∷ []) new_limiter))
      (check_rpm-IsBurst max_rpm n _ some_room (first_checks-IsBurst max_rpm n some_room))

-- However low the limit of at least one request is, any number of calls that come to their check before
-- the goroutine of one has sent its token are all at their requests, and there is no token.
pub limit_is_passed :
    (max_rpm n i : ℕ)
    → 0 < max_rpm
    → i < n
    → ((run_limiter max_rpm (first_checks n) new_limiter).tokens ≡ 0)
      × (((run_limiter max_rpm (first_checks n) new_limiter).calls i).main ≡ at_request)
limit_is_passed max_rpm n i some_room below =
    let (none_yet, running, later) = first_checks-IsBurst max_rpm n some_room in
    (none_yet, running i below)
