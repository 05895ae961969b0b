-- ===== src/Starknet/Feeder/Fetch/Ends.antt =====
-- How a call of `client.Get` ends, whatever the order of its goroutine's turns and the caller's.
use carbonable_leaderboard_b.Prelude.{
  ℕ, ◌+◌, ◌≤◌, Bool, true, false, List, [], ◌∷◌, ◌++◌, Option, none, ◌≡◌, refl, ap, ◌∙◌, arith, eqb,
  Bool-cases, inl, inr, if◌then◌else◌,
}
use carbonable_leaderboard_b.Go.Gob.{Bytes}
use carbonable_leaderboard_b.Starknet.Feeder.Fetch.{
  Response, Answer, http_error, responded, Fetcher, sending_http_error, sending_status,
  sending_read_error, sending_body, deferring_close, crashed, finished, Caller, waiting,
  taking_token, returned, Fetch, start, after_status, after_request, step_fetch, run_fetch,
  step_fetcher, step_caller, Turn, of_fetcher, of_caller, result_of,
}

-- How many turns the goroutine has.
abbrev pub fetcher_turns : List Turn → ℕ
fetcher_turns [] = 0
fetcher_turns (of_fetcher ∷ turns) = fetcher_turns turns + 1
fetcher_turns (of_caller ∷ turns) = fetcher_turns turns

abbrev pub then_caller : List Turn → List Turn
then_caller turns = turns ++ of_caller ∷ []

-- At a send, or at its end: the goroutine does not move while the caller does not wait.
abbrev is_held : Fetcher → Bool
is_held (sending_status r) = true
is_held (sending_read_error r) = true
is_held (sending_body r) = true
is_held finished = true
is_held _ = false

abbrev at : Fetcher → Caller → Fetch
at f c = record { fetcher = f; caller = c }

abbrev has_result : Caller → Bool
has_result waiting = false
has_result _ = true

fetcher_stays :
    (a : Answer) (f : Fetcher) (c : Caller)
    → is_held f ≡ true
    → has_result c ≡ true
    → step_fetcher a f c ≡ at f c
fetcher_stays a f waiting held has = absurd (cc has)
fetcher_stays a f (taking_token result) held has = ground arith
fetcher_stays a f (returned result) held has = ground arith

caller_returns :
    (f : Fetcher) (result : Option Bytes)
    → is_held f ≡ true
    → (step_caller f (taking_token result) ≡ at f (returned result))
      × (step_caller f (returned result) ≡ at f (returned result))
caller_returns f result held = ground arith

returned_stays :
    (a : Answer) (f : Fetcher) (result : Option Bytes) (turns : List Turn)
    → is_held f ≡ true
    → run_fetch a turns (at f (returned result)) ≡ at f (returned result)
unfolding run_fetch step_fetch
returned_stays a f result [] held = refl
returned_stays a f result (of_fetcher ∷ turns) held =
    ap (run_fetch a turns) (fetcher_stays a f (returned result) held refl)
    ∙ returned_stays a f result turns held
returned_stays a f result (of_caller ∷ turns) held =
    ap (run_fetch a turns) (caller_returns f result held).1 ∙ returned_stays a f result turns held

held_returns :
    (a : Answer) (f : Fetcher) (result : Option Bytes) (turns : List Turn)
    → is_held f ≡ true
    → run_fetch a (then_caller turns) (at f (taking_token result)) ≡ at f (returned result)
unfolding run_fetch step_fetch
held_returns a f result [] held = (caller_returns f result held).0
held_returns a f result (of_fetcher ∷ turns) held =
    ap (run_fetch a (then_caller turns)) (fetcher_stays a f (taking_token result) held refl)
    ∙ held_returns a f result turns held
held_returns a f result (of_caller ∷ turns) held =
    ap (run_fetch a (then_caller turns)) (caller_returns f result held).0
    ∙ returned_stays a f result (then_caller turns) held

-- Where the goroutine is behind its first send.
abbrev pub rest_of : Response → Fetcher
rest_of r =
    if eqb r.status_code 200
    then (if r.read_fails then sending_body r else finished)
    else after_status r

-- At the first send, the caller gets the result in the goroutine's next turn.
first_send :
    (r : Response)
    → step_fetcher (responded r) (after_request (responded r)) waiting
      ≡ at (rest_of r) (taking_token (result_of (responded r)))
first_send r = elim (Bool-cases (eqb r.status_code 200)) [
  | inl fine ↦ elim (Bool-cases r.read_fails) [
    | inl fails ↦ rw (fine, fails)
    | inr reads ↦ rw (fine, reads)
  ]
  | inr bad ↦ rw bad
]

rest_of-held : (r : Response) → is_held (rest_of r) ≡ true
rest_of-held r = ground arith

caller_waits :
    (r : Response)
    → step_caller (after_request (responded r)) waiting ≡ at (after_request (responded r)) waiting
caller_waits r = ground arith

sending_returns :
    (r : Response) (turns : List Turn)
    → 1 ≤ fetcher_turns turns
    → run_fetch (responded r) (then_caller turns) (at (after_request (responded r)) waiting)
      ≡ at (rest_of r) (returned (result_of (responded r)))
unfolding run_fetch step_fetch
sending_returns r [] enough = absurd (omega (arith, enough))
sending_returns r (of_fetcher ∷ turns) enough =
    ap (run_fetch (responded r) (then_caller turns)) (first_send r)
    ∙ held_returns (responded r) (rest_of r) (result_of (responded r)) turns (rest_of-held r)
sending_returns r (of_caller ∷ turns) enough =
    ap (run_fetch (responded r) (then_caller turns)) (caller_waits r)
    ∙ sending_returns r turns enough

-- Where the gateway responds, the goroutine has at least two turns, and the last turn is the caller's,
-- then in any order of the turns before it `Get` has returned the body of a response with status 200
-- that can be read, and an error for any other; the goroutine has then ended behind that body, and
-- stays at a second send for ever behind any error.
pub get_returns :
    (r : Response) (turns : List Turn)
    → 2 ≤ fetcher_turns turns
    → run_fetch (responded r) (then_caller turns) start
      ≡ record { fetcher = rest_of r; caller = returned (result_of (responded r)) }
unfolding run_fetch step_fetch
get_returns r [] enough = absurd (omega (arith, enough))
get_returns r (of_fetcher ∷ turns) enough = sending_returns r turns (omega (arith, enough))
get_returns r (of_caller ∷ turns) enough = get_returns r turns enough

crash_stays :
    (c : Caller) (turns : List Turn) → (run_fetch http_error turns (at crashed c)).fetcher ≡ crashed
unfolding run_fetch step_fetch
crash_stays c [] = refl
crash_stays c (of_fetcher ∷ turns) = crash_stays c turns
crash_stays c (of_caller ∷ turns) = crash_stays c turns

close_crashes :
    (c : Caller) (turns : List Turn)
    → 1 ≤ fetcher_turns turns
    → (run_fetch http_error turns (at deferring_close c)).fetcher ≡ crashed
unfolding run_fetch step_fetch
close_crashes c [] enough = absurd (omega (arith, enough))
close_crashes c (of_fetcher ∷ turns) enough = crash_stays c turns
close_crashes waiting (of_caller ∷ turns) enough = close_crashes waiting turns enough
close_crashes (taking_token q) (of_caller ∷ turns) enough = close_crashes (returned q) turns enough
close_crashes (returned q) (of_caller ∷ turns) enough = close_crashes (returned q) turns enough

error_crashes :
    (turns : List Turn)
    → 2 ≤ fetcher_turns turns
    → (run_fetch http_error turns (at sending_http_error waiting)).fetcher ≡ crashed
unfolding run_fetch step_fetch
error_crashes [] enough = absurd (omega (arith, enough))
error_crashes (of_fetcher ∷ turns) enough =
    close_crashes (taking_token none) turns (omega (arith, enough))
error_crashes (of_caller ∷ turns) enough = error_crashes turns enough

-- Where `http.Get` gives an error and the goroutine has at least three turns, in any order of the turns
-- the goroutine panics, which ends the process.
pub http_error_crashes :
    (turns : List Turn)
    → 3 ≤ fetcher_turns turns
    → (run_fetch http_error turns start).fetcher ≡ crashed
unfolding run_fetch step_fetch
http_error_crashes [] enough = absurd (omega (arith, enough))
http_error_crashes (of_fetcher ∷ turns) enough = error_crashes turns (omega (arith, enough))
http_error_crashes (of_caller ∷ turns) enough = http_error_crashes turns enough
