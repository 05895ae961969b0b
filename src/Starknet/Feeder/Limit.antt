-- ===== src/Starknet/Feeder/Limit.antt =====
-- The limit of the requests of a client (internal/starknet/rpc.go): `checkRpm`, the goroutine that
-- puts a token into `currentRequests`, and the receive at the end of `Get`, for any number of calls.
pub mod Burst
pub mod Balance
pub mod Turns
use carbonable_leaderboard_b.Prelude.{
  ℕ, zero, suc, ◌+◌, ◌-◌, List, [], ◌∷◌, ltb, leb, eqb, if◌then◌else◌,
}

-- The timer of one minute, which fires once: its channel has the value that one receive takes.
pub data Timer : Type 0 where
  armed : Timer
  fired : Timer
  spent : Timer

-- Where a call stands: at the check, at the receive from the timer, at its request, at the receive
-- that takes a token back, or at its end.
pub data Main : Type 0 where
  at_check : Main
  at_timer : Main
  at_request : Main
  at_token : Main
  at_end : Main

-- Where its goroutine stands that sends a token: not started, at the send, or behind it.
pub data Sender : Type 0 where
  not_started : Sender
  sending : Sender
  sent : Sender

pub record Call : Type 0 where
  pub main : Main
  pub sender : Sender

-- `len(c.currentRequests)`, the timer, and the calls by their numbers.
pub record Limiter : Type 0 where
  pub tokens : ℕ
  pub timer : Timer
  pub calls : ℕ → Call

abbrev pub new_limiter : Limiter
new_limiter = record {
  tokens = 0;
  timer = armed;
  calls = λ i. record { main = at_check; sender = not_started };
}

abbrev pub with_call : ℕ → Call → Limiter → Limiter
with_call i call s = record s { calls = λ j. if eqb j i then call else s.calls j }

abbrev pub started : Call
started = record { main = at_request; sender = sending }

-- `len(c.currentRequests) >= c.maxRpm`
abbrev pub step_check : ℕ → ℕ → Main → Limiter → Limiter
step_check max_rpm i at_check s =
    if leb max_rpm s.tokens
    then with_call i (record { main = at_timer; sender = not_started }) s
    else with_call i started s
step_check max_rpm i _ s = s

-- `<-c.timer.C`
abbrev pub step_timer : ℕ → Main → Timer → Limiter → Limiter
step_timer i at_timer fired s = with_call i started (record s { timer = spent })
step_timer i _ _ s = s

-- `c.currentRequests <- true`, which waits while the channel is full
abbrev pub step_send : ℕ → ℕ → Call → Sender → Limiter → Limiter
step_send max_rpm i call sending s =
    if ltb s.tokens max_rpm
    then with_call i (record call { sender = sent }) (record s { tokens = s.tokens + 1 })
    else s
step_send max_rpm i call _ s = s

abbrev pub step_answer : ℕ → Call → Main → Limiter → Limiter
step_answer i call at_request s = with_call i (record call { main = at_token }) s
step_answer i call _ s = s

-- `<-c.currentRequests`, which waits while the channel is empty
abbrev pub step_take : ℕ → Call → Main → Limiter → Limiter
step_take i call at_token s =
    if ltb 0 s.tokens
    then with_call i (record call { main = at_end }) (record s { tokens = s.tokens - 1 })
    else s
step_take i call _ s = s

abbrev pub step_fire : Timer → Limiter → Limiter
step_fire armed s = record s { timer = fired }
step_fire _ s = s

pub data Turn : Type 0 where
  check_rpm : ℕ → Turn
  receive_timer : ℕ → Turn
  send_token : ℕ → Turn
  answer : ℕ → Turn
  take_token : ℕ → Turn
  fire : Turn

-- One turn; a turn of a call that waits, or stands elsewhere, changes nothing.
unfoldable pub step_limiter : ℕ → Turn → Limiter → Limiter
step_limiter max_rpm (check_rpm i) s = step_check max_rpm i (s.calls i).main s
step_limiter max_rpm (receive_timer i) s = step_timer i (s.calls i).main s.timer s
step_limiter max_rpm (send_token i) s = step_send max_rpm i (s.calls i) (s.calls i).sender s
step_limiter max_rpm (answer i) s = step_answer i (s.calls i) (s.calls i).main s
step_limiter max_rpm (take_token i) s = step_take i (s.calls i) (s.calls i).main s
step_limiter max_rpm fire s = step_fire s.timer s

unfoldable pub run_limiter : ℕ → List Turn → Limiter → Limiter
unfolding step_limiter
run_limiter max_rpm [] s = s
run_limiter max_rpm (t ∷ turns) s = run_limiter max_rpm turns (step_limiter max_rpm t s)
