-- ===== src/Starknet/Feeder/Limit/Turns.antt =====
-- Every turn keeps the balance of the tokens.
use carbonable_leaderboard_b.Prelude.{
  ℕ, ◌+◌, ◌-◌, ◌≤◌, ◌<◌, Bool, true, false, ◌≡◌, refl, List, [], ◌∷◌, All, arith, ltb, leb,
  if◌then◌else◌,
}
use carbonable_leaderboard_b.Starknet.Feeder.Limit.{
  Timer, armed, fired, spent, Main, at_check, at_timer, at_request, at_token, at_end, Sender,
  not_started, sending, sent, Call, Limiter, new_limiter, with_call, Turn, check_rpm, receive_timer,
  send_token, answer, take_token, fire, step_limiter, run_limiter, step_check, step_timer,
  step_send, step_answer, step_take,
}
use carbonable_leaderboard_b.Starknet.Feeder.Limit.Balance.{
  has_sent, has_ended, total-set, total-zero, IsBelow, is_early, IsBalanced,
}

-- A test keeps what both of its branches keep.
if_keeps :
    (P : Limiter → Type 0) (test : Bool) (x y : Limiter)
    → (test ≡ true → P x)
    → (test ≡ false → P y)
    → P (if test then x else y)
if_keeps P true x y first second = first refl
if_keeps P false x y first second = second refl

module _ (max_rpm n i : ℕ) (s : Limiter) (below : i < n) (b : IsBalanced max_rpm n s) where
  -- A turn that moves one call, and takes or puts its token.
  moved :
      (k : ℕ) (timer : Timer) (call : Call)
      → k + has_ended call + has_sent (s.calls i) ≡ s.tokens + has_ended (s.calls i) + has_sent call
      → k ≤ max_rpm
      → (is_early call.main ≡ true → call.sender ≡ not_started)
      → IsBalanced max_rpm n (with_call i call (record s { tokens = k; timer = timer }))
  moved k timer call even room fresh = record {
    balanced = omega (
      arith,
      b.balanced,
      even,
      total-set has_ended n i call s.calls below,
      total-set has_sent n i call s.calls below,
    );
    bounded = room;
    early = λ j e. ground (arith, b.early j, fresh);
  }

  step_check-IsBalanced :
      (main : Main) → main ≡ (s.calls i).main → IsBalanced max_rpm n (step_check max_rpm i main s)
  step_check-IsBalanced at_check here =
      let fresh : (s.calls i).sender ≡ not_started = b.early i (ground arith) in
      if_keeps (IsBalanced max_rpm n) (leb max_rpm s.tokens) _ _
        (λ full. moved s.tokens s.timer _ (ground arith) b.bounded (λ e. refl))
        (λ room. moved s.tokens s.timer _ (ground arith) b.bounded (λ e. cc))
  step_check-IsBalanced at_timer here = b
  step_check-IsBalanced at_request here = b
  step_check-IsBalanced at_token here = b
  step_check-IsBalanced at_end here = b

  step_timer-IsBalanced :
      (main : Main) (timer : Timer)
      → main ≡ (s.calls i).main
      → IsBalanced max_rpm n (step_timer i main timer s)
  step_timer-IsBalanced at_timer fired here =
      let fresh : (s.calls i).sender ≡ not_started = b.early i (ground arith) in
      moved s.tokens spent _ (ground arith) b.bounded (λ e. cc)
  step_timer-IsBalanced at_timer armed here = b
  step_timer-IsBalanced at_timer spent here = b
  step_timer-IsBalanced at_check timer here = b
  step_timer-IsBalanced at_request timer here = b
  step_timer-IsBalanced at_token timer here = b
  step_timer-IsBalanced at_end timer here = b

  step_send-IsBalanced :
      (sender : Sender)
      → sender ≡ (s.calls i).sender
      → IsBalanced max_rpm n (step_send max_rpm i (s.calls i) sender s)
  step_send-IsBalanced sending here =
      if_keeps (IsBalanced max_rpm n) (ltb s.tokens max_rpm) _ _
        (λ room.
          moved (s.tokens + 1) s.timer _ (ground arith) (ground arith)
            (λ e. let fresh = b.early i e in cc))
        (λ full. b)
  step_send-IsBalanced not_started here = b
  step_send-IsBalanced sent here = b

  step_answer-IsBalanced :
      (main : Main)
      → main ≡ (s.calls i).main
      → IsBalanced max_rpm n (step_answer i (s.calls i) main s)
  step_answer-IsBalanced at_request here =
      moved s.tokens s.timer _ (ground arith) b.bounded (λ e. cc)
  step_answer-IsBalanced at_check here = b
  step_answer-IsBalanced at_timer here = b
  step_answer-IsBalanced at_token here = b
  step_answer-IsBalanced at_end here = b

  step_take-IsBalanced :
      (main : Main)
      → main ≡ (s.calls i).main
      → IsBalanced max_rpm n (step_take i (s.calls i) main s)
  step_take-IsBalanced at_token here =
      if_keeps (IsBalanced max_rpm n) (ltb 0 s.tokens) _ _
        (λ some_left.
          moved (s.tokens - 1) s.timer _ (ground arith) (ground (arith, b.bounded)) (λ e. cc))
        (λ none_left. b)
  step_take-IsBalanced at_check here = b
  step_take-IsBalanced at_timer here = b
  step_take-IsBalanced at_request here = b
  step_take-IsBalanced at_end here = b

step_limiter-IsBalanced :
    (max_rpm n : ℕ) (t : Turn) (s : Limiter)
    → IsBelow n t
    → IsBalanced max_rpm n s
    → IsBalanced max_rpm n (step_limiter max_rpm t s)
unfolding step_limiter
step_limiter-IsBalanced max_rpm n (check_rpm i) s h b =
    step_check-IsBalanced max_rpm n i s h b _ refl
step_limiter-IsBalanced max_rpm n (receive_timer i) s h b =
    step_timer-IsBalanced max_rpm n i s h b _ _ refl
step_limiter-IsBalanced max_rpm n (send_token i) s h b =
    step_send-IsBalanced max_rpm n i s h b _ refl
step_limiter-IsBalanced max_rpm n (answer i) s h b = step_answer-IsBalanced max_rpm n i s h b _ refl
step_limiter-IsBalanced max_rpm n (take_token i) s h b =
    step_take-IsBalanced max_rpm n i s h b _ refl
step_limiter-IsBalanced max_rpm n fire s h b = record {
  balanced = ground (arith, b.balanced);
  bounded = ground (arith, b.bounded);
  early = λ j e. ground (arith, b.early j);
}

run_limiter-IsBalanced :
    (max_rpm n : ℕ) (turns : List Turn) (s : Limiter)
    → All (IsBelow n) turns
    → IsBalanced max_rpm n s
    → IsBalanced max_rpm n (run_limiter max_rpm turns s)
unfolding run_limiter
run_limiter-IsBalanced max_rpm n [] s below b = b
run_limiter-IsBalanced max_rpm n (t ∷ turns) s below b =
    run_limiter-IsBalanced max_rpm n turns _ below.1
      (step_limiter-IsBalanced max_rpm n t s below.0 b)

new_limiter-IsBalanced : (max_rpm n : ℕ) → IsBalanced max_rpm n new_limiter
new_limiter-IsBalanced max_rpm n = record {
  balanced = omega (
    arith,
    total-zero has_ended n (new_limiter.calls 0) refl,
    total-zero has_sent n (new_limiter.calls 0) refl,
  );
  bounded = omega arith;
  early = λ i e. refl;
}

-- Whatever turns the first calls of a new client take, in any order and also where they wait, the
-- tokens in its channel are as many as those calls have sent, less one for each of them that has
-- ended; they are no more than the limit; and no call has sent one before it has passed its check.
pub tokens-IsBalanced :
    (max_rpm n : ℕ) (turns : List Turn)
    → All (IsBelow n) turns
    → IsBalanced max_rpm n (run_limiter max_rpm turns new_limiter)
tokens-IsBalanced max_rpm n turns below =
    run_limiter-IsBalanced max_rpm n turns new_limiter below (new_limiter-IsBalanced max_rpm n)
