-- ===== src/Starknet/Feeder/Fetch.antt =====
-- `client.Get` of internal/starknet/rpc.go behind its check of the limit: the goroutine that fetches,
-- and the caller that waits for one of its two channels. Neither channel has a buffer: a send waits
-- until the caller receives, which it does once.
pub mod Ends
use carbonable_leaderboard_b.Prelude.{
  ℕ, Bool, true, false, not, ◌&&◌, List, [], ◌∷◌, Option, none, some, eqb, if◌then◌else◌,
}
use carbonable_leaderboard_b.Go.Gob.{Bytes}

-- What is read of a response: `io.ReadAll` gives what there was to read beside an error.
pub record Response : Type 0 where
  pub status_code : ℕ
  pub body : Bytes
  pub read_fails : Bool

-- What `http.Get` answers: an error beside a nil response, or a response.
pub data Answer : Type 0 where
  http_error : Answer
  responded : Response → Answer

-- Where the goroutine stands: before the request, at one of its sends, at the deferred `Close` of a
-- nil response, behind the panic that follows, which ends the process, or at its end.
pub data Fetcher : Type 0 where
  requesting : Fetcher
  sending_http_error : Fetcher
  sending_status : Response → Fetcher
  sending_read_error : Response → Fetcher
  sending_body : Response → Fetcher
  deferring_close : Fetcher
  crashed : Fetcher
  finished : Fetcher

-- Where the caller stands: at its `select`, at the token that it takes back with its result in hand,
-- or at its end; the result is `none` for an error.
pub data Caller : Type 0 where
  waiting : Caller
  taking_token : Option Bytes → Caller
  returned : Option Bytes → Caller

pub record Fetch : Type 0 where
  pub fetcher : Fetcher
  pub caller : Caller

abbrev pub start : Fetch
start = record { fetcher = requesting; caller = waiting }

-- Behind the check of the status: the body is read, and an error of that is sent before the body.
abbrev pub after_status : Response → Fetcher
after_status r = if r.read_fails then sending_read_error r else sending_body r

abbrev pub after_request : Answer → Fetcher
after_request http_error = sending_http_error
after_request (responded r) = if eqb r.status_code 200 then after_status r else sending_status r

-- A send: the caller has the result if it waits, and the goroutine goes on; else it stays.
abbrev send_to : Caller → Option Bytes → Fetcher → Fetcher → Fetch
send_to waiting result stay go_on = record { fetcher = go_on; caller = taking_token result }
send_to c result stay go_on = record { fetcher = stay; caller = c }

-- A turn of the goroutine.
abbrev pub step_fetcher : Answer → Fetcher → Caller → Fetch
step_fetcher a requesting c = record { fetcher = after_request a; caller = c }
step_fetcher a sending_http_error c = send_to c none sending_http_error deferring_close
step_fetcher a (sending_status r) c = send_to c none (sending_status r) (after_status r)
step_fetcher a (sending_read_error r) c = send_to c none (sending_read_error r) (sending_body r)
step_fetcher a (sending_body r) c = send_to c (some r.body) (sending_body r) finished
step_fetcher a deferring_close c = record { fetcher = crashed; caller = c }
step_fetcher a crashed c = record { fetcher = crashed; caller = c }
step_fetcher a finished c = record { fetcher = finished; caller = c }

-- A turn of the caller behind its `select`, where there is a token to take; none in a process that has
-- ended.
abbrev pub step_caller : Fetcher → Caller → Fetch
step_caller crashed c = record { fetcher = crashed; caller = c }
step_caller f waiting = record { fetcher = f; caller = waiting }
step_caller f (taking_token result) = record { fetcher = f; caller = returned result }
step_caller f (returned result) = record { fetcher = f; caller = returned result }

pub data Turn : Type 0 where
  of_fetcher : Turn
  of_caller : Turn

unfoldable pub step_fetch : Answer → Turn → Fetch → Fetch
step_fetch a of_fetcher s = step_fetcher a s.fetcher s.caller
step_fetch a of_caller s = step_caller s.fetcher s.caller

-- The turns in the order of a schedule.
unfoldable pub run_fetch : Answer → List Turn → Fetch → Fetch
unfolding step_fetch
run_fetch a [] s = s
run_fetch a (t ∷ turns) s = run_fetch a turns (step_fetch a t s)

-- What `Get` is to return: the body of a response with status 200 that can be read, or an error.
abbrev pub is_good : Response → Bool
is_good r = eqb r.status_code 200 && not r.read_fails

abbrev pub result_of : Answer → Option Bytes
result_of http_error = none
result_of (responded r) = if is_good r then some r.body else none
