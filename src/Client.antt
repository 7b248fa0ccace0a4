-- ===== src/Client.antt =====
-- client/async_client.hpp, class AsyncClient, without its thread pool. The answers of the HTTP
-- server, the clock and `rand()` are arguments, in the order in which the code asks for them. A run
-- that has used up the answers given is still waiting for the next one.
pub mod Retry
pub mod Call
mod Tests
use Prim.Native.String.{len}
use bigpipe_cpp.Base.{
  ℕ, Bool, true, false, List, [], ◌∷◌, ◌++◌, Option, none, some, Outcome, done, fail, Fault,
  exception, assertion, ◌>>=◌, add_int, ℤ, pos, eqb_ℤ, String, to_string, Double, if◌then◌else◌,
}
use bigpipe_cpp.Proto.Reqmsg.{RequestMessage}
use bigpipe_cpp.Breaker.{
  CircuitBreaker, CircuitBreakerConf, Poll, new_breaker, is_break, on_success, on_fail,
}
use bigpipe_cpp.RateLimit.{TokenBucket, new_bucket, get_token}

pub record AsyncClient (W : Type 0) : Type 0 where
  pub retries : ℤ
  pub timeout : ℤ
  pub rate_limit : Option (TokenBucket W)
  pub circuit_breaker : Option (CircuitBreaker W)

-- A POST request as the code makes it: the URI, and the names and values that http_headers::add is
-- called with, in order; the library joins the values of one name. The code never sets a body.
pub record HttpRequest : Type 0 where
  pub uri : String
  pub headers : List (String × String)
  pub body : String

-- What becomes of one request, with the time at which the breaker is told.
pub data Answer : Type 0 where
  status_code : (status told : ℤ) → Answer
  unreachable : Answer  -- `get()` throws

-- How far a call has come.
pub data Progress (S : Type 0) : Type 0 where
  returned : S → Progress S
  awaiting_breaker : S → Progress S  -- asleep in the loop on IsBreak
  awaiting_answer : S → Progress S  -- in `client.request(request).get()`
  stopped : Fault → Progress S

unfoldable pub build_request : RequestMessage → HttpRequest
build_request msg = record {
  uri = msg.url;
  headers =
      msg.headers
      ++ ("Content-Type", "application/octet-stream")
        ∷ ("Content-Length", to_string (len msg.body))
        ∷ [];
  body = "";
}

module _ {W : Type 0} where
  unfoldable pub new_client : ℤ → ℤ → AsyncClient W
  new_client retries timeout = record {
    retries = retries;
    timeout = timeout;
    rate_limit = none;
    circuit_breaker = none;
  }

  abbrev pub told : AsyncClient W → Outcome (CircuitBreaker W) → Outcome (AsyncClient W)
  told c r = r >>= λ b. done (record c { circuit_breaker = some b })

  abbrev pub notify : Option (CircuitBreaker W) → Bool → ℤ → AsyncClient W → Outcome (AsyncClient W)
  notify none success now c = done c
  notify (some b) true now c = told c (on_success now b)
  notify (some b) false now c = told c (on_fail now b)

  unfoldable pub notify_circuit_breaker : Bool → ℤ → AsyncClient W → Outcome (AsyncClient W)
  notify_circuit_breaker success now c = notify c.circuit_breaker success now c

  unfoldable pub set_circuit_breaker :
      CircuitBreakerConf W → ℤ → AsyncClient W → AsyncClient W × Bool
  unfolding new_breaker
  set_circuit_breaker conf now c =
      (record c { circuit_breaker = some (new_breaker conf now) }, true)

  abbrev pub and_then :
      {B : Type 0}
      → Outcome B
      → (B → Progress (AsyncClient W) × List HttpRequest)
      → Progress (AsyncClient W) × List HttpRequest
  and_then (done b) f = f b
  and_then (fail e) f = (stopped e, [])

  abbrev pub sending :
      HttpRequest
      → Progress (AsyncClient W) × List HttpRequest
      → Progress (AsyncClient W) × List HttpRequest
  sending q (p, sent) = (p, q ∷ sent)

  -- What a round does with its answer: `again` goes on to the next round.
  abbrev pub on_answer :
      Answer
      → AsyncClient W
      → (AsyncClient W → Progress (AsyncClient W) × List HttpRequest)
      → Progress (AsyncClient W) × List HttpRequest
  on_answer unreachable c again = (stopped exception, [])
  on_answer (status_code status now) c again =
      if eqb_ℤ status (pos 200)
      then and_then (notify_circuit_breaker true now c) (λ c'. (returned c', []))
      else and_then (notify_circuit_breaker false now c) again

  -- The loop of CallWithRetry from round `i` on, and the requests that it sends. The condition of
  -- the loop is `retries + 1`, which no round changes.
  unfoldable pub retry_loop :
      List Answer → ℤ → RequestMessage → AsyncClient W → Progress (AsyncClient W) × List HttpRequest
  retry_loop [] i msg c = and_then (add_int c.retries (pos 1)) λ budget.
      if eqb_ℤ budget (pos 0) then (returned c, []) else (awaiting_answer c, build_request msg ∷ [])
  retry_loop (a ∷ answers) i msg c = and_then (add_int c.retries (pos 1)) λ budget.
      if eqb_ℤ budget (pos 0)
      then (returned c, [])
      else sending (build_request msg)
          (on_answer a c λ c'. and_then (add_int i (pos 1)) λ i'. retry_loop answers i' msg c')

  unfoldable pub call_with_retry :
      List Answer → RequestMessage → AsyncClient W → Progress (AsyncClient W) × List HttpRequest
  unfolding retry_loop
  call_with_retry answers msg c = retry_loop answers (pos 0) msg c

module _ {W : Type 0} ⦃d : Double W⦄ where
  unfoldable pub set_token_bucket : W → ℤ → AsyncClient W → AsyncClient W × Bool
  unfolding new_bucket
  set_token_bucket rate now c = (record c { rate_limit = some (new_bucket rate now) }, true)

  -- `while (IsBreak()) sleep`: whether the loop has ended by the last of the polls.
  unfoldable pub wait_for_breaker : List Poll → CircuitBreaker W → Outcome (CircuitBreaker W × Bool)
  wait_for_breaker [] b = done (b, false)
  wait_for_breaker (p ∷ ps) b = do
    (b', refused) ← is_break p.now p.health_now p.roll b
    let rest = wait_for_breaker ps b'
    if refused then rest else done (b', true)

  abbrev pub limited :
      Option (TokenBucket W)
      → ℤ
      → List Answer
      → RequestMessage
      → AsyncClient W
      → Progress (AsyncClient W) × List HttpRequest
  limited none now answers msg c = (stopped assertion, [])
  limited (some t) now answers msg c =
      and_then (get_token (pos 1) now t)
        λ (t', slept). call_with_retry answers msg (record c { rate_limit = some t' })

  abbrev pub waited :
      ℤ
      → List Answer
      → RequestMessage
      → AsyncClient W
      → CircuitBreaker W × Bool
      → Progress (AsyncClient W) × List HttpRequest
  waited now answers msg c (b, passed) =
      let c' = record c { circuit_breaker = some b } in
      if passed then limited c.rate_limit now answers msg c' else (awaiting_breaker c', [])

  abbrev pub gated :
      Option (CircuitBreaker W)
      → List Poll
      → ℤ
      → List Answer
      → RequestMessage
      → AsyncClient W
      → Progress (AsyncClient W) × List HttpRequest
  gated none polls now answers msg c = limited c.rate_limit now answers msg c
  gated (some b) polls now answers msg c =
      and_then (wait_for_breaker polls b) (waited now answers msg c)

  -- Call: the breaker, then the limiter, whose absence fails the assert, then the requests.
  unfoldable pub call_once :
      List Poll
      → ℤ
      → List Answer
      → RequestMessage
      → AsyncClient W
      → Progress (AsyncClient W) × List HttpRequest
  unfolding wait_for_breaker call_with_retry
  call_once polls now answers msg c = gated c.circuit_breaker polls now answers msg c
