-- ===== src/Client/Call.antt =====
-- Call: the breaker and the limiter in front of the requests.
use bigpipe_cpp.Base.{
  ℕ, suc, ◌≤◌, ◌<◌, ◌≡◌, refl, ◌≢◌, Bool, true, false, List, [], ◌∷◌, ◌++◌, arith, Option, none,
  some, Outcome, done, fail, ℤ, pos, ◌-ℤ◌, ◌<ℤ◌, int_max, length, replicate, All, Double, IsOrdered,
  IsNumber,
}
use bigpipe_cpp.Proto.Reqmsg.{RequestMessage}
use bigpipe_cpp.Health.{is_healthy}
use bigpipe_cpp.Breaker.{CircuitBreaker, Poll, circuit_break}
use bigpipe_cpp.Breaker.Lockout.{is_break-locked}
use bigpipe_cpp.RateLimit.{TokenBucket, refilled}
use bigpipe_cpp.RateLimit.Fill.{get_token-passes, spent}
use bigpipe_cpp.Client.{
  AsyncClient, HttpRequest, Answer, status_code, Progress, returned, awaiting_breaker,
  build_request, call_once, call_with_retry, wait_for_breaker, limited, waited, gated, and_then,
}
use bigpipe_cpp.Client.Retry.{AllFailed, refusals, retry_loop-succeeds}

module _ {W : Type 0} ⦃d : Double W⦄ where
  abbrev Locked : CircuitBreaker W → List Poll → Type 0
  Locked b = All λ p. p.now -ℤ b.break_time <ℤ b.break_period

  wait_for_breaker-refused :
      (ps : List Poll) (b : CircuitBreaker W)
      → b.status ≡ circuit_break
      → Locked b ps
      → (b' : CircuitBreaker W) × (wait_for_breaker ps b ≡ done (b', false))
  unfolding wait_for_breaker
  wait_for_breaker-refused [] b e h = (b, refl)
  wait_for_breaker-refused (p ∷ ps) b e h =
      let next : CircuitBreaker W = record b {
        health_stats = (is_healthy p.health_now b.health_stats).0;
      } in
      let (b', rest) = wait_for_breaker-refused ps next e h.1 in
      (b', rw (is_break-locked p b e h.0, rest))

  -- While the breaker is in its period of BREAK a call sends nothing: it is still asleep after any
  -- number of polls in that period.
  pub call_once-locked :
      (ps : List Poll) (now : ℤ) (answers : List Answer) (msg : RequestMessage) (c : AsyncClient W)
      (b : CircuitBreaker W)
      → c.circuit_breaker ≡ some b
      → b.status ≡ circuit_break
      → All (λ p. p.now -ℤ b.break_time <ℤ b.break_period) ps
      → (b' : CircuitBreaker W) × (call_once ps now answers msg c
          ≡ (awaiting_breaker (record c { circuit_breaker = some b' }), []))
  unfolding call_once
  call_once-locked ps now answers msg c b e broken h =
      let (b', waits) = wait_for_breaker-refused ps b broken h in (b', rw (e, gated, waits))

  abbrev Unsent : Progress (AsyncClient W) × List HttpRequest → Type 0
  Unsent p = (p.1 ≡ []) × ((c' : AsyncClient W) → p.0 ≢ returned c')

  limited-none :
      (l : Option (TokenBucket W)) (now : ℤ) (answers : List Answer) (msg : RequestMessage)
      (c : AsyncClient W)
      → l ≡ none
      → Unsent (limited l now answers msg c)
  limited-none none now answers msg c e = (refl, λ c' h. cc)
  limited-none (some t) now answers msg c e = cc

  waited_unlimited :
      (r : Outcome (CircuitBreaker W × Bool)) (now : ℤ) (answers : List Answer)
      (msg : RequestMessage) (c : AsyncClient W)
      → c.rate_limit ≡ none
      → Unsent (and_then r (waited now answers msg c))
  waited_unlimited (fail e) now answers msg c h = (refl, λ c' k. cc)
  waited_unlimited (done (b, true)) now answers msg c h =
      limited-none c.rate_limit now answers msg _ h
  waited_unlimited (done (b, false)) now answers msg c h = (refl, λ c' k. cc)

  gated_unlimited :
      (b : Option (CircuitBreaker W)) (ps : List Poll) (now : ℤ) (answers : List Answer)
      (msg : RequestMessage) (c : AsyncClient W)
      → c.rate_limit ≡ none
      → Unsent (gated b ps now answers msg c)
  gated_unlimited none ps now answers msg c h = limited-none c.rate_limit now answers msg c h
  gated_unlimited (some b) ps now answers msg c h =
      waited_unlimited (wait_for_breaker ps b) now answers msg c h

  -- Without a limiter a call never comes to a request, and never returns.
  pub call_once-unlimited :
      (ps : List Poll) (now : ℤ) (answers : List Answer) (msg : RequestMessage) (c : AsyncClient W)
      → c.rate_limit ≡ none
      → ((call_once ps now answers msg c).1 ≡ [])
        × ((c' : AsyncClient W) → (call_once ps now answers msg c).0 ≢ returned c')
  unfolding call_once
  call_once-unlimited ps now answers msg c e =
      gated_unlimited c.circuit_breaker ps now answers msg c e

  -- With a limiter that holds at least one token when full and whose sums are numbers, no breaker, and
  -- a budget of 0 or more that is not the largest `int`, a call that is refused any number of times
  -- (up to the range of the round counter) and then answered with 200 sends one request for each
  -- refusal and one more, and returns.
  pub call_once-succeeds :
      ⦃o : IsOrdered W⦄
      → (ps : List Poll) (now told : ℤ) (fs : List (ℤ × ℤ)) (answers : List Answer)
        (msg : RequestMessage) (c : AsyncClient W) (t : TokenBucket W) (n : ℕ)
      → c.retries ≡ pos n
      → n < int_max
      → c.circuit_breaker ≡ none
      → c.rate_limit ≡ some t
      → d.le (d.of_int (pos 1)) t.capacity ≡ true
      → IsNumber t.capacity
      → IsNumber (refilled now t)
      → AllFailed fs
      → length fs ≤ int_max
      → call_once ps now (refusals fs ++ status_code (pos 200) told ∷ answers) msg c ≡ (
        returned (record c { rate_limit = some (spent (pos 1) now t) }),
        replicate (suc (length fs)) (build_request msg),
      )
  unfolding call_once call_with_retry
  call_once-succeeds ps now told fs answers msg c t n retries fits unguarded limiter one full num
        failed few =
      rw (unguarded, gated, limiter, limited, get_token-passes (pos 1) now t one full num)
        (retry_loop-succeeds msg
          (record c { rate_limit = some (spent (pos 1) now t); circuit_breaker = none }) n retries
          fits refl fs told answers 0 failed (omega arith))
