-- ===== src/Breaker/Fresh.antt =====
-- What the constructor of CircuitBreaker leads to.
use bigpipe_cpp.Base.{
  ℕ, ◌≡◌, refl, sym, subst, done-injective, ap, ◌∙◌, Bool, true, false, List, [], ◌∷◌, done, fail,
  back_of_empty, ℤ, pos, length, replicate, Double,
}
use bigpipe_cpp.Health.{is_healthy}
use bigpipe_cpp.Health.Fresh.{Reached-inert, made, asked}
use bigpipe_cpp.Health.Fresh as HealthFresh
use bigpipe_cpp.Breaker.{
  CircuitBreakerConf, circuit_normal, CircuitBreaker, Poll, new_breaker, on_success, on_fail,
  switch, is_break, poll_all,
}

module _ {W : Type 0} ⦃d : Double W⦄ where
  -- Any calls of IsBreak, OnSuccess and OnFail that return, after the constructor.
  pub data Reached : CircuitBreaker W → Type 0 where
    built : (conf : CircuitBreakerConf W) (now : ℤ) → Reached (new_breaker conf now)
    polled :
        (now health_now : ℤ) (roll : ℕ) (b : Bool) {c c' : CircuitBreaker W}
        → Reached c
        → is_break now health_now roll c ≡ done (c', b)
        → Reached c'
    succeeded :
        (now : ℤ) {c c' : CircuitBreaker W} → Reached c → on_success now c ≡ done c' → Reached c'
    failed : (now : ℤ) {c c' : CircuitBreaker W} → Reached c → on_fail now c ≡ done c' → Reached c'

  is_break-normal :
      (now health_now : ℤ) (roll : ℕ) (c : CircuitBreaker W)
      → c.status ≡ circuit_normal
      → (is_healthy health_now c.health_stats).1 ≡ (true, d.of_int (pos 1))
      → is_break now health_now roll c
        ≡ done (record c { health_stats = (is_healthy health_now c.health_stats).0 }, false)
  unfolding is_break switch
  is_break-normal now health_now roll c e well = rw (e, switch, well)

  records-crash :
      (now : ℤ) (c : CircuitBreaker W)
      → HealthFresh.Reached c.health_stats
      → (on_success now c ≡ fail back_of_empty) × (on_fail now c ≡ fail back_of_empty)
  unfolding on_success on_fail
  records-crash now c r = (rw ((Reached-inert now r).0), rw ((Reached-inert now r).1))

  abbrev IsIdle : CircuitBreaker W → Type 0
  IsIdle c = HealthFresh.Reached c.health_stats × (c.status ≡ circuit_normal)

  -- The statistics of a breaker are reachable too, and the status is NORMAL.
  Reached-IsIdle : {c : CircuitBreaker W} → Reached c → IsIdle c
  unfolding new_breaker is_healthy
  Reached-IsIdle (built conf now) = (made conf.win_size conf.min_stats now conf.health_rate, refl)
  Reached-IsIdle (polled now health_now roll b {c} {c'} r e) =
      let (h, n) = Reached-IsIdle r in
      subst IsIdle
        (ap (λ x. x.0)
          (done-injective
            (sym (is_break-normal now health_now roll c n (Reached-inert health_now h).2) ∙ e)))
        (asked health_now h, n)
  Reached-IsIdle (succeeded now {c} r e) = cc ((records-crash now c (Reached-IsIdle r).0).0)
  Reached-IsIdle (failed now {c} r e) = cc ((records-crash now c (Reached-IsIdle r).0).1)

  poll_all-passes :
      (ps : List Poll) (c : CircuitBreaker W)
      → IsIdle c
      → (c' : CircuitBreaker W) × (poll_all ps c ≡ done (c', replicate (length ps) false))
  unfolding poll_all is_healthy
  poll_all-passes [] c h = (c, refl)
  poll_all-passes (p ∷ ps) c h =
      let first =
        is_break-normal p.now p.health_now p.roll c h.1 (Reached-inert p.health_now h.0).2 in
      let (last, rest) =
        poll_all-passes ps (record c { health_stats = (is_healthy p.health_now c.health_stats).0 })
          (asked p.health_now h.0, h.1) in
      (last, rw (first, rest))

  -- A breaker that was made by its constructor never breaks: after any calls that return, the
  -- recording of a success or a failure takes the back of an empty deque, and any row of calls of
  -- IsBreak, at any times, is answered with false throughout.
  pub Reached-never_breaks :
      {c : CircuitBreaker W}
      → Reached c
      → (now : ℤ) (ps : List Poll)
      → (on_success now c ≡ fail back_of_empty)
        × (on_fail now c ≡ fail back_of_empty)
        × ((c' : CircuitBreaker W) × (poll_all ps c ≡ done (c', replicate (length ps) false)))
  Reached-never_breaks {c} r now ps =
      let h = Reached-IsIdle r in
      let (s, f) = records-crash now c h.0 in (s, f, poll_all-passes ps c h)
