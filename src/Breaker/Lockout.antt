-- ===== src/Breaker/Lockout.antt =====
-- A breaker in BREAK, and the way back to NORMAL.
use bigpipe_cpp.Base.{
  ◌≡◌, refl, true, List, [], ◌∷◌, arith, done, ◌-ℤ◌, ◌<ℤ◌, length, replicate, All, Double,
}
use bigpipe_cpp.Health.{is_healthy}
use bigpipe_cpp.Breaker.{circuit_break, CircuitBreaker, Poll, switch, is_break, poll_all}

module _ {W : Type 0} ⦃d : Double W⦄ where
  pub is_break-locked :
      (p : Poll) (c : CircuitBreaker W)
      → c.status ≡ circuit_break
      → p.now -ℤ c.break_time <ℤ c.break_period
      → is_break p.now p.health_now p.roll c
        ≡ done (record c { health_stats = (is_healthy p.health_now c.health_stats).0 }, true)
  unfolding is_break switch
  is_break-locked p c e h = rw (e, switch) (ground arith)

  -- While the period of a break lasts every call is refused, whatever the statistics say, and the
  -- breaker stays in the same break.
  pub poll_all-locked :
      (ps : List Poll) (c : CircuitBreaker W)
      → c.status ≡ circuit_break
      → All (λ p. p.now -ℤ c.break_time <ℤ c.break_period) ps
      → (c' : CircuitBreaker W) × (poll_all ps c ≡ done (c', replicate (length ps) true))
        × (c'.status ≡ circuit_break)
        × (c'.break_time ≡ c.break_time)
  unfolding poll_all
  poll_all-locked [] c e h = (c, refl, e, refl)
  poll_all-locked (p ∷ ps) c e h =
      let rest =
        poll_all-locked ps (record c { health_stats = (is_healthy p.health_now c.health_stats).0 })
          e h.1 in
      (rest.0, rw (is_break-locked p c e h.0, rest.1), rest.2, rest.3)
