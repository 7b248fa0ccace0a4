-- ===== src/Breaker/Transitions.antt =====
-- The state machine of IsBreak.
use bigpipe_cpp.Base.{ℕ, ◌≡◌, refl, ◌≢◌, Bool, true, false, arith, done, add_int, ℤ, Double}
use bigpipe_cpp.Health.{is_healthy}
use bigpipe_cpp.Breaker.{
  CircuitStatus, circuit_none, circuit_normal, circuit_break, circuit_recover, CircuitBreaker,
  recovering, switch, is_break,
}

-- The moves of the status that the breaker is meant to make, and no others.
abbrev pub is_edge : CircuitStatus → CircuitStatus → Bool
is_edge circuit_none circuit_none = true
is_edge circuit_normal circuit_normal = true
is_edge circuit_normal circuit_break = true
is_edge circuit_break circuit_break = true
is_edge circuit_break circuit_recover = true
is_edge circuit_recover circuit_recover = true
is_edge circuit_recover circuit_break = true
is_edge circuit_recover circuit_normal = true
is_edge _ _ = false

-- What a call made at `now` may do to a breaker, and answer.
pub record Answers {W : Type 0} (now : ℤ) (c c' : CircuitBreaker W) (refused : Bool) : Type 0 where
  pub edge : is_edge c.status c'.status ≡ true
  pub refused_in_break : c'.status ≡ circuit_break → refused ≡ true
  pub passed_in_normal : c'.status ≡ circuit_normal → refused ≡ false
  pub stamped : c.status ≢ circuit_break → c'.status ≡ circuit_break → c'.break_time ≡ now
  pub kept : c'.status ≢ circuit_break → c'.break_time ≡ c.break_time
  pub held : c.status ≡ circuit_break → c'.break_time ≡ c.break_time

module _ {W : Type 0} ⦃d : Double W⦄ where
  switch-Answers :
      (s : CircuitStatus) (healthy : Bool) (now : ℤ) (roll : ℕ) (c : CircuitBreaker W)
      {c' : CircuitBreaker W} {b : Bool}
      → c.status ≡ s
      → switch s healthy now roll c ≡ done (c', b)
      → Answers now c c' b
  unfolding switch recovering add_int
  switch-Answers circuit_none healthy now roll c e h = ground arith
  switch-Answers _ healthy now roll c e h = ground arith

  -- Every call of IsBreak that returns moves the status along an edge of the machine. It refuses in
  -- BREAK and passes in NORMAL. The time of the break is the time of the call that enters BREAK, and
  -- stays as it is while BREAK lasts and whenever the call does not end in BREAK.
  pub is_break-Answers :
      (now health_now : ℤ) (roll : ℕ) (c c' : CircuitBreaker W) (b : Bool)
      → is_break now health_now roll c ≡ done (c', b)
      → Answers now c c' b
  unfolding is_break
  is_break-Answers now health_now roll c c' b h = ground (
    arith,
    switch-Answers c.status (is_healthy health_now c.health_stats).1.0 now roll
        (record c { health_stats = (is_healthy health_now c.health_stats).0 }) {c' = c'} {b = b}
        refl h,
  )
