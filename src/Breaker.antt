-- ===== src/Breaker.antt =====
-- client/circuit_breaker.hpp, class CircuitBreaker, over the HealthStats of the same file. The lock
-- makes each method one step. What a method reads from outside is an argument: the times that it
-- asks `std::time` for, in the order of the calls, and the value of `rand()`.
pub mod Transitions
pub mod Lockout
pub mod Fresh
mod Tests
use bigpipe_cpp.Base.{
  ℕ, ◌%◌, Bool, true, false, not, ◌||◌, List, [], ◌∷◌, Outcome, done, ◌>>=◌, add_int, ℤ, pos, ◌-ℤ◌,
  ltb_ℤ, leb_ℤ, Double, if◌then◌else◌,
}
use bigpipe_cpp.Health.{HealthStats, new_stats, is_healthy, stats_on_success, stats_on_fail}

pub data CircuitStatus : Type 0 where
  circuit_none circuit_normal circuit_break circuit_recover : CircuitStatus

pub record CircuitBreakerConf (W : Type 0) : Type 0 where
  pub break_period : ℤ
  pub recover_period : ℤ
  pub win_size : ℤ
  pub min_stats : ℤ
  pub health_rate : W

pub record CircuitBreaker (W : Type 0) : Type 0 where
  pub health_stats : HealthStats W
  pub status : CircuitStatus
  pub break_time : ℤ
  pub break_period : ℤ
  pub recover_period : ℤ

module _ {W : Type 0} where
  unfoldable pub new_breaker : CircuitBreakerConf W → ℤ → CircuitBreaker W
  unfolding new_stats
  new_breaker conf now = record {
    health_stats = new_stats conf.win_size conf.min_stats conf.health_rate now;
    status = circuit_normal;
    break_time = pos 0;
    break_period = conf.break_period;
    recover_period = conf.recover_period;
  }

  unfoldable pub on_success : ℤ → CircuitBreaker W → Outcome (CircuitBreaker W)
  on_success now c = do
    h ← stats_on_success now c.health_stats
    done (record c { health_stats = h })

  unfoldable pub on_fail : ℤ → CircuitBreaker W → Outcome (CircuitBreaker W)
  on_fail now c = do h ← stats_on_fail now c.health_stats; done (record c { health_stats = h })

module _ {W : Type 0} ⦃d : Double W⦄ where
  -- The last case of the `switch`: a share of the calls passes, which grows with the time.
  unfoldable pub recovering : ℤ → ℕ → CircuitBreaker W → Outcome (CircuitBreaker W × Bool)
  recovering now roll c = do
    period ← add_int c.break_period c.recover_period
    let pass_percent = d.div (d.of_int (now -ℤ c.break_time)) (d.of_int period)
    done (
        if leb_ℤ period (now -ℤ c.break_time)
        then (record c { status = circuit_normal }, false)
        else (c, d.lt (d.mul pass_percent (d.of_int (pos 100))) (d.of_int (pos (roll % 100)))))

  -- The `switch`, on the status and on whether the statistics are healthy.
  unfoldable pub switch :
      CircuitStatus → Bool → ℤ → ℕ → CircuitBreaker W → Outcome (CircuitBreaker W × Bool)
  unfolding recovering
  switch circuit_none healthy now roll c = done (c, false)
  switch circuit_normal healthy now roll c = done (
      if not healthy
      then (record c { status = circuit_break; break_time = now }, true)
      else (c, false))
  switch circuit_break healthy now roll c = done (
      if ltb_ℤ (now -ℤ c.break_time) c.break_period || not healthy
      then (c, true)
      else (record c { status = circuit_recover }, false))
  switch circuit_recover healthy now roll c =
      if not healthy
      then done (record c { status = circuit_break; break_time = now }, true)
      else recovering now roll c

  -- IsBreak reads the clock twice: for the breaker, then inside IsHealthy.
  unfoldable pub is_break : ℤ → ℤ → ℕ → CircuitBreaker W → Outcome (CircuitBreaker W × Bool)
  is_break now health_now roll c =
      let health = is_healthy health_now c.health_stats in
      switch c.status health.1.0 now roll (record c { health_stats = health.0 })

-- One call of IsBreak: the two times and the value of `rand()`.
pub record Poll : Type 0 where
  pub now : ℤ
  pub health_now : ℤ
  pub roll : ℕ

module _ {W : Type 0} ⦃d : Double W⦄ where
  -- A row of calls, and what each answers. The source makes one in the loop of AsyncClient::Call.
  unfoldable pub poll_all : List Poll → CircuitBreaker W → Outcome (CircuitBreaker W × List Bool)
  poll_all [] c = done (c, [])
  poll_all (p ∷ ps) c = do
    (c', b) ← is_break p.now p.health_now p.roll c
    (last, bs) ← poll_all ps c'
    done (last, b ∷ bs)
