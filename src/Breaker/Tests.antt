-- ===== src/Breaker/Tests.antt =====
-- CircuitBreaker, made by hand and made by its constructor.
use bigpipe_cpp.Base.{
  ℕ, ◌≡◌, refl, true, false, [], ◌∷◌, done, fail, back_of_empty, arith, ℤ, pos, ◌-ℤ◌, ◌+ℤ◌,
  millionths,
}
use bigpipe_cpp.Health.{update_buckets, is_healthy, verdict, total_success, total_fail}
use bigpipe_cpp.Breaker.{
  CircuitBreakerConf, circuit_normal, circuit_break, CircuitBreaker, Poll, new_breaker, on_success,
  on_fail, switch, is_break, poll_all,
}
use bigpipe_cpp.Breaker.Transitions.{Answers, is_break-Answers}
use bigpipe_cpp.Breaker.Lockout.{poll_all-locked}
use bigpipe_cpp.Breaker.Fresh.{built, Reached-never_breaks}

abbrev conf : CircuitBreakerConf ℤ
conf = record {
  break_period = pos 10;
  recover_period = pos 20;
  win_size = pos 3;
  min_stats = pos 5;
  health_rate = pos 900000;
}

-- Broken at time 50, with no calls in the window.
abbrev broken : CircuitBreaker ℤ
broken = record {
  health_stats = record {
    max_buckets = pos 3;
    buckets = [];
    update_time = pos 50;
    bucket_thresh = pos 5;
    health_thresh = pos 900000;
  };
  status = circuit_break;
  break_time = pos 50;
  break_period = pos 10;
  recover_period = pos 20;
}

-- The same with ten failures in the window, and not broken.
abbrev failing : CircuitBreaker ℤ
failing = record broken {
  health_stats = record broken.health_stats {
    buckets = record { n_success = pos 0; n_fail = pos 10 } ∷ [];
  };
  status = circuit_normal;
}

abbrev poll_at : ℕ → Poll
poll_at t = record { now = pos t; health_now = pos t; roll = 0 }

trips :
    is_break (pos 50) (pos 50) 0 failing
    ≡ done (record failing { status = circuit_break; break_time = pos 50 }, true)
unfolding is_break switch is_healthy update_buckets verdict total_success total_fail ◌-ℤ◌ ◌+ℤ◌
trips = refl

is_break-Answers_example :
    Answers (pos 50) failing (record failing { status = circuit_break; break_time = pos 50 }) true
is_break-Answers_example =
    is_break-Answers (pos 50) (pos 50) 0 failing
      (record failing { status = circuit_break; break_time = pos 50 }) true trips

poll_all-locked_example :
    (c' : CircuitBreaker ℤ) × (poll_all (poll_at 51 ∷ poll_at 59 ∷ []) broken
      ≡ done (c', true ∷ true ∷ []))
    × (c'.status ≡ circuit_break)
    × (c'.break_time ≡ pos 50)
unfolding ◌-ℤ◌
poll_all-locked_example = poll_all-locked (poll_at 51 ∷ poll_at 59 ∷ []) broken refl (omega arith)

Reached-never_breaks_example :
    (on_success (pos 5) (new_breaker conf (pos 0)) ≡ fail back_of_empty)
    × (on_fail (pos 5) (new_breaker conf (pos 0)) ≡ fail back_of_empty)
    × ((c' : CircuitBreaker ℤ) × (poll_all (poll_at 1 ∷ poll_at 9 ∷ []) (new_breaker conf (pos 0))
          ≡ done (c', false ∷ false ∷ [])))
Reached-never_breaks_example =
    Reached-never_breaks (built conf (pos 0)) (pos 5) (poll_at 1 ∷ poll_at 9 ∷ [])
