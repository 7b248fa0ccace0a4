-- ===== src/Signal/Tests.antt =====
-- An interrupt before the wait, and none after it.
use bigpipe_cpp.Base.{◌≡◌, refl, [], ◌∷◌}
use bigpipe_cpp.Signal.{waiting, hook, begin_wait, interrupt, start, run}
use bigpipe_cpp.Signal.Wait.{wait-ends}

wait-ends_example : (run (hook ∷ interrupt ∷ begin_wait ∷ hook ∷ []) start).waiter ≡ waiting
wait-ends_example = wait-ends (interrupt ∷ []) (hook ∷ []) (refl, tt)
