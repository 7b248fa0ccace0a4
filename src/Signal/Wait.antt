-- ===== src/Signal/Wait.antt =====
-- Which signals end the wait.
use bigpipe_cpp.Base.{
  ◌≡◌, refl, ◌∙◌, ap, Bool, true, false, List, [], ◌∷◌, ◌++◌, All, if◌then◌else◌,
}
use bigpipe_cpp.Signal.{
  Waiter, running, waiting, resumed, Signals, SignalEvent, hook, begin_wait, interrupt, wake_up,
  start, step, run,
}

abbrev pub is_wait : SignalEvent → Bool
is_wait begin_wait = true
is_wait _ = false

-- Whether one of the events ends a wait.
abbrev pub ends_wait : List SignalEvent → Bool
ends_wait [] = false
ends_wait (interrupt ∷ es) = true
ends_wait (wake_up ∷ es) = true
ends_wait (_ ∷ es) = ends_wait es

abbrev hooked_at : Waiter → Signals
hooked_at w = record { hooked = true; waiter = w }

-- Before the wait a signal finds nobody to wake.
run_early :
    (early : List SignalEvent) (es : List SignalEvent)
    → All (λ e. is_wait e ≡ false) early
    → run (early ++ es) (hooked_at running) ≡ run es (hooked_at running)
unfolding run step
run_early [] es h = refl
run_early (hook ∷ early) es h = run_early early es h.1
run_early (interrupt ∷ early) es h = run_early early es h.1
run_early (wake_up ∷ early) es h = run_early early es h.1
run_early (begin_wait ∷ early) es h = cc

run_resumed : (es : List SignalEvent) → (run es (hooked_at resumed)).waiter ≡ resumed
unfolding run step
run_resumed [] = refl
run_resumed (hook ∷ es) = run_resumed es
run_resumed (begin_wait ∷ es) = run_resumed es
run_resumed (interrupt ∷ es) = run_resumed es
run_resumed (wake_up ∷ es) = run_resumed es

run_late :
    (late : List SignalEvent)
    → (run late (hooked_at waiting)).waiter ≡ (if ends_wait late then resumed else waiting)
unfolding run step
run_late [] = refl
run_late (hook ∷ es) = run_late es
run_late (begin_wait ∷ es) = run_late es
run_late (interrupt ∷ es) = run_resumed es
run_late (wake_up ∷ es) = run_resumed es

-- Once SIGINT is hooked, the wait ends exactly if an interrupt, or a wakeup for no reason, comes after
-- it has begun: interrupts that came earlier, however many, are lost.
pub wait-ends :
    (early late : List SignalEvent)
    → All (λ e. is_wait e ≡ false) early
    → (run (hook ∷ early ++ begin_wait ∷ late) start).waiter
      ≡ (if ends_wait late then resumed else waiting)
unfolding run step
wait-ends early late h =
    ap (λ (s : Signals). s.waiter) (run_early early (begin_wait ∷ late) h) ∙ run_late late
