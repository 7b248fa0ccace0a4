-- ===== src/Signal.antt =====
-- base/SignalHandler.hpp, class SignalHandler, as main.cpp uses it: one thread that hooks SIGINT and
-- later waits, and the signals that arrive in between. A SIGINT that is not hooked ends the process.
pub mod Wait
mod Tests
use bigpipe_cpp.Base.{ℕ, Bool, true, false, ◌==◌, List, [], ◌∷◌, if◌then◌else◌}

abbrev pub sigint : ℕ
sigint = 2

-- Where the main thread is.
pub data Waiter : Type 0 where
  running : Waiter
  waiting : Waiter  -- in `cond_.wait`
  resumed : Waiter
  killed : Waiter

pub record Signals : Type 0 where
  pub hooked : Bool
  pub waiter : Waiter

pub data SignalEvent : Type 0 where
  hook : SignalEvent
  begin_wait : SignalEvent
  interrupt : SignalEvent  -- a SIGINT arrives
  wake_up : SignalEvent  -- the wait ends for no reason

abbrev pub start : Signals
start = record { hooked = false; waiter = running }

-- `cond_.notify_one()`: it reaches a thread that waits at that moment.
abbrev pub notify : Waiter → Waiter
notify waiting = resumed
notify w = w

unfoldable pub handle_user_interrupt : ℕ → Waiter → Waiter
handle_user_interrupt signo w = if signo == sigint then notify w else w

unfoldable pub hook_sigint : Signals → Signals
hook_sigint s = record s { hooked = true }

-- The wait has no predicate.
unfoldable pub wait_for_user_interrupt : Waiter → Waiter
wait_for_user_interrupt running = waiting
wait_for_user_interrupt w = w

unfoldable pub step : SignalEvent → Signals → Signals
unfolding handle_user_interrupt hook_sigint wait_for_user_interrupt
step hook s = hook_sigint s
step begin_wait s = record s { waiter = wait_for_user_interrupt s.waiter }
step interrupt s = record s {
  waiter = if s.hooked then handle_user_interrupt sigint s.waiter else killed;
}
step wake_up s = record s { waiter = notify s.waiter }

unfoldable pub run : List SignalEvent → Signals → Signals
run [] s = s
run (e ∷ es) s = run es (step e s)
