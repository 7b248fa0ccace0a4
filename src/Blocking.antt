-- ===== src/Blocking.antt =====
-- base/BlockingQueue.hpp, class BlockingQueue: a std::deque behind a lock and one condition variable.
-- Threads, their calls and the choice of notify_one are those of Queue.Monitor.
pub mod Order
pub mod Wakeups
mod Tests
use bigpipe_cpp.Base.{ℕ, Bool, ltb, List, [], ◌∷◌, ◌++◌, update, length, if◌then◌else◌}
use bigpipe_cpp.Queue.{Section, waits, leaves}
use bigpipe_cpp.Queue.Monitor.{
  Pc, outside, putting, put_waiting, taking, take_waiting, System, Event, call_put, call_take,
  enter, spurious, not_empty, notify_one,
}

module _ {A : Type 0} where
  -- put: push, then notify; the two overloads have one body.
  unfoldable pub put_back : A → List A → List A
  put_back x items = items ++ x ∷ []

  -- take: wait while empty, then pop.
  unfoldable pub take_front : List A → Section (List A × A)
  take_front [] = waits
  take_front (x ∷ items) = leaves (items, x)

  unfoldable pub deque_size : List A → ℕ
  deque_size items = length items

module _ {A : Type 0} (n : ℕ) where
  unfoldable pub start : System A (List A)
  start = record { ring = []; pc = λ _. outside; accepted = []; delivered = [] }

  abbrev pub after_put : ℕ → ℕ → A → System A (List A) → System A (List A)
  after_put i w x s = record s {
    ring = put_back x s.ring;
    pc = notify_one not_empty n w (update s.pc i outside);
    accepted = s.accepted ++ x ∷ [];
  }

  abbrev pub after_take : ℕ → System A (List A) → Section (List A × A) → System A (List A)
  after_take i s waits = record s { pc = update s.pc i take_waiting }
  after_take i s (leaves (items, x)) = record s {
    ring = items;
    pc = update s.pc i outside;
    delivered = s.delivered ++ x ∷ [];
  }

  abbrev pub run_section : ℕ → ℕ → System A (List A) → Pc A → System A (List A)
  run_section i w s (putting x) = after_put i w x s
  run_section i w s taking = after_take i s (take_front s.ring)
  run_section i w s _ = s

  abbrev pub begin : ℕ → Pc A → System A (List A) → Pc A → System A (List A)
  begin i p s outside = record s { pc = update s.pc i p }
  begin i p s _ = s

  abbrev pub resume : ℕ → System A (List A) → Pc A → System A (List A)
  resume i s take_waiting = record s { pc = update s.pc i taking }
  resume i s _ = s

  -- An event of a thread that cannot make it changes nothing.
  unfoldable pub step : Event A → System A (List A) → System A (List A)
  unfolding put_back take_front
  step (call_put i x) s = if ltb i n then begin i (putting x) s (s.pc i) else s
  step (call_take i) s = if ltb i n then begin i taking s (s.pc i) else s
  step (enter i w) s = if ltb i n then run_section i w s (s.pc i) else s
  step (spurious i) s = if ltb i n then resume i s (s.pc i) else s

  unfoldable pub run : List (Event A) → System A (List A) → System A (List A)
  run [] s = s
  run (e ∷ es) s = run es (step e s)
