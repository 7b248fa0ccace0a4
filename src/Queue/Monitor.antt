-- ===== src/Queue/Monitor.antt =====
-- Threads that call put and take of one BoundedBlockingQueue, interleaved at the lock: a critical
-- section is one step. A thread that waits on a condition variable goes on when it is notified, or
-- for no reason (a spurious wakeup). Which of the waiting threads notify_one wakes is part of the
-- event. `accepted` and `delivered` record what went in and what came out.
pub mod Fifo
pub mod Notify
pub mod Covered
pub mod Producers
pub mod Consumers
pub mod Lone
pub mod Roles
pub mod Takers
pub mod Origin
pub mod Puts
pub mod Supply
pub mod Jammed
use bigpipe_cpp.Base.{
  ℕ, zero, suc, Bool, true, false, ltb, List, [], ◌∷◌, ◌++◌, Option, none, some, update, ℕ_discrete,
  if◌then◌else◌,
}
use bigpipe_cpp.Queue.Ring.{CircularBuffer}
use bigpipe_cpp.Queue.{Section, waits, leaves, put_section, take_section, new_queue}

pub data Pc (A : Type 0) : Type 0 where
  outside : Pc A
  putting : A → Pc A  -- wants the lock, in put
  put_waiting : A → Pc A  -- in notFull_.wait
  taking : Pc A  -- wants the lock, in take
  take_waiting : Pc A  -- in notEmpty_.wait

pub record System (A B : Type 0) : Type 0 where
  pub ring : B
  pub pc : ℕ → Pc A
  pub accepted : List A
  pub delivered : List A

-- `enter i w`: thread `i` runs its critical section, and a notify_one prefers thread `w`.
pub data Event (A : Type 0) : Type 0 where
  call_put : (i : ℕ) → A → Event A
  call_take : (i : ℕ) → Event A
  enter : (i w : ℕ) → Event A
  spurious : (i : ℕ) → Event A

module _ {A : Type 0} where
  -- Where a thread goes on that waits for notFull_, and for notEmpty_.
  abbrev pub not_full : Pc A → Option (Pc A)
  not_full (put_waiting x) = some (putting x)
  not_full _ = none

  abbrev pub not_empty : Pc A → Option (Pc A)
  not_empty take_waiting = some taking
  not_empty _ = none

  abbrev wake : Option (Pc A) → ℕ → (ℕ → Pc A) → (ℕ → Pc A) → ℕ → Pc A
  wake none i pc otherwise = otherwise
  wake (some p) i pc otherwise = update pc i p

  -- Wakes the last of the first `n` threads that waits, if there is one.
  unfoldable pub notify_any : (Pc A → Option (Pc A)) → ℕ → (ℕ → Pc A) → ℕ → Pc A
  notify_any wakes zero pc = pc
  notify_any wakes (suc n) pc = wake (wakes (pc n)) n pc (notify_any wakes n pc)

  -- notify_one: thread `w` if it waits, and otherwise any that does.
  unfoldable pub notify_one : (Pc A → Option (Pc A)) → ℕ → ℕ → (ℕ → Pc A) → ℕ → Pc A
  notify_one wakes n w pc =
      if ltb w n then wake (wakes (pc w)) w pc (notify_any wakes n pc) else notify_any wakes n pc

module _ {A B : Type 0} (r : CircularBuffer A B) (n : ℕ) where
  unfoldable pub start : ℕ → System A B
  unfolding new_queue
  start max_size = record {
    ring = new_queue r max_size;
    pc = λ _. outside;
    accepted = [];
    delivered = [];
  }

  abbrev pub after_put : ℕ → ℕ → A → System A B → Section (B × Bool) → System A B
  after_put i w x s waits = record s { pc = update s.pc i (put_waiting x) }
  after_put i w x s (leaves (ring, notify)) =
      let left = update s.pc i outside in
      record s {
        ring = ring;
        pc = if notify then notify_one not_empty n w left else left;
        accepted = s.accepted ++ x ∷ [];
      }

  abbrev pub after_take : ℕ → ℕ → System A B → Section (B × A) → System A B
  after_take i w s waits = record s { pc = update s.pc i take_waiting }
  after_take i w s (leaves (ring, x)) = record s {
    ring = ring;
    pc = notify_one not_full n w (update s.pc i outside);
    delivered = s.delivered ++ x ∷ [];
  }

  abbrev pub run_section : ℕ → ℕ → System A B → Pc A → System A B
  run_section i w s (putting x) = after_put i w x s (put_section r x s.ring)
  run_section i w s taking = after_take i w s (take_section r s.ring)
  run_section i w s _ = s

  abbrev pub begin : ℕ → Pc A → System A B → Pc A → System A B
  begin i p s outside = record s { pc = update s.pc i p }
  begin i p s _ = s

  abbrev pub resume : ℕ → System A B → Pc A → System A B
  resume i s (put_waiting x) = record s { pc = update s.pc i (putting x) }
  resume i s take_waiting = record s { pc = update s.pc i taking }
  resume i s _ = s

  -- An event of a thread that cannot make it changes nothing.
  unfoldable pub step : Event A → System A B → System A B
  step (call_put i x) s = if ltb i n then begin i (putting x) s (s.pc i) else s
  step (call_take i) s = if ltb i n then begin i taking s (s.pc i) else s
  step (enter i w) s = if ltb i n then run_section i w s (s.pc i) else s
  step (spurious i) s = if ltb i n then resume i s (s.pc i) else s

  unfoldable pub run : List (Event A) → System A B → System A B
  run [] s = s
  run (e ∷ es) s = run es (step e s)
