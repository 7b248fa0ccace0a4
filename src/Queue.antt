-- ===== src/Queue.antt =====
-- base/BoundedBlockingQueue.hpp: what put and take do while they hold the lock, over the circular
-- buffer of Boost, which is an interface. The two overloads of put have one body.
pub mod Ring
pub mod Laws
pub mod Monitor
mod Tests
use bigpipe_cpp.Base.{ℕ, Bool, true, false, ◌==◌, List, Option, none, some, if◌then◌else◌}
use Ring.{CircularBuffer}

-- The critical section ends in a wait on a condition variable, or with a result.
pub data Section (A : Type 0) : Type 0 where
  waits : Section A
  leaves : A → Section A

module _ {A B : Type 0} (r : CircularBuffer A B) where
  -- The constructor.
  unfoldable pub new_queue : ℕ → B
  new_queue max_size = r.make max_size

  -- put: wait while full, then push. The Bool says whether notEmpty_ is notified.
  unfoldable pub put_section : A → B → Section (B × Bool)
  put_section x ring =
      if r.full ring
      then waits
      else (let pushed = r.push_back x ring in leaves (pushed, r.size pushed == 1))

  -- The front of a buffer that is not empty, and the rest.
  abbrev taken : Option A → B → Section (B × A)
  taken none ring = waits
  taken (some front) ring = leaves (r.pop_front ring, front)

  -- take: wait while empty, then pop. notFull_ is always notified.
  unfoldable pub take_section : B → Section (B × A)
  take_section ring = if r.empty ring then waits else taken (r.front ring) ring

  unfoldable pub is_empty : B → Bool
  is_empty ring = r.empty ring

  unfoldable pub is_full : B → Bool
  is_full ring = r.full ring

  unfoldable pub queue_size : B → ℕ
  queue_size ring = r.size ring

  unfoldable pub queue_capacity : B → ℕ
  queue_capacity ring = r.capacity ring
