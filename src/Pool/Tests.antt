-- ===== src/Pool/Tests.antt =====
-- Two workers, and Stop.
use bigpipe_cpp.Base.{zero, suc, false, arith, ℕ, ◌<◌, ◌≡◌, refl, Option, List, [], ◌∷◌, ℕ_discrete}
use bigpipe_cpp.Queue.Ring.{ListRing, list_ring, list_ring-laws}
use bigpipe_cpp.Queue.{put_section, take_section}
use bigpipe_cpp.Queue.Monitor
use bigpipe_cpp.Queue.Monitor.{take_waiting, notify_one, notify_any}
use bigpipe_cpp.Pool.{
  Pool, PoolEvent, loop_test, enter_section, wake_up, task_returns, call_stop, join, put_task,
  exited, stopped, new_pool, start, step, run, pending_tasks, destroy,
}
use bigpipe_cpp.Queue.Monitor.Roles.{puts}
use bigpipe_cpp.Pool.Ending.{turn, run-start-turn}
use bigpipe_cpp.Pool.Joined.{run-stopped}
use bigpipe_cpp.Pool.Stuck.{IsStuck, run-IsStuck}

-- Both workers sleep in take. The empty task of Stop wakes worker 1, which exits.
abbrev wrong_worker : List (PoolEvent ℕ)
wrong_worker =
    loop_test 0
    ∷ enter_section 0 0
    ∷ loop_test 1
    ∷ enter_section 1 0
    ∷ call_stop
    ∷ enter_section 3 1
    ∷ enter_section 1 0
    ∷ task_returns 1
    ∷ loop_test 1
    ∷ []

abbrev deadlock : Pool ℕ (ListRing (Option ℕ))
deadlock = run list_ring wrong_worker (start list_ring (new_pool list_ring 20 2))

nobody_puts : (i : ℕ) → puts (deadlock.queue.pc i) ≡ false
unfolding run step new_pool start Monitor.step Monitor.start put_section take_section notify_one
    notify_any ℕ_discrete
nobody_puts zero = refl
nobody_puts (suc zero) = refl
nobody_puts (suc (suc zero)) = refl
nobody_puts (suc (suc (suc zero))) = refl
nobody_puts (suc (suc (suc (suc i)))) = ground arith

-- Stop joins worker 0, which nobody will wake.
deadlock-IsStuck : IsStuck list_ring-laws 0 deadlock
unfolding run step new_pool start Monitor.step Monitor.start put_section take_section notify_one
    notify_any ℕ_discrete
deadlock-IsStuck = record {
  joining = refl;
  taking = refl;
  stalled = record { in_take = refl; drained = refl; nobody = nobody_puts };
}

run-IsStuck_example :
    IsStuck list_ring-laws 0
      (run list_ring (join ∷ wake_up 0 ∷ enter_section 0 0 ∷ join ∷ []) deadlock)
run-IsStuck_example =
    run-IsStuck list_ring-laws 0 (join ∷ wake_up 0 ∷ enter_section 0 0 ∷ join ∷ []) deadlock
      (refl, (refl, (refl, (refl, tt)))) deadlock-IsStuck

-- The empty task is gone, and a destructor that comes now leaves the pool as it is.
nothing_pending : (pending_tasks list_ring deadlock ≡ 0) × (destroy list_ring deadlock ≡ deadlock)
unfolding run step new_pool start Monitor.step Monitor.start put_section take_section notify_one
    notify_any ℕ_discrete pending_tasks destroy
nothing_pending = (refl, refl)

-- One worker, which Stop wakes and joins; then a task is put.
abbrev one_worker : List (PoolEvent ℕ)
one_worker =
    loop_test 0
    ∷ enter_section 0 0
    ∷ call_stop
    ∷ enter_section 2 0
    ∷ enter_section 0 0
    ∷ task_returns 0
    ∷ loop_test 0
    ∷ join
    ∷ []

abbrev joined : Pool ℕ (ListRing (Option ℕ))
joined = run list_ring one_worker (start list_ring (new_pool list_ring 20 1))

abbrev too_late : List (PoolEvent ℕ)
too_late = put_task 7 ∷ enter_section 1 0 ∷ loop_test 0 ∷ enter_section 0 0 ∷ []

run-stopped_example :
    ((i : ℕ) → i < 1 → (run list_ring too_late joined).worker i ≡ exited)
    × ((run list_ring too_late joined).queue.delivered ≡ joined.queue.delivered)
unfolding run step new_pool start Monitor.step Monitor.start put_section take_section notify_one
    notify_any ℕ_discrete
run-stopped_example = run-stopped list_ring 1 20 one_worker too_late joined refl refl

-- The one worker sleeps in take, and the put of Stop has returned.
abbrev asleep : List (PoolEvent ℕ)
asleep = loop_test 0 ∷ enter_section 0 0 ∷ call_stop ∷ enter_section 2 0 ∷ []

abbrev joining : Pool ℕ (ListRing (Option ℕ))
joining = run list_ring asleep (start list_ring (new_pool list_ring 20 1))

run-start-turn_example : (step list_ring join (run list_ring (turn 0) joining)).stopper ≡ stopped
unfolding run step new_pool start Monitor.step Monitor.start put_section take_section notify_one
    notify_any ℕ_discrete
run-start-turn_example = run-start-turn list_ring-laws 20 asleep 0 joining refl refl refl
