-- ===== src/Consumer/Calls/Tests.antt =====
-- A message that is destroyed before the worker has read it.
use bigpipe_cpp.Base.{
  ◌≡◌, refl, List, [], ◌∷◌, Option, some, fail, dangling_reference, ℤ, ℕ, ℕ_discrete,
}
use bigpipe_cpp.Folly.{Folly}
use bigpipe_cpp.Folly.Json.{Json, text, obj, field, end, json_over}
use bigpipe_cpp.Proto.{Files, read_file}
use bigpipe_cpp.Queue.Ring.{ListRing, list_ring}
use bigpipe_cpp.Queue.{put_section, take_section}
use bigpipe_cpp.Queue.Monitor
use bigpipe_cpp.Queue.Monitor.{notify_one, notify_any}
use bigpipe_cpp.Pool.{busy, loop_test, enter_section, new_pool}
use bigpipe_cpp.Pool
use bigpipe_cpp.Proto.Reqmsg.{from_json, read_headers}
use bigpipe_cpp.Consumer.{payload}
use bigpipe_cpp.Consumer.Calls.{
  Calls, CallsEvent, consume, call_returns, pool_step, read_message, async_call, start_calls, step,
  run,
}
use bigpipe_cpp.Consumer.Calls
use bigpipe_cpp.Consumer.Calls.Sound.{IsSound, run-start_calls-IsSound, read_message-dangling}

abbrev folly : Folly Json ℤ
folly = json_over (
    (
      "{\"url\":\"u\",\"data\":\"d\",\"headers\":{}}",
      obj (field "url" (text "u") (field "data" (text "d") (field "headers" (obj end) end))),
    )
    ∷ [])

-- The payload is the name of the file that is read.
abbrev files : Files
files name = some "{\"url\":\"u\",\"data\":\"d\",\"headers\":{}}"

-- The one worker takes the task after the thread of ConsumeLoop has come back from AsyncCall.
abbrev late_worker : List CallsEvent
late_worker =
    Calls.loop_test
    ∷ consume (payload "message")
    ∷ pool_step (enter_section 1 0)
    ∷ call_returns
    ∷ pool_step (loop_test 0)
    ∷ pool_step (enter_section 0 0)
    ∷ []

abbrev late : Calls (ListRing (Option ℕ))
late = run folly files list_ring late_worker (start_calls list_ring 1)

-- The worker runs the task of round 0.
late_busy : (late.pool.worker 0 ≡ busy) × (late.pool.queue.delivered ≡ some 0 ∷ [])
unfolding run step start_calls async_call new_pool Pool.start Pool.step Monitor.step Monitor.start
    put_section take_section notify_one notify_any ℕ_discrete from_json read_headers read_file
late_busy = (refl, refl)

run-start_calls-IsSound_example : IsSound list_ring late
run-start_calls-IsSound_example = run-start_calls-IsSound folly files list_ring 1 late_worker

read_message-dangling_example : read_message late 0 ≡ fail dangling_reference
unfolding run step start_calls async_call new_pool Pool.start Pool.step Monitor.step Monitor.start
    put_section take_section notify_one notify_any ℕ_discrete from_json read_headers read_file
read_message-dangling_example =
    read_message-dangling folly files list_ring 1 late_worker late 0 refl refl
