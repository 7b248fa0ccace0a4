-- ===== src/Blocking/Tests.antt =====
-- Two consumers that wait, and a thread that puts twice.
use bigpipe_cpp.Base.{ℕ, ◌≡◌, refl, ◌<◌, List, [], ◌∷◌, arith, ℕ_discrete}
use bigpipe_cpp.Queue.Monitor.{System, Event, call_put, call_take, enter, notify_one, notify_any}
use bigpipe_cpp.Blocking.{deque_size, start, step, run, put_back, take_front}
use bigpipe_cpp.Blocking.Wakeups.{coming, waiting_consumer-coming}

abbrev two_puts : List (Event ℕ)
two_puts = call_take 0 ∷ enter 0 0 ∷ call_take 1 ∷ enter 1 0 ∷ call_put 2 7 ∷ enter 2 0 ∷ []

abbrev after : System ℕ (List ℕ)
after = run 3 two_puts (start 3)

waiting_consumer-coming_example : (i : ℕ) × (i < 3) × (0 < coming (after.pc i))
unfolding run step start put_back take_front notify_one notify_any ℕ_discrete
waiting_consumer-coming_example =
    waiting_consumer-coming 3 two_puts 1 (omega arith) refl (omega arith)

one_queued : after.ring ≡ 7 ∷ []
unfolding run step start put_back take_front notify_one notify_any ℕ_discrete
one_queued = refl

one_left : deque_size after.ring ≡ 1
unfolding run step start put_back take_front notify_one notify_any ℕ_discrete deque_size
one_left = refl
