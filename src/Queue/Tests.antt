-- ===== src/Queue/Tests.antt =====
-- Three threads on a queue of two elements, over a circular buffer that is a list.
use bigpipe_cpp.Base.{
  ℕ, zero, suc, ◌<◌, ◌≡◌, refl, ◌≢◌, ◌⊎◌, Bool, false, List, [], ◌∷◌, arith, ℕ_discrete,
}
use bigpipe_cpp.Queue.Ring.{ListRing, list_ring, list_ring-laws}
use bigpipe_cpp.Queue.{waits, leaves, put_section, take_section}
use bigpipe_cpp.Queue.Laws.{put_section_lem, take_section_lem}
use bigpipe_cpp.Queue.Monitor.{
  outside, take_waiting, System, Event, call_put, call_take, enter, spurious, notify_one,
  notify_any, start, step, run,
}
use bigpipe_cpp.Queue.Monitor.Fifo.{IsFifo, run-start-IsFifo}
use bigpipe_cpp.Queue.Monitor.Covered.{coming}
use bigpipe_cpp.Queue.Monitor.Producers.{waiting_producer-coming}
use bigpipe_cpp.Queue.Monitor.Lone.{IsLone, run-start-IsLone}
use bigpipe_cpp.Queue.Monitor.Consumers.{takes, IsForgotten, run-IsForgotten}

abbrev ring : ListRing ℕ
ring = record { items = 7 ∷ []; room = 2 }

put_in_room :
    ((put_section list_ring 8 ring ≡ waits) × (◌≡◌ {A = ℕ} 1 2))
    ⊎ ((ring' : ListRing ℕ) × (notify : Bool) × (put_section list_ring 8 ring
          ≡ leaves (ring', notify))
        × (◌≢◌ {A = ℕ} 1 2)
        × (ring'.items ≡ 7 ∷ 8 ∷ [])
        × (ring'.room ≡ 2)
        × (notify ≡ false))
put_in_room = put_section_lem list_ring-laws 8 ring

take_of_one :
    ((take_section list_ring ring ≡ waits) × (◌≡◌ {A = List ℕ} (7 ∷ []) []))
    ⊎ ((ring' : ListRing ℕ) × (x : ℕ) × (take_section list_ring ring ≡ leaves (ring', x))
        × (7 ∷ [] ≡ x ∷ ring'.items)
        × (ring'.room ≡ 2))
take_of_one = take_section_lem list_ring-laws ring

-- Threads 0 and 1 wait in take, then thread 2 puts twice before thread 0 takes.
abbrev lost : List (Event ℕ)
lost =
    call_take 0
    ∷ enter 0 0
    ∷ call_take 1
    ∷ enter 1 0
    ∷ call_put 2 7
    ∷ enter 2 0
    ∷ call_put 2 8
    ∷ enter 2 0
    ∷ enter 0 0
    ∷ []

abbrev after_lost : System ℕ (ListRing ℕ)
after_lost = run list_ring 3 lost (start list_ring 3 2)

-- One element is left, and thread 1 sleeps: nobody will wake it.
lost_wakeup :
    (after_lost.ring.items ≡ 8 ∷ [])
    × (after_lost.delivered ≡ 7 ∷ [])
    × (after_lost.pc 1 ≡ take_waiting)
    × (after_lost.pc 0 ≡ outside)
unfolding run step start put_section take_section notify_one notify_any ℕ_discrete
lost_wakeup = (refl, refl, refl, refl)

run-start-IsFifo_example : IsFifo list_ring-laws 2 after_lost
run-start-IsFifo_example = run-start-IsFifo list_ring-laws 3 2 lost

-- Thread 1 waits in put on a full queue of one element, and thread 0 has just taken it.
abbrev woken : List (Event ℕ)
woken =
    call_put 1 7
    ∷ enter 1 0
    ∷ call_put 1 8
    ∷ enter 1 0
    ∷ call_put 2 9
    ∷ enter 2 0
    ∷ call_take 0
    ∷ enter 0 1
    ∷ []

waiting_producer-coming_example :
    (i : ℕ) × (i < 3) × (0 < coming ((run list_ring 3 woken (start list_ring 3 1)).pc i))
unfolding run step start put_section take_section notify_one notify_any ℕ_discrete
waiting_producer-coming_example =
    waiting_producer-coming list_ring-laws 3 1 woken 2 (omega arith) refl (omega arith)

others_outside : (i : ℕ) → i ≢ 1 → takes (after_lost.pc i) ≡ false
unfolding run step start put_section take_section notify_one notify_any ℕ_discrete
others_outside zero h = refl
others_outside (suc zero) h = absurd (h refl)
others_outside (suc (suc zero)) h = refl
others_outside (suc (suc (suc i))) h = ground arith

forgotten : IsForgotten list_ring-laws 3 1 after_lost
unfolding run step start put_section take_section notify_one notify_any ℕ_discrete
forgotten = record { asleep = refl; stocked = omega arith; others = others_outside }

abbrev more_puts : List (Event ℕ)
more_puts = spurious 0 ∷ call_put 0 9 ∷ enter 0 1 ∷ call_put 2 10 ∷ enter 2 1 ∷ []

run-IsForgotten_example : IsForgotten list_ring-laws 3 1 (run list_ring 3 more_puts after_lost)
run-IsForgotten_example =
    run-IsForgotten list_ring-laws 3 1 more_puts after_lost
      (refl, (refl, (refl, (refl, (refl, tt))))) forgotten

-- Thread 0 alone takes, and the second put finds it asleep no more.
abbrev one_consumer : List (Event ℕ)
one_consumer =
    call_take 0 ∷ enter 0 0 ∷ call_put 1 7 ∷ enter 1 0 ∷ call_put 2 8 ∷ enter 2 0 ∷ enter 0 0 ∷ []

run-start-IsLone_example :
    IsLone list_ring-laws 3 0 (omega arith) (run list_ring 3 one_consumer (start list_ring 3 2))
run-start-IsLone_example =
    run-start-IsLone list_ring-laws 3 0 (omega arith) 2 one_consumer
      (refl, (refl, (refl, (refl, (refl, (refl, (refl, tt)))))))
