-- ===== src/Queue/Monitor/Producers.antt =====
-- Producers that wait, and the free places.
use bigpipe_cpp.Base.{
  ℕ, ◌<◌, ◌≡◌, refl, subst, inl, inr, true, false, Bool-cases, List, [], ◌∷◌, arith, length,
  length-append, ltb, total-pos,
}
use bigpipe_cpp.Queue.Ring.{CircularBuffer, CircularBufferLaws}
use bigpipe_cpp.Queue.{put_section, take_section}
use bigpipe_cpp.Queue.Laws.{put_section_lem, take_section_lem}
use bigpipe_cpp.Queue.Monitor.{
  Pc, outside, putting, put_waiting, taking, take_waiting, System, Event, call_put, call_take,
  enter, spurious, start, after_put, after_take, run_section, begin, resume, step, run,
}
use bigpipe_cpp.Queue.Monitor.Fifo.{IsFifo, start-IsFifo, step-IsFifo}
use bigpipe_cpp.Queue.Monitor.Covered.{
  coming, is_blocked, Covered, moved_Covered, pushed_Covered, popped_Covered,
}

module _ {A B : Type 0} {r : CircularBuffer A B} (laws : CircularBufferLaws r)
    (n max_size : ℕ) where
  open laws use {contents}

  abbrev Awake : System A B → Type 0
  Awake s = Covered n max_size (length (contents s.ring)) s.pc

  after_put-Awake :
      (i w : ℕ) (x : A) (s : System A B)
      → i < n
      → s.pc i ≡ putting x
      → IsFifo laws max_size s
      → Awake s
      → Awake (after_put r n i w x s (put_section r x s.ring))
  after_put-Awake i w x s lt e fifo v = elim (put_section_lem laws x s.ring) [
    | inl (waited, full) ↦ rw waited (λ j in_n blocked. omega (arith, fifo.room))
    | inr (ring', notify, left, _, c, _, _) ↦
        rw (left, c, length-append) (pushed_Covered n max_size _ i w s.pc x notify lt e v)
  ]

  after_take-Awake :
      (i w : ℕ) (s : System A B)
      → i < n
      → s.pc i ≡ taking
      → Awake s
      → Awake (after_take r n i w s (take_section r s.ring))
  after_take-Awake i w s lt e v = elim (take_section_lem laws s.ring) [
    | inl (waited, _) ↦
        rw waited (moved_Covered n max_size _ i s.pc take_waiting lt (ground arith) refl v)
    | inr (ring', x, left, c, _) ↦ rw left (
        popped_Covered n max_size _ i w s.pc lt e
          (subst (λ xs. Covered n max_size (length xs) s.pc) c v))
  ]

  run_section-Awake :
      (i w : ℕ) (s : System A B) (p : Pc A)
      → i < n
      → s.pc i ≡ p
      → IsFifo laws max_size s
      → Awake s
      → Awake (run_section r n i w s p)
  run_section-Awake i w s (putting x) lt e fifo v = after_put-Awake i w x s lt e fifo v
  run_section-Awake i w s taking lt e fifo v = after_take-Awake i w s lt e v
  run_section-Awake i w s _ lt e fifo v = v

  begin-Awake :
      (i : ℕ) (q : Pc A) (s : System A B) (p : Pc A)
      → i < n
      → s.pc i ≡ p
      → is_blocked q ≡ false
      → Awake s
      → Awake (begin r n i q s p)
  begin-Awake i q s outside lt e free v =
      moved_Covered n max_size _ i s.pc q lt (ground arith) free v
  begin-Awake i q s _ lt e free v = v

  resume-Awake :
      (i : ℕ) (s : System A B) (p : Pc A) → i < n → s.pc i ≡ p → Awake s → Awake (resume r n i s p)
  resume-Awake i s (put_waiting x) lt e v =
      moved_Covered n max_size _ i s.pc (putting x) lt (ground arith) refl v
  resume-Awake i s take_waiting lt e v =
      moved_Covered n max_size _ i s.pc taking lt (ground arith) refl v
  resume-Awake i s _ lt e v = v

  step-Awake :
      (e : Event A) (s : System A B) → IsFifo laws max_size s → Awake s → Awake (step r n e s)
  unfolding step
  step-Awake (call_put i x) s fifo v = elim (Bool-cases (ltb i n)) [
    | inl lt ↦ rw lt (begin-Awake i (putting x) s (s.pc i) (ground arith) refl refl v)
    | inr ge ↦ rw ge v
  ]
  step-Awake (call_take i) s fifo v = elim (Bool-cases (ltb i n)) [
    | inl lt ↦ rw lt (begin-Awake i taking s (s.pc i) (ground arith) refl refl v)
    | inr ge ↦ rw ge v
  ]
  step-Awake (enter i w) s fifo v = elim (Bool-cases (ltb i n)) [
    | inl lt ↦ rw lt (run_section-Awake i w s (s.pc i) (ground arith) refl fifo v)
    | inr ge ↦ rw ge v
  ]
  step-Awake (spurious i) s fifo v = elim (Bool-cases (ltb i n)) [
    | inl lt ↦ rw lt (resume-Awake i s (s.pc i) (ground arith) refl v)
    | inr ge ↦ rw ge v
  ]

  run-Awake :
      (es : List (Event A)) (s : System A B)
      → IsFifo laws max_size s
      → Awake s
      → Awake (run r n es s)
  unfolding run
  run-Awake [] s fifo v = v
  run-Awake (e ∷ es) s fifo v =
      run-Awake es (step r n e s) (step-IsFifo laws n max_size e s fifo) (step-Awake e s fifo v)

  start-Awake : Awake (start r n max_size)
  unfolding start
  start-Awake i h b = cc

  -- No wakeup of a producer is lost, on any schedule from an empty queue: while a producer waits and
  -- there is room, some producer is on its way into its critical section.
  pub waiting_producer-coming :
      (es : List (Event A)) (j : ℕ)
      → j < n
      → is_blocked ((run r n es (start r n max_size)).pc j) ≡ true
      → length (contents (run r n es (start r n max_size)).ring) < max_size
      → (i : ℕ) × (i < n) × (0 < coming ((run r n es (start r n max_size)).pc i))
  waiting_producer-coming es j lt blocked room = total-pos coming n _ (
      omega (
        arith,
        run-Awake es (start r n max_size) (start-IsFifo laws n max_size) start-Awake j lt blocked,
      ))
