-- ===== src/Queue/Monitor/Consumers.antt =====
-- Consumers that wait, and what put does for them.
use bigpipe_cpp.Base.{
  ℕ, ◌<◌, ◌≡◌, refl, ◌∙◌, ◌≢◌, inl, inr, Bool, true, false, Bool-cases, List, [], ◌∷◌, arith,
  length, length-append, ltb, ◌==◌, not, ℕ_discrete, All,
}
use bigpipe_cpp.Queue.Ring.{CircularBuffer, CircularBufferLaws}
use bigpipe_cpp.Queue.{put_section}
use bigpipe_cpp.Queue.Laws.{put_section_lem}
use bigpipe_cpp.Queue.Monitor.{
  Pc, outside, putting, put_waiting, taking, take_waiting, System, Event, call_put, call_take,
  enter, spurious, after_put, run_section, begin, resume, step, run,
}

module _ {A : Type 0} where
  abbrev pub takes : Pc A → Bool
  takes taking = true
  takes take_waiting = true
  takes _ = false

  -- Any event but a call of take and a spurious wakeup of thread `j`.
  abbrev pub spares : ℕ → Event A → Bool
  spares j (call_put i x) = true
  spares j (enter i w) = true
  spares j (spurious i) = not (i == j)
  spares j (call_take i) = false

stocked_lem : (n : ℕ) → 0 < n → (n == 0) ≡ false
stocked_lem n h = ground arith

module _ {A B : Type 0} {r : CircularBuffer A B} (laws : CircularBufferLaws r) (n j : ℕ) where
  open laws use {contents}

  -- Thread `j` sleeps in take though the queue is not empty, and no other thread is in take.
  pub record IsForgotten (s : System A B) : Type 0 where
    pub asleep : s.pc j ≡ take_waiting
    pub stocked : 0 < length (contents s.ring)
    pub others : (i : ℕ) → i ≢ j → takes (s.pc i) ≡ false

  after_put-IsForgotten :
      (i w : ℕ) (x : A) (s : System A B)
      → s.pc i ≡ putting x
      → IsForgotten s
      → IsForgotten (after_put r n i w x s (put_section r x s.ring))
  after_put-IsForgotten i w x s e v = elim (put_section_lem laws x s.ring) [
    | inl (waited, _) ↦ rw waited (record {
      asleep = ground (arith, v.asleep);
      stocked = v.stocked;
      others = λ k h. ground (arith, v.others k h);
    })
    | inr (ring', notify, left, _, c, _, quiet) ↦
        let silent : notify ≡ false = quiet ∙ stocked_lem (length (contents s.ring)) v.stocked in
        rw (left, silent)
          (record {
            asleep = ground (arith, v.asleep);
            stocked = rw (c, length-append) (omega arith);
            others = λ k h. ground (arith, v.others k h);
          })
  ]

  run_section-IsForgotten :
      (i w : ℕ) (s : System A B) (p : Pc A)
      → s.pc i ≡ p
      → takes p ≡ false
      → IsForgotten s
      → IsForgotten (run_section r n i w s p)
  run_section-IsForgotten i w s (putting x) e t v = after_put-IsForgotten i w x s e v
  run_section-IsForgotten i w s taking e t v = cc
  run_section-IsForgotten i w s _ e t v = v

  begin-IsForgotten :
      (i : ℕ) (x : A) (s : System A B) (p : Pc A)
      → s.pc i ≡ p
      → IsForgotten s
      → IsForgotten (begin r n i (putting x) s p)
  begin-IsForgotten i x s outside e v = record {
    asleep = ground (arith, v.asleep);
    stocked = v.stocked;
    others = λ k h. ground (arith, v.others k h);
  }
  begin-IsForgotten i x s _ e v = v

  enter-IsForgotten :
      (i w : ℕ) (s : System A B) → IsForgotten s → IsForgotten (run_section r n i w s (s.pc i))
  enter-IsForgotten i w s v = elim (ℕ_discrete i j) [
    | yes self ↦ rw (self, v.asleep) v
    | no other ↦ run_section-IsForgotten i w s (s.pc i) refl (v.others i other) v
  ]

  resume-IsForgotten :
      (i : ℕ) (s : System A B) (p : Pc A)
      → s.pc i ≡ p
      → i ≢ j
      → takes p ≡ false
      → IsForgotten s
      → IsForgotten (resume r n i s p)
  resume-IsForgotten i s (put_waiting x) e other t v = record {
    asleep = ground (arith, v.asleep);
    stocked = v.stocked;
    others = λ k h. ground (arith, v.others k h);
  }
  resume-IsForgotten i s take_waiting e other t v = cc
  resume-IsForgotten i s _ e other t v = v

  step-IsForgotten :
      (e : Event A) (s : System A B)
      → spares j e ≡ true
      → IsForgotten s
      → IsForgotten (step r n e s)
  unfolding step
  step-IsForgotten (call_put i x) s h v = elim (Bool-cases (ltb i n)) [
    | inl lt ↦ rw lt (begin-IsForgotten i x s (s.pc i) refl v)
    | inr ge ↦ rw ge v
  ]
  step-IsForgotten (enter i w) s h v = elim (Bool-cases (ltb i n)) [
    | inl lt ↦ rw lt (enter-IsForgotten i w s v)
    | inr ge ↦ rw ge v
  ]
  step-IsForgotten (spurious i) s h v =
      let other : i ≢ j = ground arith in
      elim (Bool-cases (ltb i n)) [
        | inl lt ↦ rw lt (resume-IsForgotten i s (s.pc i) refl other (v.others i other) v)
        | inr ge ↦ rw ge v
      ]
  step-IsForgotten (call_take i) s h v = cc

  -- A consumer that sleeps while the queue is not empty and no other thread is in take is forgotten:
  -- as long as no thread calls take, and it does not itself wake up for no reason, it goes on
  -- sleeping, whatever is put and whichever producers wake up for no reason.
  pub run-IsForgotten :
      (es : List (Event A)) (s : System A B)
      → All (λ e. spares j e ≡ true) es
      → IsForgotten s
      → IsForgotten (run r n es s)
  unfolding run
  run-IsForgotten [] s h v = v
  run-IsForgotten (e ∷ es) s h v =
      run-IsForgotten es (step r n e s) h.1 (step-IsForgotten e s h.0 v)
