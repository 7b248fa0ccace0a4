-- ===== src/Queue/Monitor/Fifo.antt =====
-- What goes into the queue, and what comes out.
use bigpipe_cpp.Base.{
  ℕ, ◌≤◌, ◌≡◌, refl, sym, ap, ◌∙◌, inl, inr, Bool, true, false, List, [], ◌∷◌, ◌++◌, arith, length,
  length-append, ltb, if◌then◌else◌,
}
use mathlib.Core.List.{append_assoc}
use bigpipe_cpp.Queue.Ring.{CircularBuffer, CircularBufferLaws}
use bigpipe_cpp.Queue.{put_section, take_section, new_queue}
use bigpipe_cpp.Queue.Laws.{put_section_lem, take_section_lem}
use bigpipe_cpp.Queue.Monitor.{
  Pc, outside, putting, put_waiting, taking, take_waiting, System, Event, call_put, call_take,
  enter, spurious, start, after_put, after_take, run_section, begin, resume, step, run,
}

module _ {A B : Type 0} {r : CircularBuffer A B} (laws : CircularBufferLaws r) where
  open laws use {contents, make-contents, make-capacity}

  -- A queue of at most `max_size` elements that delivers what it accepted, in that order.
  pub record IsFifo (max_size : ℕ) (s : System A B) : Type 0 where
    pub order : s.delivered ++ contents s.ring ≡ s.accepted
    pub bound : length (contents s.ring) ≤ max_size
    pub room : r.capacity s.ring ≡ max_size

  module _ (n max_size : ℕ) where
    pub start-IsFifo : IsFifo max_size (start r n max_size)
    unfolding start new_queue
    start-IsFifo = record {
      order = make-contents max_size;
      bound = rw (make-contents max_size) (omega arith);
      room = make-capacity max_size;
    }

    after_put-IsFifo :
        (i w : ℕ) (x : A) (s : System A B)
        → IsFifo max_size s
        → IsFifo max_size (after_put r n i w x s (put_section r x s.ring))
    after_put-IsFifo i w x s v = elim (put_section_lem laws x s.ring) [
      | inl (e, _) ↦ rw e (record { order = v.order; bound = v.bound; room = v.room })
      | inr (ring', notify, e, room, c, k, _) ↦ rw e (record {
        order = rw c (
            sym (append_assoc s.delivered (contents s.ring) (x ∷ []))
            ∙ ap (λ t. t ++ x ∷ []) v.order);
        bound = rw (c, length-append) (omega arith);
        room = k ∙ v.room;
      })
    ]

    after_take-IsFifo :
        (i w : ℕ) (s : System A B)
        → IsFifo max_size s
        → IsFifo max_size (after_take r n i w s (take_section r s.ring))
    after_take-IsFifo i w s v = elim (take_section_lem laws s.ring) [
      | inl (e, _) ↦ rw e (record { order = v.order; bound = v.bound; room = v.room })
      | inr (ring', x, e, c, k) ↦ rw e (record {
        order =
            append_assoc s.delivered (x ∷ []) (contents ring')
            ∙ ap (λ t. s.delivered ++ t) (sym c)
            ∙ v.order;
        bound = omega (arith, v.bound, ap length c);
        room = k ∙ v.room;
      })
    ]

    -- Only the three fields count.
    same_queue :
        {s t : System A B}
        → t.ring ≡ s.ring
        → t.accepted ≡ s.accepted
        → t.delivered ≡ s.delivered
        → IsFifo max_size s
        → IsFifo max_size t
    same_queue e f g v = record {
      order = rw (e, f, g) v.order;
      bound = rw e v.bound;
      room = rw e v.room;
    }

    run_section-IsFifo :
        (i w : ℕ) (s : System A B) (p : Pc A)
        → IsFifo max_size s
        → IsFifo max_size (run_section r n i w s p)
    run_section-IsFifo i w s (putting x) v = after_put-IsFifo i w x s v
    run_section-IsFifo i w s taking v = after_take-IsFifo i w s v
    run_section-IsFifo i w s _ v = v

    begin-IsFifo :
        (i : ℕ) (q : Pc A) (s : System A B) (p : Pc A)
        → IsFifo max_size s
        → IsFifo max_size (begin r n i q s p)
    begin-IsFifo i q s outside v = same_queue refl refl refl v
    begin-IsFifo i q s _ v = v

    resume-IsFifo :
        (i : ℕ) (s : System A B) (p : Pc A) → IsFifo max_size s → IsFifo max_size (resume r n i s p)
    resume-IsFifo i s (put_waiting x) v = same_queue refl refl refl v
    resume-IsFifo i s take_waiting v = same_queue refl refl refl v
    resume-IsFifo i s _ v = v

    if_IsFifo :
        (b : Bool) {s t : System A B}
        → IsFifo max_size s
        → IsFifo max_size t
        → IsFifo max_size (if b then s else t)
    if_IsFifo true v w = v
    if_IsFifo false v w = w

    pub step-IsFifo :
        (e : Event A) (s : System A B) → IsFifo max_size s → IsFifo max_size (step r n e s)
    unfolding step
    step-IsFifo (call_put i x) s v = if_IsFifo (ltb i n) (begin-IsFifo i (putting x) s (s.pc i) v) v
    step-IsFifo (call_take i) s v = if_IsFifo (ltb i n) (begin-IsFifo i taking s (s.pc i) v) v
    step-IsFifo (enter i w) s v = if_IsFifo (ltb i n) (run_section-IsFifo i w s (s.pc i) v) v
    step-IsFifo (spurious i) s v = if_IsFifo (ltb i n) (resume-IsFifo i s (s.pc i) v) v

    run-IsFifo :
        (es : List (Event A)) (s : System A B) → IsFifo max_size s → IsFifo max_size (run r n es s)
    unfolding run
    run-IsFifo [] s v = v
    run-IsFifo (e ∷ es) s v = run-IsFifo es (step r n e s) (step-IsFifo e s v)

    -- For any number of threads and any schedule, from an empty queue: the elements delivered, then
    -- those still queued, are the elements accepted, in that order; the queue never holds more than
    -- its maximum.
    pub run-start-IsFifo : (es : List (Event A)) → IsFifo max_size (run r n es (start r n max_size))
    run-start-IsFifo es = run-IsFifo es (start r n max_size) start-IsFifo
