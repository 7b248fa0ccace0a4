-- ===== src/Pool/Drained.antt =====
-- An empty queue to which nobody puts.
use bigpipe_cpp.Base.{ℕ, ◌≡◌, refl, inl, inr, Bool, true, false, Bool-cases, [], ltb, arith}
use bigpipe_cpp.Queue.Ring.{CircularBuffer, CircularBufferLaws}
use bigpipe_cpp.Queue.{take_section}
use bigpipe_cpp.Queue.Laws.{take_section_lem}
use bigpipe_cpp.Queue.Monitor.{
  Pc, outside, putting, put_waiting, taking, take_waiting, System, Event, call_put, call_take,
  enter, spurious, after_take, run_section, begin, resume, step,
}
use bigpipe_cpp.Queue.Monitor.Consumers.{takes}
use bigpipe_cpp.Queue.Monitor.Roles.{puts}

module _ {A : Type 0} where
  abbrev pub is_quiet : Event A → Bool
  is_quiet (call_put i x) = false
  is_quiet _ = true

module _ {A B : Type 0} {r : CircularBuffer A B} (laws : CircularBufferLaws r) (n j : ℕ) where
  open laws use {contents}

  -- Thread `j` is in take, the queue is empty, and no thread is in put.
  pub record IsDrained (s : System A B) : Type 0 where
    pub in_take : takes (s.pc j) ≡ true
    pub drained : contents s.ring ≡ []
    pub nobody : (i : ℕ) → puts (s.pc i) ≡ false

  after_take-IsDrained :
      (i w : ℕ) (s : System A B)
      → IsDrained s
      → IsDrained (after_take r n i w s (take_section r s.ring))
  after_take-IsDrained i w s v = elim (take_section_lem laws s.ring) [
    | inl (waited, _) ↦ rw waited (record {
      in_take = ground (arith, v.in_take);
      drained = v.drained;
      nobody = λ k. ground (arith, v.nobody k);
    })
    | inr (ring', x, _, c, _) ↦ let clash = v.drained in cc
  ]

  run_section-IsDrained :
      (i w : ℕ) (s : System A B) (p : Pc A)
      → s.pc i ≡ p
      → puts p ≡ false
      → IsDrained s
      → IsDrained (run_section r n i w s p)
  run_section-IsDrained i w s (putting x) e h v = cc
  run_section-IsDrained i w s taking e h v = after_take-IsDrained i w s v
  run_section-IsDrained i w s _ e h v = v

  begin-IsDrained :
      (i : ℕ) (s : System A B) (p : Pc A)
      → s.pc i ≡ p
      → IsDrained s
      → IsDrained (begin r n i taking s p)
  begin-IsDrained i s outside e v = record {
    in_take = ground (arith, v.in_take);
    drained = v.drained;
    nobody = λ k. ground (arith, v.nobody k);
  }
  begin-IsDrained i s _ e v = v

  resume-IsDrained :
      (i : ℕ) (s : System A B) (p : Pc A)
      → s.pc i ≡ p
      → puts p ≡ false
      → IsDrained s
      → IsDrained (resume r n i s p)
  resume-IsDrained i s take_waiting e h v = record {
    in_take = ground (arith, v.in_take);
    drained = v.drained;
    nobody = λ k. ground (arith, v.nobody k);
  }
  resume-IsDrained i s (put_waiting x) e h v = cc
  resume-IsDrained i s _ e h v = v

  pub step-IsDrained :
      (e : Event A) (s : System A B) → is_quiet e ≡ true → IsDrained s → IsDrained (step r n e s)
  unfolding step
  step-IsDrained (call_put i x) s h v = cc
  step-IsDrained (call_take i) s h v = elim (Bool-cases (ltb i n)) [
    | inl lt ↦ rw lt (begin-IsDrained i s (s.pc i) refl v)
    | inr ge ↦ rw ge v
  ]
  step-IsDrained (enter i w) s h v = elim (Bool-cases (ltb i n)) [
    | inl lt ↦ rw lt (run_section-IsDrained i w s (s.pc i) refl (v.nobody i) v)
    | inr ge ↦ rw ge v
  ]
  step-IsDrained (spurious i) s h v = elim (Bool-cases (ltb i n)) [
    | inl lt ↦ rw lt (resume-IsDrained i s (s.pc i) refl (v.nobody i) v)
    | inr ge ↦ rw ge v
  ]
