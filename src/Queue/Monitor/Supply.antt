-- ===== src/Queue/Monitor/Supply.antt =====
-- How the contents of the queue move with the steps of the threads.
use bigpipe_cpp.Base.{
  ℕ, ◌≤◌, ◌<◌, ◌≡◌, refl, ap, inl, inr, true, false, Bool-cases, arith, length, length-append, ltb,
}
use bigpipe_cpp.Queue.Ring.{CircularBuffer, CircularBufferLaws}
use bigpipe_cpp.Queue.{put_section}
use bigpipe_cpp.Queue.Laws.{put_section_lem}
use bigpipe_cpp.Queue.Monitor.{
  Pc, outside, putting, put_waiting, taking, take_waiting, System, call_put, enter, spurious,
  after_put, run_section, begin, resume, step,
}
use bigpipe_cpp.Queue.Monitor.Consumers.{takes}
use bigpipe_cpp.Queue.Monitor.Roles.{puts}

module _ {A B : Type 0} {r : CircularBuffer A B} (laws : CircularBufferLaws r) (n : ℕ) where
  open laws use {contents}

  abbrev pub stock : System A B → ℕ
  stock s = length (contents s.ring)

  begin-stock : (i : ℕ) (q : Pc A) (s : System A B) (p : Pc A) → stock (begin r n i q s p) ≡ stock s
  begin-stock i q s outside = refl
  begin-stock i q s _ = refl

  resume-stock : (i : ℕ) (s : System A B) (p : Pc A) → stock (resume r n i s p) ≡ stock s
  resume-stock i s (put_waiting x) = refl
  resume-stock i s take_waiting = refl
  resume-stock i s _ = refl

  put-stock :
      (i w : ℕ) (x : A) (s : System A B)
      → stock s ≤ stock (after_put r n i w x s (put_section r x s.ring))
  put-stock i w x s = elim (put_section_lem laws x s.ring) [
    | inl (waited, _) ↦ rw waited (omega arith)
    | inr (ring', notify, left, _, c, _, _) ↦ rw (left, c, length-append) (omega arith)
  ]

  section-stock :
      (i w : ℕ) (s : System A B) (p : Pc A)
      → takes p ≡ false
      → stock s ≤ stock (run_section r n i w s p)
  section-stock i w s (putting x) h = put-stock i w x s
  section-stock i w s taking h = cc
  section-stock i w s _ h = omega arith

  -- Only a take can leave less.
  pub enter-stock :
      (i w : ℕ) (s : System A B) → takes (s.pc i) ≡ false → stock s ≤ stock (step r n (enter i w) s)
  unfolding step
  enter-stock i w s h = elim (Bool-cases (ltb i n)) [
    | inl inside ↦ rw inside (section-stock i w s (s.pc i) h)
    | inr beyond ↦ rw beyond (omega arith)
  ]

  pub call_put-stock :
      (i : ℕ) (x : A) (s : System A B) → stock (step r n (call_put i x) s) ≡ stock s
  unfolding step
  call_put-stock i x s = elim (Bool-cases (ltb i n)) [
    | inl inside ↦ rw inside (begin-stock i (putting x) s (s.pc i))
    | inr beyond ↦ rw beyond
  ]

  pub spurious-stock : (i : ℕ) (s : System A B) → stock (step r n (spurious i) s) ≡ stock s
  unfolding step
  spurious-stock i s = elim (Bool-cases (ltb i n)) [
    | inl inside ↦ rw inside (resume-stock i s (s.pc i))
    | inr beyond ↦ rw beyond
  ]

  own_put :
      (i w : ℕ) (x : A) (s : System A B)
      → puts ((after_put r n i w x s (put_section r x s.ring)).pc i) ≡ false
      → 0 < stock (after_put r n i w x s (put_section r x s.ring))
  own_put i w x s = elim (put_section_lem laws x s.ring) [
    | inl (waited, _) ↦ rw waited (λ h. ground arith)
    | inr (ring', notify, left, _, c, _, _) ↦ rw (left, c, length-append) (λ h. omega arith)
  ]

  own_section :
      (i w : ℕ) (s : System A B) (p : Pc A)
      → s.pc i ≡ p
      → puts p ≡ true
      → puts ((run_section r n i w s p).pc i) ≡ false
      → 0 < stock (run_section r n i w s p)
  own_section i w s (putting x) e h g = own_put i w x s g
  own_section i w s (put_waiting x) e h g = let still = ap puts e in cc
  own_section i w s _ e h g = cc

  -- A thread that comes out of put leaves a queue that is not empty.
  pub put-stocked :
      (i w : ℕ) (s : System A B)
      → puts (s.pc i) ≡ true
      → puts ((step r n (enter i w) s).pc i) ≡ false
      → 0 < stock (step r n (enter i w) s)
  unfolding step
  put-stocked i w s h = elim (Bool-cases (ltb i n)) [
    | inl inside ↦ rw inside (own_section i w s (s.pc i) refl h)
    | inr beyond ↦ rw beyond (λ g. cc)
  ]
