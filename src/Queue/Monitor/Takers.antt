-- ===== src/Queue/Monitor/Takers.antt =====
-- Who is in take, after a step of any thread.
use bigpipe_cpp.Base.{ℕ, ◌≡◌, refl, ap, inl, inr, Bool, true, false, Bool-cases, ltb, arith, update}
use bigpipe_cpp.Queue.Ring.{CircularBuffer}
use bigpipe_cpp.Queue.{Section, waits, leaves, put_section}
use bigpipe_cpp.Queue.Monitor.{
  step, Pc, outside, putting, taking, take_waiting, not_empty, after_put, run_section, System,
  call_put, enter, begin,
}
use bigpipe_cpp.Queue.Monitor.Consumers.{takes}
use bigpipe_cpp.Queue.Monitor.Roles.{notify_one-SameRole, not_empty-SameRole}

module _ {A B : Type 0} (r : CircularBuffer A B) (n : ℕ) where
  takes-begin :
      (i : ℕ) (x : A) (s : System A B) (p : Pc A) (k : ℕ)
      → s.pc i ≡ p
      → takes ((begin r n i (putting x) s p).pc k) ≡ takes (s.pc k)
  takes-begin i x s outside k e = ground arith
  takes-begin i x s _ k e = refl

  pub call_put_takes :
      (i : ℕ) (x : A) (s : System A B) (k : ℕ)
      → takes ((step r n (call_put i x) s).pc k) ≡ takes (s.pc k)
  unfolding step
  call_put_takes i x s k = elim (Bool-cases (ltb i n)) [
    | inl inside ↦ rw inside (takes-begin i x s (s.pc i) k refl)
    | inr beyond ↦ rw beyond
  ]

  put_takes :
      (i w : ℕ) (x : A) (s : System A B) (section : Section (B × Bool))
      → takes ((after_put r n i w x s section).pc i) ≡ false
  put_takes i w x s waits = ground arith
  put_takes i w x s (leaves (ring, false)) = ground arith
  put_takes i w x s (leaves (ring, true)) =
      ground
        (arith, (notify_one-SameRole not_empty not_empty-SameRole n w (update s.pc i outside) i).0)

  section_takes :
      (i w : ℕ) (s : System A B) (p : Pc A)
      → s.pc i ≡ p
      → takes p ≡ false
      → takes ((run_section r n i w s p).pc i) ≡ false
  section_takes i w s (putting x) e h = put_takes i w x s (put_section r x s.ring)
  section_takes i w s taking e h = cc
  section_takes i w s take_waiting e h = cc
  section_takes i w s _ e h = ap takes e

  -- A critical section does not begin a take.
  pub enter_takes :
      (i w : ℕ) (s : System A B)
      → takes ((step r n (enter i w) s).pc i) ≡ true
      → takes (s.pc i) ≡ true
  unfolding step
  enter_takes i w s h = elim (Bool-cases (takes (s.pc i))) [
    | inl yet ↦ yet
    | inr out ↦ elim (Bool-cases (ltb i n)) [
      | inl inside ↦
          let h' : takes ((run_section r n i w s (s.pc i)).pc i) ≡ true = rw inside at h in
          let no = section_takes i w s (s.pc i) refl out in cc
      | inr beyond ↦ rw beyond at h
    ]
  ]
