-- ===== src/Queue/Monitor/Jammed.antt =====
-- A full queue from which nobody takes.
use bigpipe_cpp.Base.{
  ℕ, ◌≡◌, refl, ap, inl, inr, Bool, true, false, arith, length, ltb, if◌then◌else◌, update,
}
use bigpipe_cpp.Queue.Ring.{CircularBuffer, CircularBufferLaws}
use bigpipe_cpp.Queue.{put_section}
use bigpipe_cpp.Queue.Laws.{put_section_lem}
use bigpipe_cpp.Queue.Monitor.{
  Pc, outside, putting, put_waiting, taking, take_waiting, System, Event, call_put, call_take,
  enter, spurious, after_put, run_section, begin, resume, step,
}
use bigpipe_cpp.Queue.Monitor.Consumers.{takes}
use bigpipe_cpp.Queue.Monitor.Roles.{puts}

module _ {A : Type 0} where
  -- Any event but a call of take.
  abbrev pub no_take : Event A → Bool
  no_take (call_take i) = false
  no_take _ = true

module _ {A B : Type 0} {r : CircularBuffer A B} (laws : CircularBufferLaws r) (n j : ℕ) where
  open laws use {contents}

  -- The queue is full, nobody is in take, and thread `j` is in put.
  pub record IsJammed (s : System A B) : Type 0 where
    pub full : length (contents s.ring) ≡ r.capacity s.ring
    pub nobody : (i : ℕ) → takes (s.pc i) ≡ false
    pub stuck : puts (s.pc j) ≡ true

  after_put-IsJammed :
      (i w : ℕ) (x : A) (s : System A B)
      → s.pc i ≡ putting x
      → IsJammed s
      → IsJammed (after_put r n i w x s (put_section r x s.ring))
  after_put-IsJammed i w x s e v = elim (put_section_lem laws x s.ring) [
    | inl (waited, _) ↦ rw waited (record {
      full = v.full;
      nobody = λ k. ground (arith, v.nobody k);
      stuck = ground (arith, v.stuck);
    })
    | inr (_, _, _, room, _, _, _) ↦ absurd (room v.full)
  ]

  run_section-IsJammed :
      (i w : ℕ) (s : System A B) (p : Pc A)
      → s.pc i ≡ p
      → IsJammed s
      → IsJammed (run_section r n i w s p)
  run_section-IsJammed i w s (putting x) e v = after_put-IsJammed i w x s e v
  run_section-IsJammed i w s taking e v = let clash = v.nobody i in let t = ap takes e in cc
  run_section-IsJammed i w s _ e v = v

  moved-IsJammed :
      (i : ℕ) (s : System A B) (x : A)
      → IsJammed s
      → IsJammed (record s { pc = update s.pc i (putting x) })
  moved-IsJammed i s x v = record {
    full = v.full;
    nobody = λ k. ground (arith, v.nobody k);
    stuck = ground (arith, v.stuck);
  }

  begin-IsJammed :
      (i : ℕ) (x : A) (s : System A B) (p : Pc A)
      → IsJammed s
      → IsJammed (begin r n i (putting x) s p)
  begin-IsJammed i x s outside v = moved-IsJammed i s x v
  begin-IsJammed i x s _ v = v

  resume-IsJammed :
      (i : ℕ) (s : System A B) (p : Pc A) → s.pc i ≡ p → IsJammed s → IsJammed (resume r n i s p)
  resume-IsJammed i s (put_waiting x) e v = moved-IsJammed i s x v
  resume-IsJammed i s take_waiting e v = let clash = v.nobody i in let t = ap takes e in cc
  resume-IsJammed i s _ e v = v

  if_IsJammed :
      (b : Bool) (s t : System A B) → IsJammed s → IsJammed t → IsJammed (if b then s else t)
  if_IsJammed true s t v w = v
  if_IsJammed false s t v w = w

  -- Whatever is called but take, thread `j` stays in put.
  pub step-IsJammed :
      (e : Event A) (s : System A B) → no_take e ≡ true → IsJammed s → IsJammed (step r n e s)
  unfolding step
  step-IsJammed (call_put i x) s h v = if_IsJammed (ltb i n) _ _ (begin-IsJammed i x s (s.pc i) v) v
  step-IsJammed (call_take i) s h v = cc
  step-IsJammed (enter i w) s h v =
      if_IsJammed (ltb i n) _ _ (run_section-IsJammed i w s (s.pc i) refl v) v
  step-IsJammed (spurious i) s h v =
      if_IsJammed (ltb i n) _ _ (resume-IsJammed i s (s.pc i) refl v) v
