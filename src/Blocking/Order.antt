-- ===== src/Blocking/Order.antt =====
-- What goes into the queue, and what comes out.
use mathlib.Core.List.{append_assoc}
use bigpipe_cpp.Base.{
  ℕ, ◌≡◌, refl, sym, ap, ◌∙◌, Bool, true, false, List, [], ◌∷◌, ◌++◌, ltb, if◌then◌else◌,
}
use bigpipe_cpp.Queue.Monitor.{
  Pc, outside, putting, taking, take_waiting, System, Event, call_put, call_take, enter, spurious,
}
use bigpipe_cpp.Blocking.{
  put_back, take_front, start, after_take, run_section, begin, resume, step, run,
}

module _ {A : Type 0} (n : ℕ) where
  abbrev pub IsInOrder : System A (List A) → Type 0
  IsInOrder s = s.delivered ++ s.ring ≡ s.accepted

  taken-IsInOrder :
      (i : ℕ) (s : System A (List A)) (items : List A)
      → s.ring ≡ items
      → IsInOrder s
      → IsInOrder (after_take n i s (take_front items))
  unfolding take_front
  taken-IsInOrder i s [] e v = v
  taken-IsInOrder i s (x ∷ items) e v =
      append_assoc s.delivered (x ∷ []) items ∙ ap (λ t. s.delivered ++ t) (sym e) ∙ v

  section-IsInOrder :
      (i w : ℕ) (s : System A (List A)) (p : Pc A) → IsInOrder s → IsInOrder (run_section n i w s p)
  unfolding put_back
  section-IsInOrder i w s (putting x) v =
      sym (append_assoc s.delivered s.ring (x ∷ [])) ∙ ap (λ t. t ++ x ∷ []) v
  section-IsInOrder i w s taking v = taken-IsInOrder i s s.ring refl v
  section-IsInOrder i w s _ v = v

  begin-IsInOrder :
      (i : ℕ) (q : Pc A) (s : System A (List A)) (p : Pc A)
      → IsInOrder s
      → IsInOrder (begin n i q s p)
  begin-IsInOrder i q s outside v = v
  begin-IsInOrder i q s _ v = v

  resume-IsInOrder :
      (i : ℕ) (s : System A (List A)) (p : Pc A) → IsInOrder s → IsInOrder (resume n i s p)
  resume-IsInOrder i s take_waiting v = v
  resume-IsInOrder i s _ v = v

  if_IsInOrder :
      (b : Bool) (s t : System A (List A))
      → IsInOrder s
      → IsInOrder t
      → IsInOrder (if b then s else t)
  if_IsInOrder true s t v w = v
  if_IsInOrder false s t v w = w

  step-IsInOrder : (e : Event A) (s : System A (List A)) → IsInOrder s → IsInOrder (step n e s)
  unfolding step
  step-IsInOrder (call_put i x) s v =
      if_IsInOrder (ltb i n) _ _ (begin-IsInOrder i (putting x) s (s.pc i) v) v
  step-IsInOrder (call_take i) s v =
      if_IsInOrder (ltb i n) _ _ (begin-IsInOrder i taking s (s.pc i) v) v
  step-IsInOrder (enter i w) s v = if_IsInOrder (ltb i n) _ _ (section-IsInOrder i w s (s.pc i) v) v
  step-IsInOrder (spurious i) s v = if_IsInOrder (ltb i n) _ _ (resume-IsInOrder i s (s.pc i) v) v

  run-IsInOrder :
      (es : List (Event A)) (s : System A (List A)) → IsInOrder s → IsInOrder (run n es s)
  unfolding run
  run-IsInOrder [] s v = v
  run-IsInOrder (e ∷ es) s v = run-IsInOrder es (step n e s) (step-IsInOrder e s v)

  -- For any number of threads and any schedule, from an empty BlockingQueue: the elements delivered,
  -- then those still queued, are the elements accepted, in that order.
  pub run-start-IsInOrder : (es : List (Event A)) → IsInOrder (run n es (start n))
  unfolding start
  run-start-IsInOrder es = run-IsInOrder es (start n) refl
