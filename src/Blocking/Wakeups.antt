-- ===== src/Blocking/Wakeups.antt =====
-- Consumers that wait, and the elements.
use bigpipe_cpp.Base.{
  ℕ, suc, ◌≤◌, ◌<◌, ◌≡◌, refl, ap, ◌≢◌, inl, inr, Bool, true, false, List, [], ◌∷◌, arith, none,
  some, length, length-append, ltb, if◌then◌else◌, update, total, total-update, total-pos,
}
use bigpipe_cpp.Queue.Monitor.{
  Pc, outside, putting, taking, take_waiting, System, Event, call_put, call_take, enter, spurious,
  not_empty,
}
use bigpipe_cpp.Queue.Monitor.Notify.{Notified, notify_one_lem}
use bigpipe_cpp.Queue.Monitor.Lone.{is_asleep}
use bigpipe_cpp.Blocking.{
  put_back, take_front, start, after_put, after_take, run_section, begin, resume, step, run,
}

inside_lem : (n i : ℕ) → ltb i n ≡ true → i < n
inside_lem n i h = ground arith

module _ {A : Type 0} where
  -- A consumer that is on its way into its critical section.
  abbrev pub coming : Pc A → ℕ
  coming taking = 1
  coming _ = 0

  woken_lem :
      (q p : Pc A) → not_empty q ≡ some p → (coming q ≡ 0) × (coming p ≡ 1) × (is_asleep p ≡ false)
  woken_lem take_waiting p e = ground arith
  woken_lem _ p e = ground arith

  asleep_lem : (q : Pc A) → is_asleep q ≡ true → not_empty q ≢ none
  asleep_lem take_waiting h e = cc
  asleep_lem _ h e = cc

  -- As soon as one consumer sleeps, there is one on its way for every element.
  abbrev pub Supplied : ℕ → ℕ → (ℕ → Pc A) → Type 0
  Supplied n len pc = (j : ℕ) → j < n → is_asleep (pc j) ≡ true → len ≤ total coming n pc

module _ {A : Type 0} (n : ℕ) where
  abbrev Fed : System A (List A) → Type 0
  Fed s = Supplied n (length s.ring) s.pc

  Notified-Supplied :
      (len i : ℕ) (pc pc' : ℕ → Pc A)
      → i < n
      → coming (pc i) ≡ 0
      → Notified not_empty n (update pc i outside) pc'
      → Supplied n len pc
      → Supplied n (suc len) pc'
  Notified-Supplied len i pc pc' lt e (inl (nobody, f)) v j in_n asleep =
      absurd (asleep_lem (update pc i outside j) (rw f at asleep) (nobody j in_n))
  Notified-Supplied len i pc pc' lt e (inr (k, p, k_in_n, wakes, f)) v j in_n asleep =
      let (idle, here, up) = woken_lem (update pc i outside k) p wakes in
      let still : is_asleep (update (update pc i outside) k p j) ≡ true = rw f at asleep in
      rw f (
        ground (
          arith,
          total-update coming n pc i outside lt,
          total-update coming n (update pc i outside) k p k_in_n,
          v j in_n,
        ))

  put-Fed :
      (i w : ℕ) (x : A) (s : System A (List A))
      → i < n
      → s.pc i ≡ putting x
      → Fed s
      → Fed (after_put n i w x s)
  unfolding put_back
  put-Fed i w x s lt e v j in_n asleep = omega (
    arith,
    length-append s.ring (x ∷ []),
    Notified-Supplied (length s.ring) i s.pc _ lt (ap coming e)
        (notify_one_lem not_empty n w (update s.pc i outside)) v j in_n asleep,
  )

  take-Fed :
      (i : ℕ) (s : System A (List A)) (items : List A)
      → i < n
      → s.pc i ≡ taking
      → s.ring ≡ items
      → Fed s
      → Fed (after_take n i s (take_front items))
  unfolding take_front
  take-Fed i s [] lt e f v j in_n asleep = omega (arith, ap length f)
  take-Fed i s (x ∷ items) lt e f v j in_n asleep =
      ground (arith, total-update coming n s.pc i outside lt, v j in_n, ap length f)

  section-Fed :
      (i w : ℕ) (s : System A (List A)) (p : Pc A)
      → i < n
      → s.pc i ≡ p
      → Fed s
      → Fed (run_section n i w s p)
  section-Fed i w s (putting x) lt e v = put-Fed i w x s lt e v
  section-Fed i w s taking lt e v = take-Fed i s s.ring lt e refl v
  section-Fed i w s _ lt e v = v

  -- A thread moves, and is not asleep then.
  moved-Fed :
      (i : ℕ) (s : System A (List A)) (q : Pc A)
      → i < n
      → coming (s.pc i) ≡ 0
      → is_asleep q ≡ false
      → Fed s
      → Fed (record s { pc = update s.pc i q })
  moved-Fed i s q lt c h v j in_n asleep =
      ground (arith, total-update coming n s.pc i q lt, v j in_n)

  begin-Fed :
      (i : ℕ) (q : Pc A) (s : System A (List A)) (p : Pc A)
      → i < n
      → s.pc i ≡ p
      → is_asleep q ≡ false
      → Fed s
      → Fed (begin n i q s p)
  begin-Fed i q s outside lt e h v = moved-Fed i s q lt (ap coming e) h v
  begin-Fed i q s _ lt e h v = v

  resume-Fed :
      (i : ℕ) (s : System A (List A)) (p : Pc A) → i < n → s.pc i ≡ p → Fed s → Fed (resume n i s p)
  resume-Fed i s take_waiting lt e v = moved-Fed i s taking lt (ap coming e) refl v
  resume-Fed i s _ lt e v = v

  if_Fed :
      (b : Bool) (s t : System A (List A)) → (b ≡ true → Fed s) → Fed t → Fed (if b then s else t)
  if_Fed true s t v w = v refl
  if_Fed false s t v w = w

  step-Fed : (e : Event A) (s : System A (List A)) → Fed s → Fed (step n e s)
  unfolding step
  step-Fed (call_put i x) s v =
      if_Fed (ltb i n) _ _ (λ h. begin-Fed i (putting x) s (s.pc i) (inside_lem n i h) refl refl v)
        v
  step-Fed (call_take i) s v =
      if_Fed (ltb i n) _ _ (λ h. begin-Fed i taking s (s.pc i) (inside_lem n i h) refl refl v) v
  step-Fed (enter i w) s v =
      if_Fed (ltb i n) _ _ (λ h. section-Fed i w s (s.pc i) (inside_lem n i h) refl v) v
  step-Fed (spurious i) s v =
      if_Fed (ltb i n) _ _ (λ h. resume-Fed i s (s.pc i) (inside_lem n i h) refl v) v

  run-Fed : (es : List (Event A)) (s : System A (List A)) → Fed s → Fed (run n es s)
  unfolding run
  run-Fed [] s v = v
  run-Fed (e ∷ es) s v = run-Fed es (step n e s) (step-Fed e s v)

  -- No wakeup of a consumer of a BlockingQueue is lost, on any schedule from an empty queue and for
  -- any number of consumers: while one sleeps and there is an element, some consumer is on its way
  -- into its critical section.
  pub waiting_consumer-coming :
      (es : List (Event A)) (j : ℕ)
      → j < n
      → is_asleep ((run n es (start n)).pc j) ≡ true
      → 0 < length (run n es (start n)).ring
      → (i : ℕ) × (i < n) × (0 < coming ((run n es (start n)).pc i))
  unfolding start
  waiting_consumer-coming es j in_n asleep stocked =
      total-pos coming n (run n es (start n)).pc
        (omega (arith, run-Fed es (start n) (λ k h a. cc) j in_n asleep))
