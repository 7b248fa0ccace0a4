-- ===== src/Queue/Monitor/Lone.antt =====
-- One thread alone calls take: when it sleeps.
use bigpipe_cpp.Base.{
  ℕ, ap, ◌<◌, ◌≡◌, refl, ◌≢◌, inl, inr, Bool, true, false, Bool-cases, List, [], ◌∷◌, arith, none,
  some, length, ltb, ◌==◌, if◌then◌else◌, update, ℕ_discrete, All,
}
use bigpipe_cpp.Queue.Ring.{CircularBuffer, CircularBufferLaws}
use bigpipe_cpp.Queue.{put_section, take_section}
use bigpipe_cpp.Queue.Laws.{put_section_lem, take_section_lem}
use bigpipe_cpp.Queue.Monitor.{
  Pc, outside, putting, put_waiting, taking, take_waiting, System, Event, call_put, call_take,
  enter, spurious, not_empty, not_full, notify_one, after_put, after_take, run_section, begin,
  resume, start, step, run,
}
use bigpipe_cpp.Queue.Monitor.Notify.{notify_one_lem}
use bigpipe_cpp.Queue.Monitor.Consumers.{takes}

module _ {A : Type 0} where
  abbrev pub is_asleep : Pc A → Bool
  is_asleep take_waiting = true
  is_asleep _ = false

  -- No thread but `j` calls take.
  abbrev pub takes_only : ℕ → Event A → Bool
  takes_only j (call_take i) = i == j
  takes_only j _ = true

  abbrev pub Others : ℕ → (ℕ → Pc A) → Type 0
  Others j pc = (i : ℕ) → i ≢ j → takes (pc i) ≡ false

  asleep_taking : (q p : Pc A) → not_empty q ≡ some p → (takes q ≡ true) × (is_asleep p ≡ false)
  asleep_taking take_waiting p e = ground arith
  asleep_taking _ p e = ground arith

  not_empty_asleep : (q : Pc A) → not_empty q ≡ none → is_asleep q ≡ false
  not_empty_asleep take_waiting e = cc
  not_empty_asleep _ e = refl

  not_full-takes : (q p : Pc A) → not_full q ≡ some p → (takes p ≡ false) × (is_asleep p ≡ false)
  not_full-takes (put_waiting x) p e = ground arith
  not_full-takes _ p e = ground arith

  -- A notification of the consumers finds thread `j`, if it sleeps.
  notify_not_empty :
      (n j w : ℕ) (pc : ℕ → Pc A)
      → j < n
      → Others j pc
      → (is_asleep (notify_one not_empty n w pc j) ≡ false) × Others j (notify_one not_empty n w pc)
  notify_not_empty n j w pc lt o = elim (notify_one_lem not_empty n w pc) [
    | inl (nobody, f) ↦ rw f (not_empty_asleep (pc j) (nobody j lt), o)
    | inr (k, p, _, e, f) ↦
        let (taker, awake) = asleep_taking (pc k) p e in
        rw f (elim (ℕ_discrete k j) [
          | yes same ↦ (ground (arith, awake), λ i h. ground (arith, o i h))
          | no other ↦ let clash = o k other in cc
        ])
  ]

  -- A notification of the producers leaves the consumers as they are.
  notify_not_full :
      (n j w : ℕ) (pc : ℕ → Pc A)
      → is_asleep (pc j) ≡ false
      → Others j pc
      → (is_asleep (notify_one not_full n w pc j) ≡ false) × Others j (notify_one not_full n w pc)
  notify_not_full n j w pc h o = elim (notify_one_lem not_full n w pc) [
    | inl (nobody, f) ↦ rw f (h, o)
    | inr (k, p, _, e, f) ↦
        let (taker, awake) = not_full-takes (pc k) p e in
        rw f (ground (arith, h), λ i g. ground (arith, o i g))
  ]

module _ {A B : Type 0} {r : CircularBuffer A B} (laws : CircularBufferLaws r) (n j : ℕ)
    (inside : j < n) where
  open laws use {contents, make-contents}

  -- Thread `j` is the only one in take, and it sleeps only while the queue is empty.
  pub record IsLone (s : System A B) : Type 0 where
    pub others : Others j s.pc
    pub awake : 0 < length (contents s.ring) → is_asleep (s.pc j) ≡ false

  after_put-IsLone :
      (i w : ℕ) (x : A) (s : System A B)
      → s.pc i ≡ putting x
      → IsLone s
      → IsLone (after_put r n i w x s (put_section r x s.ring))
  after_put-IsLone i w x s e v = elim (put_section_lem laws x s.ring) [
    | inl (waited, _) ↦ rw waited (record {
      others = λ k h. ground (arith, v.others k h);
      awake = λ h. ground (arith, v.awake h);
    })
    | inr (ring', notify, left, _, c, _, first) ↦ elim (Bool-cases notify) [
      | inl told ↦
          let (woken, o) =
            notify_not_empty n j w (update s.pc i outside) inside
              (λ k h. ground (arith, v.others k h)) in
          rw (left, told) (record { others = o; awake = λ _. woken })
      | inr quiet ↦
          rw (left, quiet)
            (record {
              others = λ k h. ground (arith, v.others k h);
              awake = λ _. ground (arith, v.awake);
            })
    ]
  ]

  after_take-IsLone :
      (i w : ℕ) (s : System A B)
      → s.pc i ≡ taking
      → IsLone s
      → IsLone (after_take r n i w s (take_section r s.ring))
  after_take-IsLone i w s e v = elim (take_section_lem laws s.ring) [
    | inl (waited, none_left) ↦ rw waited (record {
      others = λ k h. ground (arith, v.others k h, v.others i);
      awake = λ h. absurd (omega (arith, ap length none_left));
    })
    | inr (ring', x, left, c, _) ↦
        let (calm, o) =
          notify_not_full n j w (update s.pc i outside) (ground (arith, v.others i))
            (λ k h. ground (arith, v.others k h)) in
        rw left (record { others = o; awake = λ _. calm })
  ]

  run_section-IsLone :
      (i w : ℕ) (s : System A B) (p : Pc A)
      → s.pc i ≡ p
      → IsLone s
      → IsLone (run_section r n i w s p)
  run_section-IsLone i w s (putting x) e v = after_put-IsLone i w x s e v
  run_section-IsLone i w s taking e v = after_take-IsLone i w s e v
  run_section-IsLone i w s _ e v = v

  begin-IsLone :
      (i : ℕ) (q : Pc A) (s : System A B) (p : Pc A)
      → (i ≢ j → takes q ≡ false)
      → is_asleep q ≡ false
      → IsLone s
      → IsLone (begin r n i q s p)
  begin-IsLone i q s outside h f v = record {
    others = λ k g. ground (arith, v.others k g, h);
    awake = λ g. ground (arith, v.awake g);
  }
  begin-IsLone i q s _ h f v = v

  resume-IsLone :
      (i : ℕ) (s : System A B) (p : Pc A) → s.pc i ≡ p → IsLone s → IsLone (resume r n i s p)
  resume-IsLone i s (put_waiting x) e v = record {
    others = λ k g. ground (arith, v.others k g);
    awake = λ g. ground (arith, v.awake g);
  }
  resume-IsLone i s take_waiting e v = record {
    others = λ k g. ground (arith, v.others k g, v.others i);
    awake = λ g. ground (arith, v.awake g);
  }
  resume-IsLone i s _ e v = v

  if_IsLone :
      (b : Bool) {s t : System A B} → (b ≡ true → IsLone s) → IsLone t → IsLone (if b then s else t)
  if_IsLone true v w = v refl
  if_IsLone false v w = w

  pub step-IsLone :
      (e : Event A) (s : System A B) → takes_only j e ≡ true → IsLone s → IsLone (step r n e s)
  unfolding step
  step-IsLone (call_put i x) s h v =
      if_IsLone (ltb i n) (λ _. begin-IsLone i (putting x) s (s.pc i) (λ _. refl) refl v) v
  step-IsLone (call_take i) s h v =
      if_IsLone (ltb i n) (λ _. begin-IsLone i taking s (s.pc i) (λ g. ground arith) refl v) v
  step-IsLone (enter i w) s h v =
      if_IsLone (ltb i n) (λ _. run_section-IsLone i w s (s.pc i) refl v) v
  step-IsLone (spurious i) s h v = if_IsLone (ltb i n) (λ _. resume-IsLone i s (s.pc i) refl v) v

  pub start-IsLone : (max_size : ℕ) → IsLone (start r n max_size)
  unfolding start
  start-IsLone max_size = record { others = λ i h. refl; awake = λ _. refl }

  run-IsLone :
      (es : List (Event A)) (s : System A B)
      → All (λ e. takes_only j e ≡ true) es
      → IsLone s
      → IsLone (run r n es s)
  unfolding run
  run-IsLone [] s h v = v
  run-IsLone (e ∷ es) s h v = run-IsLone es (step r n e s) h.1 (step-IsLone e s h.0 v)

  -- With one consumer no wakeup of it is lost, on any schedule from an empty queue and for any number
  -- of producers: while the queue is not empty it does not sleep.
  pub run-start-IsLone :
      (max_size : ℕ) (es : List (Event A))
      → All (λ e. takes_only j e ≡ true) es
      → IsLone (run r n es (start r n max_size))
  run-start-IsLone max_size es h = run-IsLone es (start r n max_size) h (start-IsLone max_size)
