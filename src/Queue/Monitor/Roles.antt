-- ===== src/Queue/Monitor/Roles.antt =====
-- What a step of one thread leaves as it is for another, and what take does for its own thread.
use bigpipe_cpp.Base.{
  ℕ, ◌<◌, ◌≡◌, refl, ap, ◌≢◌, ◌⊎◌, inl, inr, Bool, true, false, Bool-cases, [], ◌∷◌, ◌++◌, arith,
  Option, some, ltb, if◌then◌else◌, update,
}
use bigpipe_cpp.Queue.Ring.{CircularBuffer}
use bigpipe_cpp.Queue.{Section, waits, leaves, put_section, take_section}
use bigpipe_cpp.Queue.Monitor.{
  Pc, outside, putting, put_waiting, taking, take_waiting, System, call_put, call_take, enter,
  spurious, not_empty, not_full, notify_one, after_put, run_section, begin, resume, step,
}
use bigpipe_cpp.Queue.Monitor.Notify.{notify_one_lem}
use bigpipe_cpp.Queue.Monitor.Consumers.{takes}

module _ {A : Type 0} where
  abbrev pub puts : Pc A → Bool
  puts (putting x) = true
  puts (put_waiting x) = true
  puts _ = false

  -- On the way into a critical section.
  abbrev pub is_ready : Pc A → Bool
  is_ready (putting x) = true
  is_ready taking = true
  is_ready _ = false

  -- The same call, or none in both.
  abbrev pub SameRole : Pc A → Pc A → Type 0
  SameRole p q = (takes p ≡ takes q) × (puts p ≡ puts q)

  pub not_empty-SameRole : (q p : Pc A) → not_empty q ≡ some p → SameRole p q
  not_empty-SameRole take_waiting p e = ground arith
  not_empty-SameRole _ p e = ground arith

  not_full-SameRole : (q p : Pc A) → not_full q ≡ some p → SameRole p q
  not_full-SameRole (put_waiting x) p e = ground arith
  not_full-SameRole _ p e = ground arith

  module _ (wakes : Pc A → Option (Pc A))
      (same : (q p : Pc A) → wakes q ≡ some p → SameRole p q) where
    -- A notification changes no thread's call.
    pub notify_one-SameRole :
        (n w : ℕ) (pc : ℕ → Pc A) (j : ℕ) → SameRole (notify_one wakes n w pc j) (pc j)
    notify_one-SameRole n w pc j = elim (notify_one_lem wakes n w pc) [
      | inl (_, f) ↦ rw f (refl, refl)
      | inr (k, p, _, e, f) ↦ rw f (ground (arith, same (pc k) p e))
    ]

-- A section that waits, or leaves with a result.
Section-cases : {C : Type 0} (o : Section C) → (o ≡ waits) ⊎ ((c : C) × (o ≡ leaves c))
Section-cases waits = inl refl
Section-cases (leaves c) = inr (c, refl)

module _ {A B : Type 0} (r : CircularBuffer A B) (n j : ℕ) where
  -- Thread `j` is in the same call, and nothing was delivered.
  pub record IsSame (s t : System A B) : Type 0 where
    pub taker : takes (t.pc j) ≡ takes (s.pc j)
    pub putter : puts (t.pc j) ≡ puts (s.pc j)
    pub silent : t.delivered ≡ s.delivered

  put-IsSame :
      (i w : ℕ) (x : A) (s : System A B) (section : Section (B × Bool))
      → i ≢ j
      → IsSame s (after_put r n i w x s section)
  put-IsSame i w x s waits h = ground arith
  put-IsSame i w x s (leaves (ring, false)) h = ground arith
  put-IsSame i w x s (leaves (ring, true)) h =
      let (a, b) = notify_one-SameRole not_empty not_empty-SameRole n w (update s.pc i outside) j in
      record { taker = ground (arith, a); putter = ground (arith, b); silent = refl }

  nothing-IsSame : (s : System A B) → IsSame s s
  nothing-IsSame s = record { taker = refl; putter = refl; silent = refl }

  run_section-IsSame :
      (i w : ℕ) (s : System A B) (p : Pc A)
      → i ≢ j
      → takes p ≡ false
      → IsSame s (run_section r n i w s p)
  run_section-IsSame i w s (putting x) h t = put-IsSame i w x s (put_section r x s.ring) h
  run_section-IsSame i w s taking h t = cc
  run_section-IsSame i w s _ h t = nothing-IsSame s

  resume-IsSame : (i : ℕ) (s : System A B) (p : Pc A) → s.pc i ≡ p → IsSame s (resume r n i s p)
  resume-IsSame i s (put_waiting x) e = ground arith
  resume-IsSame i s take_waiting e = ground arith
  resume-IsSame i s _ e = nothing-IsSame s

  if_IsSame : (b : Bool) (s t : System A B) → IsSame s t → IsSame s (if b then t else s)
  if_IsSame true s t v = v
  if_IsSame false s t v = nothing-IsSame s

  -- Another thread's critical section, which is no take.
  pub enter-IsSame :
      (i w : ℕ) (s : System A B)
      → i ≢ j
      → takes (s.pc i) ≡ false
      → IsSame s (step r n (enter i w) s)
  unfolding step
  enter-IsSame i w s h t = if_IsSame (ltb i n) s _ (run_section-IsSame i w s (s.pc i) h t)

  pub spurious-IsSame : (i : ℕ) (s : System A B) → IsSame s (step r n (spurious i) s)
  unfolding step
  spurious-IsSame i s = if_IsSame (ltb i n) s _ (resume-IsSame i s (s.pc i) refl)

  pub call_put-IsSame :
      (i : ℕ) (x : A) (s : System A B) → i ≢ j → IsSame s (step r n (call_put i x) s)
  unfolding step
  call_put-IsSame i x s h = ground arith

  section-SameRole :
      (i w : ℕ) (s : System A B) (p : Pc A)
      → i ≢ j
      → SameRole ((run_section r n i w s p).pc j) (s.pc j)
  section-SameRole i w s (putting x) h =
      let same = put-IsSame i w x s (put_section r x s.ring) h in (same.taker, same.putter)
  section-SameRole i w s taking h = elim (Section-cases (take_section r s.ring)) [
    | inl waited ↦ rw waited (ground arith)
    | inr ((ring', x), left) ↦
        let (a, b) = notify_one-SameRole not_full not_full-SameRole n w (update s.pc i outside) j in
        rw left (ground (arith, a), ground (arith, b))
  ]
  section-SameRole i w s _ h = (refl, refl)

  -- A critical section leaves the other threads in their calls.
  pub enter-SameRole :
      (i w : ℕ) (s : System A B) → i ≢ j → SameRole ((step r n (enter i w) s).pc j) (s.pc j)
  unfolding step
  enter-SameRole i w s h = elim (Bool-cases (ltb i n)) [
    | inl inside ↦ rw inside (section-SameRole i w s (s.pc i) h)
    | inr beyond ↦ rw beyond (refl, refl)
  ]

  run_section_idle :
      (w : ℕ) (s : System A B) (p : Pc A) → is_ready p ≡ false → run_section r n j w s p ≡ s
  run_section_idle w s (putting x) h = cc
  run_section_idle w s taking h = cc
  run_section_idle w s _ h = refl

  -- Nothing happens where the thread has no critical section to run.
  pub enter_idle : (w : ℕ) (s : System A B) → is_ready (s.pc j) ≡ false → step r n (enter j w) s ≡ s
  unfolding step
  enter_idle w s h = elim (Bool-cases (ltb j n)) [
    | inl inside ↦ rw inside (run_section_idle w s (s.pc j) h)
    | inr beyond ↦ rw beyond
  ]

  call_take_lem :
      (s : System A B) (p : Pc A)
      → s.pc j ≡ p
      → takes p ≡ false
      → puts p ≡ false
      → (takes ((begin r n j taking s p).pc j) ≡ true)
        × (puts ((begin r n j taking s p).pc j) ≡ false)
        × ((begin r n j taking s p).delivered ≡ s.delivered)
  call_take_lem s outside e t h = ground arith
  call_take_lem s _ e t h = cc

  -- The thread calls take.
  pub call_take-takes :
      (s : System A B)
      → j < n
      → takes (s.pc j) ≡ false
      → puts (s.pc j) ≡ false
      → (takes ((step r n (call_take j) s).pc j) ≡ true)
        × (puts ((step r n (call_take j) s).pc j) ≡ false)
        × ((step r n (call_take j) s).delivered ≡ s.delivered)
  unfolding step
  call_take-takes s lt t h =
      let inside : ltb j n ≡ true = ground arith in rw inside (call_take_lem s (s.pc j) refl t h)

  -- Another thread calls take.
  pub call_take-SameRole :
      (i : ℕ) (s : System A B) → i ≢ j → SameRole ((step r n (call_take i) s).pc j) (s.pc j)
  unfolding step
  call_take-SameRole i s h = ground arith

  call_put_lem :
      (x : A) (s : System A B) (p : Pc A)
      → s.pc j ≡ p
      → takes p ≡ false
      → puts ((begin r n j (putting x) s p).pc j) ≡ true
  call_put_lem x s outside e t = ground arith
  call_put_lem x s taking e t = cc
  call_put_lem x s take_waiting e t = cc
  call_put_lem x s _ e t = ap puts e

  -- The thread calls put.
  pub call_put-puts :
      (x : A) (s : System A B)
      → j < n
      → takes (s.pc j) ≡ false
      → puts ((step r n (call_put j x) s).pc j) ≡ true
  unfolding step
  call_put-puts x s lt t =
      let inside : ltb j n ≡ true = ground arith in rw inside (call_put_lem x s (s.pc j) refl t)

  -- The thread's own take: it waits, or comes out with the element that is delivered.
  pub take-delivers :
      (w : ℕ) (s : System A B)
      → j < n
      → s.pc j ≡ taking
      → ((take_section r s.ring ≡ waits)
          × ((step r n (enter j w) s).pc j ≡ take_waiting)
          × ((step r n (enter j w) s).delivered ≡ s.delivered))
        ⊎ ((ring' : B) × (x : A) × (take_section r s.ring ≡ leaves (ring', x))
            × SameRole ((step r n (enter j w) s).pc j) outside
            × ((step r n (enter j w) s).delivered ≡ s.delivered ++ x ∷ []))
  unfolding step
  take-delivers w s lt e =
      let inside : ltb j n ≡ true = ground arith in
      elim (Section-cases (take_section r s.ring)) [
        | inl waited ↦ inl (waited, rw (inside, e, waited) (ground arith), rw (inside, e, waited))
        | inr ((ring', x), left) ↦
            let (a, b) =
              notify_one-SameRole not_full not_full-SameRole n w (update s.pc j outside) j in
            inr (
              ring',
              x,
              left,
              rw (inside, e, left) (ground (arith, a), ground (arith, b)),
              rw (inside, e, left),
            )
      ]
