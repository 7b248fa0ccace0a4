-- ===== src/Queue/Monitor/Puts.antt =====
-- Which element a thread puts, and what each step does to it.
use bigpipe_cpp.Base.{
  ℕ, ◌≡◌, refl, ap, sym, ◌∙◌, ◌<◌, ◌≢◌, ◌⊎◌, inl, inr, Bool, true, false, Bool-cases, [], ◌∷◌, ◌++◌,
  Option, none, some, ltb, update, ℕ_discrete, if◌then◌else◌, arith,
}
use mathlib.Core.Logic.{ite}
use mathlib.Core.Path.{subst}
use bigpipe_cpp.Queue.Ring.{CircularBuffer}
use bigpipe_cpp.Queue.{Section, waits, leaves, put_section, take_section}
use bigpipe_cpp.Queue.Monitor.{
  Pc, outside, putting, put_waiting, taking, take_waiting, System, call_put, call_take, enter,
  spurious, not_empty, not_full, notify_one, after_put, after_take, run_section, begin, resume,
  step,
}
use bigpipe_cpp.Queue.Monitor.Notify.{notify_one_lem}

module _ {A : Type 0} where
  -- The element of a call of put.
  abbrev pub in_put : Pc A → Option A
  in_put (putting x) = some x
  in_put (put_waiting x) = some x
  in_put _ = none

  -- The same call of put, or none in both; and a thread outside stays there.
  abbrev pub SameCall : Pc A → Pc A → Type 0
  SameCall p q = (in_put q ≡ in_put p) × (p ≡ outside → q ≡ outside)

  pub same_call : (p : Pc A) → SameCall p p
  same_call p = (refl, λ e. e)

  not_empty-SameCall : (q p : Pc A) → not_empty q ≡ some p → SameCall q p
  not_empty-SameCall take_waiting p e = let same : taking ≡ p = cc in rw (sym same) (refl, λ h. cc)
  not_empty-SameCall outside p e = cc
  not_empty-SameCall (putting x) p e = cc
  not_empty-SameCall (put_waiting x) p e = cc
  not_empty-SameCall taking p e = cc

  not_full-SameCall : (q p : Pc A) → not_full q ≡ some p → SameCall q p
  not_full-SameCall (put_waiting x) p e =
      let same : putting x ≡ p = cc in rw (sym same) (refl, λ h. cc)
  not_full-SameCall outside p e = cc
  not_full-SameCall (putting x) p e = cc
  not_full-SameCall take_waiting p e = cc
  not_full-SameCall taking p e = cc

  update-SameCall :
      (pc : ℕ → Pc A) (i : ℕ) (p : Pc A)
      → SameCall (pc i) p
      → (j : ℕ) → SameCall (pc j) (update pc i p j)
  update-SameCall pc i p same j = elim (ℕ_discrete i j) as (λ d. SameCall (pc j) (ite d p (pc j))) [
    | yes self ↦ rw (sym self) same
    | no other ↦ same_call (pc j)
  ]

  notify_one-SameCall :
      (wakes : Pc A → Option (Pc A))
      → ((q p : Pc A) → wakes q ≡ some p → SameCall q p)
      → (n w : ℕ) (pc : ℕ → Pc A) (j : ℕ) → SameCall (pc j) (notify_one wakes n w pc j)
  notify_one-SameCall wakes same n w pc j = elim (notify_one_lem wakes n w pc) [
    | inl (_, f) ↦ rw f (same_call (pc j))
    | inr (k, p, _, e, f) ↦ rw f (update-SameCall pc k p (same (pc k) p e) j)
  ]

module _ {A B : Type 0} (r : CircularBuffer A B) (n : ℕ) where
  -- Every thread is in the same call of put as before, and nothing was accepted.
  pub record IsQuiet (s t : System A B) : Type 0 where
    pub calls : (j : ℕ) → SameCall (s.pc j) (t.pc j)
    pub silent : t.accepted ≡ s.accepted

  -- Thread `i` has put its element and come out, and the others are in the same calls as before.
  pub record IsPut (i : ℕ) (s t : System A B) : Type 0 where
    pub element : A
    pub brought : in_put (s.pc i) ≡ some element
    pub out : t.pc i ≡ outside
    pub others : (j : ℕ) → i ≢ j → SameCall (s.pc j) (t.pc j)
    pub accepted : t.accepted ≡ s.accepted ++ element ∷ []

  pub quiet : (s : System A B) → IsQuiet s s
  quiet s = record { calls = λ j. same_call (s.pc j); silent = refl }

  update_self : (pc : ℕ → Pc A) (i : ℕ) (p : Pc A) → update pc i p i ≡ p
  update_self pc i p = ground arith

  update_other : (pc : ℕ → Pc A) (i : ℕ) (p : Pc A) (j : ℕ) → i ≢ j → update pc i p j ≡ pc j
  update_other pc i p j h = ground arith

  after_put_lem :
      (i w : ℕ) (x : A) (s : System A B) (section : Section (B × Bool))
      → s.pc i ≡ putting x
      → IsQuiet s (after_put r n i w x s section) ⊎ IsPut i s (after_put r n i w x s section)
  after_put_lem i w x s waits e = inl (record {
    calls = update-SameCall s.pc i (put_waiting x) (rw e (refl, λ h. cc));
    silent = refl;
  })
  after_put_lem i w x s (leaves (ring, notify)) e =
      let left = update s.pc i outside in
      let last = if notify then notify_one not_empty n w left else left in
      let woken : (j : ℕ) → SameCall (left j) (last j) =
        elim notify
          as (λ b.
            (j : ℕ) → SameCall (left j) ((if b then notify_one not_empty n w left else left) j)) [
              | true ↦ notify_one-SameCall not_empty not_empty-SameCall n w left
              | false ↦ λ j. same_call (left j)
            ] in
      inr (record {
        element = x;
        brought = ap in_put e;
        out = (woken i).1 (update_self s.pc i outside);
        others =
            λ j h. subst (λ p. SameCall p (last j)) (update_other s.pc i outside j h) (woken j);
        accepted = refl;
      })

  after_take-IsQuiet :
      (i w : ℕ) (s : System A B) (section : Section (B × A))
      → s.pc i ≡ taking
      → IsQuiet s (after_take r n i w s section)
  after_take-IsQuiet i w s waits e = record {
    calls = update-SameCall s.pc i take_waiting (rw e (refl, λ h. cc));
    silent = refl;
  }
  after_take-IsQuiet i w s (leaves (ring, x)) e = record {
    calls = λ j.
        let (a, b) = update-SameCall s.pc i outside (rw e (refl, λ h. cc)) j in
        let (c, d) = notify_one-SameCall not_full not_full-SameCall n w (update s.pc i outside) j in
        (c ∙ a, λ h. d (b h));
    silent = refl;
  }

  run_section_lem :
      (i w : ℕ) (s : System A B) (p : Pc A)
      → s.pc i ≡ p
      → IsQuiet s (run_section r n i w s p) ⊎ IsPut i s (run_section r n i w s p)
  run_section_lem i w s (putting x) e = after_put_lem i w x s (put_section r x s.ring) e
  run_section_lem i w s taking e = inl (after_take-IsQuiet i w s (take_section r s.ring) e)
  run_section_lem i w s _ e = inl (quiet s)

  -- A critical section.
  pub enter_lem :
      (i w : ℕ) (s : System A B)
      → IsQuiet s (step r n (enter i w) s) ⊎ IsPut i s (step r n (enter i w) s)
  unfolding step
  enter_lem i w s = elim (Bool-cases (ltb i n)) [
    | inl inside ↦ rw inside (run_section_lem i w s (s.pc i) refl)
    | inr beyond ↦ rw beyond (inl (quiet s))
  ]

  resume-IsQuiet : (i : ℕ) (s : System A B) (p : Pc A) → s.pc i ≡ p → IsQuiet s (resume r n i s p)
  resume-IsQuiet i s (put_waiting x) e = record {
    calls = update-SameCall s.pc i (putting x) (rw e (refl, λ h. cc));
    silent = refl;
  }
  resume-IsQuiet i s take_waiting e = record {
    calls = update-SameCall s.pc i taking (rw e (refl, λ h. cc));
    silent = refl;
  }
  resume-IsQuiet i s _ e = quiet s

  if_IsQuiet : (b : Bool) (s t : System A B) → IsQuiet s t → IsQuiet s (if b then t else s)
  if_IsQuiet true s t v = v
  if_IsQuiet false s t v = quiet s

  pub spurious-IsQuiet : (i : ℕ) (s : System A B) → IsQuiet s (step r n (spurious i) s)
  unfolding step
  spurious-IsQuiet i s = if_IsQuiet (ltb i n) s _ (resume-IsQuiet i s (s.pc i) refl)

  -- Thread `i` alone has begun a call, with the element `o` if it is one of put.
  pub record IsBegun (i : ℕ) (o : Option A) (s t : System A B) : Type 0 where
    pub here : (in_put (t.pc i) ≡ in_put (s.pc i)) ⊎ (in_put (t.pc i) ≡ o)
    pub entered : s.pc i ≡ outside → i < n → in_put (t.pc i) ≡ o
    pub others : (j : ℕ) → i ≢ j → t.pc j ≡ s.pc j
    pub silent : t.accepted ≡ s.accepted

  begin-IsBegun :
      (i : ℕ) (p : Pc A) (s : System A B) (q : Pc A)
      → s.pc i ≡ q
      → IsBegun i (in_put p) s (begin r n i p s q)
  begin-IsBegun i p s outside e =
      let now : in_put (update s.pc i p i) ≡ in_put p = ap in_put (update_self s.pc i p) in
      record {
        here = inr now;
        entered = λ h lt. now;
        others = λ j h. update_other s.pc i p j h;
        silent = refl;
      }
  begin-IsBegun i p s _ e = record {
    here = inl refl;
    entered = λ h lt. cc;
    others = λ j h. refl;
    silent = refl;
  }

  if_IsBegun :
      (i : ℕ) (o : Option A) (s t : System A B)
      → IsBegun i o s t
      → IsBegun i o s (if ltb i n then t else s)
  if_IsBegun i o s t v = elim (Bool-cases (ltb i n)) [
    | inl inside ↦ rw inside v
    | inr beyond ↦ rw beyond (record {
      here = inl refl;
      entered = λ h lt. ground arith;
      others = λ j h. refl;
      silent = refl;
    })
  ]

  pub call_put-IsBegun :
      (i : ℕ) (x : A) (s : System A B) → IsBegun i (some x) s (step r n (call_put i x) s)
  unfolding step
  call_put-IsBegun i x s = if_IsBegun i (some x) s _ (begin-IsBegun i (putting x) s (s.pc i) refl)

  pub call_take-IsBegun : (i : ℕ) (s : System A B) → IsBegun i none s (step r n (call_take i) s)
  unfolding step
  call_take-IsBegun i s = if_IsBegun i none s _ (begin-IsBegun i taking s (s.pc i) refl)

  -- Thread `i` waits in put, or has come out of it.
  abbrev pub Turned : ℕ → A → System A B → System A B → Section (B × Bool) → Type 0
  Turned i x s t waits = (t.ring ≡ s.ring) × (t.pc i ≡ put_waiting x)
  Turned i x s t (leaves (ring, notify)) = (t.ring ≡ ring) × (t.pc i ≡ outside)

  -- The critical section of put, by thread `i`.
  pub put_turn :
      (i w : ℕ) (x : A) (s : System A B) (section : Section (B × Bool))
      → ltb i n ≡ true
      → s.pc i ≡ putting x
      → put_section r x s.ring ≡ section
      → Turned i x s (step r n (enter i w) s) section
  unfolding step
  put_turn i w x s waits inside e o = rw (inside, e, o) (refl, update_self s.pc i (put_waiting x))
  put_turn i w x s (leaves (ring, false)) inside e o =
      rw (inside, e, o) (refl, update_self s.pc i outside)
  put_turn i w x s (leaves (ring, true)) inside e o =
      let woken = notify_one-SameCall not_empty not_empty-SameCall n w (update s.pc i outside) i in
      rw (inside, e, o) (refl, woken.1 (update_self s.pc i outside))
