-- ===== src/Queue/Monitor/Origin.antt =====
-- Where the elements of the queue come from.
use bigpipe_cpp.Base.{
  ℕ, ◌≡◌, inl, inr, Bool, true, false, [], ◌∷◌, All, All-append, Option, some, ltb, update,
  ℕ_discrete, if◌then◌else◌,
}
use mathlib.Core.Logic.{ite}
use mathlib.Core.Path.{subst}
use bigpipe_cpp.Queue.Ring.{CircularBuffer}
use bigpipe_cpp.Queue.{Section, waits, leaves, put_section, take_section}
use bigpipe_cpp.Queue.Monitor.{
  Pc, outside, putting, put_waiting, taking, take_waiting, System, Event, call_put, call_take,
  enter, spurious, not_empty, not_full, notify_one, after_put, after_take, run_section, begin,
  resume, start, step,
}
use bigpipe_cpp.Queue.Monitor.Notify.{notify_one_lem}

module _ {A : Type 0} (P : A → Type 0) where
  -- The element that a thread puts.
  abbrev pub Carries : Pc A → Type 0
  Carries (putting x) = P x
  Carries (put_waiting x) = P x
  Carries _ = Unit

  -- The element that a call of put brings.
  abbrev pub Brings : Event A → Type 0
  Brings (call_put i x) = P x
  Brings _ = Unit

  not_empty-Carries : (q p : Pc A) → not_empty q ≡ some p → Carries p
  not_empty-Carries take_waiting p e = let same : taking ≡ p = cc in subst Carries same tt
  not_empty-Carries outside p e = cc
  not_empty-Carries (putting x) p e = cc
  not_empty-Carries (put_waiting x) p e = cc
  not_empty-Carries taking p e = cc

  not_full-Carries : (q p : Pc A) → Carries q → not_full q ≡ some p → Carries p
  not_full-Carries (put_waiting x) p c e = let same : putting x ≡ p = cc in subst Carries same c
  not_full-Carries outside p c e = cc
  not_full-Carries (putting x) p c e = cc
  not_full-Carries take_waiting p c e = cc
  not_full-Carries taking p c e = cc

  abbrev Carrying : (ℕ → Pc A) → Type 0
  Carrying pc = (i : ℕ) → Carries (pc i)

  update-Carrying :
      (pc : ℕ → Pc A) (i : ℕ) (p : Pc A) → Carries p → Carrying pc → Carrying (update pc i p)
  update-Carrying pc i p c h k = elim (ℕ_discrete i k) as (λ d. Carries (ite d p (pc k))) [
    | yes self ↦ c
    | no other ↦ h k
  ]

  notify_one-Carrying :
      (wakes : Pc A → Option (Pc A))
      → ((q p : Pc A) → Carries q → wakes q ≡ some p → Carries p)
      → (n w : ℕ) (pc : ℕ → Pc A) → Carrying pc
      → Carrying (notify_one wakes n w pc)
  notify_one-Carrying wakes keeps n w pc h = elim (notify_one_lem wakes n w pc) [
    | inl (_, f) ↦ rw f h
    | inr (k, p, _, e, f) ↦ rw f (update-Carrying pc k p (keeps (pc k) p (h k) e) h)
  ]

module _ {A B : Type 0} (r : CircularBuffer A B) (n : ℕ) (P : A → Type 0) where
  -- What was accepted, and what is in a call of put, are such elements.
  pub record IsMade (s : System A B) : Type 0 where
    pub made : All P s.accepted
    pub pending : (i : ℕ) → Carries P (s.pc i)

  put-IsMade :
      (i w : ℕ) (x : A) (s : System A B) (section : Section (B × Bool))
      → P x
      → IsMade s
      → IsMade (after_put r n i w x s section)
  put-IsMade i w x s waits c v = record {
    made = v.made;
    pending = update-Carrying P s.pc i (put_waiting x) c v.pending;
  }
  put-IsMade i w x s (leaves (ring, notify)) c v =
      let left = update-Carrying P s.pc i outside tt v.pending in
      record {
        made = All-append P s.accepted (x ∷ []) v.made (c, tt);
        pending = λ k.
            either notify k
              (notify_one-Carrying P not_empty (λ q p _ e. not_empty-Carries P q p e) n w _ left k)
              (left k);
      }
    where
      either :
          (b : Bool) (k : ℕ)
          → Carries P (notify_one not_empty n w (update s.pc i outside) k)
          → Carries P (update s.pc i outside k)
          → Carries P (
              (if b
                  then notify_one not_empty n w (update s.pc i outside)
                  else update s.pc i outside)
                k)
      either true k a b = a
      either false k a b = b

  take-IsMade :
      (i w : ℕ) (s : System A B) (section : Section (B × A))
      → IsMade s
      → IsMade (after_take r n i w s section)
  take-IsMade i w s waits v = record {
    made = v.made;
    pending = update-Carrying P s.pc i take_waiting tt v.pending;
  }
  take-IsMade i w s (leaves (ring, x)) v = record {
    made = v.made;
    pending =
        notify_one-Carrying P not_full (not_full-Carries P) n w _
          (update-Carrying P s.pc i outside tt v.pending);
  }

  section-IsMade :
      (i w : ℕ) (s : System A B) (p : Pc A)
      → Carries P p
      → IsMade s
      → IsMade (run_section r n i w s p)
  section-IsMade i w s (putting x) c v = put-IsMade i w x s (put_section r x s.ring) c v
  section-IsMade i w s taking c v = take-IsMade i w s (take_section r s.ring) v
  section-IsMade i w s _ c v = v

  begin-IsMade :
      (i : ℕ) (p : Pc A) (s : System A B) (q : Pc A)
      → Carries P p
      → IsMade s
      → IsMade (begin r n i p s q)
  begin-IsMade i p s outside c v = record {
    made = v.made;
    pending = update-Carrying P s.pc i p c v.pending;
  }
  begin-IsMade i p s _ c v = v

  resume-IsMade :
      (i : ℕ) (s : System A B) (p : Pc A) → Carries P p → IsMade s → IsMade (resume r n i s p)
  resume-IsMade i s (put_waiting x) c v = record {
    made = v.made;
    pending = update-Carrying P s.pc i (putting x) c v.pending;
  }
  resume-IsMade i s take_waiting c v = record {
    made = v.made;
    pending = update-Carrying P s.pc i taking tt v.pending;
  }
  resume-IsMade i s _ c v = v

  if_IsMade : (b : Bool) (s t : System A B) → IsMade s → IsMade t → IsMade (if b then s else t)
  if_IsMade true s t v w = v
  if_IsMade false s t v w = w

  pub step-IsMade : (e : Event A) (s : System A B) → Brings P e → IsMade s → IsMade (step r n e s)
  unfolding step
  step-IsMade (call_put i x) s c v =
      if_IsMade (ltb i n) _ _ (begin-IsMade i (putting x) s (s.pc i) c v) v
  step-IsMade (call_take i) s c v =
      if_IsMade (ltb i n) _ _ (begin-IsMade i taking s (s.pc i) tt v) v
  step-IsMade (enter i w) s c v =
      if_IsMade (ltb i n) _ _ (section-IsMade i w s (s.pc i) (v.pending i) v) v
  step-IsMade (spurious i) s c v =
      if_IsMade (ltb i n) _ _ (resume-IsMade i s (s.pc i) (v.pending i) v) v

  pub start-IsMade : (max_size : ℕ) → IsMade (start r n max_size)
  unfolding start
  start-IsMade max_size = record { made = tt; pending = λ i. tt }
