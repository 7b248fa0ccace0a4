-- ===== src/Queue/Monitor/Covered.antt =====
-- Counting the producers that are on their way against the free places.
use bigpipe_cpp.Base.{
  ℕ, suc, ◌+◌, ◌≤◌, ◌<◌, ◌≡◌, ◌≢◌, inl, inr, Bool, true, false, arith, none, some, if◌then◌else◌,
  update, total, total-update,
}
use bigpipe_cpp.Queue.Monitor.{
  Pc, outside, putting, put_waiting, taking, take_waiting, not_full, not_empty, notify_one,
}
use bigpipe_cpp.Queue.Monitor.Notify.{Notified, notify_one_lem}

module _ {A : Type 0} where
  -- A producer that is on its way into its critical section.
  abbrev pub coming : Pc A → ℕ
  coming (putting x) = 1
  coming _ = 0

  abbrev pub is_blocked : Pc A → Bool
  is_blocked (put_waiting x) = true
  is_blocked _ = false

  -- For every free place there is a producer on its way, as soon as one waits.
  abbrev pub Covered : ℕ → ℕ → ℕ → (ℕ → Pc A) → Type 0
  Covered n max_size len pc =
      (j : ℕ) → j < n → is_blocked (pc j) ≡ true → max_size ≤ len + total coming n pc

  -- One thread moves, and neither takes a place nor waits for one.
  pub moved_Covered :
      (n max_size len i : ℕ) (pc : ℕ → Pc A) (p : Pc A)
      → i < n
      → coming (pc i) ≤ coming p
      → is_blocked p ≡ false
      → Covered n max_size len pc
      → Covered n max_size len (update pc i p)
  moved_Covered n max_size len i pc p lt more free v j in_n blocked =
      ground (arith, total-update coming n pc i p lt, v j in_n)

  not_empty_lem : (q p : Pc A) → not_empty q ≡ some p → (coming q ≡ 0) × (is_blocked p ≡ false)
  not_empty_lem take_waiting p e = ground arith
  not_empty_lem _ p e = ground arith

  not_full_lem :
      (q p : Pc A) → not_full q ≡ some p → (coming q ≡ 0) × (coming p ≡ 1) × (is_blocked p ≡ false)
  not_full_lem (put_waiting x) p e = ground arith
  not_full_lem _ p e = ground arith

  blocked_lem : (q : Pc A) → is_blocked q ≡ true → not_full q ≢ none
  blocked_lem (put_waiting x) b e = cc
  blocked_lem _ b e = cc

  -- A notification of the consumers changes nothing for the producers.
  notify_one-Covered :
      (n max_size len : ℕ) (pc pc' : ℕ → Pc A)
      → Notified not_empty n pc pc'
      → Covered n max_size len pc
      → Covered n max_size len pc'
  notify_one-Covered n max_size len pc pc' (inl (nobody, f)) v = rw f v
  notify_one-Covered n max_size len pc pc' (inr (k, p, lt, e, f)) v =
      let (idle, moved) = not_empty_lem (pc k) p e in
      rw f (moved_Covered n max_size len k pc p lt (omega arith) moved v)

  pub pushed_Covered :
      (n max_size len i w : ℕ) (pc : ℕ → Pc A) (x : A) (notify : Bool)
      → i < n
      → pc i ≡ putting x
      → Covered n max_size len pc
      → Covered n max_size
          (len + 1)
          (if notify then notify_one not_empty n w (update pc i outside) else update pc i outside)
  pushed_Covered n max_size len i w pc x false lt e v =
      λ j in_n blocked. ground (arith, total-update coming n pc i outside lt, v j in_n)
  pushed_Covered n max_size len i w pc x true lt e v =
      notify_one-Covered n max_size (len + 1) (update pc i outside) _
        (notify_one_lem not_empty n w (update pc i outside))
        (λ j in_n blocked. ground (arith, total-update coming n pc i outside lt, v j in_n))

  -- A place becomes free, and a producer that waits is woken for it.
  woken_Covered :
      (n max_size len i : ℕ) (pc pc' : ℕ → Pc A)
      → i < n
      → pc i ≡ taking
      → Notified not_full n (update pc i outside) pc'
      → Covered n max_size (suc len) pc
      → Covered n max_size len pc'
  woken_Covered n max_size len i pc pc' lt e (inl (nobody, f)) v j in_n blocked =
      absurd (blocked_lem (update pc i outside j) (rw f at blocked) (nobody j in_n))
  woken_Covered n max_size len i pc pc' lt e (inr (k, p, k_in_n, wakes, f)) v j in_n blocked =
      let (idle, here, free) = not_full_lem (update pc i outside k) p wakes in
      let still : is_blocked (update (update pc i outside) k p j) ≡ true = rw f at blocked in
      rw f (
        ground (
          arith,
          total-update coming n pc i outside lt,
          total-update coming n (update pc i outside) k p k_in_n,
          v j in_n,
        ))

  pub popped_Covered :
      (n max_size len i w : ℕ) (pc : ℕ → Pc A)
      → i < n
      → pc i ≡ taking
      → Covered n max_size (suc len) pc
      → Covered n max_size len (notify_one not_full n w (update pc i outside))
  popped_Covered n max_size len i w pc lt e =
      woken_Covered n max_size len i pc _ lt e (notify_one_lem not_full n w (update pc i outside))
