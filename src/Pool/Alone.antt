-- ===== src/Pool/Alone.antt =====
-- A pool with one worker, and Stop.
use bigpipe_cpp.Base.{
  ℕ, suc, ◌+◌, ◌≤◌, ◌<◌, ◌≡◌, refl, sym, ap, subst, ◌∙◌, ◌≢◌, Bool, true, false, ltb, arith, Option,
  none, update, ℕ_discrete, if◌then◌else◌,
}
use mathlib.Core.Logic.{ite}
use bigpipe_cpp.Queue.Ring.{CircularBuffer, CircularBufferLaws}
use bigpipe_cpp.Queue.Monitor.{System, Event, call_put, call_take}
use bigpipe_cpp.Queue.Monitor.Consumers.{takes}
use bigpipe_cpp.Queue.Monitor.Lone.{IsLone, takes_only, step-IsLone}
use bigpipe_cpp.Queue.Monitor.Roles.{
  puts, call_put-IsSame, call_take-SameRole, call_take-takes, call_put-puts,
}
use bigpipe_cpp.Queue.Monitor.Supply.{stock}
use bigpipe_cpp.Pool.{
  Worker, unborn, testing, in_take, busy, exited, Stopper, idle, in_loop, Pool, is_outside,
  has_exited, on_queue, test_running, finish, begin_stop, join_worker,
}
use bigpipe_cpp.Pool.Tidy.{is_in_take, IsTidy}

abbrev pub is_unborn : Worker → Bool
is_unborn unborn = true
is_unborn _ = false

abbrev pub is_stopping : Stopper → Bool
is_stopping idle = false
is_stopping _ = true

abbrev pub is_looping : Stopper → Bool
is_looping (in_loop k) = true
is_looping _ = false

abbrev pub loop_index : Stopper → ℕ
loop_index (in_loop k) = k
loop_index _ = 0

looping_stopping : (s : Stopper) → is_looping s ≡ true → is_stopping s ≡ true
looping_stopping (in_loop k) h = refl
looping_stopping _ h = cc

pub two : (n : ℕ) → 0 < n + 2
two n = omega arith

pub update_self : (f : ℕ → Worker) (i : ℕ) (w : Worker) → update f i w i ≡ w
update_self f i w = elim (ℕ_discrete i i) as (λ d. ite d w (f i) ≡ w) [
  | yes self ↦ refl
  | no other ↦ absurd (other refl)
]

pub update_other : (f : ℕ → Worker) (i k : ℕ) (w : Worker) → i ≢ k → update f i w k ≡ f k
update_other f i k w h = elim (ℕ_discrete i k) as (λ d. ite d w (f k) ≡ f k) [
  | yes self ↦ absurd (h self)
  | no other ↦ refl
]

module _ {T B : Type 0} {r : CircularBuffer (Option T) B} (laws : CircularBufferLaws r) where
  -- The one worker alone takes; and once the put of Stop has returned it finds a task if it is in take.
  pub record IsAlone (p : Pool T B) : Type 0 where
    pub lone : IsLone laws (p.max_threads + 2) 0 (two p.max_threads) p.queue
    pub taker : takes (p.queue.pc 0) ≡ is_in_take (p.worker 0)
    pub quiet : puts (p.queue.pc 0) ≡ false
    pub born : is_unborn (p.worker 0) ≡ false
    pub first : loop_index p.stopper ≡ 0
    pub early : is_stopping p.stopper ≡ false → puts (p.queue.pc (p.max_threads + 1)) ≡ false
    pub down : is_stopping p.stopper ≡ true → p.is_running ≡ false
    pub supplied :
        is_looping p.stopper ≡ true
        → puts (p.queue.pc (p.max_threads + 1)) ≡ false
        → is_in_take (p.worker 0) ≡ true
        → 0 < stock laws (p.max_threads + 2) p.queue

  -- A step that leaves the flag and Stop as they are, after which the worker is at `w`.
  pub move-IsAlone :
      (p : Pool T B) (q : System (Option T) B) (f : ℕ → Worker) (w : Worker)
      → f 0 ≡ w
      → takes (q.pc 0) ≡ is_in_take w
      → puts (q.pc 0) ≡ false
      → is_unborn w ≡ false
      → puts (q.pc (p.max_threads + 1)) ≡ puts (p.queue.pc (p.max_threads + 1))
      → IsLone laws (p.max_threads + 2) 0 (two p.max_threads) q
      → (is_looping p.stopper ≡ true
          → puts (p.queue.pc (p.max_threads + 1)) ≡ false
          → is_in_take w ≡ true
          → 0 < stock laws (p.max_threads + 2) q)
      → IsAlone p
      → IsAlone (record p { queue = q; worker = f })
  move-IsAlone p q f w at takes_so puts_so alive same lone supply v = record {
    lone = lone;
    taker = takes_so ∙ ap is_in_take (sym at);
    quiet = puts_so;
    born = ap is_unborn at ∙ alive;
    first = v.first;
    early = λ h. same ∙ v.early h;
    down = v.down;
    supplied = λ h u t. supply h (sym same ∙ u) (sym (ap is_in_take at) ∙ t);
  }

  -- Where the worker stays as it is, and the queue loses nothing.
  pub other-IsAlone :
      (p : Pool T B) (q : System (Option T) B) (f : ℕ → Worker)
      → f 0 ≡ p.worker 0
      → takes (q.pc 0) ≡ takes (p.queue.pc 0)
      → puts (q.pc 0) ≡ puts (p.queue.pc 0)
      → puts (q.pc (p.max_threads + 1)) ≡ puts (p.queue.pc (p.max_threads + 1))
      → IsLone laws (p.max_threads + 2) 0 (two p.max_threads) q
      → stock laws (p.max_threads + 2) p.queue ≤ stock laws (p.max_threads + 2) q
      → IsAlone p
      → IsAlone (record p { queue = q; worker = f })
  other-IsAlone p q f at takes_so puts_so same lone more v =
      move-IsAlone p q f (p.worker 0) at (takes_so ∙ v.taker) (puts_so ∙ v.quiet) v.born same lone
        (λ h u t. omega (arith, v.supplied h u t)) v

  -- No worker but the first is born.
  pub unborn_lem : (p : Pool T B) (i : ℕ) → i ≢ 0 → IsTidy r 1 p → p.worker i ≡ unborn
  unborn_lem p i h t = t.few i (ground (arith, t.sized))

  pub on_queue-IsLone :
      (e : Event (Option T)) (p : Pool T B)
      → takes_only 0 e ≡ true
      → IsAlone p
      → IsLone laws (p.max_threads + 2) 0 (two p.max_threads) (on_queue r e p)
  on_queue-IsLone e p h v =
      step-IsLone laws (p.max_threads + 2) 0 (two p.max_threads) e p.queue h v.lone

  if_IsAlone :
      (b : Bool) (p q : Pool T B)
      → (b ≡ true → IsAlone p)
      → (b ≡ false → IsAlone q)
      → IsAlone (if b then p else q)
  if_IsAlone true p q v w = v refl
  if_IsAlone false p q v w = w refl

  first_test :
      (p : Pool T B) → p.worker 0 ≡ testing → IsAlone p → IsAlone (test_running r 0 p testing)
  first_test p e v =
      let stays =
        call_take-SameRole r (p.max_threads + 2) (p.max_threads + 1) 0 p.queue (omega arith) in
      if_IsAlone p.is_running _ _
        (λ on.
          let (t, u, _) =
            call_take-takes r (p.max_threads + 2) 0 p.queue (two p.max_threads)
              (v.taker ∙ ap is_in_take e) v.quiet in
          move-IsAlone p _ _ in_take (update_self p.worker 0 in_take) t u refl stays.1
            (on_queue-IsLone (call_take 0) p refl v)
            (λ h. let low = v.down (looping_stopping p.stopper h) in cc) v)
        (λ off.
          move-IsAlone p p.queue _ exited (update_self p.worker 0 exited)
            (v.taker ∙ ap is_in_take e) v.quiet refl refl v.lone (λ h u t. cc) v)

  pub test_running-IsAlone :
      (i : ℕ) (p : Pool T B) (w : Worker)
      → p.worker i ≡ w
      → IsTidy r 1 p
      → IsAlone p
      → IsAlone (test_running r i p w)
  test_running-IsAlone i p testing e tidy v = elim (ℕ_discrete i 0) [
    | yes own ↦
        subst (λ k. IsAlone (test_running r k p testing)) (sym own)
          (first_test p (ap p.worker (sym own) ∙ e) v)
    | no other ↦ let young = unborn_lem p i other tidy in cc
  ]
  test_running-IsAlone i p _ e tidy v = v

  pub finish-IsAlone :
      (i : ℕ) (p : Pool T B) (w : Worker)
      → p.worker i ≡ w
      → IsTidy r 1 p
      → IsAlone p
      → IsAlone (finish r i p w)
  finish-IsAlone i p busy e tidy v = elim (ℕ_discrete i 0) [
    | yes own ↦
        let here : p.worker 0 ≡ busy = ap p.worker (sym own) ∙ e in
        subst (λ k. IsAlone (finish r k p busy)) (sym own)
          (move-IsAlone p p.queue _ testing (update_self p.worker 0 testing)
            (v.taker ∙ ap is_in_take here) v.quiet refl refl v.lone (λ h u t. cc) v)
    | no other ↦ let young = unborn_lem p i other tidy in cc
  ]
  finish-IsAlone i p _ e tidy v = v

  pub begin_stop-IsAlone :
      (p : Pool T B) (s : Stopper)
      → p.stopper ≡ s
      → IsTidy r 1 p
      → IsAlone p
      → IsAlone (begin_stop r p s)
  begin_stop-IsAlone p idle e tidy v =
      let some_worker : ltb 0 p.max_threads ≡ true = ground (arith, tidy.sized) in
      let n = p.max_threads + 2 in
      let role =
        call_put-IsSame r n 0 (p.max_threads + 1) none p.queue (λ h. absurd (omega arith)) in
      let putting_now =
        call_put-puts r n (p.max_threads + 1) none p.queue (omega arith)
          (v.lone.others (p.max_threads + 1) (λ h. absurd (omega arith))) in
      if_IsAlone (ltb 0 p.max_threads) _ _
        (λ go. record {
          lone = on_queue-IsLone (call_put (p.max_threads + 1) none) p refl v;
          taker = role.taker ∙ v.taker;
          quiet = role.putter ∙ v.quiet;
          born = v.born;
          first = refl;
          early = λ h. cc;
          down = λ h. refl;
          supplied = λ h u t. cc;
        })
        (λ stop. cc)
  begin_stop-IsAlone p _ e tidy v = v

  -- Stop has but one worker to join.
  pub join_worker-IsAlone :
      (p : Pool T B) (s : Stopper)
      → p.stopper ≡ s
      → IsTidy r 1 p
      → IsAlone p
      → IsAlone (join_worker r p s)
  join_worker-IsAlone p (in_loop k) e tidy v =
      let first : k ≡ 0 = ap loop_index (sym e) ∙ v.first in
      let last : ltb (suc k) p.max_threads ≡ false = ground (arith, tidy.sized) in
      if_IsAlone (is_outside (p.queue.pc (p.max_threads + 1))) _ _
        (λ out.
          if_IsAlone (has_exited (p.worker k)) _ _
            (λ left.
              if_IsAlone (ltb (suc k) p.max_threads) _ _ (λ more. cc)
                (λ over. record {
                  lone = v.lone;
                  taker = v.taker;
                  quiet = v.quiet;
                  born = v.born;
                  first = refl;
                  early = λ h. cc;
                  down = λ h. v.down (ap is_stopping e);
                  supplied = λ h u t. cc;
                }))
            (λ stays. v))
        (λ inside. v)
  join_worker-IsAlone p _ e tidy v = v
