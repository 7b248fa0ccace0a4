-- ===== src/Producer/Relay/Ending.antt =====
-- Stop, once its empty message is in the queue.
use bigpipe_cpp.Base.{
  ℕ, ◌+◌, ◌≤◌, ◌<◌, ◌≡◌, refl, sym, ap, subst, ◌∙◌, inl, inr, Bool, Bool-cases, true, false, arith,
  Option, Outcome, done, fail, String, if◌then◌else◌,
}
use bigpipe_cpp.Folly.{Folly}
use bigpipe_cpp.Proto.Reqmsg.{RequestMessage, no_message}
use bigpipe_cpp.Queue.Ring.{CircularBuffer, CircularBufferLaws}
use bigpipe_cpp.Queue.Monitor.{Pc, putting, taking, System}
use bigpipe_cpp.Queue.Monitor.Consumers.{takes}
use bigpipe_cpp.Queue.Monitor.Roles.{puts, is_ready, call_take-SameRole, call_put-puts}
use bigpipe_cpp.Config.{Topics}
use bigpipe_cpp.Producer.{Produced, push_one}
use bigpipe_cpp.Producer.Relay.{
  Pusher, unborn, testing, pushing, exited, faulted, Keeper, fresh, created, started, stopping,
  joined, Relay, has_exited, is_outside, settle, handed, create, raise, test_running, end_round,
  begin_stop, join_pusher,
}
use bigpipe_cpp.Producer.Relay.Relayed.{is_fresh, is_taking}
use bigpipe_cpp.Producer.Relay.Order.{Relays}
use bigpipe_cpp.Queue.Monitor.Supply.{stock}

abbrev pub is_closing : Keeper → Bool
is_closing stopping = true
is_closing joined = true
is_closing _ = false

abbrev pub is_unborn : Pusher → Bool
is_unborn unborn = true
is_unborn _ = false

pub idle_role : (p : Pc RequestMessage) → takes p ≡ false → puts p ≡ false → is_ready p ≡ false
idle_role (putting x) t u = u
idle_role taking t u = t
idle_role _ t u = refl

module _ {D W B : Type 0} (f : Folly D W) (str_hash : String → ℕ)
    {r : CircularBuffer RequestMessage B} (laws : CircularBufferLaws r) (handlers max_size : ℕ)
    (topics : Topics) where
  abbrev pub InOrder : Relay B → Type 0
  InOrder s = Relays f str_hash laws handlers max_size topics s

  -- Once the put of Stop has returned, the thread of Pushing finds a message if it is in take.
  pub record IsEnding (s : Relay B) : Type 0 where
    pub early : is_closing s.keeper ≡ false → puts (s.queue.pc 1) ≡ false
    pub down : is_closing s.keeper ≡ true → s.is_running ≡ false
    pub alive : is_unborn s.pusher ≡ true → is_fresh s.keeper ≡ true
    pub supplied :
        is_closing s.keeper ≡ true
        → puts (s.queue.pc 1) ≡ false
        → is_taking s.pusher ≡ true
        → 0 < stock laws (handlers + 2) s.queue

  -- A step of another thread on the queue, which leaves no less in it.
  pub queue-IsEnding :
      (s : Relay B) (q : System RequestMessage B)
      → puts (q.pc 1) ≡ puts (s.queue.pc 1)
      → stock laws (handlers + 2) s.queue ≤ stock laws (handlers + 2) q
      → IsEnding s
      → IsEnding (record s { queue = q })
  queue-IsEnding s q same more v = record {
    early = λ h. same ∙ v.early h;
    down = v.down;
    alive = v.alive;
    supplied = λ h u t. omega (arith, v.supplied h (sym same ∙ u) t);
  }

  -- A step of the thread of Pushing that does not leave it in take.
  pusher-IsEnding :
      (s : Relay B) (p : Pusher)
      → is_taking p ≡ false
      → is_unborn p ≡ false
      → IsEnding s
      → IsEnding (record s { pusher = p })
  pusher-IsEnding s p t b v = record {
    early = v.early;
    down = v.down;
    alive = λ h. cc;
    supplied = λ h u k. cc;
  }

  pub create-IsEnding :
      (s : Relay B) (k : Keeper) → s.keeper ≡ k → IsEnding s → IsEnding (create s k)
  create-IsEnding s fresh e v = record {
    early = λ h. v.early (ap is_closing e);
    down = λ h. cc;
    alive = λ h. cc;
    supplied = λ h u t. cc;
  }
  create-IsEnding s _ e v = v

  pub raise-IsEnding : (s : Relay B) (k : Keeper) → s.keeper ≡ k → IsEnding s → IsEnding (raise s k)
  raise-IsEnding s created e v = record {
    early = λ h. v.early (ap is_closing e);
    down = λ h. cc;
    alive = λ h. let a = v.alive h in cc;
    supplied = λ h u t. cc;
  }
  raise-IsEnding s _ e v = v

  pub test_running-IsEnding :
      (s : Relay B) (p : Pusher)
      → s.pusher ≡ p
      → IsEnding s
      → IsEnding (test_running r handlers s p)
  test_running-IsEnding s testing e v = elim (Bool-cases s.is_running) [
    | inl on ↦
        let (_, same) = call_take-SameRole r (handlers + 2) 1 0 s.queue (λ h. cc) in
        rw on (record {
          early = λ h. same ∙ v.early h;
          down = λ h. let d = v.down h in cc;
          alive = λ h. cc;
          supplied = λ h u t. let d = v.down h in cc;
        })
    | inr off ↦ rw off (
        pusher-IsEnding (record s { is_running = false }) exited refl refl
          (subst (λ b. IsEnding (record s { is_running = b })) off v))
  ]
  test_running-IsEnding s _ e v = v

  pub end_round-IsEnding :
      (s : Relay B) (rd : ℕ) (taken : Outcome (Unit {0})) (p : Pusher)
      → IsEnding s
      → IsEnding (end_round f str_hash r handlers rd taken s p)
  end_round-IsEnding s rd taken (pushing m) v =
      settled (handed taken (push_one f str_hash rd m s.topics))
    where
      settled : (o : Outcome (Topics × Option Produced)) → IsEnding (settle m s o)
      settled (done (after, o)) =
          let w = pusher-IsEnding s testing refl refl v in
          record { early = w.early; down = w.down; alive = w.alive; supplied = w.supplied }
      settled (fail x) = pusher-IsEnding s (faulted m x) refl refl v
  end_round-IsEnding s rd taken _ v = v

  pub begin_stop-IsEnding :
      (s : Relay B) (k : Keeper)
      → s.keeper ≡ k
      → InOrder s
      → IsEnding s
      → IsEnding (begin_stop r handlers s k)
  begin_stop-IsEnding s started e o v =
      let busy =
        call_put-puts r (handlers + 2) 1 no_message s.queue (omega arith)
          (o.lone.others 1 (λ h. cc)) in
      record {
        early = λ h. cc;
        down = λ h. refl;
        alive = λ h. let a = v.alive h in cc;
        supplied = λ h u t. cc;
      }
  begin_stop-IsEnding s _ e o v = v

  if_IsEnding : (b : Bool) (s t : Relay B) → IsEnding s → IsEnding t → IsEnding (if b then s else t)
  if_IsEnding true s t v w = v
  if_IsEnding false s t v w = w

  pub join_pusher-IsEnding :
      (s : Relay B) (k : Keeper) → s.keeper ≡ k → IsEnding s → IsEnding (join_pusher s k)
  join_pusher-IsEnding s stopping e v =
      let over : IsEnding (record s { keeper = joined }) = record {
        early = λ h. cc;
        down = λ h. v.down (ap is_closing e);
        alive = λ h. let a = v.alive h in cc;
        supplied = λ h u t. v.supplied (ap is_closing e) u t;
      } in
      if_IsEnding (is_outside (s.queue.pc 1)) _ _ (if_IsEnding (has_exited s.pusher) _ _ over v) v
  join_pusher-IsEnding s _ e v = v
