-- ===== src/Gateway/Answers.antt =====
-- What the clients are told, against what goes into the queue.
use bigpipe_cpp.Base.{
  length, length-append, ◌==◌, sym, ap, ◌∙◌, ℕ, zero, suc, ◌+◌, ◌≡◌, refl, ◌⊎◌, inl, inr, Bool,
  Bool-cases, ltb, List, [], ◌∷◌, All, String, arith,
}
use bigpipe_cpp.Folly.{Folly}
use bigpipe_cpp.Proto.{Files}
use bigpipe_cpp.Proto.Reqmsg.{RequestMessage}
use bigpipe_cpp.Queue.Ring.{CircularBuffer}
use bigpipe_cpp.Queue.Monitor.{Pc, outside, System, call_put, call_take, enter, spurious}
use bigpipe_cpp.Queue.Monitor
use bigpipe_cpp.Queue.Monitor.Puts.{enter_lem, spurious-IsQuiet}
use bigpipe_cpp.Config.{Topics}
use bigpipe_cpp.Producer.Relay.{
  Pusher, testing, pushing, Keeper, fresh, created, started, stopping, Relay, RelayEvent,
  create_thread, raise_flag, loop_test, enter_section, wake_up, push, request, call_stop, join,
  has_exited, is_outside, settle, create, raise, join_pusher, test_running, begin_stop, end_round,
  new_relay, on_queue,
}
use bigpipe_cpp.Producer.Relay
use bigpipe_cpp.Gateway.{Gateway, GatewayEvent, rpc, relay_step, new_gateway, relayed, step, run}
use bigpipe_cpp.Gateway.Account.{
  Accounted, nothing, Matches, idle, quiet-IsAnswered, pusher-IsAnswered, notice-IsAnswered,
}
use bigpipe_cpp.Gateway.Kept.{
  create-Keeps, raise-Keeps, test_running-Keeps, end_round-Keeps, begin_stop-Keeps,
  join_pusher-Keeps,
}
use bigpipe_cpp.Base.{none, true}
use bigpipe_cpp.Queue.{is_full}
use bigpipe_cpp.Queue.Ring.{CircularBufferLaws}
use bigpipe_cpp.Queue.Monitor.Fifo.{IsFifo}
use bigpipe_cpp.Proto.Reqmsg.{RequestMessage}
use bigpipe_cpp.Gateway.Origin.{IsFrom, Posts, step-IsFrom, new_gateway-IsFrom}
use bigpipe_cpp.Gateway.Served.{IsCrowded}
use bigpipe_cpp.Gateway.Account.{Debt}
use bigpipe_cpp.Gateway.{reply}
use bigpipe_cpp.Gateway.Served.{IsServed, begin_rpc-IsServed, end_rpc-IsServed, deliver-IsServed}

module _ {D W B : Type 0} (f : Folly D W) (files : Files) (str_hash : String → ℕ)
    (what : String → String) (r : CircularBuffer RequestMessage B) (handlers max_size : ℕ)
    (Q : ℕ → List (String × String) → String → Type 0) where
  -- The request that has come in.
  abbrev pub Came : GatewayEvent → Type 0
  Came (rpc h headers body) = Q h headers body
  Came _ = Unit

  handler_section-IsServed :
      (h w : ℕ) (g : Gateway B)
      → IsServed f files str_hash what r handlers max_size Q g
      → IsServed f files str_hash what r handlers max_size Q
          (relayed f str_hash r handlers (enter_section (h + 2) w) g)
  unfolding Relay.step
  handler_section-IsServed h w g v = elim (enter_lem r (handlers + 2) (h + 2) w g.relay.queue) [
    | inl same ↦
        quiet-IsAnswered f files what r max_size Q (handlers + 2) _ _ g.handler g.answers v same
    | inr u ↦
        deliver-IsServed f files str_hash what r handlers max_size Q h g
          (Relay.step f str_hash r handlers (enter_section (h + 2) w) g.relay) (g.handler h)
          (v.owed h) v refl refl (v.calls h) u
  ]

  thread-cases : (i : ℕ) → (i ≡ 0) ⊎ (i ≡ 1) ⊎ ((h : ℕ) × (i ≡ h + 2))
  thread-cases zero = inl refl
  thread-cases (suc zero) = inr (inl refl)
  thread-cases (suc (suc h)) = inr (inr (h, omega arith))

  section-IsServed :
      (i w : ℕ) (g : Gateway B)
      → IsServed f files str_hash what r handlers max_size Q g
      → IsServed f files str_hash what r handlers max_size Q
          (step f files str_hash what r handlers (relay_step (enter_section i w)) g)
  unfolding step Relay.step
  section-IsServed i w g v = elim (thread-cases i) [
    | inl e ↦ rw e (elim (enter_lem r (handlers + 2) 0 w g.relay.queue) [
      | inl same ↦
          quiet-IsAnswered f files what r max_size Q (handlers + 2) _ _ g.handler g.answers v same
      | inr u ↦
          pusher-IsAnswered f files what r max_size Q (handlers + 2) _ _ g.handler g.answers v u
    ])
    | inr (inl e) ↦ rw e (elim (enter_lem r (handlers + 2) 1 w g.relay.queue) [
      | inl same ↦
          quiet-IsAnswered f files what r max_size Q (handlers + 2) _ _ g.handler g.answers v same
      | inr u ↦
          notice-IsAnswered f files what r max_size Q (handlers + 2) _ _ g.handler g.answers v u
    ])
    | inr (inr (h, e)) ↦ rw e (handler_section-IsServed h w g v)
  ]

  step-IsServed :
      (e : GatewayEvent) (g : Gateway B)
      → Came e
      → IsCrowded f files str_hash what r handlers max_size Q g
      → IsServed f files str_hash what r handlers max_size Q g
      → IsServed f files str_hash what r handlers max_size Q
          (step f files str_hash what r handlers e g)
  unfolding step Relay.step
  step-IsServed (rpc h headers body) g q crowded v = elim (Bool-cases (ltb h handlers)) [
    | inl inside ↦ rw inside (
        begin_rpc-IsServed f files str_hash what r handlers max_size Q h headers body g
          (g.handler h) (v.owed h) v refl (v.calls h) inside q crowded)
    | inr beyond ↦ rw beyond v
  ]
  step-IsServed (reply h) g q crowded v =
      end_rpc-IsServed f files str_hash what r handlers max_size Q h g (g.handler h)
        (g.relay.queue.pc (h + 2)) (v.owed h) v refl refl (v.calls h)
  step-IsServed (relay_step (request h m)) g q crowded v = v
  step-IsServed (relay_step (enter_section i w)) g q crowded v = section-IsServed i w g v
  step-IsServed (relay_step create_thread) g q crowded v =
      create-Keeps f files str_hash what r handlers max_size Q g.handler g.answers g.relay
        g.relay.keeper v
  step-IsServed (relay_step raise_flag) g q crowded v =
      raise-Keeps f files str_hash what r handlers max_size Q g.handler g.answers g.relay
        g.relay.keeper v
  step-IsServed (relay_step loop_test) g q crowded v =
      test_running-Keeps f files str_hash what r handlers max_size Q g.handler g.answers g.relay
        g.relay.pusher v
  step-IsServed (relay_step (wake_up i)) g q crowded v =
      quiet-IsAnswered f files what r max_size Q (handlers + 2) _ _ g.handler g.answers v
        (spurious-IsQuiet r (handlers + 2) i g.relay.queue)
  step-IsServed (relay_step (push rd taken)) g q crowded v =
      end_round-Keeps f files str_hash what r handlers max_size Q g.handler g.answers rd taken
        g.relay g.relay.pusher v
  step-IsServed (relay_step call_stop) g q crowded v =
      begin_stop-Keeps f files str_hash what r handlers max_size Q g.handler g.answers g.relay
        g.relay.keeper v
  step-IsServed (relay_step join) g q crowded v =
      join_pusher-Keeps f files str_hash what r handlers max_size Q g.handler g.answers g.relay
        g.relay.keeper v

  new_gateway-IsServed :
      (flag : Bool) (topics : Topics)
      → IsServed f files str_hash what r handlers max_size Q
          (new_gateway r handlers flag max_size topics)
  unfolding new_gateway new_relay Monitor.start
  new_gateway-IsServed flag topics = record {
    owed = λ h. none;
    account = nothing;
    pusher = refl;
    keeper = λ m e. cc;
    calls = λ h. idle refl;
  }

module _ {D W B : Type 0} (f : Folly D W) (files : Files) (str_hash : String → ℕ)
    (what : String → String) {r : CircularBuffer RequestMessage B} (laws : CircularBufferLaws r)
    (handlers max_size : ℕ) (topics : Topics)
    (Q : ℕ → List (String × String) → String → Type 0) where
  AnyMessage : RequestMessage → Type 0
  AnyMessage m = Unit

  -- The relay is in order too.
  abbrev Both : Gateway B → Type 0
  Both g =
      IsFrom f files str_hash what laws handlers max_size topics AnyMessage g
      × IsServed f files str_hash what r handlers max_size Q g

  any-Posts :
      (e : GatewayEvent) → Posts f files str_hash what laws handlers max_size topics AnyMessage e
  unfolding AnyMessage
  any-Posts (rpc h headers body) = tt
  any-Posts _ = tt

  fifo-IsCrowded :
      (g : Gateway B)
      → IsFifo laws max_size g.relay.queue
      → IsCrowded f files str_hash what r handlers max_size Q g
  unfolding is_full
  fifo-IsCrowded g v full =
      let whole = laws.full_lem g.relay.queue.ring in
      omega (
        arith,
        v.room,
        ap length v.order,
        length-append g.relay.queue.delivered (laws.contents g.relay.queue.ring),
        eq_lem _ _ (sym whole ∙ full),
      )
    where
      eq_lem : (a b : ℕ) → (a == b) ≡ true → a ≡ b
      eq_lem a b e = ground arith

  step-Both :
      (e : GatewayEvent) (g : Gateway B)
      → Came f files str_hash what r handlers max_size Q e
      → Both g
      → Both (step f files str_hash what r handlers e g)
  unfolding AnyMessage
  step-Both e g q (v, w) = (
    step-IsFrom f files str_hash what laws handlers max_size topics AnyMessage e g tt (any-Posts e)
        v,
    step-IsServed f files str_hash what r handlers max_size Q e g q
        (fifo-IsCrowded g v.in_order.fifo) w,
  )

  run-Both :
      (es : List GatewayEvent) (g : Gateway B)
      → All (Came f files str_hash what r handlers max_size Q) es
      → Both g
      → Both (run f files str_hash what r handlers es g)
  unfolding run
  run-Both [] g q v = v
  run-Both (e ∷ es) g q v =
      run-Both es (step f files str_hash what r handlers e g) q.1 (step-Both e g q.0 v)

  -- The clients are told what happens. On any schedule, with other threads between the put and the
  -- answer too, the messages accepted by the queue and the answers given account for each other, each
  -- list in its order. A handler owes an answer from the moment on at which its message goes into
  -- the queue, or at which it turns its request away, which it does only when at least as many
  -- messages as the queue holds have been accepted. It pays with that very answer, written after
  -- what it wrote when the body could not be read, or crashes over printing it, and takes no other
  -- request before that. What else the queue accepts is the empty message of Stop. The requests are
  -- ones that came in, and a handler that is ready owes nothing.
  pub run-new_gateway-Accounted :
      (flag : Bool) (es : List GatewayEvent) (g : Gateway B)
      → All (Came f files str_hash what r handlers max_size Q) es
      → g ≡ run f files str_hash what r handlers es (new_gateway r handlers flag max_size topics)
      → (owed : ℕ → Debt) × Accounted f files what r max_size Q g.relay.queue.accepted g.answers
          owed
        × ((h : ℕ)
            → Matches f files what r max_size Q h (g.relay.queue.pc (h + 2)) (owed h) (g.handler h))
  run-new_gateway-Accounted flag es g q e =
      let fresh = new_gateway-IsServed f files str_hash what r handlers max_size Q flag topics in
      let from =
        new_gateway-IsFrom f files str_hash what laws handlers max_size topics AnyMessage flag in
      let (_, v) : Both g = rw e (run-Both es _ q (from, fresh)) in (v.owed, v.account, v.calls)
