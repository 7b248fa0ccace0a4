-- ===== src/Gateway/Origin.antt =====
-- What reaches Kafka, against the requests that came in.
use mathlib.Core.List.{append_assoc}
use mathlib.Core.Path.{subst}
use bigpipe_cpp.Base.{
  ℕ, ◌+◌, ◌≡◌, sym, ap, ◌∙◌, Bool, true, false, ltb, List, [], ◌∷◌, ◌++◌, All, All-append_left,
  Outcome, done, fail, String, if◌then◌else◌,
}
use bigpipe_cpp.Folly.{Folly}
use bigpipe_cpp.Proto.{Files}
use bigpipe_cpp.Proto.Reqmsg.{RequestMessage, no_message}
use bigpipe_cpp.Queue.Ring.{CircularBuffer, CircularBufferLaws}
use bigpipe_cpp.Queue.Monitor.{Pc, outside}
use bigpipe_cpp.Config.{Topics}
use bigpipe_cpp.Producer.Relay.{Relay, RelayEvent, request, enter_section, new_relay, to_list}
use bigpipe_cpp.Producer.Relay
use bigpipe_cpp.Producer.Relay.Relayed.{in_hand, Rounds}
use bigpipe_cpp.Producer.Relay.Order.{Relays, step-IsRelayed, new_relay-IsRelayed}
use bigpipe_cpp.Producer.Relay.Origin.{IsFed, Asks, step-IsFed}
use bigpipe_cpp.Queue.Monitor.Origin.{start-IsMade}
use bigpipe_cpp.Gateway.{
  Handler, ready, sending, refusing, Gateway, GatewayEvent, rpc, reply, relay_step, answer, message,
  new_gateway, after_parse, begin_rpc, end_rpc, relayed, step, run,
}

module _ {D W B : Type 0} (f : Folly D W) (files : Files) (str_hash : String → ℕ)
    (what : String → String) {r : CircularBuffer RequestMessage B} (laws : CircularBufferLaws r)
    (handlers max_size : ℕ) (topics : Topics) (P : RequestMessage → Type 0) where
  -- The message of a request has the property.
  abbrev pub Posts : GatewayEvent → Type 0
  Posts (rpc h headers body) = P (message f files headers body)
  Posts _ = Unit

  -- The relay is in order, and the messages in it have the property.
  pub record IsFrom (g : Gateway B) : Type 0 where
    pub in_order : Relays f str_hash laws handlers max_size topics g.relay
    pub fed : IsFed r handlers P g.relay

  if_IsFrom : (b : Bool) (g k : Gateway B) → IsFrom g → IsFrom k → IsFrom (if b then g else k)
  if_IsFrom true g k v w = v
  if_IsFrom false g k v w = w

  answer-IsFrom :
      (h : ℕ) (written : List String) (g : Gateway B) (o : Outcome String)
      → IsFrom g
      → IsFrom (answer h written g o)
  answer-IsFrom h written g (done s) v = record { in_order = v.in_order; fed = v.fed }
  answer-IsFrom h written g (fail e) v = record { in_order = v.in_order; fed = v.fed }

  relayed-IsFrom :
      (e : RelayEvent) (g : Gateway B)
      → P no_message
      → Asks P e
      → IsFrom g
      → IsFrom (relayed f str_hash r handlers e g)
  relayed-IsFrom e g c a v = record {
    in_order = step-IsRelayed f str_hash laws handlers max_size topics e g.relay v.in_order;
    fed = step-IsFed r handlers P f str_hash e g.relay c a v.fed;
  }

  after_parse-IsFrom :
      (h : ℕ) (m : RequestMessage) (g : Gateway B) (o : Outcome (List String))
      → P no_message
      → P m
      → IsFrom g
      → IsFrom (after_parse f str_hash r handlers h m g o)
  after_parse-IsFrom h m g (done written) c a v =
      let next = relayed-IsFrom (request h m) g c a v in
      if_IsFrom _ _ _ (record { in_order = v.in_order; fed = v.fed })
        (record { in_order = next.in_order; fed = next.fed })
  after_parse-IsFrom h m g (fail e) c a v = record { in_order = v.in_order; fed = v.fed }

  begin_rpc-IsFrom :
      (h : ℕ) (headers : List (String × String)) (body : String) (g : Gateway B) (s : Handler)
      → P no_message
      → P (message f files headers body)
      → IsFrom g
      → IsFrom (begin_rpc f files str_hash what r handlers h headers body g s)
  begin_rpc-IsFrom h headers body g ready c a v =
      after_parse-IsFrom h (message f files headers body) g _ c a v
  begin_rpc-IsFrom h headers body g _ c a v = v

  end_rpc-IsFrom :
      (h : ℕ) (g : Gateway B) (s : Handler) (p : Pc RequestMessage)
      → IsFrom g
      → IsFrom (end_rpc f str_hash r handlers h g s p)
  end_rpc-IsFrom h g (sending written) outside v = answer-IsFrom h written g _ v
  end_rpc-IsFrom h g (refusing written) p v = answer-IsFrom h written g _ v
  end_rpc-IsFrom h g _ _ v = v

  pub step-IsFrom :
      (e : GatewayEvent) (g : Gateway B)
      → P no_message
      → Posts e
      → IsFrom g
      → IsFrom (step f files str_hash what r handlers e g)
  unfolding step
  step-IsFrom (rpc h headers body) g c a v =
      if_IsFrom (ltb h handlers) _ _ (begin_rpc-IsFrom h headers body g (g.handler h) c a v) v
  step-IsFrom (relay_step (request h m)) g c a v = v
  step-IsFrom (relay_step (enter_section i w)) g c a v = relayed-IsFrom (enter_section i w) g c tt v
  step-IsFrom (reply h) g c a v = end_rpc-IsFrom h g (g.handler h) (g.relay.queue.pc (h + 2)) v
  step-IsFrom (relay_step Relay.create_thread) g c a v = relayed-IsFrom _ g c tt v
  step-IsFrom (relay_step Relay.raise_flag) g c a v = relayed-IsFrom _ g c tt v
  step-IsFrom (relay_step Relay.loop_test) g c a v = relayed-IsFrom _ g c tt v
  step-IsFrom (relay_step (Relay.wake_up i)) g c a v = relayed-IsFrom (Relay.wake_up i) g c tt v
  step-IsFrom (relay_step (Relay.push rd taken)) g c a v =
      relayed-IsFrom (Relay.push rd taken) g c tt v
  step-IsFrom (relay_step Relay.call_stop) g c a v = relayed-IsFrom _ g c tt v
  step-IsFrom (relay_step Relay.join) g c a v = relayed-IsFrom _ g c tt v

  run-IsFrom :
      (es : List GatewayEvent) (g : Gateway B)
      → P no_message
      → All Posts es
      → IsFrom g
      → IsFrom (run f files str_hash what r handlers es g)
  unfolding run
  run-IsFrom [] g c a v = v
  run-IsFrom (e ∷ es) g c a v =
      run-IsFrom es (step f files str_hash what r handlers e g) c a.1 (step-IsFrom e g c a.0 v)

  pub new_gateway-IsFrom : (flag : Bool) → IsFrom (new_gateway r handlers flag max_size topics)
  unfolding new_gateway new_relay
  new_gateway-IsFrom flag = record {
    in_order = new_relay-IsRelayed f str_hash laws handlers max_size topics flag;
    fed = start-IsMade r (handlers + 2) P max_size;
  }

  -- Nothing reaches Kafka that no request asked for. On any schedule, where the message of every
  -- request has a property, and the empty one too, what is handed to Kafka comes from rounds of Pushing
  -- on messages with that property, a first part of those that were put into the queue, in order.
  pub run-new_gateway-Rounds :
      (flag : Bool) (es : List GatewayEvent) (g : Gateway B)
      → P no_message
      → All Posts es
      → g ≡ run f files str_hash what r handlers es (new_gateway r handlers flag max_size topics)
      → (ms rest : List RequestMessage) × Rounds f str_hash laws handlers max_size topics ms
          g.relay.topics g.relay.produced
        × (ms ++ rest ≡ g.relay.queue.accepted)
        × All P ms
  run-new_gateway-Rounds flag es g c a e =
      let v : IsFrom g = rw e (run-IsFrom es _ c a (new_gateway-IsFrom flag)) in
      let o = v.in_order in
      let rest = in_hand g.relay.pusher ++ laws.contents g.relay.queue.ring in
      let split : o.handled ++ rest ≡ g.relay.queue.accepted =
        sym (append_assoc o.handled _ _)
        ∙ ap (λ ms. ms ++ laws.contents g.relay.queue.ring) o.order
        ∙ o.fifo.order in
      (
        o.handled,
        rest,
        o.rounds,
        split,
        All-append_left P o.handled rest (subst (All P) (sym split) v.fed.made),
      )
