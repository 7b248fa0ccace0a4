-- ===== src/Gateway.antt =====
-- The half of the program that requests go through: the handlers of acceptor/acceptor.cpp, each a thread
-- of the HTTP server that runs RpcCallback, and kafka/producer.hpp (Producer.Relay), over one queue.
-- `what` gives the text of the exception that parsing a body throws.
pub mod Origin
pub mod Account
pub mod Answers
mod Kept
mod Served
pub mod Silent
mod Tests
use bigpipe_cpp.Base.{
  ℕ, ◌+◌, ◌-◌, Bool, true, false, ltb, List, [], ◌∷◌, ◌++◌, Outcome, done, fail, Fault, pos, negsuc,
  String, update, if◌then◌else◌,
}
use bigpipe_cpp.Folly.{Folly}
use bigpipe_cpp.Proto.{Files}
use bigpipe_cpp.Proto.Reqbody.{no_body}
use bigpipe_cpp.Proto.Reqbody
use bigpipe_cpp.Proto.Reqmsg.{RequestMessage, new_message}
use bigpipe_cpp.Queue.Ring.{CircularBuffer}
use bigpipe_cpp.Queue.{is_full}
use bigpipe_cpp.Queue.Monitor.{Pc, outside}
use bigpipe_cpp.Acceptor.{respond, complain}
use bigpipe_cpp.Config.{Topics}
use bigpipe_cpp.Producer.Relay.{Relay, RelayEvent, request, enter_section, new_relay}
use bigpipe_cpp.Producer.Relay

-- Where a handler is.
pub data Handler : Type 0 where
  ready : Handler
  sending : List String → Handler  -- in put or past it, with what it has written
  refusing : List String → Handler  -- has found the queue full
  crashed : Fault → Handler

-- `answers` is what the handlers have written to their responses.
pub record Gateway (B : Type 0) : Type 0 where
  pub relay : Relay B
  pub handler : ℕ → Handler
  pub answers : List (ℕ × List String)

-- A request for handler `h`, the answer of handler `h`, or any event of the relay that is no request.
pub data GatewayEvent : Type 0 where
  rpc : (h : ℕ) → List (String × String) → String → GatewayEvent
  reply : (h : ℕ) → GatewayEvent
  relay_step : RelayEvent → GatewayEvent

module _ {B : Type 0} where
  -- The end of RpcCallback.
  abbrev pub answer : ℕ → List String → Gateway B → Outcome String → Gateway B
  answer h written g (done s) = record g {
    handler = update g.handler h ready;
    answers = g.answers ++ (h, written ++ s ∷ []) ∷ [];
  }
  answer h written g (fail e) = record g { handler = update g.handler h (crashed e) }

module _ {D W : Type 0} (f : Folly D W) (files : Files) where
  -- The message that RpcCallback makes of a request, whether its body could be read or not.
  unfoldable pub message : List (String × String) → String → RequestMessage
  message headers body = new_message headers (Reqbody.parse_from_json f files body no_body).0

module _ {B : Type 0} (r : CircularBuffer RequestMessage B) (handlers : ℕ) where
  unfoldable pub new_gateway : Bool → ℕ → Topics → Gateway B
  new_gateway flag max_size topics = record {
    relay = new_relay r handlers flag max_size topics;
    handler = λ h. ready;
    answers = [];
  }

module _ {D W B : Type 0} (f : Folly D W) (str_hash : String → ℕ)
    (r : CircularBuffer RequestMessage B) (handlers : ℕ) where
  -- The test of `full`, and the call of put; other threads may come in between.
  abbrev pub after_parse : ℕ → RequestMessage → Gateway B → Outcome (List String) → Gateway B
  after_parse h m g (done written) =
      if is_full r g.relay.queue.ring
      then record g { handler = update g.handler h (refusing written) }
      else record g {
        relay = Relay.step f str_hash r handlers (request h m) g.relay;
        handler = update g.handler h (sending written);
      }
  after_parse h m g (fail e) = record g { handler = update g.handler h (crashed e) }

  -- The answer, once the thread has come out of put or found the queue full; other threads may come
  -- in before it.
  abbrev pub end_rpc : ℕ → Gateway B → Handler → Pc RequestMessage → Gateway B
  end_rpc h g (sending written) outside = answer h written g (respond f r (pos 0) "发送成功")
  end_rpc h g (refusing written) p = answer h written g (respond f r (negsuc 0) "系统过载")
  end_rpc h g _ _ = g

  abbrev pub relayed : RelayEvent → Gateway B → Gateway B
  relayed e g = record g { relay = Relay.step f str_hash r handlers e g.relay }

module _ {D W B : Type 0} (f : Folly D W) (files : Files) (str_hash : String → ℕ)
    (what : String → String) (r : CircularBuffer RequestMessage B) (handlers : ℕ) where
  abbrev pub begin_rpc : ℕ → List (String × String) → String → Gateway B → Handler → Gateway B
  begin_rpc h headers body g ready =
      after_parse f str_hash r handlers h (message f files headers body) g
        (complain f r (what body) (Reqbody.parse_from_json f files body no_body).1)
  begin_rpc h headers body g _ = g

  -- An event that cannot happen changes nothing.
  unfoldable pub step : GatewayEvent → Gateway B → Gateway B
  step (rpc h headers body) g =
      if ltb h handlers then begin_rpc h headers body g (g.handler h) else g
  step (reply h) g = end_rpc f str_hash r handlers h g (g.handler h) (g.relay.queue.pc (h + 2))
  step (relay_step (request h m)) g = g
  step (relay_step e) g = relayed f str_hash r handlers e g

  unfoldable pub run : List GatewayEvent → Gateway B → Gateway B
  run [] g = g
  run (e ∷ es) g = run es (step e g)
