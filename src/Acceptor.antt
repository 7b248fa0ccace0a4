-- ===== src/Acceptor.antt =====
-- acceptor/acceptor.hpp and acceptor.cpp, class Acceptor. The HTTP server is third-party code: it is
-- its port and its timeouts. The queue of jobs is the circular buffer of a BoundedBlockingQueue.
pub mod Callback
mod Tests
use bigpipe_cpp.Base.{
  ℕ, ◌-◌, ◌^◌, suc, Bool, true, false, List, [], ◌∷◌, ◌++◌, Option, none, some, Outcome, done, fail,
  Fault, exception, null_pointer, ◌>>=◌, ℤ, pos, negsuc, String, if◌then◌else◌,
}
use bigpipe_cpp.Folly.{Folly}
use bigpipe_cpp.Proto.{Files}
use bigpipe_cpp.Proto.Reqbody.{RequestBody, no_body}
use bigpipe_cpp.Proto.Reqbody
use bigpipe_cpp.Proto.Reqmsg.{RequestMessage, new_message}
use bigpipe_cpp.Proto.Callresp.{CallResp}
use bigpipe_cpp.Proto.Callresp
use bigpipe_cpp.Queue.Ring.{CircularBuffer}
use bigpipe_cpp.Queue.{Section, waits, leaves, new_queue, is_full, put_section}
use bigpipe_cpp.Config.{Config}

pub record HttpServer : Type 0 where
  pub port : ℤ
  pub read_timeout : ℤ
  pub write_timeout : ℤ

pub record Acceptor (W B : Type 0) : Type 0 where
  pub is_running : Bool
  pub big_conf : Option (Config W)
  pub http_server : Option HttpServer
  pub taskchan : Option B

-- An `int` as the size_t of a buffer's capacity.
abbrev pub to_size : ℤ → ℕ
to_size (pos n) = n
to_size (negsuc n) = 2 ^ 64 - suc n

module _ {W B : Type 0} where
  abbrev pub new_acceptor : Acceptor W B
  new_acceptor = record { is_running = false; big_conf = none; http_server = none; taskchan = none }

  -- Init tests the member, which it sets only afterwards.
  unfoldable pub init :
      CircularBuffer RequestMessage B → Config W → Acceptor W B → Acceptor W B × Bool
  unfolding new_queue
  init r conf a = elim a.big_conf [
    | none ↦ (a, false)
    | some _ ↦ (
      record a {
        big_conf = some conf;
        http_server = some (record {
          port = conf.http_server_port;
          read_timeout = conf.http_server_read_timeout;
          write_timeout = conf.http_server_write_timeout;
        });
        taskchan = some (new_queue r (to_size conf.http_server_handler_channel_size));
      },
      true,
    )
  ]

  unfoldable pub stop : Acceptor W B → Outcome (Acceptor W B × Bool)
  stop a = elim a.http_server [
    | none ↦ fail null_pointer
    | some _ ↦ done (record a { is_running = false }, true)
  ]

  -- Start up to the `run` of the server, which keeps the thread until the server is stopped.
  unfoldable pub start : Acceptor W B → Outcome (Acceptor W B)
  start a = elim a.http_server [ none ↦ fail null_pointer | some _ ↦ done a ]

  -- Start from the return of `run` on.
  unfoldable pub end_start : Acceptor W B → Acceptor W B × Bool
  end_start a = (record a { is_running = true }, true)

-- What has become of a request: the queue and the texts written to the response; or the handler is
-- blocked in put, with what it has written by then.
pub data Handled (B : Type 0) : Type 0 where
  handled : B → List String → Handled B
  blocked : List String → Handled B

module _ {D W B : Type 0} (f : Folly D W) (r : CircularBuffer RequestMessage B) where
  abbrev pub respond : ℤ → String → Outcome String
  respond errcode msg =
      Callresp.to_json f (record { errcode = errcode; msg = msg; payload = f.of_string "" })

  -- The `catch`: nothing is written if the body was read; there is no return.
  abbrev pub complain : String → Outcome Bool → Outcome (List String)
  complain what (done ok) = done []
  complain what (fail exception) = respond (negsuc 0) what >>= λ s. done (s ∷ [])
  complain what (fail e) = fail e

  abbrev pub enqueued : List String → Section (B × Bool) → Outcome (Handled B)
  enqueued written waits = done (blocked written)
  enqueued written (leaves (ring, notify)) =
      respond (pos 0) "发送成功" >>= λ s. done (handled ring (written ++ s ∷ []))

  abbrev pub overloaded : List String → B → Outcome (Handled B)
  overloaded written ring =
      respond (negsuc 0) "系统过载" >>= λ s. done (handled ring (written ++ s ∷ []))

  -- RpcCallback on the queue `ring`. `what` is the text of the exception, and `meanwhile` is what
  -- other threads do to the queue between the test and put.
  unfoldable pub rpc_callback :
      Files → String → (B → B) → List (String × String) → String → B → Outcome (Handled B)
  unfolding put_section is_full
  rpc_callback files what meanwhile headers body ring = do
    let parsed = Reqbody.parse_from_json f files body no_body
    written ← complain what parsed.1
    let put = enqueued written (put_section r (new_message headers parsed.0) (meanwhile ring))
    let refuse = overloaded written ring
    if is_full r ring then refuse else put
