-- ===== src/Consumer.antt =====
-- kafka/consumer.hpp, class KafkaConsumer. The messages that the Kafka client delivers are an argument
-- of the loop. The consumer's AsyncClient is the one of client/async_client.hpp.
pub mod Loop
pub mod Calls
mod Tests
use bigpipe_cpp.Base.{
  ℕ, ◌+◌, Bool, true, false, List, [], ◌∷◌, Option, none, some, Outcome, done, fail, Fault,
  null_pointer, out_of_range, check, is_set, ltb, ◌>>=◌, ◌>>◌, String, if◌then◌else◌,
}
use bigpipe_cpp.Folly.{Folly}
use bigpipe_cpp.Proto.{Files}
use bigpipe_cpp.Proto.Reqmsg.{RequestMessage, no_message}
use bigpipe_cpp.Proto.Reqmsg
use bigpipe_cpp.Client.{AsyncClient, new_client}
use bigpipe_cpp.Config.{Config}

pub record KafkaConsumer (W : Type 0) : Type 0 where
  pub big_conf : Option (Config W)
  pub is_running : Bool
  pub threads : ℕ
  pub async_client : Option (AsyncClient W)

-- What `queue.consume()` returns: the end of a partition, a payload, or, on a timeout, an empty message,
-- which the loop does not test for. It comes with what cppkafka makes of is_eof and get_payload on it:
-- an end, a payload, or a fault.
pub data Consumed : Type 0 where
  eof : Consumed
  payload : String → Consumed
  empty : Outcome (Option String) → Consumed

-- How the loop stands: it has been left, waits for a message, or an exception has ended the thread,
-- and the program with it.
pub data LoopState : Type 0 where
  left : LoopState
  waiting : LoopState
  terminated : Fault → LoopState

module _ {W : Type 0} where
  abbrev pub new_consumer : KafkaConsumer W
  new_consumer = record { big_conf = none; is_running = false; threads = 0; async_client = none }

  -- Init, where cppkafka takes the settings and makes its consumer. The client is given neither a
  -- limiter nor a breaker.
  unfoldable pub init : Config W → KafkaConsumer W → KafkaConsumer W × Bool
  unfolding new_client
  init conf k = (
    record k {
      big_conf = some conf;
      async_client = some (new_client conf.kafka_consumer.retries conf.kafka_consumer.timeout);
    },
    true,
  )

  -- Start: the Start of the client, which ends without the `return` that its type asks for, then one
  -- thread. `off_end` is what comes of such an end: a fault, or that the call comes back.
  unfoldable pub start : Outcome (Unit {0}) → KafkaConsumer W → Outcome (KafkaConsumer W × Bool)
  start off_end k = do
    check (is_set k.async_client) null_pointer
    off_end
    done (record k { is_running = true; threads = k.threads + 1 }, true)

  -- Stop, where its join and the Stop of the client return.
  unfoldable pub stop : KafkaConsumer W → Outcome (KafkaConsumer W)
  stop k = do
    check (ltb 0 k.threads) out_of_range
    check (is_set k.async_client) null_pointer
    done (record k { is_running = false })

module _ {D W : Type 0} (f : Folly D W) where
  abbrev pub handing :
      RequestMessage → LoopState × List RequestMessage → LoopState × List RequestMessage
  handing m (s, ms) = (s, m ∷ ms)

  abbrev pub received :
      RequestMessage × Outcome Bool
      → LoopState × List RequestMessage
      → LoopState × List RequestMessage
  received (m, done true) rest = handing m rest
  received (m, done false) rest = rest
  received (m, fail e) rest = (terminated e, [])

  -- ConsumeLoop: in each round the value of IsRunning and what is consumed. The second part of the
  -- result is the messages that are handed to AsyncCall.
  unfoldable pub consume_loop : Files → List (Bool × Consumed) → LoopState × List RequestMessage
  consume_loop files [] = (waiting, [])
  consume_loop files ((false, c) ∷ rounds) = (left, [])
  consume_loop files ((true, eof) ∷ rounds) = (left, [])
  consume_loop files ((true, empty (done none)) ∷ rounds) = (left, [])
  consume_loop files ((true, empty (fail e)) ∷ rounds) = (terminated e, [])
  consume_loop files ((true, empty (done (some text))) ∷ rounds) =
      received (Reqmsg.from_json f files text no_message) (consume_loop files rounds)
  consume_loop files ((true, payload text) ∷ rounds) =
      received (Reqmsg.from_json f files text no_message) (consume_loop files rounds)
