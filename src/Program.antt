-- ===== src/Program.antt =====
-- main.cpp: the objects in the order in which main makes and starts them, and, after the wait for
-- the interrupt, stops them. The results of Init, Start and Stop are not looked at. `off_end` is what
-- comes of a function that ends without its `return`, and `connect` and `subscribe` are how cppkafka
-- takes the settings of the producer and of the consumer.
pub mod Ends
pub mod Stops
mod Tests
use bigpipe_cpp.Base.{
  ℕ, Bool, List, Option, none, some, Outcome, done, fail, Fault, ◌>>=◌, ◌>>◌, ℤ, pos, negsuc,
  String, Double,
}
use bigpipe_cpp.Folly.{Folly}
use bigpipe_cpp.Proto.{Files}
use bigpipe_cpp.Proto.Reqmsg.{RequestMessage}
use bigpipe_cpp.Queue.Ring.{CircularBuffer}
use bigpipe_cpp.Config.{Config, parse_config}
use bigpipe_cpp.Acceptor.{Acceptor, new_acceptor}
use bigpipe_cpp.Acceptor
use bigpipe_cpp.Producer.Life.{KafkaClient, KafkaProducer, new_producer}
use bigpipe_cpp.Producer.Life
use bigpipe_cpp.Producer.Flush.{Flush, flushed, asking}
use bigpipe_cpp.Consumer.{KafkaConsumer, new_consumer}
use bigpipe_cpp.Consumer

pub record Service (W B : Type 0) : Type 0 where
  pub acceptor : Acceptor W B
  pub producer : KafkaProducer W B
  pub consumer : KafkaConsumer W

-- main has exited with a code, or serves: it is in the Start of the acceptor, whose server runs.
pub data Main (W B : Type 0) : Type 0 where
  exits : ℤ → Main W B
  serves : Service W B → Main W B

-- What follows the wait: the out queue of the Kafka client is still asked, or main has exited.
pub data Shutdown : Type 0 where
  flushing : ℕ → Shutdown
  exited : ℤ → Shutdown

module _ {W : Type 0} where
  -- From the flush of the producer on.
  abbrev pub flush_then : KafkaConsumer W → Flush → Outcome Shutdown
  flush_then k (asking n) = done (flushing n)
  flush_then k (flushed n) = do _ ← Consumer.stop k; done (exited (pos 0))

module _ {W B : Type 0} where
  -- The three calls of Stop, by the lengths of the out queue of the Kafka client.
  unfoldable pub shut_down : List ℕ → Service W B → Outcome Shutdown
  unfolding Acceptor.stop Life.stop Consumer.stop
  shut_down lengths s = do
    _ ← Acceptor.stop s.acceptor
    (_, flush) ← Life.stop lengths s.producer
    flush_then s.consumer flush

module _ {D W B : Type 0} (f : Folly D W) ⦃d : Double W⦄ (r : CircularBuffer RequestMessage B) where
  unfoldable pub run_service :
      Outcome (Unit {0})
      → (KafkaClient → Outcome (Unit {0}))
      → (Config W → Outcome (Unit {0}))
      → Config W
      → Outcome (Main W B)
  unfolding Acceptor.init Acceptor.start Life.init Life.set_job_channel Life.start Consumer.init
      Consumer.start
  run_service off_end connect subscribe conf = do
    let acceptor = (Acceptor.init r conf new_acceptor).0
    made ← Life.init off_end connect conf new_producer
    let producer = Life.set_job_channel acceptor.taskchan made
    subscribe conf
    let consumer = (Consumer.init conf new_consumer).0
    (started_consumer, _) ← Consumer.start off_end consumer
    let started_producer = (Life.start producer).0
    started_acceptor ← Acceptor.start acceptor
    done (
        serves (record {
          acceptor = started_acceptor;
          producer = started_producer;
          consumer = started_consumer;
        }))

  abbrev pub configured :
      Outcome (Unit {0})
      → (KafkaClient → Outcome (Unit {0}))
      → (Config W → Outcome (Unit {0}))
      → Option (Config W)
      → Outcome (Main W B)
  configured off_end connect subscribe none = done (exits (negsuc 0))
  configured off_end connect subscribe (some conf) = run_service off_end connect subscribe conf

  unfoldable pub main :
      Outcome (Unit {0})
      → (KafkaClient → Outcome (Unit {0}))
      → (Config W → Outcome (Unit {0}))
      → Files
      → String
      → Outcome (Main W B)
  unfolding run_service
  main off_end connect subscribe files config_file =
      parse_config f files config_file >>= configured off_end connect subscribe
