-- ===== src/Producer/Life.antt =====
-- Init, SetJobChannel, Start and Stop of KafkaProducer, on the thread that calls them. Init ends
-- without the `return` that its type asks for, which C++ leaves undefined: `off_end` is what comes of
-- it, a fault or that the call comes back. `connect` is how cppkafka takes the settings and makes its
-- producer, by an exception or not.
use bigpipe_cpp.Base.{
  ℕ, ◌+◌, Bool, true, false, List, Option, none, some, Outcome, done, null_pointer, out_of_range,
  check, is_set, ltb, ◌>>◌, ℤ, String,
}
use bigpipe_cpp.Config.{Config}
use bigpipe_cpp.Producer.Flush.{Flush, flush_out_queue}

-- What the Kafka client is configured with.
pub record KafkaClient : Type 0 where
  pub bootstrap_servers : String
  pub retries : ℤ

pub record KafkaProducer (W B : Type 0) : Type 0 where
  pub big_conf : Option (Config W)
  pub is_running : Bool
  pub kafka_client : Option KafkaClient
  pub taskchan : Option B
  pub producers : ℕ

module _ {W : Type 0} where
  abbrev pub settings : Config W → KafkaClient
  settings conf = record {
    bootstrap_servers = conf.kafka_bootstrap_servers;
    retries = conf.kafka_producer_retries;
  }

module _ {W B : Type 0} where
  abbrev pub new_producer : KafkaProducer W B
  new_producer = record {
    big_conf = none;
    is_running = false;
    kafka_client = none;
    taskchan = none;
    producers = 0;
  }

  unfoldable pub init :
      Outcome (Unit {0})
      → (KafkaClient → Outcome (Unit {0}))
      → Config W
      → KafkaProducer W B
      → Outcome (KafkaProducer W B)
  init off_end connect conf p = do
    connect (settings conf)
    off_end
    done (record p { big_conf = some conf; kafka_client = some (settings conf) })

  unfoldable pub set_job_channel : Option B → KafkaProducer W B → KafkaProducer W B
  set_job_channel chan p = record p { taskchan = chan }

  -- Start: one thread.
  unfoldable pub start : KafkaProducer W B → KafkaProducer W B × Bool
  start p = elim p.taskchan [
    | none ↦ (p, false)
    | some _ ↦ (record p { producers = p.producers + 1; is_running = true }, true)
  ]

  -- Stop, where its put and the join return: the channel is followed, then the first thread is
  -- joined, then the Kafka client is asked for the lengths of its out queue.
  unfoldable pub stop : List ℕ → KafkaProducer W B → Outcome (KafkaProducer W B × Flush)
  stop lengths p = do
    check (is_set p.taskchan) null_pointer
    check (ltb 0 p.producers) out_of_range
    check (is_set p.kafka_client) null_pointer
    done (record p { is_running = false }, flush_out_queue 0 lengths)
