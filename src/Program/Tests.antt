-- ===== src/Program/Tests.antt =====
-- main without a configuration file.
use bigpipe_cpp.Base.{Outcome, ◌≡◌, refl, [], none, done, fail, null_pointer, ℤ, millionths}
use bigpipe_cpp.Proto.{Files}
use bigpipe_cpp.Proto.Reqmsg.{RequestMessage}
use bigpipe_cpp.Queue.Ring.{ListRing}
use bigpipe_cpp.Config.{Config}
use bigpipe_cpp.Acceptor.{new_acceptor}
use bigpipe_cpp.Producer.Life.{KafkaClient, new_producer}
use bigpipe_cpp.Consumer.{new_consumer}
use bigpipe_cpp.Program.{shut_down}

abbrev no_files : Files
no_files name = none

-- cppkafka takes all settings, and a function without its `return` comes back.
abbrev any_client : KafkaClient → Outcome (Unit {0})
any_client client = done tt

abbrev any_consumer : Config ℤ → Outcome (Unit {0})
any_consumer conf = done tt

-- The shutdown of parts that were never made.
never_made :
    shut_down [] (record {
      acceptor = new_acceptor {W = ℤ} {B = ListRing RequestMessage};
      producer = new_producer;
      consumer = new_consumer;
    })
    ≡ fail null_pointer
unfolding shut_down
never_made = refl
