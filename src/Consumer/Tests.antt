-- ===== src/Consumer/Tests.antt =====
-- A consumer and the message that its producer prints.
use bigpipe_cpp.Base.{◌≡◌, refl, ◌≢◌, true, [], ◌∷◌, none, exception, ℤ, pos, millionths}
use bigpipe_cpp.Folly.Json.{json}
use bigpipe_cpp.Folly.Json.Laws.{json-laws}
use bigpipe_cpp.Proto.{Files}
use bigpipe_cpp.Proto.Reqmsg.{no_message}
use bigpipe_cpp.Client.{AsyncClient, status_code, returned, call_once}
use bigpipe_cpp.Config.{Config}
use bigpipe_cpp.Consumer.{payload, terminated, init, consume_loop}
use bigpipe_cpp.Consumer.Loop.{consume_loop-text, init-unsent}

abbrev no_files : Files
no_files name = none

consume_loop-text_example :
    consume_loop json no_files ((true, payload "{\"url\":\"u\"}") ∷ (true, payload "{}") ∷ [])
    ≡ (terminated exception, [])
consume_loop-text_example =
    consume_loop-text json-laws no_files "{\"url\":\"u\"}" ((true, payload "{}") ∷ []) refl

abbrev conf : Config ℤ
conf = record {
  scalars = record {
    log_directory = "./logs";
    log_level = pos 5;
    kafka_bootstrap_servers = "localhost:9092";
    kafka_producer_retries = pos 2;
    http_server_port = pos 10086;
    http_server_read_timeout = pos 5000;
    http_server_write_timeout = pos 5000;
    http_server_handler_channel_size = pos 500000;
  };
  kafka_topics = ("test", record { partitions = pos 1 }) ∷ [];
  kafka_producer_acl = [];
  kafka_consumer = record {
    topic = "test";
    group_id = "G1";
    rate_limit = pos 100;
    retries = pos 2;
    timeout = pos 3000;
    concurrency = pos 5;
    circuit_breaker_conf = none;
  };
}

abbrev client : AsyncClient ℤ
client = record { retries = pos 2; timeout = pos 3000; rate_limit = none; circuit_breaker = none }

init-unsent_example :
    ((call_once [] (pos 0) (status_code (pos 200) (pos 1) ∷ []) no_message client).1 ≡ [])
    × ((c' : AsyncClient ℤ)
        → (call_once [] (pos 0) (status_code (pos 200) (pos 1) ∷ []) no_message client).0
          ≢ returned c')
unfolding init
init-unsent_example =
    init-unsent conf client [] (pos 0) (status_code (pos 200) (pos 1) ∷ []) no_message refl
