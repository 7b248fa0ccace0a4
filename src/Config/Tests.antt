-- ===== src/Config/Tests.antt =====
-- A configuration file that is accepted, and the one of the repository, which is not.
use bigpipe_cpp.Base.{
  ◌≡◌, refl, [], ◌∷◌, none, some, done, ℤ, pos, lookup, insert, millionths, millionths-IsOrdered,
}
use bigpipe_cpp.Folly.{Folly}
use bigpipe_cpp.Folly.Json.{
  Json, text, num, obj, arr, Fields, end, field, nil, cons, json_over, known_acl, known_text,
}
use bigpipe_cpp.Proto.{Files, read_file}
use bigpipe_cpp.Proto.Acl.{from_json, read_fields}
use bigpipe_cpp.Config.{Config, parse_config}
use bigpipe_cpp.Config.Accepted.{IsAccepted, parse_config-IsAccepted}

abbrev breaker_fields : Fields
breaker_fields = field "recoverPeriod" (num (pos 20000000)) (
    field "breakPeriod" (num (pos 10000000)) (
      field "winSize" (num (pos 3000000))
        (field "healthRate" (num (pos 90000000)) (field "minStats" (num (pos 5000000)) end))))

abbrev consumer_fields : Fields
consumer_fields = field "topic" (text "test") (
    field "groupId" (text "G1") (
      field "rateLimit" (num (pos 100)) (
        field "retries" (num (pos 2)) (
          field "timeout" (num (pos 3000)) (
            field "concurrency" (num (pos 5)) (field "circuitBreaker" (obj breaker_fields) end))))))

abbrev topic_fields : Fields
topic_fields = field "name" (text "test") (field "partitions" (num (pos 1)) end)

-- The members behind the four of the HTTP server.
abbrev kafka_fields : Fields
kafka_fields = field "log.level" (num (pos 5)) (
    field "log.directory" (text "./logs") (
      field "kafka.bootstrap.servers" (text "localhost:9092") (
        field "kafka.topics" (arr (cons (obj topic_fields) nil)) (
          field "kafka.producer.retries" (num (pos 2)) (
            field "kafka.producer.acl" (arr (cons (text known_text) nil))
              (field "kafka.consumer" (obj consumer_fields) end))))))

-- The members of the HTTP server, each under a prefix: `port`, `read.timeout` and so on.
abbrev accepted_doc : Json
accepted_doc = obj (
    field "http.acceptor.port" (num (pos 10086)) (
      field "http.acceptor.read.timeout" (num (pos 5000)) (
        field "http.acceptor.write.timeout" (num (pos 5000))
          (field "http.acceptor.handler.channel.size" (num (pos 500000)) kafka_fields))))

-- As conf/bigpipe.json names them.
abbrev shipped_doc : Json
shipped_doc = obj (
    field "http.server.port" (num (pos 10086)) (
      field "http.server.handler.channel.size" (num (pos 500000)) (
        field "http.server.read.timeout" (num (pos 5000))
          (field "http.server.write.timeout" (num (pos 5000)) kafka_fields))))

abbrev library : Folly Json ℤ
library =
    json_over ((known_text, known_acl) ∷ ("accepted", accepted_doc) ∷ ("shipped", shipped_doc) ∷ [])

-- The file's name is its text here.
abbrev files : Files
files name = some name

abbrev accepted : Config ℤ
accepted = record {
  scalars = record {
    log_directory = "./logs";
    log_level = pos 5;
    kafka_bootstrap_servers = "localhost:9092";
    kafka_producer_retries = pos 2;
    http_server_port = pos 10086;
    http_server_read_timeout = pos 5000;
    http_server_write_timeout = pos 5000;
    http_server_handler_channel_size = pos 500000;
  };
  kafka_topics = ("test", record { partitions = pos 1 }) ∷ [];
  kafka_producer_acl =
      ("system-1", record { topic = "test"; name = "system-1"; secret = "you are good" }) ∷ [];
  kafka_consumer = record {
    topic = "test";
    group_id = "G1";
    rate_limit = pos 100;
    retries = pos 2;
    timeout = pos 3000;
    concurrency = pos 5;
    circuit_breaker_conf = some (record {
      break_period = pos 10;
      recover_period = pos 20;
      win_size = pos 3;
      min_stats = pos 5;
      health_rate = pos 90000000;
    });
  };
}

parsed : parse_config library files "accepted" ≡ done (some accepted)
unfolding parse_config read_file from_json read_fields lookup insert
parsed = refl

shipped_file_refused : parse_config library files "shipped" ≡ done none
unfolding parse_config read_file from_json lookup insert
shipped_file_refused = refl

parse_config-IsAccepted_example : IsAccepted accepted
parse_config-IsAccepted_example =
    parse_config-IsAccepted library ⦃o = millionths-IsOrdered⦄ files "accepted" accepted parsed
