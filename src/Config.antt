-- ===== src/Config.antt =====
-- config/config.hpp: Config::ParseConfig, with the ConsumerConf of kafka/consumer.hpp. A null pointer
-- is `none`; an exception in the `try` block becomes one, an exception of parseJson reaches the caller.
pub mod Accepted
mod Tests
use bigpipe_cpp.Base.{
  ℕ, Bool, true, false, ◌||◌, not, List, [], ◌∷◌, Option, none, some, is_set, Outcome, done, fail,
  Fault, exception, int_overflow, ◌>>=◌, ℤ, pos, narrow, leb_ℤ, ltb, String, lookup, insert, Double,
  if◌then◌else◌,
}
use bigpipe_cpp.Folly.{Folly}
use bigpipe_cpp.Proto.{Files, read_file}
use bigpipe_cpp.Proto.Acl.{AccessControlList, no_acl}
use bigpipe_cpp.Proto.Acl
use bigpipe_cpp.Breaker.{CircuitBreakerConf}

pub record KafkaTopicAttr : Type 0 where
  pub partitions : ℤ

pub record ConsumerConf (W : Type 0) : Type 0 where
  pub topic : String
  pub group_id : String
  pub rate_limit : ℤ
  pub retries : ℤ
  pub timeout : ℤ
  pub concurrency : ℤ
  pub circuit_breaker_conf : Option (CircuitBreakerConf W)

-- The members that are read one by one.
pub record Scalars : Type 0 where
  pub log_directory : String
  pub log_level : ℤ
  pub kafka_bootstrap_servers : String
  pub kafka_producer_retries : ℤ
  pub http_server_port : ℤ
  pub http_server_read_timeout : ℤ
  pub http_server_write_timeout : ℤ
  pub http_server_handler_channel_size : ℤ

abbrev pub Topics : Type 0
Topics = List (String × KafkaTopicAttr)

abbrev pub Acls : Type 0
Acls = List (String × AccessControlList)

pub record Config (W : Type 0) : Type 0 where
  pub scalars : Scalars
  pub open scalars use *
  pub kafka_topics : Topics
  pub kafka_producer_acl : Acls
  pub kafka_consumer : ConsumerConf W

-- What follows a step that may have returned early with a null pointer.
abbrev pub unless_null : {A B : Type 0} → Option A → (A → Outcome (Option B)) → Outcome (Option B)
unless_null none f = done none
unless_null (some a) f = f a

-- The `catch` of ParseConfig.
abbrev pub caught : {A : Type 0} → Outcome (Option A) → Outcome (Option A)
caught (done c) = done c
caught (fail exception) = done none
caught (fail e) = fail e

-- int(x) of a double; out of range it is undefined behaviour.
abbrev pub truncated : Option ℤ → Outcome ℤ
truncated none = fail int_overflow
truncated (some n) = done n

module _ {W : Type 0} where
  abbrev pub with_breaker :
      ConsumerConf W → Option (CircuitBreakerConf W) → Outcome (Option (ConsumerConf W))
  with_breaker c none = done none
  with_breaker c (some b) = done (some (record c { circuit_breaker_conf = some b }))

  -- The last check: the consumer's topic.
  abbrev pub finish : Scalars → Topics → Acls → ConsumerConf W → Outcome (Option (Config W))
  finish scalars topics acls consumer = done (
      if is_set (lookup consumer.topic topics)
      then some (record {
        scalars = scalars;
        kafka_topics = topics;
        kafka_producer_acl = acls;
        kafka_consumer = consumer;
      })
      else none)

module _ {W : Type 0} ⦃d : Double W⦄ where
  -- The negation of the test that refuses the configuration of a breaker.
  abbrev pub is_valid : CircuitBreakerConf W → Bool
  is_valid c = not (
      leb_ℤ c.win_size (pos 0)
      || leb_ℤ c.min_stats (pos 0)
      || d.le c.health_rate (d.of_int (pos 0))
      || d.lt (d.of_int (pos 100)) c.health_rate)

module _ {D W : Type 0} (f : Folly D W) where
  abbrev pub string_at : String → D → Outcome String
  string_at k dict = f.index k dict >>= f.as_string

  abbrev pub int_at : String → D → Outcome ℤ
  int_at k dict = f.index k dict >>= λ v. f.as_int v >>= λ n. done (narrow n)

  unfoldable pub read_scalars : D → Outcome Scalars
  read_scalars dict = do
    directory ← string_at "log.directory" dict
    level ← int_at "log.level" dict
    servers ← string_at "kafka.bootstrap.servers" dict
    retries ← int_at "kafka.producer.retries" dict
    port ← int_at "http.acceptor.port" dict
    read_timeout ← int_at "http.acceptor.read.timeout" dict
    write_timeout ← int_at "http.acceptor.write.timeout" dict
    channel_size ← int_at "http.acceptor.handler.channel.size" dict
    done (record {
      log_directory = directory;
      log_level = level;
      kafka_bootstrap_servers = servers;
      kafka_producer_retries = retries;
      http_server_port = port;
      http_server_read_timeout = read_timeout;
      http_server_write_timeout = write_timeout;
      http_server_handler_channel_size = channel_size;
    })

  -- The loop over `dict["kafka.topics"]`.
  unfoldable pub read_topics : List D → Topics → Outcome Topics
  read_topics [] topics = done topics
  read_topics (map ∷ maps) topics = do
    name ← string_at "name" map
    partitions ← int_at "partitions" map
    read_topics maps (insert name (record { partitions = partitions }) topics)

  -- The loop over `dict["kafka.producer.acl"]`. What FromJSON returns is not looked at, and an entry
  -- is stored before its topic is checked.
  unfoldable pub read_acls : Topics → List D → Acls → Outcome (Option Acls)
  read_acls topics [] acls = done (some acls)
  read_acls topics (map ∷ maps) acls = do
    text ← f.as_string map
    let parsed = Acl.from_json f text no_acl
    ok ← parsed.1
    let acl = parsed.0
    let rest = read_acls topics maps (insert acl.name acl acls)
    if is_set (lookup acl.topic topics) then rest else done none

module _ {D W : Type 0} (f : Folly D W) ⦃d : Double W⦄ where
  -- int(dict[k].asDouble())
  abbrev pub double_at : String → D → Outcome ℤ
  double_at k dict = f.index k dict >>= λ v. f.as_double v >>= λ x. truncated (d.to_int x)

  -- The breaker's configuration; `none` where it is refused.
  unfoldable pub read_breaker : D → Outcome (Option (CircuitBreakerConf W))
  read_breaker map = do
    recover_period ← double_at "recoverPeriod" map
    break_period ← double_at "breakPeriod" map
    win_size ← double_at "winSize" map
    health_rate ← double_at "healthRate" map
    min_stats ← double_at "minStats" map
    let conf : CircuitBreakerConf W = record {
      break_period = break_period;
      recover_period = recover_period;
      win_size = win_size;
      min_stats = min_stats;
      health_rate = d.of_int health_rate;
    }
    done (if is_valid conf then some conf else none)

  -- The part of the consumer's configuration that may be missing.
  unfoldable pub guard_consumer : ConsumerConf W → D → Outcome (Option (ConsumerConf W))
  unfolding read_breaker
  guard_consumer conf item = do
    n ← f.count "circuitBreaker" item
    let guarded = f.index "circuitBreaker" item >>= read_breaker >>= with_breaker conf
    if ltb 0 n then guarded else done (some conf)

  unfoldable pub read_consumer : D → Outcome (Option (ConsumerConf W))
  unfolding guard_consumer
  read_consumer item = do
    topic ← string_at f "topic" item
    group_id ← string_at f "groupId" item
    rate_limit ← int_at f "rateLimit" item
    retries ← int_at f "retries" item
    timeout ← int_at f "timeout" item
    concurrency ← int_at f "concurrency" item
    let conf : ConsumerConf W = record {
      topic = topic;
      group_id = group_id;
      rate_limit = rate_limit;
      retries = retries;
      timeout = timeout;
      concurrency = concurrency;
      circuit_breaker_conf = none;
    }
    guard_consumer conf item

  -- The `try` block.
  unfoldable pub read_config : D → Outcome (Option (Config W))
  unfolding read_scalars read_topics read_acls read_consumer
  read_config dict = do
    scalars ← read_scalars f dict
    topic_maps ← f.index "kafka.topics" dict >>= f.elements
    topics ← read_topics f topic_maps []
    acl_maps ← f.index "kafka.producer.acl" dict >>= f.elements
    acls? ← read_acls f topics acl_maps []
    unless_null acls? λ acls. do
      item ← f.index "kafka.consumer" dict
      consumer? ← read_consumer item
      unless_null consumer? (finish scalars topics acls)

  unfoldable pub parse_config : Files → String → Outcome (Option (Config W))
  unfolding read_config
  parse_config files path = do
    dict ← f.parse_json (read_file (files path))
    caught (read_config dict)
