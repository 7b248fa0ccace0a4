-- ===== src/Producer.antt =====
-- kafka/producer.hpp, class KafkaProducer. `std::hash` and `std::random_device` are arguments, and so
-- is the queue of jobs, from which a round of Pushing has taken its message. What is handed to the
-- Kafka client is the result. EventsHandler only logs.
pub mod Partition
pub mod Rounds
pub mod Life
pub mod Flush
pub mod Relay
mod Tests
use bigpipe_cpp.Base.{
  ℕ, ◌%◌, ◌+◌, ◌-◌, ◌^◌, Bool, true, false, ◌&&◌, ◌==◌, List, [], ◌∷◌, Option, none, some, is_set,
  Outcome, done, fail, zero_division, int_overflow, ◌>>=◌, ℤ, pos, negsuc, pos_part, neg_part,
  sub_ℕ, eqb_ℤ, from_bits, to_bits, int_max, String, same_text, lookup, insert, if◌then◌else◌,
}
use bigpipe_cpp.Folly.{Folly}
use bigpipe_cpp.Proto.Reqmsg.{RequestMessage}
use bigpipe_cpp.Proto.Reqmsg
use bigpipe_cpp.Config.{Config, KafkaTopicAttr, Topics}

-- a % b of two `int`s: the remainder has the sign of a.
unfoldable pub rem_int : ℤ → ℤ → Outcome ℤ
rem_int a b =
    let size = (pos_part a + neg_part a) % (pos_part b + neg_part b) in
    let remainder = if 0 == neg_part a then pos size else sub_ℕ 0 size in
    if eqb_ℤ b (pos 0)
    then fail zero_division
    else if eqb_ℤ a (negsuc int_max) && eqb_ℤ b (negsuc 0)
    then fail int_overflow
    else done remainder

-- CalcPartition. `rd()` is an unsigned int, so `partitions` is converted to one too; `(int)` applies to
-- the hash alone.
unfoldable pub calc_partition : (String → ℕ) → ℕ → ℤ → String → Outcome ℤ
unfolding rem_int
calc_partition str_hash rd partitions partition_key =
    if same_text partition_key ""
    then (if to_bits partitions == 0
        then fail zero_division
        else done (from_bits (rd % to_bits partitions)))
    else rem_int (from_bits (str_hash partition_key)) partitions

-- A message for the Kafka client.
pub record Produced : Type 0 where
  pub topic : String
  pub partition : ℤ
  pub payload : String

-- `Kafka_topics[topic]` makes an entry where there is none, with 0 partitions.
unfoldable pub topic_attr : String → Topics → Topics × KafkaTopicAttr
topic_attr topic topics = elim (lookup topic topics) [
  | none ↦ (insert topic (record { partitions = pos 0 }) topics, record { partitions = pos 0 })
  | some attr ↦ (topics, attr)
]

module _ {D W : Type 0} (f : Folly D W) (str_hash : String → ℕ) where
  -- What follows the lookup of the topic, up to the call of produce, which gets the message.
  abbrev pub produce :
      ℕ → RequestMessage → Topics × KafkaTopicAttr → Outcome (Topics × Option Produced)
  produce rd msg (topics, attr) = do
    partition ← calc_partition str_hash rd attr.partitions msg.partition_key
    payload ← (Reqmsg.to_json f msg).1
    done (topics, some (record { topic = msg.topic; partition = partition; payload = payload }))

  -- One round of Pushing, on the message that it has taken, with the value of `rd()`.
  unfoldable pub push_one : ℕ → RequestMessage → Topics → Outcome (Topics × Option Produced)
  unfolding topic_attr
  push_one rd msg topics =
      if same_text msg.topic ""
      then done (topics, none)
      else produce rd msg (topic_attr msg.topic topics)
