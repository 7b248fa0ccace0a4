-- ===== src/Producer/Rounds.antt =====
-- A round of Pushing, by the topic of its message.
use bigpipe_cpp.Base.{
  ℕ, ◌%◌, ◌≤◌, ◌<◌, ◌≡◌, ap, ◌∙◌, false, arith, none, some, done, fail, zero_division, pos, int_max,
  String, same_text, lookup,
}
use bigpipe_cpp.Folly.{Folly}
use bigpipe_cpp.Proto.Reqmsg.{RequestMessage}
use bigpipe_cpp.Proto.Reqmsg
use bigpipe_cpp.Config.{Topics}
use bigpipe_cpp.Producer.{calc_partition, topic_attr, push_one}
use bigpipe_cpp.Producer.Partition.{calc_partition-keyless}

module _ {D W : Type 0} (f : Folly D W) (str_hash : String → ℕ) (rd : ℕ) (msg : RequestMessage)
    (topics : Topics) where
  calc_partition_none : (key : String) → calc_partition str_hash rd (pos 0) key ≡ fail zero_division
  unfolding calc_partition
  calc_partition_none key = ground arith

  -- A message for a topic that is not configured ends the round in a division by zero: the lookup
  -- makes an entry of 0 partitions.
  pub push_one-unknown :
      same_text msg.topic "" ≡ false
      → lookup msg.topic topics ≡ none
      → push_one f str_hash rd msg topics ≡ fail zero_division
  unfolding push_one
  push_one-unknown named missing =
      rw (named, missing, topic_attr, calc_partition_none msg.partition_key)

  -- A message without a topic, which is also the signal to stop, is dropped.
  pub push_one-silent : msg.topic ≡ "" → push_one f str_hash rd msg topics ≡ done (topics, none)
  unfolding push_one
  push_one-silent silent = rw silent

  -- A message without a key for a configured topic of `p` partitions is handed to Kafka under its
  -- topic, with one of the partitions and the printed message, and the topics stay as they are.
  pub push_one-keyless :
      (p : ℕ) (payload : String)
      → same_text msg.topic "" ≡ false
      → lookup msg.topic topics ≡ some (record { partitions = pos p })
      → 0 < p
      → p ≤ int_max
      → msg.partition_key ≡ ""
      → (Reqmsg.to_json f msg).1 ≡ done payload
      → (push_one f str_hash rd msg topics
          ≡ done (
            topics,
            some (record { topic = msg.topic; partition = pos (rd % p); payload = payload }),
          ))
        × (rd % p < p)
  unfolding push_one
  push_one-keyless p payload named known some_partition fits keyless printed =
      let (e, below) = calc_partition-keyless str_hash rd p some_partition fits in
      let by_key = ap (calc_partition str_hash rd (pos p)) keyless ∙ e in
      (rw (named, known, topic_attr, by_key, printed), below)
