-- ===== src/Producer/Tests.antt =====
-- CalcPartition and a round of Pushing, with a hash that is given.
use bigpipe_cpp.Base.{
  ℕ, ◌≡◌, refl, ◌<◌, ◌%◌, pos_part, neg_part, [], ◌∷◌, some, done, fail, zero_division, arith, ℤ,
  pos, negsuc, ◌<ℤ◌, String, lookup,
}
use bigpipe_cpp.Folly.Json.{json, other_text}
use bigpipe_cpp.Proto.Reqmsg.{RequestMessage, to_json, print_headers}
use bigpipe_cpp.Config.{Topics}
use bigpipe_cpp.Producer.{calc_partition, push_one}
use bigpipe_cpp.Producer.Partition.{
  calc_partition-keyed, calc_partition-negative, calc_partition-signed,
}
use bigpipe_cpp.Producer.Flush.{flushed, flush_out_queue, flush_out_queue-flushed}
use bigpipe_cpp.Producer.Rounds.{push_one-unknown, push_one-keyless}

-- A hash with the highest of its 32 low bits set, and one without.
abbrev high : String → ℕ
high key = 2147483650

abbrev low : String → ℕ
low key = 10

keyed_partition : (r : ℕ) × (calc_partition low 7 (pos 4) "user-1" ≡ done (pos r)) × (r < 4)
keyed_partition =
    calc_partition-keyed low 7 4 (omega arith) (omega arith) "user-1" refl (omega arith)

-- (int)2147483650 is -2147483646, and the remainder by 5 is -1.
negative_partition : (r : ℤ) × (calc_partition high 7 (pos 5) "user-1" ≡ done r) × (r <ℤ pos 0)
negative_partition =
    calc_partition-negative high 7 5 (omega arith) (omega arith) "user-1" refl (omega arith)
      (omega arith)

calc_partition-signed_example :
    (r : ℤ) × (calc_partition high 7 (pos 5) "user-1" ≡ done r)
    × (pos_part r ≡ pos_part (negsuc 2147483645) % 5)
    × (neg_part r ≡ neg_part (negsuc 2147483645) % 5)
    × (pos_part r < 5)
    × (neg_part r < 5)
calc_partition-signed_example =
    calc_partition-signed high 7 5 (omega arith) (omega arith) "user-1" refl

minus_one : calc_partition high 7 (pos 5) "user-1" ≡ done (negsuc 0)
unfolding calc_partition
minus_one = refl

abbrev order : RequestMessage
order = record {
  headers = ("trace", "7") ∷ [];
  partition_key = "";
  topic = "test";
  url = "http://localhost/pay";
  body = "sum=10";
}

abbrev topics : Topics
topics = ("test", record { partitions = pos 5 }) ∷ []

unknown_topic : push_one json high 7 (record order { topic = "other" }) topics ≡ fail zero_division
unfolding lookup
unknown_topic = push_one-unknown json high 7 (record order { topic = "other" }) topics refl refl

keyless_round :
    (push_one json high 7 order topics
      ≡ done (topics, some (record { topic = "test"; partition = pos 2; payload = other_text })))
    × (◌<◌ 2 5)
unfolding lookup to_json print_headers
keyless_round =
    push_one-keyless json high 7 order topics 5 other_text refl refl (omega arith) (omega arith)
      refl refl

-- Two messages, then one, then none.
two_seconds : flush_out_queue 0 (2 ∷ 1 ∷ 0 ∷ 5 ∷ []) ≡ flushed 2
two_seconds = (flush_out_queue-flushed (2 ∷ 1 ∷ []) (5 ∷ []) (omega arith, (omega arith, tt))).0
