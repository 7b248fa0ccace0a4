-- ===== src/Client/Tests.antt =====
-- AsyncClient with a budget of two retries.
use bigpipe_cpp.Base.{
  ℕ, ◌≡◌, refl, List, [], ◌∷◌, none, some, back_of_empty, arith, ℤ, pos, ◌-ℤ◌, millionths,
  millionths-IsOrdered, replicate, to_string,
}
use bigpipe_cpp.Proto.Reqmsg.{RequestMessage}
use bigpipe_cpp.Breaker.{CircuitBreakerConf, CircuitBreaker, circuit_break, Poll, new_breaker}
use bigpipe_cpp.Breaker.Fresh.{built}
use bigpipe_cpp.RateLimit.{TokenBucket, microseconds}
use bigpipe_cpp.RateLimit.Fill.{spent}
use bigpipe_cpp.Client.{
  AsyncClient, HttpRequest, status_code, returned, awaiting_answer, awaiting_breaker, stopped,
  build_request, retry_loop, call_once,
}
use bigpipe_cpp.Client.Retry.{retry_loop-succeeds, retry_loop-never_gives_up, retry_loop-guarded}
use bigpipe_cpp.Client.Call.{call_once-succeeds, call_once-locked}

abbrev order : RequestMessage
order = record {
  headers = ("trace", "7") ∷ [];
  partition_key = "";
  topic = "test";
  url = "http://localhost/pay";
  body = "sum=10";
}

abbrev bucket : TokenBucket ℤ
bucket = record {
  last_fill_time = pos 0;
  token_per_micro_second = pos 2;
  token_count = pos 2000000;
  capacity = pos 2000000;
}

abbrev unguarded : AsyncClient ℤ
unguarded = record {
  retries = pos 2;
  timeout = pos 3000;
  rate_limit = some bucket;
  circuit_breaker = none;
}

abbrev conf : CircuitBreakerConf ℤ
conf = record {
  break_period = pos 10;
  recover_period = pos 20;
  win_size = pos 3;
  min_stats = pos 5;
  health_rate = pos 900000;
}

abbrev breaker : CircuitBreaker ℤ
breaker = new_breaker conf (pos 0)

abbrev broken : CircuitBreaker ℤ
broken = record {
  health_stats = record {
    max_buckets = pos 3;
    buckets = [];
    update_time = pos 50;
    bucket_thresh = pos 5;
    health_thresh = pos 900000;
  };
  status = circuit_break;
  break_time = pos 50;
  break_period = pos 10;
  recover_period = pos 20;
}

-- Four refusals, two more than the budget.
abbrev down : List (ℤ × ℤ)
down = (pos 500, pos 1) ∷ (pos 503, pos 2) ∷ (pos 500, pos 3) ∷ (pos 500, pos 4) ∷ []

abbrev sent : ℕ → List HttpRequest
sent n = replicate n (build_request order)

request_as_sent : build_request order ≡ record {
  uri = "http://localhost/pay";
  headers =
      ("trace", "7") ∷ ("Content-Type", "application/octet-stream") ∷ ("Content-Length", "6") ∷ [];
  body = "";
}
unfolding build_request to_string
request_as_sent = refl

retry_loop-succeeds_example :
    retry_loop
      (status_code (pos 500) (pos 1)
        ∷ status_code (pos 503) (pos 2)
        ∷ status_code (pos 500) (pos 3)
        ∷ status_code (pos 500) (pos 4)
        ∷ status_code (pos 200) (pos 5)
        ∷ [])
      (pos 0)
      order
      unguarded
    ≡ (returned unguarded, sent 5)
retry_loop-succeeds_example =
    retry_loop-succeeds order unguarded 2 refl (omega arith) refl down (pos 5) [] 0
      (refl, (refl, (refl, (refl, tt)))) (omega arith)

retry_loop-never_gives_up_example :
    retry_loop
      (status_code (pos 500) (pos 1)
        ∷ status_code (pos 503) (pos 2)
        ∷ status_code (pos 500) (pos 3)
        ∷ status_code (pos 500) (pos 4)
        ∷ [])
      (pos 0)
      order
      unguarded
    ≡ (awaiting_answer unguarded, sent 5)
retry_loop-never_gives_up_example =
    retry_loop-never_gives_up order unguarded 2 refl (omega arith) refl down 0
      (refl, (refl, (refl, (refl, tt)))) (omega arith)

retry_loop-guarded_example :
    retry_loop
      (status_code (pos 200) (pos 5) ∷ [])
      (pos 0)
      order
      (record unguarded { circuit_breaker = some breaker })
    ≡ (stopped back_of_empty, sent 1)
retry_loop-guarded_example =
    retry_loop-guarded order (record unguarded { circuit_breaker = some breaker }) 2 refl
      (omega arith) breaker (pos 200) (pos 5) [] (pos 0) (built conf (pos 0)) refl

call_once-succeeds_example :
    call_once []
      (pos 0)
      (status_code (pos 500) (pos 1)
        ∷ status_code (pos 503) (pos 2)
        ∷ status_code (pos 500) (pos 3)
        ∷ status_code (pos 500) (pos 4)
        ∷ status_code (pos 200) (pos 5)
        ∷ [])
      order
      unguarded
    ≡ (returned (record unguarded { rate_limit = some (spent (pos 1) (pos 0) bucket) }), sent 5)
unfolding microseconds ◌-ℤ◌
call_once-succeeds_example =
    call_once-succeeds ⦃o = millionths-IsOrdered⦄ [] (pos 0) (pos 5) down [] order unguarded bucket
      2 refl (omega arith) refl refl refl refl refl (refl, (refl, (refl, (refl, tt)))) (omega arith)

abbrev polls : List Poll
polls =
    record { now = pos 51; health_now = pos 51; roll = 0 }
    ∷ record { now = pos 59; health_now = pos 59; roll = 99 }
    ∷ []

call_once-locked_example :
    (b : CircuitBreaker ℤ) × (call_once polls
        (pos 60)
        []
        order
        (record unguarded { circuit_breaker = some broken })
      ≡ (awaiting_breaker (record unguarded { circuit_breaker = some b }), []))
unfolding ◌-ℤ◌
call_once-locked_example =
    call_once-locked polls (pos 60) [] order (record unguarded { circuit_breaker = some broken })
      broken refl refl (omega arith)
