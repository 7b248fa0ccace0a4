-- ===== src/Program/Stops.antt =====
-- What the shutdown of main comes to.
use bigpipe_cpp.Base.{ℕ, ltb, true, ◌<◌, ◌≡◌, refl, List, ◌∷◌, ◌++◌, All, length, some, done, pos}
use bigpipe_cpp.Client.{AsyncClient}
use bigpipe_cpp.Acceptor.{HttpServer}
use bigpipe_cpp.Producer.Life.{KafkaClient}
use bigpipe_cpp.Producer.Flush.{flush_out_queue-flushed}
use bigpipe_cpp.Program.{Service, flushing, exited, shut_down}

module _ {W B : Type 0} where
  -- Every part has been made and started.
  pub record IsStarted (s : Service W B) : Type 0 where
    pub server : HttpServer
    pub chan : B
    pub kafka : KafkaClient
    pub client : AsyncClient W
    pub http : s.acceptor.http_server ≡ some server
    pub channel : s.producer.taskchan ≡ some chan
    pub connected : s.producer.kafka_client ≡ some kafka
    pub pushing : ltb 0 s.producer.producers ≡ true
    pub calling : s.consumer.async_client ≡ some client
    pub consuming : ltb 0 s.consumer.threads ≡ true

  -- Where every part was made and started, main exits with 0 once the Kafka client gives an empty out
  -- queue, and asks it again as long as it does not.
  pub shut_down-exited :
      (s : Service W B) (busy later : List ℕ)
      → IsStarted s
      → All (λ n. 0 < n) busy
      → (shut_down (busy ++ 0 ∷ later) s ≡ done (exited (pos 0)))
        × (shut_down busy s ≡ done (flushing (length busy)))
  unfolding shut_down
  shut_down-exited s busy later v h =
      let (over, on) = flush_out_queue-flushed busy later h in
      (
        rw (v.http, v.channel, v.pushing, v.connected, over, v.consuming, v.calling) refl,
        rw (v.http, v.channel, v.pushing, v.connected, on) refl,
      )
