-- ===== src/Lib.antt =====
-- bigpipe: an asynchronous HTTP relay over Kafka.
--
-- The program accepts requests over HTTP (acceptor/), puts them into a bounded queue
-- (base/BoundedBlockingQueue.hpp), hands them to Kafka (kafka/producer.hpp), reads them back
-- (kafka/consumer.hpp) and calls the HTTP server that each names (client/), behind a limiter and a
-- circuit breaker. Settings come from a JSON file (config/config.hpp); main.cpp makes the objects and
-- connects them.
--
-- Which file models which part:
-- - Base and its children: what C++ gives. Faults has the ways in which a call ends (a value, an
--   exception, a failed assert, undefined behaviour), Int the `int`s with their range and conversions,
--   Doubles the interface of `double`, Millionths an instance of it to compute with, Texts
--   `std::string` and `std::unordered_map`, Methods a method that may throw half-way, Threads the
--   states of numbered threads.
-- - Health: class HealthStats of client/circuit_breaker.hpp; update_buckets is UpdateBuckets,
--   is_healthy is IsHealthy, stats_on_success and stats_on_fail are OnSuccess and OnFail.
-- - Breaker: class CircuitBreaker of the same file; switch is the body of IsBreak, is_break all of it.
-- - RateLimit: client/rate_limit.h; try_fill_bucket and get_token are tryFillBucket and GetToken.
-- - Client: client/async_client.hpp; retry_loop is the loop of CallWithRetry, call_once is Call.
-- - Folly: the part of folly that is called, as an interface; Folly.Json is one value of it.
-- - Proto: proto/acl.hpp, reqbody.hpp, reqmsg.hpp and callresp.hpp, a module for each. Proto.Headers
--   is the map of the headers without its order, a quotient of the entries.
-- - Queue: base/BoundedBlockingQueue.hpp; put_section and take_section are put and take under the lock,
--   over an interface of boost::circular_buffer (Queue.Ring). Queue.Monitor has the threads that call
--   them, with both condition variables; its children Lone, Producers, Consumers and Jammed each look
--   at who sleeps.
-- - Blocking: base/BlockingQueue.hpp; put_back, take_front and deque_size are put, take and size under
--   the lock, and the threads are those of Queue.Monitor.
-- - Pool: base/ThreadPool.hpp, over Queue.Monitor; test_running and finish are RunInLoop, stop_from and
--   join_worker the loop of Stop.
-- - Config: config/config.hpp; parse_config is ParseConfig, with a function for each part of it.
-- - Producer: kafka/producer.hpp; calc_partition is CalcPartition and push_one a round of Pushing.
--   Producer.Life has Init, SetJobChannel, Start and Stop on the thread that calls them. Producer.Relay
--   has Start, Pushing and Stop as threads on the bounded queue, beside the HTTP handlers that put
--   requests; Producer.Flush has the wait at the end of Stop.
-- - Acceptor: acceptor/acceptor.cpp; rpc_callback is RpcCallback.
-- - Gateway: the handlers of the same file as threads, beside Producer.Relay and over its queue, from the
--   request to Kafka; begin_rpc is RpcCallback up to its put and end_rpc the answer, with
--   other threads in between.
--   Gateway.Account sets the messages in the queue against the answers, and Gateway.Origin what is handed
--   to Kafka against the requests.
-- - Consumer: kafka/consumer.hpp; consume_loop is ConsumeLoop. Consumer.Calls has Start, ConsumeLoop and
--   Stop with AsyncCall of client/async_client.hpp, over the Pool; async_call is AsyncCall.
-- - Signal: base/SignalHandler.hpp, one function for each of its methods.
-- - Program: main.cpp; main is what comes up to the start of the server and shut_down what follows the
--   wait for the interrupt, where the joins of the three Stops return.
-- A component's Tests module has examples on concrete values.
--
-- How the program's world appears. Clocks, `rand()`, `std::hash`, `std::random_device`, the answers of
-- the HTTP server, the messages of Kafka and the contents of files are arguments. The loops that
-- ask for such values without end (the retries, the wait for the breaker, the wait for the out queue of
-- Kafka) recurse on the list of the values given; when it is used up the result says what the code is
-- waiting for, so that no fuel is needed. Threads interleave at the lock of the queue, which makes a critical section one step, for any
-- number of threads and any schedule. `int` is 32 bits wide and `size_t` 64; an `int` sum out of range
-- is a fault. Times and `long` sums are taken as unbounded. A Kafka client or an HTTP server is the
-- settings that it is made with. Of a function that ends without its `return`, main's path takes an
-- arbitrary outcome; the threads of Producer.Relay and Consumer.Calls start where such a call came back.
--
-- Threads. A schedule is a list of events, and an event that a thread cannot make changes nothing, so
-- that a theorem about every list is one about every interleaving. Fairness is not assumed: where a
-- theorem says that something ends, it names the turn of the thread that ends it. An `std::atomic` is
-- read and written in one step. A task of the pool is the number of its round, and what it reads of the
-- message behind its reference is the state of that round.
--
-- Not modelled: the producer's handler of delivery reports, which only logs; the callbacks and settings
-- of the Kafka clients, which are third-party; logging; the build files.
pub mod Base
pub mod Health
pub mod Breaker
pub mod RateLimit
pub mod Folly
pub mod Proto
pub mod Queue
pub mod Blocking
pub mod Pool
pub mod Client
pub mod Config
pub mod Producer
pub mod Acceptor
pub mod Consumer
pub mod Signal
pub mod Gateway
pub mod Program
