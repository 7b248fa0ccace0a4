-- ===== src/Consumer/Loop.antt =====
-- What the consumer comes to.
use bigpipe_cpp.Base.{
  ◌≡◌, arith, ◌≢◌, Bool, true, List, [], ◌∷◌, none, some, exception, ℤ, String, Double,
}
use bigpipe_cpp.Folly.{Folly, FollyLaws}
use bigpipe_cpp.Proto.{Files}
use bigpipe_cpp.Proto.Reqmsg.{RequestMessage, no_message}
use bigpipe_cpp.Acceptor.Callback.{from_json-text}
use bigpipe_cpp.Breaker.{Poll}
use bigpipe_cpp.Client.{AsyncClient, Answer, returned, call_once}
use bigpipe_cpp.Client.Call.{call_once-unlimited}
use bigpipe_cpp.Config.{Config}
use bigpipe_cpp.Consumer.{Consumed, payload, terminated, new_consumer, init, consume_loop}

module _ {D W : Type 0} {f : Folly D W} (laws : FollyLaws f) (files : Files) where
  -- The first message that is JSON text, and not the name of a file, ends the consumer's thread by an
  -- exception, with nothing handed on.
  pub consume_loop-text :
      (text : String) (rounds : List (Bool × Consumed))
      → files text ≡ none
      → consume_loop f files ((true, payload text) ∷ rounds) ≡ (terminated exception, [])
  unfolding consume_loop
  consume_loop-text text rounds missing = rw (from_json-text laws files text no_message missing)

module _ {W : Type 0} ⦃d : Double W⦄ where
  -- A message that the consumer's own client is called with is never sent, and the call never
  -- returns: Init gives the client no limiter.
  pub init-unsent :
      (conf : Config W) (c : AsyncClient W) (ps : List Poll) (now : ℤ) (answers : List Answer)
      (msg : RequestMessage)
      → (init conf new_consumer).0.async_client ≡ some c
      → ((call_once ps now answers msg c).1 ≡ [])
        × ((c' : AsyncClient W) → (call_once ps now answers msg c).0 ≢ returned c')
  unfolding init
  init-unsent conf c ps now answers msg e = call_once-unlimited ps now answers msg c (by_client e)
    where
      by_client : (init conf new_consumer).0.async_client ≡ some c → c.rate_limit ≡ none
      by_client k = ground arith
