-- ===== src/Gateway/Silent.antt =====
-- What reaches Kafka when no request's body is the name of a file (proto/reqbody.hpp, ParseFromJSON).
use bigpipe_cpp.Base.{
  none, ℕ, ◌≡◌, refl, ◌∙◌, Bool, List, [], ◌∷◌, All, All-append_left, All-append_right, String,
}
use bigpipe_cpp.Folly.{Folly, FollyLaws}
use bigpipe_cpp.Proto.{Files}
use bigpipe_cpp.Proto.Reqmsg.{RequestMessage, new_message}
use bigpipe_cpp.Queue.Ring.{CircularBuffer, CircularBufferLaws}
use bigpipe_cpp.Acceptor.Callback.{parse_from_json-text}
use bigpipe_cpp.Config.{Topics}
use bigpipe_cpp.Producer.{Produced}
use bigpipe_cpp.Producer.Rounds.{push_one-silent}
use bigpipe_cpp.Producer.Relay.Relayed.{Rounds, no_round, then_round}
use bigpipe_cpp.Gateway.{Gateway, GatewayEvent, rpc, message, new_gateway, run}
use bigpipe_cpp.Gateway.Origin.{Posts, run-new_gateway-Rounds}

module _ {D W B : Type 0} {f : Folly D W} (folly_laws : FollyLaws f) (files : Files)
    (str_hash : String → ℕ) (what : String → String) {r : CircularBuffer RequestMessage B}
    (laws : CircularBufferLaws r) (handlers max_size : ℕ) (topics : Topics) where
  abbrev IsSilent : RequestMessage → Type 0
  IsSilent m = m.topic ≡ ""

  -- The body of a request is not the name of a file.
  abbrev pub NamesNoFile : GatewayEvent → Type 0
  NamesNoFile (rpc h headers body) = files body ≡ none
  NamesNoFile _ = Unit

  no_file-Posts :
      (e : GatewayEvent)
      → NamesNoFile e
      → Posts f files str_hash what laws handlers max_size topics IsSilent e
  unfolding message new_message
  no_file-Posts (rpc h headers body) missing =
      rw (parse_from_json-text folly_laws files body missing)
  no_file-Posts _ h = tt

  all-IsSilent :
      (es : List GatewayEvent)
      → All NamesNoFile es
      → All (Posts f files str_hash what laws handlers max_size topics IsSilent) es
  all-IsSilent [] h = tt
  all-IsSilent (e ∷ es) h = (no_file-Posts e h.0, all-IsSilent es h.1)

  -- Rounds on messages without a topic hand nothing over.
  silent-Rounds :
      {ms : List RequestMessage} {after : Topics} {ps : List Produced}
      → Rounds f str_hash laws handlers max_size topics ms after ps
      → All IsSilent ms
      → (ps ≡ []) × (after ≡ topics)
  silent-Rounds no_round h = (refl, refl)
  silent-Rounds (then_round {ms} {before} {ps} rd m after o rounds e) h =
      let (nothing, same) = silent-Rounds rounds (All-append_left IsSilent ms (m ∷ []) h) in
      let skipped =
        push_one-silent f str_hash rd m before (All-append_right IsSilent ms (m ∷ []) h).0 in
      let dropped : o ≡ none = cc in
      let kept : after ≡ before = cc in (rw (nothing, dropped), kept ∙ same)

  -- As the program stands, nothing reaches Kafka: on any schedule on which no request's body is the
  -- name of a file, which the body of a request is taken for, no message is ever handed over, and the
  -- topics stay as they are.
  pub run-new_gateway-silent :
      (flag : Bool) (es : List GatewayEvent) (g : Gateway B)
      → All NamesNoFile es
      → g ≡ run f files str_hash what r handlers es (new_gateway r handlers flag max_size topics)
      → (g.relay.produced ≡ []) × (g.relay.topics ≡ topics)
  run-new_gateway-silent flag es g h e =
      let (ms, rest, rounds, split, silent) =
        run-new_gateway-Rounds f files str_hash what laws handlers max_size topics IsSilent flag es
          g refl (all-IsSilent es h) e in
      silent-Rounds rounds silent
