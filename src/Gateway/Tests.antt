-- ===== src/Gateway/Tests.antt =====
-- A request whose body is JSON text, and one whose body is the name of a file.
use bigpipe_cpp.Base.{
  done, ◌<◌, arith, ℕ, ◌≡◌, refl, ◌++◌, false, inl, inr, ◌⊎◌, List, [], ◌∷◌, All, none, some, pos,
  String, ℤ, lookup, ℕ_discrete,
}
use bigpipe_cpp.Folly.Json.{
  json, json_over, Json, text, obj, field, end, known_text, known_acl, other_text,
}
use bigpipe_cpp.Folly.Json.Laws.{json-laws}
use bigpipe_cpp.Folly.{Folly}
use bigpipe_cpp.Proto.{Files, read_file}
use bigpipe_cpp.Proto.Reqmsg.{RequestMessage, no_message}
use bigpipe_cpp.Proto.Acl.{from_json, read_fields}
use bigpipe_cpp.Proto.Reqbody.{parse_from_json}
use bigpipe_cpp.Proto.Reqmsg.{new_message, print_headers}
use bigpipe_cpp.Proto.Reqmsg
use bigpipe_cpp.Proto.Callresp
use bigpipe_cpp.Queue.{is_full, put_section, take_section}
use bigpipe_cpp.Queue.Monitor
use bigpipe_cpp.Queue.Monitor.{notify_one, notify_any}
use bigpipe_cpp.Producer.{push_one, topic_attr, calc_partition}
use bigpipe_cpp.Producer.Relay
use bigpipe_cpp.Producer.Relay.{new_relay}
use bigpipe_cpp.Queue.Ring.{ListRing, list_ring, list_ring-laws}
use bigpipe_cpp.Config.{Topics}
use bigpipe_cpp.Producer.Relay.{create_thread, raise_flag, loop_test, enter_section, push}
use bigpipe_cpp.Producer.Relay.Relayed.{Rounds}
use bigpipe_cpp.Gateway.{Gateway, GatewayEvent, rpc, relay_step, new_gateway, message, step, run}
use bigpipe_cpp.Gateway.Account.{Debt, Accounted, Matches}
use bigpipe_cpp.Gateway.{reply}
use bigpipe_cpp.Base.{◌+◌}
use bigpipe_cpp.Gateway.Answers.{run-new_gateway-Accounted}
use bigpipe_cpp.Gateway.Origin.{run-new_gateway-Rounds}
use bigpipe_cpp.Gateway.Silent.{run-new_gateway-silent}

abbrev no_files : Files
no_files name = none

-- The text of the exception, whatever the body.
abbrev parse_text : String → String
parse_text body = "json parse error"

abbrev no_hash : String → ℕ
no_hash key = 0

abbrev topics : Topics
topics = ("t", record { partitions = pos 3 }) ∷ []

-- Two requests, answered in the other order, and a round of Pushing on the first.
abbrev two_requests : List GatewayEvent
two_requests =
    relay_step create_thread
    ∷ relay_step raise_flag
    ∷ relay_step loop_test
    ∷ rpc 0 (("trace", "7") ∷ []) "{\"url\":\"u\"}"
    ∷ rpc 1 [] "{}"
    ∷ relay_step (enter_section 2 0)
    ∷ relay_step (enter_section 3 0)
    ∷ reply 1
    ∷ relay_step (enter_section 0 0)
    ∷ reply 0
    ∷ relay_step (push 5 (done tt))
    ∷ []

abbrev after : Gateway (ListRing RequestMessage)
after =
    run json no_files no_hash parse_text list_ring 2 two_requests
      (new_gateway list_ring 2 false 4 topics)

run-new_gateway-silent_example : (after.relay.produced ≡ []) × (after.relay.topics ≡ topics)
run-new_gateway-silent_example =
    run-new_gateway-silent json-laws no_files no_hash parse_text list_ring-laws 2 4 topics false
      two_requests after (tt, (tt, (tt, (refl, (refl, (tt, (tt, (tt, (tt, (tt, (tt, tt)))))))))))
      refl

both_answered :
    after.answers ≡ (1, other_text ∷ other_text ∷ []) ∷ (0, other_text ∷ other_text ∷ []) ∷ []
unfolding run step new_gateway message parse_from_json read_file Callresp.to_json is_full Relay.step
    new_relay Monitor.step Monitor.start ℕ_discrete put_section take_section notify_one notify_any
    new_message push_one
both_answered = refl

-- A request whose body is the name of a file, for the topic of its access control list.
abbrev body_text : String
body_text = "{\"url\":\"u\",\"data\":\"d\",\"partitionKey\":\"\",\"acl\":\"...\"}"

abbrev body_value : Json
body_value = obj (
    field "url" (text "u") (
      field "data" (text "d") (field "partitionKey" (text "") (field "acl" (text known_text) end))))

abbrev folly : Folly Json ℤ
folly = json_over ((body_text, body_value) ∷ (known_text, known_acl) ∷ [])

abbrev one_file : Files
one_file name = some body_text

abbrev acl_topics : Topics
acl_topics = ("test", record { partitions = pos 3 }) ∷ []

abbrev one_request : List GatewayEvent
one_request =
    relay_step create_thread
    ∷ relay_step raise_flag
    ∷ relay_step loop_test
    ∷ rpc 0 [] "request.json"
    ∷ relay_step (enter_section 2 0)
    ∷ relay_step (enter_section 0 0)
    ∷ relay_step (push 5 (done tt))
    ∷ []

abbrev relayed : Gateway (ListRing RequestMessage)
relayed =
    run folly one_file no_hash parse_text list_ring 2 one_request
      (new_gateway list_ring 2 false 4 acl_topics)

handed_over :
    relayed.relay.produced ≡ record { topic = "test"; partition = pos 2; payload = other_text } ∷ []
unfolding run step new_gateway message parse_from_json read_file Callresp.to_json is_full Relay.step
    new_relay Monitor.step Monitor.start ℕ_discrete put_section take_section notify_one notify_any
    new_message push_one topic_attr calc_partition lookup Reqmsg.to_json print_headers from_json
    read_fields
handed_over = refl

-- The URL is the request's, or there is none.
abbrev HasUrl : RequestMessage → Type 0
HasUrl m = (m.url ≡ "u") ⊎ (m.url ≡ "")

run-new_gateway-Rounds_example :
    (ms rest : List RequestMessage) × Rounds folly no_hash list_ring-laws 2 4 acl_topics ms
      relayed.relay.topics relayed.relay.produced
    × (ms ++ rest ≡ relayed.relay.queue.accepted)
    × All HasUrl ms
unfolding message new_message parse_from_json read_file from_json read_fields
run-new_gateway-Rounds_example =
    run-new_gateway-Rounds folly one_file no_hash parse_text list_ring-laws 2 4 acl_topics HasUrl
      false one_request relayed (inr refl) (tt, (tt, (tt, (inl refl, (tt, (tt, (tt, tt))))))) refl

-- The handlers are those of the server.
abbrev IsHandler : ℕ → List (String × String) → String → Type 0
IsHandler h headers body = h < 2

run-new_gateway-Accounted_example :
    (owed : ℕ → Debt) × Accounted json no_files parse_text list_ring 4 IsHandler
      after.relay.queue.accepted after.answers owed
    × ((h : ℕ)
        → Matches json no_files parse_text list_ring 4 IsHandler h
            (after.relay.queue.pc (h + 2))
            (owed h)
            (after.handler h))
run-new_gateway-Accounted_example =
    run-new_gateway-Accounted json no_files no_hash parse_text list_ring-laws 2 4 topics IsHandler
      false two_requests after
      (tt, (tt, (tt, (omega arith, (omega arith, (tt, (tt, (tt, (tt, (tt, (tt, tt))))))))))) refl
