-- ===== src/Acceptor/Tests.antt =====
-- Requests at a queue of two messages.
use bigpipe_cpp.Base.{◌≡◌, refl, [], ◌∷◌, none, done, arith}
use bigpipe_cpp.Folly.Json.{json, other_text}
use bigpipe_cpp.Folly.Json.Laws.{json-laws}
use bigpipe_cpp.Proto.{Files, read_file}
use bigpipe_cpp.Proto.Reqbody.{no_body, parse_from_json}
use bigpipe_cpp.Proto.Reqmsg.{RequestMessage, no_message, new_message}
use bigpipe_cpp.Proto.Callresp.{to_json}
use bigpipe_cpp.Queue.Ring.{ListRing, list_ring, list_ring-laws}
use bigpipe_cpp.Acceptor.{handled, rpc_callback}
use bigpipe_cpp.Acceptor.Callback.{rpc_callback-text, rpc_callback-full}

abbrev no_files : Files
no_files name = none

abbrev half_full : ListRing RequestMessage
half_full = record { items = no_message ∷ []; room = 2 }

abbrev all_full : ListRing RequestMessage
all_full = record { items = no_message ∷ no_message ∷ []; room = 2 }

rpc_callback-text_example :
    (ring' : ListRing RequestMessage) × (rpc_callback json list_ring no_files "json parse error"
        (λ b. b)
        (("trace", "7") ∷ [])
        "{\"url\":1}"
        half_full
      ≡ done (handled ring' (other_text ∷ other_text ∷ [])))
    × (ring'.items ≡ no_message ∷ new_message (("trace", "7") ∷ []) no_body ∷ [])
    × ((new_message (("trace", "7") ∷ []) no_body).topic ≡ "")
unfolding to_json
rpc_callback-text_example =
    rpc_callback-text json-laws no_files list_ring-laws "json parse error" "{\"url\":1}" other_text
      other_text (("trace", "7") ∷ []) half_full refl (omega arith) refl refl

full_queue :
    rpc_callback json list_ring no_files "json parse error"
      (λ b. b)
      (("trace", "7") ∷ [])
      "{\"url\":1}"
      all_full
    ≡ done (handled all_full (other_text ∷ other_text ∷ []))
unfolding to_json parse_from_json read_file
full_queue =
    rpc_callback-full json-laws no_files list_ring-laws "json parse error" "{\"url\":1}" other_text
      (λ b. b) (("trace", "7") ∷ []) all_full (other_text ∷ []) refl refl refl
