-- ===== src/Acceptor/Callback.antt =====
-- RpcCallback on a body that cannot be parsed, and on a full queue; and Init.
use bigpipe_cpp.Base.{
  ℕ, ◌≡◌, refl, ◌∙◌, ◌≢◌, true, false, List, [], ◌∷◌, ◌++◌, arith, none, done, fail, exception,
  null_pointer, pos, negsuc, String, length, ◌==◌,
}
use bigpipe_cpp.Folly.{Folly, FollyLaws}
use bigpipe_cpp.Proto.{Files, read_file}
use bigpipe_cpp.Proto.Reqbody.{no_body}
use bigpipe_cpp.Proto.Reqbody
use bigpipe_cpp.Proto.Reqmsg.{RequestMessage, new_message}
use bigpipe_cpp.Proto.Reqmsg
use bigpipe_cpp.Queue.Ring.{CircularBuffer, CircularBufferLaws}
use bigpipe_cpp.Queue.{is_full}
use bigpipe_cpp.Config.{Config}
use bigpipe_cpp.Acceptor.{init, start, new_acceptor, handled, respond, complain, rpc_callback}

equal : (m n : ℕ) → m ≡ n → (m == n) ≡ true
equal m n h = ground arith

unequal : (m n : ℕ) → m ≢ n → (m == n) ≡ false
unequal m n h = ground arith

module _ {D W : Type 0} {f : Folly D W} (laws : FollyLaws f) (files : Files) where
  -- The text of a request is taken for a file name: if there is no such file, parsing throws and
  -- leaves the object as it was.
  pub parse_from_json-text :
      (body : String)
      → files body ≡ none
      → Reqbody.parse_from_json f files body no_body ≡ (no_body, fail exception)
  unfolding Reqbody.parse_from_json read_file
  parse_from_json-text body missing = rw (missing, laws.parse_json_empty)

  pub from_json-text :
      (body : String) (m : RequestMessage)
      → files body ≡ none
      → Reqmsg.from_json f files body m ≡ (m, fail exception)
  unfolding Reqmsg.from_json read_file
  from_json-text body m missing = rw (missing, laws.parse_json_empty)

  module _ {B : Type 0} {r : CircularBuffer RequestMessage B}
      (ring_laws : CircularBufferLaws r) where
    open ring_laws use {contents, full_lem}

    -- A request whose body is JSON text, and not the name of a file, is answered twice, with the
    -- error and then with success, and an empty message with its headers goes into the queue,
    -- provided that there is room and no other thread uses the queue meanwhile.
    pub rpc_callback-text :
        (what body answer_error answer_ok : String) (headers : List (String × String)) (ring : B)
        → files body ≡ none
        → length (contents ring) ≢ r.capacity ring
        → respond f r (negsuc 0) what ≡ done answer_error
        → respond f r (pos 0) "发送成功" ≡ done answer_ok
        → (ring' : B) × (rpc_callback f r files what (λ b. b) headers body ring
            ≡ done (handled ring' (answer_error ∷ answer_ok ∷ [])))
          × (contents ring' ≡ contents ring ++ new_message headers no_body ∷ [])
          × ((new_message headers no_body).topic ≡ "")
    unfolding rpc_callback is_full new_message
    rpc_callback-text what body answer_error answer_ok headers ring missing room err ok =
        let vacant : r.full ring ≡ false = full_lem ring ∙ unequal _ _ room in
        (
          r.push_back (new_message headers no_body) ring,
          rw (parse_from_json-text body missing, err, vacant, ok),
          ring_laws.push_back-contents (new_message headers no_body) ring vacant,
          refl,
        )

    -- On a full queue nothing is queued, and the last answer says so, whether the body could be read
    -- or not.
    pub rpc_callback-full :
        (what body answer : String) (meanwhile : B → B) (headers : List (String × String))
        (ring : B) (written : List String)
        → length (contents ring) ≡ r.capacity ring
        → complain f r what (Reqbody.parse_from_json f files body no_body).1 ≡ done written
        → respond f r (negsuc 0) "系统过载" ≡ done answer
        → rpc_callback f r files what meanwhile headers body ring
          ≡ done (handled ring (written ++ answer ∷ []))
    unfolding rpc_callback is_full
    rpc_callback-full what body answer meanwhile headers ring written full parsed refused =
        rw (parsed, full_lem ring ∙ equal _ _ full, refused)

module _ {W B : Type 0} (r : CircularBuffer RequestMessage B) where
  -- An acceptor that is new refuses to be initialised, whatever the configuration, and starting it
  -- follows a null pointer.
  pub init-start :
      (conf : Config W)
      → ((init r conf new_acceptor).1 ≡ false)
        × ((init r conf new_acceptor).0.taskchan ≡ none)
        × (start (init r conf new_acceptor).0 ≡ fail null_pointer)
  unfolding init start
  init-start conf = (refl, refl, refl)
