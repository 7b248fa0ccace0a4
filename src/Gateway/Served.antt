-- ===== src/Gateway/Served.antt =====
-- The steps of a handler (acceptor/acceptor.cpp, RpcCallback): the message and the answer.
use mathlib.Core.Path.{subst}
use bigpipe_cpp.Base.{
  ◌≤◌, length, ℕ, ◌+◌, ◌≡◌, refl, sym, inl, inr, true, Bool-cases, ltb, List, [], ◌∷◌, ◌++◌,
  Outcome, done, fail, pos, String, arith,
}
use bigpipe_cpp.Folly.{Folly}
use bigpipe_cpp.Proto.{Files}
use bigpipe_cpp.Proto.Reqbody.{no_body}
use bigpipe_cpp.Proto.Reqbody
use bigpipe_cpp.Proto.Reqmsg.{RequestMessage}
use bigpipe_cpp.Queue.{is_full}
use bigpipe_cpp.Queue.Ring.{CircularBuffer}
use bigpipe_cpp.Queue.Monitor.{outside}
use bigpipe_cpp.Queue.Monitor.Puts.{call_put-IsBegun}
use bigpipe_cpp.Acceptor.{respond, complain}
use bigpipe_cpp.Producer.Relay.{
  Pusher, testing, pushing, Keeper, fresh, created, started, stopping, Relay, RelayEvent,
  create_thread, raise_flag, loop_test, enter_section, wake_up, push, request, call_stop, join,
  has_exited, is_outside, settle, create, raise, join_pusher, test_running, begin_stop, end_round,
  new_relay, on_queue,
}
use bigpipe_cpp.Producer.Relay
use bigpipe_cpp.Gateway.{
  Handler, ready, sending, crashed, Gateway, answer, message, after_parse, begin_rpc,
}
use bigpipe_cpp.Queue.Monitor.Puts.{in_put, IsPut}
use bigpipe_cpp.Producer.Relay.{Relay}
use bigpipe_cpp.Gateway.{refusing, end_rpc}
use bigpipe_cpp.Queue.Monitor.{Pc}
use bigpipe_cpp.Base.{update, none, some, ap, ◌∙◌}
use bigpipe_cpp.Gateway.Account.{
  Debt, Accounted, entered, turned_away, told, unprinted, Matches, idle, ended, busy, confirming,
  declining, IsAnswered, apart-IsAnswered, moved-IsAnswered, owing-IsAnswered, put-IsApart,
  begun-IsApart, own-IsApart,
}

module _ {D W B : Type 0} (f : Folly D W) (files : Files) (str_hash : String → ℕ)
    (what : String → String) (r : CircularBuffer RequestMessage B) (handlers max_size : ℕ)
    (Q : ℕ → List (String × String) → String → Type 0) where
  -- The queue, the handlers and their answers are in keeping.
  abbrev pub IsServed : Gateway B → Type 0
  IsServed g = IsAnswered f files what r max_size Q g.relay.queue g.handler g.answers

  -- A full queue has accepted as many messages as it holds.
  abbrev pub IsCrowded : Gateway B → Type 0
  IsCrowded g = is_full r g.relay.queue.ring ≡ true → max_size ≤ length g.relay.queue.accepted

  after_parse-IsServed :
      (h : ℕ) (headers : List (String × String)) (body : String) (g : Gateway B)
      (o : Outcome (List String)) (v : IsServed g)
      → complain f r (what body) (Reqbody.parse_from_json f files body no_body).1 ≡ o
      → ltb h handlers ≡ true
      → Q h headers body
      → g.relay.queue.pc (h + 2) ≡ outside
      → v.owed h ≡ none
      → IsCrowded g
      → IsServed (after_parse f str_hash r handlers h (message f files headers body) g o)
  unfolding Relay.step
  after_parse-IsServed h headers body g (done written) v e inside q out clear crowded =
      elim (Bool-cases (is_full r g.relay.queue.ring)) [
        | inl full ↦ rw full (
            apart-IsAnswered f files what r max_size Q h g.relay.queue v.owed g.handler _
              (refusing written) g.answers
              (own-IsApart f files what r max_size Q (handlers + 2) h g.relay.queue g.relay.queue
                g.handler g.answers v)
              (declining written out)
              (turned_away h headers body written v.account clear q e (crowded full)))
        | inr room ↦
            let m = message f files headers body in
            let b = call_put-IsBegun r (handlers + 2) (h + 2) m g.relay.queue in
            let begun = busy headers body written q e (b.entered out (ground arith)) in
            rw room (
              moved-IsAnswered f files what r max_size Q h _ v.owed g.handler none (sending written)
                g.answers
                (begun-IsApart f files what r max_size Q (handlers + 2) h g.relay.queue _ g.handler
                  g.answers v b)
                clear begun
                (subst (λ ms. Accounted f files what r max_size Q ms g.answers v.owed)
                  (sym b.silent) v.account))
      ]
  after_parse-IsServed h headers body g (fail x) v e inside q out clear crowded =
      moved-IsAnswered f files what r max_size Q h g.relay.queue v.owed g.handler none (crashed x)
        g.answers
        (own-IsApart f files what r max_size Q (handlers + 2) h g.relay.queue g.relay.queue
          g.handler g.answers v)
        clear (ended x out) v.account

  pub begin_rpc-IsServed :
      (h : ℕ) (headers : List (String × String)) (body : String) (g : Gateway B) (s : Handler)
      (d : Debt) (v : IsServed g)
      → v.owed h ≡ d
      → Matches f files what r max_size Q h (g.relay.queue.pc (h + 2)) d s
      → ltb h handlers ≡ true
      → Q h headers body
      → IsCrowded g
      → IsServed (begin_rpc f files str_hash what r handlers h headers body g s)
  begin_rpc-IsServed h headers body g ready none v clear (idle out) inside q crowded =
      after_parse-IsServed h headers body g _ v refl inside q out clear crowded
  begin_rpc-IsServed h headers body g ready (some c) v clear m inside q crowded = elim m [ ]
  begin_rpc-IsServed h headers body g (sending written) d v e m inside q crowded = v
  begin_rpc-IsServed h headers body g (refusing written) d v e m inside q crowded = v
  begin_rpc-IsServed h headers body g (crashed x) d v e m inside q crowded = v

  -- Handler `h` writes the answer that it owes.
  answer-IsServed :
      (h : ℕ) (written : List String) (g : Gateway B) (o : Outcome String) (v : IsServed g)
      → v.owed h ≡ some (o, written)
      → g.relay.queue.pc (h + 2) ≡ outside
      → IsServed (answer h written g o)
  answer-IsServed h written g (done s) v e out =
      apart-IsAnswered f files what r max_size Q h g.relay.queue v.owed g.handler none ready _
        (own-IsApart f files what r max_size Q (handlers + 2) h g.relay.queue g.relay.queue
          g.handler g.answers v)
        (idle out) (told h written s v.account e)
  answer-IsServed h written g (fail x) v e out =
      apart-IsAnswered f files what r max_size Q h g.relay.queue v.owed g.handler none (crashed x)
        g.answers
        (own-IsApart f files what r max_size Q (handlers + 2) h g.relay.queue g.relay.queue
          g.handler g.answers v)
        (ended x out) (unprinted h written x v.account e)

  -- A handler that is still in put does nothing.
  pub end_rpc-IsServed :
      (h : ℕ) (g : Gateway B) (s : Handler) (p : Pc RequestMessage) (d : Debt) (v : IsServed g)
      → v.owed h ≡ d
      → g.relay.queue.pc (h + 2) ≡ p
      → Matches f files what r max_size Q h p d s
      → IsServed (end_rpc f str_hash r handlers h g s p)
  end_rpc-IsServed h g (sending written) outside none v e here (busy headers body _ q c k) = cc
  end_rpc-IsServed h g (sending written) outside _ v e here (confirming _ out) =
      answer-IsServed h written g _ v e here
  end_rpc-IsServed h g (refusing written) p _ v e here (declining _ out) =
      answer-IsServed h written g _ v e (here ∙ out)
  end_rpc-IsServed h g _ _ d v e here m = v

  -- The message of handler `h` has gone into the queue: from now on it owes the answer.
  pub deliver-IsServed :
      (h : ℕ) (g : Gateway B) (t : Relay B) (s : Handler) (d : Debt) (v : IsServed g)
      → g.handler h ≡ s
      → v.owed h ≡ d
      → Matches f files what r max_size Q h (g.relay.queue.pc (h + 2)) d s
      → IsPut r (handlers + 2) (h + 2) g.relay.queue t.queue
      → IsServed (record g { relay = t })
  deliver-IsServed h g t ready none v here clear (idle out) u =
      let a = u.brought in let b = ap in_put out in cc
  deliver-IsServed h g t (crashed x) none v here clear (ended _ out) u =
      let a = u.brought in let b = ap in_put out in cc
  deliver-IsServed h g t ready (some c) v here clear m u = elim m [ ]
  deliver-IsServed h g t (crashed x) (some c) v here clear m u = elim m [ ]
  deliver-IsServed h g t (refusing written) _ v here e (declining _ out) u =
      let a = u.brought in let b = ap in_put out in cc
  deliver-IsServed h g t (sending written) _ v here e (confirming _ out) u =
      let a = u.brought in let b = ap in_put out in cc
  deliver-IsServed h g t (sending written) none v here clear (busy headers body _ q c k) u =
      let same : u.element ≡ message f files headers body = let a = u.brought in cc in
      owing-IsAnswered f files what r max_size Q h t.queue v.owed g.handler _ g.answers
        (put-IsApart f files what r max_size Q (handlers + 2) h g.relay.queue t.queue g.handler
          g.answers v u)
        (subst (Matches f files what r max_size Q h (t.queue.pc (h + 2)) _) (sym here)
          (confirming written u.out))
        (subst
          (λ ms.
            Accounted f files what r max_size Q ms g.answers
              (update v.owed h (some (respond f r (pos 0) "发送成功", written))))
          (ap (λ m. g.relay.queue.accepted ++ m ∷ []) (sym same) ∙ sym u.accepted)
          (entered h headers body written v.account clear q c))
