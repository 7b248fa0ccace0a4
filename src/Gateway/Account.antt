-- ===== src/Gateway/Account.antt =====
-- The messages in the queue and the answers to the requests, one for the other (acceptor/acceptor.cpp,
-- RpcCallback).
use mathlib.Core.Path.{subst}
use bigpipe_cpp.Base.{
  ◌≤◌, length, ℕ, ◌+◌, ◌≡◌, ◌≢◌, sym, ap, ◌∙◌, inl, inr, List, [], ◌∷◌, ◌++◌, Option, none, some,
  Outcome, done, fail, Fault, pos, negsuc, String, update, ℕ_discrete, arith,
}
use mathlib.Core.Logic.{ite}
use bigpipe_cpp.Folly.{Folly}
use bigpipe_cpp.Proto.{Files}
use bigpipe_cpp.Proto.Reqbody.{no_body}
use bigpipe_cpp.Proto.Reqbody
use bigpipe_cpp.Proto.Reqmsg.{RequestMessage, no_message}
use bigpipe_cpp.Queue.Ring.{CircularBuffer}
use bigpipe_cpp.Queue.Monitor.{Pc, outside, System}
use bigpipe_cpp.Queue.Monitor.Puts.{in_put, SameCall, IsQuiet, IsPut, IsBegun}
use bigpipe_cpp.Acceptor.{respond, complain}
use bigpipe_cpp.Gateway.{Handler, ready, sending, refusing, crashed, message}

-- What a handler is still to write: how its answer comes out, after what it has written.
abbrev pub Debt : Type 0
Debt = Option (Outcome String × List String)

module _ {D W B : Type 0} (f : Folly D W) (files : Files) (what : String → String)
    (r : CircularBuffer RequestMessage B) (max_size : ℕ)
    (Q : ℕ → List (String × String) → String → Type 0) where
  -- What the handler has written by the time that it puts the message of a request.
  abbrev Written : String → List String → Type 0
  Written body written =
      complain f r (what body) (Reqbody.parse_from_json f files body no_body).1 ≡ done written

  -- The messages accepted, in order, the answers given, in order, and what each handler still owes. A
  -- request brings its message in, or is turned away, for which at least as many messages as the
  -- queue holds must have come in, and only then its handler owes the answer that
  -- goes with it; an answer is given, or fails to be printed, once for each debt.
  pub data Accounted : List RequestMessage → List (ℕ × List String) → (ℕ → Debt) → Type 0 where
    nothing : Accounted [] [] (λ h. none)
    entered :
        {ms : List RequestMessage} {answers : List (ℕ × List String)} {owed : ℕ → Debt}
        → (h : ℕ) (headers : List (String × String)) (body : String) (written : List String)
        → Accounted ms answers owed
        → owed h ≡ none
        → Q h headers body
        → Written body written
        → Accounted
            (ms ++ message f files headers body ∷ [])
            answers
            (update owed h (some (respond f r (pos 0) "发送成功", written)))
    turned_away :
        {ms : List RequestMessage} {answers : List (ℕ × List String)} {owed : ℕ → Debt}
        → (h : ℕ) (headers : List (String × String)) (body : String) (written : List String)
        → Accounted ms answers owed
        → owed h ≡ none
        → Q h headers body
        → Written body written
        → max_size ≤ length ms
        → Accounted ms answers (update owed h (some (respond f r (negsuc 0) "系统过载", written)))
    told :
        {ms : List RequestMessage} {answers : List (ℕ × List String)} {owed : ℕ → Debt}
        → (h : ℕ) (written : List String) (s : String) → Accounted ms answers owed
        → owed h ≡ some (done s, written)
        → Accounted ms (answers ++ (h, written ++ s ∷ []) ∷ []) (update owed h none)
    unprinted :
        {ms : List RequestMessage} {answers : List (ℕ × List String)} {owed : ℕ → Debt}
        → (h : ℕ) (written : List String) (e : Fault) → Accounted ms answers owed
        → owed h ≡ some (fail e, written)
        → Accounted ms answers (update owed h none)
    notice :
        {ms : List RequestMessage} {answers : List (ℕ × List String)} {owed : ℕ → Debt}
        → Accounted ms answers owed
        → Accounted (ms ++ no_message ∷ []) answers owed

  -- The call of put of handler `h`, which is in the state `s` and owes `d`.
  pub data Matches (h : ℕ) (p : Pc RequestMessage) : Debt → Handler → Type 0 where
    idle : p ≡ outside → Matches h p none ready
    ended : (e : Fault) → p ≡ outside → Matches h p none (crashed e)
    busy :
        (headers : List (String × String)) (body : String) (written : List String)
        → Q h headers body
        → Written body written
        → in_put p ≡ some (message f files headers body)
        → Matches h p none (sending written)
    confirming :
        (written : List String)
        → p ≡ outside
        → Matches h p (some (respond f r (pos 0) "发送成功", written)) (sending written)
    declining :
        (written : List String)
        → p ≡ outside
        → Matches h p (some (respond f r (negsuc 0) "系统过载", written)) (refusing written)

  stays-Matches :
      {h : ℕ} {p q : Pc RequestMessage} {d : Debt} {s : Handler}
      → SameCall p q
      → Matches h p d s
      → Matches h q d s
  stays-Matches (same, out) (idle e) = idle (out e)
  stays-Matches (same, out) (ended x e) = ended x (out e)
  stays-Matches (same, out) (busy headers body written asked w e) =
      busy headers body written asked w (same ∙ e)
  stays-Matches (same, out) (confirming written e) = confirming written (out e)
  stays-Matches (same, out) (declining written e) = declining written (out e)

  -- The queue, the handlers and their answers.
  pub record IsAnswered (q : System RequestMessage B) (handler : ℕ → Handler)
      (answers : List (ℕ × List String)) : Type 0 where
    pub owed : ℕ → Debt
    pub account : Accounted q.accepted answers owed
    pub pusher : in_put (q.pc 0) ≡ none
    pub keeper : (m : RequestMessage) → in_put (q.pc 1) ≡ some m → m ≡ no_message
    pub calls : (h : ℕ) → Matches h (q.pc (h + 2)) (owed h) (handler h)

  module _ (n : ℕ) (q t : System RequestMessage B) (handler : ℕ → Handler)
      (answers : List (ℕ × List String)) (v : IsAnswered q handler answers) where
    pub quiet-IsAnswered : IsQuiet r n q t → IsAnswered t handler answers
    quiet-IsAnswered same = record {
      owed = v.owed;
      account = subst (λ ms. Accounted ms answers v.owed) (sym same.silent) v.account;
      pusher = (same.calls 0).0 ∙ v.pusher;
      keeper = λ m e. v.keeper m (sym (same.calls 1).0 ∙ e);
      calls = λ h. stays-Matches (same.calls (h + 2)) (v.calls h);
    }

    -- The thread of Pushing calls take.
    pub take-IsAnswered : IsBegun r n 0 none q t → IsAnswered t handler answers
    take-IsAnswered b = record {
      owed = v.owed;
      account = subst (λ ms. Accounted ms answers v.owed) (sym b.silent) v.account;
      pusher = elim b.here [ inl same ↦ same ∙ v.pusher | inr now ↦ now ];
      keeper = λ m e. v.keeper m (ap in_put (sym (b.others 1 (λ x. cc))) ∙ e);
      calls = λ h.
          subst (λ p. Matches h p (v.owed h) (handler h)) (sym (b.others (h + 2) (omega arith)))
            (v.calls h);
    }

    -- Stop calls put with the empty message.
    pub stop-IsAnswered : IsBegun r n 1 (some no_message) q t → IsAnswered t handler answers
    stop-IsAnswered b = record {
      owed = v.owed;
      account = subst (λ ms. Accounted ms answers v.owed) (sym b.silent) v.account;
      pusher = ap in_put (b.others 0 (λ x. cc)) ∙ v.pusher;
      keeper = λ m e. elim b.here [ inl same ↦ v.keeper m (sym same ∙ e) | inr now ↦ cc ];
      calls = λ h.
          subst (λ p. Matches h p (v.owed h) (handler h)) (sym (b.others (h + 2) (omega arith)))
            (v.calls h);
    }

    -- The thread of Pushing puts nothing.
    pub pusher-IsAnswered : IsPut r n 0 q t → IsAnswered t handler answers
    pusher-IsAnswered u = let a = u.brought in let b = v.pusher in cc

    -- Stop has put the empty message.
    pub notice-IsAnswered : IsPut r n 1 q t → IsAnswered t handler answers
    notice-IsAnswered u = record {
      owed = v.owed;
      account =
          subst (λ ms. Accounted ms answers v.owed)
            (ap (λ m. q.accepted ++ m ∷ []) (sym (v.keeper u.element u.brought)) ∙ sym u.accepted)
            (notice v.account);
      pusher = (u.others 0 (λ x. cc)).0 ∙ v.pusher;
      keeper = λ m e. let out = ap in_put u.out in cc;
      calls = λ h. stays-Matches (u.others (h + 2) (omega arith)) (v.calls h);
    }

  -- The same but for the call of handler `h` and the account.
  pub record IsApart (h : ℕ) (q : System RequestMessage B) (owed : ℕ → Debt) (handler : ℕ → Handler)
      : Type 0 where
    pub pusher : in_put (q.pc 0) ≡ none
    pub keeper : (m : RequestMessage) → in_put (q.pc 1) ≡ some m → m ≡ no_message
    pub others : (k : ℕ) → h ≢ k → Matches k (q.pc (k + 2)) (owed k) (handler k)

  -- Handler `h` comes to the state `s` and the debt `d`.
  pub apart-IsAnswered :
      (h : ℕ) (q : System RequestMessage B) (owed : ℕ → Debt) (handler : ℕ → Handler) (d : Debt)
      (s : Handler) (answers : List (ℕ × List String))
      → IsApart h q owed handler
      → Matches h (q.pc (h + 2)) d s
      → Accounted q.accepted answers (update owed h d)
      → IsAnswered q (update handler h s) answers
  apart-IsAnswered h q owed handler d s answers v here account = record {
    owed = update owed h d;
    account = account;
    pusher = v.pusher;
    keeper = v.keeper;
    calls = λ k.
        elim (ℕ_discrete h k)
          as (λ z. Matches k (q.pc (k + 2)) (ite z d (owed k)) (ite z s (handler k))) [
            | yes self ↦ subst (λ j. Matches j (q.pc (j + 2)) d s) self here
            | no other ↦ v.others k other
          ];
  }

  -- Handler `h` comes to the state `s`, and what it owes stays as it is.
  pub moved-IsAnswered :
      (h : ℕ) (q : System RequestMessage B) (owed : ℕ → Debt) (handler : ℕ → Handler) (d : Debt)
      (s : Handler) (answers : List (ℕ × List String))
      → IsApart h q owed handler
      → owed h ≡ d
      → Matches h (q.pc (h + 2)) d s
      → Accounted q.accepted answers owed
      → IsAnswered q (update handler h s) answers
  moved-IsAnswered h q owed handler d s answers v e here account = record {
    owed = owed;
    account = account;
    pusher = v.pusher;
    keeper = v.keeper;
    calls = λ k.
        elim (ℕ_discrete h k) as (λ z. Matches k (q.pc (k + 2)) (owed k) (ite z s (handler k))) [
          | yes self ↦
              subst (λ j. Matches j (q.pc (j + 2)) (owed j) s) self
                (subst (λ c. Matches h (q.pc (h + 2)) c s) (sym e) here)
          | no other ↦ v.others k other
        ];
  }

  -- Handler `h` comes to owe `d` where it stands.
  pub owing-IsAnswered :
      (h : ℕ) (q : System RequestMessage B) (owed : ℕ → Debt) (handler : ℕ → Handler) (d : Debt)
      (answers : List (ℕ × List String))
      → IsApart h q owed handler
      → Matches h (q.pc (h + 2)) d (handler h)
      → Accounted q.accepted answers (update owed h d)
      → IsAnswered q handler answers
  owing-IsAnswered h q owed handler d answers v here account = record {
    owed = update owed h d;
    account = account;
    pusher = v.pusher;
    keeper = v.keeper;
    calls = λ k.
        elim (ℕ_discrete h k) as (λ z. Matches k (q.pc (k + 2)) (ite z d (owed k)) (handler k)) [
          | yes self ↦ subst (λ j. Matches j (q.pc (j + 2)) d (handler j)) self here
          | no other ↦ v.others k other
        ];
  }

  module _ (n h : ℕ) (q t : System RequestMessage B) (handler : ℕ → Handler)
      (answers : List (ℕ × List String)) (v : IsAnswered q handler answers) where
    pub put-IsApart : IsPut r n (h + 2) q t → IsApart h t v.owed handler
    put-IsApart u = record {
      pusher = (u.others 0 (omega arith)).0 ∙ v.pusher;
      keeper = λ m e. v.keeper m (sym (u.others 1 (omega arith)).0 ∙ e);
      others = λ k other. stays-Matches (u.others (k + 2) (omega arith)) (v.calls k);
    }

    pub begun-IsApart :
        {o : Option RequestMessage} → IsBegun r n (h + 2) o q t → IsApart h t v.owed handler
    begun-IsApart b = record {
      pusher = ap in_put (b.others 0 (omega arith)) ∙ v.pusher;
      keeper = λ m e. v.keeper m (ap in_put (sym (b.others 1 (omega arith))) ∙ e);
      others = λ k other.
          subst (λ p. Matches k p (v.owed k) (handler k)) (sym (b.others (k + 2) (omega arith)))
            (v.calls k);
    }

    pub own-IsApart : IsApart h q v.owed handler
    own-IsApart = record { pusher = v.pusher; keeper = v.keeper; others = λ k other. v.calls k }
