-- ===== src/Producer/Relay/Relayed.antt =====
-- What is handed to Kafka, against what was put into the queue.
use mathlib.Core.List.{append-nil}
use bigpipe_cpp.Base.{
  some, Fault, ℕ, ◌+◌, ◌<◌, ◌≡◌, refl, sym, ap, ◌∙◌, inl, inr, Bool, Bool-cases, true, false, List,
  [], ◌∷◌, ◌++◌, arith, Option, Outcome, done, fail, String, if◌then◌else◌,
}
use bigpipe_cpp.Folly.{Folly}
use bigpipe_cpp.Proto.Reqmsg.{RequestMessage, no_message}
use bigpipe_cpp.Queue.Ring.{CircularBuffer, CircularBufferLaws}
use bigpipe_cpp.Queue.Monitor.{System, Event, call_put, call_take}
use bigpipe_cpp.Queue.Monitor.Consumers.{takes}
use bigpipe_cpp.Queue.Monitor.Fifo.{IsFifo, step-IsFifo}
use bigpipe_cpp.Queue.Monitor.Lone.{IsLone, takes_only, step-IsLone}
use bigpipe_cpp.Queue.Monitor.Roles.{puts, IsSame, call_put-IsSame, call_take-takes}
use bigpipe_cpp.Config.{Topics}
use bigpipe_cpp.Producer.{Produced, push_one}
use bigpipe_cpp.Producer.Relay.{
  Pusher, unborn, testing, in_take, pushing, exited, faulted, Keeper, fresh, created, started,
  stopping, joined, Relay, to_list, has_exited, is_outside, settle, handed, on_queue, create, raise,
  test_running, end_round, begin_stop, join_pusher,
}

abbrev pub in_hand : Pusher → List RequestMessage
in_hand (pushing m) = m ∷ []
in_hand (faulted m e) = m ∷ []
in_hand _ = []

abbrev pub is_taking : Pusher → Bool
is_taking in_take = true
is_taking _ = false

abbrev pub is_fresh : Keeper → Bool
is_fresh fresh = true
is_fresh _ = false

pub threads : (handlers : ℕ) → 0 < handlers + 2
threads handlers = omega arith

pub is_taking_lem : (p : Pusher) → is_taking p ≡ true → p ≡ in_take
is_taking_lem in_take h = refl
is_taking_lem _ h = cc

module _ {D W B : Type 0} (f : Folly D W) (str_hash : String → ℕ)
    {r : CircularBuffer RequestMessage B} (laws : CircularBufferLaws r) (handlers max_size : ℕ)
    (topics : Topics) where
  -- Rounds of Pushing, one after the other, on the messages of the list: the topics that they leave
  -- and what they hand to Kafka.
  pub data Rounds : List RequestMessage → Topics → List Produced → Type 0 where
    no_round : Rounds [] topics []
    then_round :
        {ms : List RequestMessage} {before : Topics} {ps : List Produced} (rd : ℕ)
        (m : RequestMessage) (after : Topics) (o : Option Produced)
        → Rounds ms before ps
        → push_one f str_hash rd m before ≡ done (after, o)
        → Rounds (ms ++ m ∷ []) after (ps ++ to_list o)

  -- What was put in, in order: what the rounds have dealt with, the message in hand, and the queue.
  pub record IsRelayed (s : Relay B) : Type 0 where
    pub fifo : IsFifo laws max_size s.queue
    pub lone : IsLone laws (handlers + 2) 0 (threads handlers) s.queue
    pub taker : takes (s.queue.pc 0) ≡ is_taking s.pusher
    pub putter : puts (s.queue.pc 0) ≡ false
    pub unborn_yet : is_fresh s.keeper ≡ true → s.pusher ≡ unborn
    pub handled : List RequestMessage
    pub rounds : Rounds handled s.topics s.produced
    pub order : handled ++ in_hand s.pusher ≡ s.queue.delivered

  -- Another thread's step on the queue.
  pub queue-IsRelayed :
      (s : Relay B) (q : System RequestMessage B)
      → IsSame r (handlers + 2) 0 s.queue q
      → IsFifo laws max_size q
      → IsLone laws (handlers + 2) 0 (threads handlers) q
      → IsRelayed s
      → IsRelayed (record s { queue = q })
  queue-IsRelayed s q same fifo lone v = record {
    fifo = fifo;
    lone = lone;
    taker = same.taker ∙ v.taker;
    putter = same.putter ∙ v.putter;
    unborn_yet = v.unborn_yet;
    handled = v.handled;
    rounds = v.rounds;
    order = v.order ∙ sym same.silent;
  }

  pub on_queue-IsFifo :
      (e : Event RequestMessage) (s : Relay B)
      → IsRelayed s
      → IsFifo laws max_size (on_queue r handlers e s)
  on_queue-IsFifo e s v = step-IsFifo laws (handlers + 2) max_size e s.queue v.fifo

  pub on_queue-IsLone :
      (e : Event RequestMessage) (s : Relay B)
      → takes_only 0 e ≡ true
      → IsRelayed s
      → IsLone laws (handlers + 2) 0 (threads handlers) (on_queue r handlers e s)
  on_queue-IsLone e s h v = step-IsLone laws (handlers + 2) 0 (threads handlers) e s.queue h v.lone

  -- A step that leaves the queue, the topics and the message in hand as they are.
  turn-IsRelayed :
      (s : Relay B) (flag : Bool) (p : Pusher) (k : Keeper)
      → is_taking p ≡ is_taking s.pusher
      → in_hand p ≡ in_hand s.pusher
      → (is_fresh k ≡ true → p ≡ unborn)
      → IsRelayed s
      → IsRelayed (record s { is_running = flag; pusher = p; keeper = k })
  turn-IsRelayed s flag p k t h n v = record {
    fifo = v.fifo;
    lone = v.lone;
    taker = v.taker ∙ sym t;
    putter = v.putter;
    unborn_yet = n;
    handled = v.handled;
    rounds = v.rounds;
    order = ap (λ ms. v.handled ++ ms) h ∙ v.order;
  }

  pub create-IsRelayed :
      (s : Relay B) (k : Keeper) → s.keeper ≡ k → IsRelayed s → IsRelayed (create s k)
  create-IsRelayed s fresh e v =
      let p : s.pusher ≡ unborn = v.unborn_yet (ap is_fresh e) in
      turn-IsRelayed s s.is_running testing created (ap is_taking (sym p)) (ap in_hand (sym p))
        (λ h. cc) v
  create-IsRelayed s _ e v = v

  pub raise-IsRelayed : (s : Relay B) (k : Keeper) → IsRelayed s → IsRelayed (raise s k)
  raise-IsRelayed s created v = turn-IsRelayed s true s.pusher started refl refl (λ h. cc) v
  raise-IsRelayed s _ v = v

  pub test_running-IsRelayed :
      (s : Relay B) (p : Pusher)
      → s.pusher ≡ p
      → IsRelayed s
      → IsRelayed (test_running r handlers s p)
  test_running-IsRelayed s testing e v = elim (Bool-cases s.is_running) [
    | inl on ↦
        let (t, p, d) =
          call_take-takes r (handlers + 2) 0 s.queue (threads handlers) (v.taker ∙ ap is_taking e)
            v.putter in
        rw on (record {
          fifo = on_queue-IsFifo (call_take 0) s v;
          lone = on_queue-IsLone (call_take 0) s refl v;
          taker = t;
          putter = p;
          unborn_yet = λ h. let n = v.unborn_yet h in cc;
          handled = v.handled;
          rounds = v.rounds;
          order = ap (λ p. v.handled ++ in_hand p) (sym e) ∙ v.order ∙ sym d;
        })
    | inr off ↦ rw off (
        turn-IsRelayed s false exited s.keeper (ap is_taking (sym e)) (ap in_hand (sym e))
          (λ h. let n = v.unborn_yet h in cc) v)
  ]
  test_running-IsRelayed s _ e v = v

  fault-IsRelayed :
      (s : Relay B) (m : RequestMessage) (x : Fault)
      → s.pusher ≡ pushing m
      → IsRelayed s
      → IsRelayed (record s { pusher = faulted m x })
  fault-IsRelayed s m x e v =
      turn-IsRelayed s s.is_running (faulted m x) s.keeper (ap is_taking (sym e))
        (ap in_hand (sym e)) (λ g. let n = v.unborn_yet g in cc) v

  settle-IsRelayed :
      (s : Relay B) (rd : ℕ) (m : RequestMessage) (o : Outcome (Topics × Option Produced))
      → s.pusher ≡ pushing m
      → push_one f str_hash rd m s.topics ≡ o
      → IsRelayed s
      → IsRelayed (settle m s o)
  settle-IsRelayed s rd m (done (after, o)) e h v = record {
    fifo = v.fifo;
    lone = v.lone;
    taker = v.taker ∙ ap is_taking e;
    putter = v.putter;
    unborn_yet = λ g. let n = v.unborn_yet g in cc;
    handled = v.handled ++ m ∷ [];
    rounds = then_round rd m after o v.rounds h;
    order = append-nil (v.handled ++ m ∷ []) ∙ ap (λ p. v.handled ++ in_hand p) (sym e) ∙ v.order;
  }
  settle-IsRelayed s rd m (fail x) e h v = fault-IsRelayed s m x e v

  handed-IsRelayed :
      (s : Relay B) (rd : ℕ) (m : RequestMessage) (taken : Outcome (Unit {0}))
      (o : Outcome (Topics × Option Produced))
      → s.pusher ≡ pushing m
      → push_one f str_hash rd m s.topics ≡ o
      → IsRelayed s
      → IsRelayed (settle m s (handed taken o))
  handed-IsRelayed s rd m (fail x) (done (after, some p)) e h v = fault-IsRelayed s m x e v
  handed-IsRelayed s rd m _ o e h v = settle-IsRelayed s rd m o e h v

  pub end_round-IsRelayed :
      (s : Relay B) (rd : ℕ) (taken : Outcome (Unit {0})) (p : Pusher)
      → s.pusher ≡ p
      → IsRelayed s
      → IsRelayed (end_round f str_hash r handlers rd taken s p)
  end_round-IsRelayed s rd taken (pushing m) e v =
      handed-IsRelayed s rd m taken (push_one f str_hash rd m s.topics) e refl v
  end_round-IsRelayed s rd taken _ e v = v

  pub begin_stop-IsRelayed :
      (s : Relay B) (k : Keeper) → IsRelayed s → IsRelayed (begin_stop r handlers s k)
  begin_stop-IsRelayed s started v =
      let stopped = turn-IsRelayed s false s.pusher stopping refl refl (λ h. cc) v in
      queue-IsRelayed (record s { is_running = false; keeper = stopping }) _
        (call_put-IsSame r (handlers + 2) 0 1 no_message s.queue (λ e. cc))
        (on_queue-IsFifo (call_put 1 no_message) s v)
        (on_queue-IsLone (call_put 1 no_message) s refl v) stopped
  begin_stop-IsRelayed s _ v = v

  if_IsRelayed :
      (b : Bool) (s t : Relay B) → IsRelayed s → IsRelayed t → IsRelayed (if b then s else t)
  if_IsRelayed true s t v w = v
  if_IsRelayed false s t v w = w

  pub join_pusher-IsRelayed : (s : Relay B) (k : Keeper) → IsRelayed s → IsRelayed (join_pusher s k)
  join_pusher-IsRelayed s stopping v =
      if_IsRelayed (is_outside (s.queue.pc 1)) _ _
        (if_IsRelayed (has_exited s.pusher) _ _
          (turn-IsRelayed s s.is_running s.pusher joined refl refl (λ h. cc) v) v)
        v
  join_pusher-IsRelayed s _ v = v
