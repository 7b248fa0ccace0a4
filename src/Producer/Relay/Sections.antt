-- ===== src/Producer/Relay/Sections.antt =====
-- The critical sections of the thread of Pushing.
use mathlib.Core.List.{append-nil}
use bigpipe_cpp.Base.{ℕ, ◌+◌, ◌≡◌, refl, sym, ap, subst, ◌∙◌, inl, inr, false, ◌++◌, String}
use bigpipe_cpp.Folly.{Folly}
use bigpipe_cpp.Proto.Reqmsg.{RequestMessage}
use bigpipe_cpp.Queue.Ring.{CircularBuffer, CircularBufferLaws}
use bigpipe_cpp.Queue.{Section, take_section}
use bigpipe_cpp.Queue.Monitor.{
  Pc, outside, putting, put_waiting, taking, take_waiting, System, enter,
}
use bigpipe_cpp.Queue.Monitor.Consumers.{takes}
use bigpipe_cpp.Queue.Monitor.Fifo.{IsFifo}
use bigpipe_cpp.Queue.Monitor.Lone.{IsLone}
use bigpipe_cpp.Queue.Monitor.Roles.{puts, is_ready, enter_idle, take-delivers}
use bigpipe_cpp.Config.{Topics}
use bigpipe_cpp.Producer.Relay.{Pusher, in_take, pushing, Relay, received, on_queue}
use bigpipe_cpp.Producer.Relay.Relayed.{
  IsRelayed, in_hand, is_taking, is_taking_lem, threads, on_queue-IsFifo, on_queue-IsLone,
}

pub received_idle :
    {B : Type 0} (q : Pusher) (p : Pc RequestMessage) (section : Section (B × RequestMessage))
    → is_ready p ≡ false
    → received q p section ≡ q
received_idle in_take outside section h = refl
received_idle in_take (put_waiting x) section h = refl
received_idle in_take take_waiting section h = refl
received_idle in_take _ section h = cc
received_idle _ _ section h = refl

module _ {D W B : Type 0} (f : Folly D W) (str_hash : String → ℕ)
    {r : CircularBuffer RequestMessage B} (laws : CircularBufferLaws r) (handlers max_size : ℕ)
    (topics : Topics) where
  abbrev Relays : Relay B → Type 0
  Relays s = IsRelayed f str_hash laws handlers max_size topics s

  -- The pusher's thread comes to the state `p` on the queue `q`.
  own-IsRelayed :
      (s : Relay B) (q : System RequestMessage B) (p : Pusher)
      → takes (q.pc 0) ≡ is_taking p
      → puts (q.pc 0) ≡ false
      → s.pusher ≡ in_take
      → s.queue.delivered ++ in_hand p ≡ q.delivered
      → IsFifo laws max_size q
      → IsLone laws (handlers + 2) 0 (threads handlers) q
      → Relays s
      → Relays (record s { queue = q; pusher = p })
  own-IsRelayed s q p t u e d fifo lone v = record {
    fifo = fifo;
    lone = lone;
    taker = t;
    putter = u;
    unborn_yet = λ h. let n = v.unborn_yet h in cc;
    handled = v.handled;
    rounds = v.rounds;
    order =
        let all : v.handled ≡ s.queue.delivered =
          sym (append-nil v.handled) ∙ ap (λ p. v.handled ++ in_hand p) (sym e) ∙ v.order in
        ap (λ ms. ms ++ in_hand p) all ∙ d;
  }

  idle_section-IsRelayed :
      (w : ℕ) (s : Relay B) (p : Pc RequestMessage)
      → s.queue.pc 0 ≡ p
      → is_ready p ≡ false
      → Relays s
      → Relays (record s {
        queue = on_queue r handlers (enter 0 w) s;
        pusher = received s.pusher p (take_section r s.queue.ring);
      })
  idle_section-IsRelayed w s p e h v =
      rw
        (
          enter_idle r (handlers + 2) 0 w s.queue (ap is_ready e ∙ h),
          received_idle s.pusher p (take_section r s.queue.ring) h,
        )
        v

  -- The critical section of the pusher's thread.
  pub own_section-IsRelayed :
      (w : ℕ) (s : Relay B) (p : Pc RequestMessage)
      → s.queue.pc 0 ≡ p
      → Relays s
      → Relays (record s {
        queue = on_queue r handlers (enter 0 w) s;
        pusher = received s.pusher p (take_section r s.queue.ring);
      })
  own_section-IsRelayed w s taking e v =
      let here : s.pusher ≡ in_take = is_taking_lem s.pusher (sym v.taker ∙ ap takes e) in
      let fifo = on_queue-IsFifo f str_hash laws handlers max_size topics (enter 0 w) s v in
      let lone = on_queue-IsLone f str_hash laws handlers max_size topics (enter 0 w) s refl v in
      elim (take-delivers r (handlers + 2) 0 w s.queue (threads handlers) e) [
        | inl (waited, t, d) ↦
            subst (λ p. Relays (record s { queue = on_queue r handlers (enter 0 w) s; pusher = p }))
              (sym (
                ap (λ q. received q taking (take_section r s.queue.ring)) here
                ∙ ap (received in_take taking) waited))
              (own-IsRelayed s _ in_take (ap takes t) (ap puts t) here
                (append-nil s.queue.delivered ∙ sym d) fifo lone v)
        | inr (ring', x, left, (t, u), d) ↦
            subst (λ p. Relays (record s { queue = on_queue r handlers (enter 0 w) s; pusher = p }))
              (sym (
                ap (λ q. received q taking (take_section r s.queue.ring)) here
                ∙ ap (received in_take taking) left))
              (own-IsRelayed s _ (pushing x) t u here (sym d) fifo lone v)
      ]
  own_section-IsRelayed w s (putting x) e v = let clash = sym v.putter ∙ ap puts e in cc
  own_section-IsRelayed w s _ e v = idle_section-IsRelayed w s _ e refl v
