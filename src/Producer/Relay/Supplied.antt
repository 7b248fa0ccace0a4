-- ===== src/Producer/Relay/Supplied.antt =====
-- The critical sections of the queue, once the empty message of Stop is in it.
use bigpipe_cpp.Base.{
  ℕ, ◌+◌, ◌≡◌, refl, sym, ap, ◌∙◌, inl, inr, Bool-cases, false, ◌==◌, arith, length, String,
  ℕ_discrete,
}
use bigpipe_cpp.Folly.{Folly}
use bigpipe_cpp.Proto.Reqmsg.{RequestMessage}
use bigpipe_cpp.Queue.Ring.{CircularBuffer, CircularBufferLaws}
use bigpipe_cpp.Queue.{take_section}
use bigpipe_cpp.Queue.Monitor.{Pc, putting, taking, enter}
use bigpipe_cpp.Queue.Monitor.Consumers.{takes}
use bigpipe_cpp.Queue.Monitor.Roles.{
  puts, is_ready, enter_idle, spurious-IsSame, call_put-IsSame, enter-SameRole,
}
use bigpipe_cpp.Config.{Topics}
use bigpipe_cpp.Producer.Relay.{
  in_take, Relay, RelayEvent, create_thread, raise_flag, loop_test, enter_section, wake_up, push,
  request, call_stop, join, received, on_queue, step,
}
use bigpipe_cpp.Producer.Relay.Relayed.{is_taking, is_taking_lem}
use bigpipe_cpp.Queue.Laws.{take_section_lem}
use bigpipe_cpp.Producer.Relay.Sections.{received_idle}
use bigpipe_cpp.Queue.Monitor.Supply.{enter-stock, call_put-stock, spurious-stock, put-stocked}
use bigpipe_cpp.Producer.Relay.Ending.{
  InOrder, IsEnding, idle_role, queue-IsEnding, create-IsEnding, raise-IsEnding,
  test_running-IsEnding, end_round-IsEnding, begin_stop-IsEnding, join_pusher-IsEnding,
}

module _ {D W B : Type 0} (f : Folly D W) (str_hash : String → ℕ)
    {r : CircularBuffer RequestMessage B} (laws : CircularBufferLaws r) (handlers max_size : ℕ)
    (topics : Topics) where
  -- The critical section of the pusher's thread.
  own_section-IsEnding :
      (w : ℕ) (s : Relay B) (p : Pc RequestMessage)
      → s.queue.pc 0 ≡ p
      → InOrder f str_hash laws handlers max_size topics s
      → IsEnding f str_hash laws handlers max_size topics s
      → IsEnding f str_hash laws handlers max_size topics (record s {
        queue = on_queue r handlers (enter 0 w) s;
        pusher = received s.pusher p (take_section r s.queue.ring);
      })
  own_section-IsEnding w s taking e o v =
      let here : s.pusher ≡ in_take = is_taking_lem s.pusher (sym o.taker ∙ ap takes e) in
      let (_, same) = enter-SameRole r (handlers + 2) 1 0 w s.queue (λ h. cc) in
      elim (take_section_lem laws s.queue.ring) [
        | inl (waited, nothing) ↦
            rw (waited, here)
              (record {
                early = λ h. same ∙ v.early h;
                down = v.down;
                alive = λ h. cc;
                supplied = λ h u t. absurd (
                    omega
                      (arith, v.supplied h (sym same ∙ u) (ap is_taking here), ap length nothing));
              })
        | inr (ring', x, left, _, _) ↦
            rw (left, here)
              (record {
                early = λ h. same ∙ v.early h;
                down = v.down;
                alive = λ h. cc;
                supplied = λ h u t. cc;
              })
      ]
  own_section-IsEnding w s (putting x) e o v = let clash = sym o.putter ∙ ap puts e in cc
  own_section-IsEnding w s _ e o v =
      rw
        (
          enter_idle r (handlers + 2) 0 w s.queue (ap is_ready e),
          received_idle s.pusher _ (take_section r s.queue.ring) refl,
        )
        v

  -- The critical section of the thread that calls Stop.
  keeper_section-IsEnding :
      (w : ℕ) (s : Relay B)
      → InOrder f str_hash laws handlers max_size topics s
      → IsEnding f str_hash laws handlers max_size topics s
      → IsEnding f str_hash laws handlers max_size topics
          (record s { queue = on_queue r handlers (enter 1 w) s })
  keeper_section-IsEnding w s o v = elim (Bool-cases (puts (s.queue.pc 1))) [
    | inl busy ↦ record {
      early = λ h. let quiet = v.early h in cc;
      down = v.down;
      alive = v.alive;
      supplied = λ h u t. put-stocked laws (handlers + 2) 1 w s.queue busy u;
    }
    | inr quiet ↦
        rw
          (enter_idle r (handlers + 2) 1 w s.queue
            (idle_role (s.queue.pc 1) (o.lone.others 1 (λ h. cc)) quiet))
          v
  ]

  pub step-IsEnding :
      (e : RelayEvent) (s : Relay B)
      → InOrder f str_hash laws handlers max_size topics s
      → IsEnding f str_hash laws handlers max_size topics s
      → IsEnding f str_hash laws handlers max_size topics (step f str_hash r handlers e s)
  unfolding step
  step-IsEnding create_thread s o v =
      create-IsEnding f str_hash laws handlers max_size topics s s.keeper refl v
  step-IsEnding raise_flag s o v =
      raise-IsEnding f str_hash laws handlers max_size topics s s.keeper refl v
  step-IsEnding loop_test s o v =
      test_running-IsEnding f str_hash laws handlers max_size topics s s.pusher refl v
  step-IsEnding (enter_section i w) s o v = elim (ℕ_discrete i 0) [
    | yes own ↦ rw own (own_section-IsEnding w s (s.queue.pc 0) refl o v)
    | no other ↦
        let skipped : (i == 0) ≡ false = ground arith in
        rw skipped (elim (ℕ_discrete i 1) [
          | yes keeper ↦ rw keeper (keeper_section-IsEnding w s o v)
          | no third ↦
              let (_, same) = enter-SameRole r (handlers + 2) 1 i w s.queue third in
              queue-IsEnding f str_hash laws handlers max_size topics s _ same
                (enter-stock laws (handlers + 2) i w s.queue (o.lone.others i other)) v
        ])
  ]
  step-IsEnding (wake_up i) s o v =
      let same = spurious-IsSame r (handlers + 2) 1 i s.queue in
      queue-IsEnding f str_hash laws handlers max_size topics s _ same.putter
        (omega (arith, spurious-stock laws (handlers + 2) i s.queue)) v
  step-IsEnding (push rd taken) s o v =
      end_round-IsEnding f str_hash laws handlers max_size topics s rd taken s.pusher v
  step-IsEnding (request h m) s o v =
      let same = call_put-IsSame r (handlers + 2) 1 (h + 2) m s.queue (λ e. absurd (omega arith)) in
      queue-IsEnding f str_hash laws handlers max_size topics s _ same.putter
        (omega (arith, call_put-stock laws (handlers + 2) (h + 2) m s.queue)) v
  step-IsEnding call_stop s o v =
      begin_stop-IsEnding f str_hash laws handlers max_size topics s s.keeper refl o v
  step-IsEnding join s o v =
      join_pusher-IsEnding f str_hash laws handlers max_size topics s s.keeper refl v
