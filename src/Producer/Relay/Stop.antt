-- ===== src/Producer/Relay/Stop.antt =====
-- How Stop ends.
use bigpipe_cpp.Base.{
  Outcome, ℕ, ◌+◌, ◌≡◌, refl, sym, ap, subst, ◌∙◌, inl, inr, Bool, Bool-cases, true, false, ◌⊎◌,
  List, [], ◌∷◌, arith, length, String,
}
use bigpipe_cpp.Folly.{Folly}
use bigpipe_cpp.Proto.Reqmsg.{RequestMessage}
use bigpipe_cpp.Queue.Ring.{CircularBuffer, CircularBufferLaws}
use bigpipe_cpp.Queue.{take_section}
use bigpipe_cpp.Queue.Monitor.{enter}
use bigpipe_cpp.Queue.Monitor.Roles.{enter_idle, enter-SameRole}
use bigpipe_cpp.Config.{Topics}
use bigpipe_cpp.Producer.Relay.{
  pushing, exited, stopping, joined, Relay, RelayEvent, enter_section, join, is_outside, received,
  on_queue, new_relay, step, run,
}
use bigpipe_cpp.Producer.Relay.Relayed.{is_taking, is_taking_lem}
use bigpipe_cpp.Queue.Laws.{take_section_lem}
use bigpipe_cpp.Producer.Relay.Sections.{received_idle}
use bigpipe_cpp.Producer.Relay.Order.{Relays, step-IsRelayed, new_relay-IsRelayed}
use bigpipe_cpp.Producer.Relay.Ending.{is_closing, is_unborn, IsEnding, idle_role}
use bigpipe_cpp.Producer.Relay.Supplied.{step-IsEnding}
use bigpipe_cpp.Producer.Relay.Turn.{
  turn, has_faulted, is_awake, is_outside_lem, outside_puts, awake_lem, taking_lem, over_cases,
  IsJoining, end_round-is_between, test_running-is_over,
}

module _ {D W B : Type 0} (f : Folly D W) (str_hash : String → ℕ)
    {r : CircularBuffer RequestMessage B} (laws : CircularBufferLaws r) (handlers max_size : ℕ)
    (topics : Topics) where
  abbrev Both : Relay B → Type 0
  Both s =
      Relays f str_hash laws handlers max_size topics s
      × IsEnding f str_hash laws handlers max_size topics s

  run-Both : (es : List RelayEvent) (s : Relay B) → Both s → Both (run f str_hash r handlers es s)
  unfolding run
  run-Both [] s v = v
  run-Both (e ∷ es) s v = run-Both es (step f str_hash r handlers e s) (
    step-IsRelayed f str_hash laws handlers max_size topics e s v.0,
    step-IsEnding f str_hash laws handlers max_size topics e s v.0 v.1,
  )

  new_relay-Both : (flag : Bool) → Both (new_relay r handlers flag max_size topics)
  unfolding new_relay
  new_relay-Both flag = (
    new_relay-IsRelayed f str_hash laws handlers max_size topics flag,
    record { early = λ h. refl; down = λ h. cc; alive = λ h. refl; supplied = λ h u t. cc },
  )

  still_outside :
      (w : ℕ) (s : Relay B)
      → Both s
      → IsJoining s
      → is_outside ((on_queue r handlers (enter 0 w) s).pc 1) ≡ true
  still_outside w s v j =
      let (t, u) = enter-SameRole r (handlers + 2) 1 0 w s.queue (λ h. cc) in
      is_outside_lem _ (t ∙ v.0.lone.others 1 (λ h. cc))
        (u ∙ outside_puts (s.queue.pc 1) j.returned)

  taken-is_awake :
      (w : ℕ) (s : Relay B)
      → Both s
      → IsJoining s
      → is_taking s.pusher ≡ true
      → IsJoining (step f str_hash r handlers (enter_section 0 w) s)
        × (is_awake (step f str_hash r handlers (enter_section 0 w) s).pusher ≡ true)
  unfolding step
  taken-is_awake w s v j t =
      let (o, d) = v in
      let here = is_taking_lem s.pusher t in
      let stocked =
        d.supplied (ap is_closing j.in_stop) (outside_puts (s.queue.pc 1) j.returned) t in
      let ready = taking_lem (s.queue.pc 0) (o.taker ∙ t) (o.lone.awake stocked) in
      elim (take_section_lem laws s.queue.ring) [
        | inl (_, nothing) ↦ absurd (omega (arith, stocked, ap length nothing))
        | inr (ring', x, left, _, _) ↦
            let next : received s.pusher (s.queue.pc 0) (take_section r s.queue.ring) ≡ pushing x =
              rw (here, ready, left) in
            (
              record { in_stop = j.in_stop; lowered = j.lowered; returned = still_outside w s v j },
              ap is_awake next,
            )
      ]

  enter-is_awake :
      (w : ℕ) (s : Relay B)
      → Both s
      → IsJoining s
      → IsJoining (step f str_hash r handlers (enter_section 0 w) s)
        × (is_awake (step f str_hash r handlers (enter_section 0 w) s).pusher ≡ true)
  unfolding step
  enter-is_awake w s v j = elim (Bool-cases (is_taking s.pusher)) [
    | inl t ↦ taken-is_awake w s v j t
    | inr idle ↦
        let (o, d) = v in
        let still = idle_role (s.queue.pc 0) (o.taker ∙ idle) o.putter in
        let born : is_unborn s.pusher ≡ false = elim (Bool-cases (is_unborn s.pusher)) [
          | inl b ↦ let fresh_yet = d.alive b in let e = j.in_stop in cc
          | inr b ↦ b
        ] in
        rw
          (
            enter_idle r (handlers + 2) 0 w s.queue still,
            received_idle s.pusher (s.queue.pc 0) (take_section r s.queue.ring) still,
          )
          (j, awake_lem s.pusher idle born)
  ]

  join_over :
      (s : Relay B)
      → IsJoining s
      → s.pusher ≡ exited
      → (step f str_hash r handlers join s).keeper ≡ joined
  unfolding step
  join_over s j e = rw (j.in_stop, j.returned, e)

  turn-joined :
      (w rd : ℕ) (taken : Outcome (Unit {0})) (s : Relay B)
      → Both s
      → IsJoining s
      → ((step f str_hash r handlers join (run f str_hash r handlers (turn w rd taken) s)).keeper
          ≡ joined)
        ⊎ (has_faulted (run f str_hash r handlers (turn w rd taken) s).pusher ≡ true)
  unfolding run step
  turn-joined w rd taken s v j =
      let (j₁, a) = enter-is_awake w s v j in
      let (j₂, b) = end_round-is_between f str_hash r handlers rd taken _ _ refl a j₁ in
      let (j₃, c) = test_running-is_over f str_hash r handlers _ _ refl b j₂ in
      elim (over_cases _ c) [ inl e ↦ inl (join_over _ j₃ e) | inr fault ↦ inr fault ]

  -- Stop joins its thread. On any schedule from the start, once the put of Stop has returned, one turn of the
  -- thread of Pushing brings it out of its loop, so that Stop joins it at its next step; unless the
  -- round that it is in ends by a fault.
  pub stop-joined :
      (flag : Bool) (es : List RelayEvent) (w rd : ℕ) (taken : Outcome (Unit {0})) (s : Relay B)
      → s ≡ run f str_hash r handlers es (new_relay r handlers flag max_size topics)
      → s.keeper ≡ stopping
      → is_outside (s.queue.pc 1) ≡ true
      → ((step f str_hash r handlers join (run f str_hash r handlers (turn w rd taken) s)).keeper
          ≡ joined)
        ⊎ (has_faulted (run f str_hash r handlers (turn w rd taken) s).pusher ≡ true)
  stop-joined flag es w rd taken s reached k u =
      let v : Both s = subst Both (sym reached) (run-Both es _ (new_relay-Both flag)) in
      turn-joined w rd taken s v
        (record { in_stop = k; lowered = v.1.down (ap is_closing k); returned = u })
