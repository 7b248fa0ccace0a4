-- ===== src/Producer/Relay/Turn.antt =====
-- One turn of the thread of Pushing, while Stop waits in join.
use bigpipe_cpp.Base.{
  ℕ, ◌≡◌, refl, ap, inl, inr, Bool, true, false, ◌⊎◌, List, [], ◌∷◌, arith, Option, Outcome, done,
  fail, String,
}
use bigpipe_cpp.Folly.{Folly}
use bigpipe_cpp.Proto.Reqmsg.{RequestMessage}
use bigpipe_cpp.Queue.Ring.{CircularBuffer}
use bigpipe_cpp.Queue.Monitor.{Pc, outside, putting, put_waiting, taking, take_waiting}
use bigpipe_cpp.Queue.Monitor.Consumers.{takes}
use bigpipe_cpp.Queue.Monitor.Lone.{is_asleep}
use bigpipe_cpp.Queue.Monitor.Roles.{puts}
use bigpipe_cpp.Config.{Topics}
use bigpipe_cpp.Producer.{Produced, push_one}
use bigpipe_cpp.Producer.Relay.{
  Pusher, unborn, testing, in_take, pushing, exited, faulted, stopping, Relay, RelayEvent,
  loop_test, enter_section, push, is_outside, settle, handed, test_running, end_round,
}
use bigpipe_cpp.Producer.Relay.Relayed.{is_taking}
use bigpipe_cpp.Producer.Relay.Ending.{is_unborn}

-- One turn of the thread of Pushing: it leaves take, ends its round, and tests IsRunning.
abbrev pub turn : ℕ → ℕ → Outcome (Unit {0}) → List RelayEvent
turn w rd taken = enter_section 0 w ∷ push rd taken ∷ loop_test ∷ []

abbrev pub has_faulted : Pusher → Bool
has_faulted (faulted m e) = true
has_faulted _ = false

-- Out of take; at the head of the loop or past it; past the loop.
abbrev pub is_awake : Pusher → Bool
is_awake unborn = false
is_awake in_take = false
is_awake _ = true

abbrev pub is_between : Pusher → Bool
is_between (pushing m) = false
is_between p = is_awake p

abbrev pub is_over : Pusher → Bool
is_over testing = false
is_over p = is_between p

pub is_outside_lem :
    (p : Pc RequestMessage) → takes p ≡ false → puts p ≡ false → is_outside p ≡ true
is_outside_lem outside t u = refl
is_outside_lem (putting x) t u = cc
is_outside_lem (put_waiting x) t u = cc
is_outside_lem _ t u = cc

pub outside_puts : (p : Pc RequestMessage) → is_outside p ≡ true → puts p ≡ false
outside_puts outside h = refl
outside_puts _ h = cc

pub awake_lem : (p : Pusher) → is_taking p ≡ false → is_unborn p ≡ false → is_awake p ≡ true
awake_lem unborn t u = cc
awake_lem in_take t u = cc
awake_lem _ t u = refl

pub taking_lem : (p : Pc RequestMessage) → takes p ≡ true → is_asleep p ≡ false → p ≡ taking
taking_lem taking t a = refl
taking_lem take_waiting t a = cc
taking_lem _ t a = cc

pub over_cases : (p : Pusher) → is_over p ≡ true → (p ≡ exited) ⊎ (has_faulted p ≡ true)
over_cases exited h = inl refl
over_cases (faulted m e) h = inr refl
over_cases _ h = cc

module _ {B : Type 0} where
  -- Stop waits in join.
  pub record IsJoining (s : Relay B) : Type 0 where
    pub in_stop : s.keeper ≡ stopping
    pub lowered : s.is_running ≡ false
    pub returned : is_outside (s.queue.pc 1) ≡ true

  settle-is_between :
      (s : Relay B) (m : RequestMessage) (o : Outcome (Topics × Option Produced))
      → IsJoining s
      → IsJoining (settle m s o) × (is_between (settle m s o).pusher ≡ true)
  settle-is_between s m (done (after, o)) j = (ground (arith, j), refl)
  settle-is_between s m (fail x) j = (ground (arith, j), refl)

module _ {D W B : Type 0} (f : Folly D W) (str_hash : String → ℕ)
    (r : CircularBuffer RequestMessage B) (handlers : ℕ) where
  pub end_round-is_between :
      (rd : ℕ) (taken : Outcome (Unit {0})) (s : Relay B) (p : Pusher)
      → s.pusher ≡ p
      → is_awake p ≡ true
      → IsJoining s
      → IsJoining (end_round f str_hash r handlers rd taken s p)
        × (is_between (end_round f str_hash r handlers rd taken s p).pusher ≡ true)
  end_round-is_between rd taken s (pushing m) e h j =
      settle-is_between s m (handed taken (push_one f str_hash rd m s.topics)) j
  end_round-is_between rd taken s unborn e h j = cc
  end_round-is_between rd taken s in_take e h j = cc
  end_round-is_between rd taken s _ e h j = (j, ap is_between e)

  pub test_running-is_over :
      (s : Relay B) (p : Pusher)
      → s.pusher ≡ p
      → is_between p ≡ true
      → IsJoining s
      → IsJoining (test_running r handlers s p)
        × (is_over (test_running r handlers s p).pusher ≡ true)
  test_running-is_over s testing e h j =
      rw j.lowered (record { in_stop = j.in_stop; lowered = refl; returned = j.returned }, refl)
  test_running-is_over s exited e h j = (j, ap is_over e)
  test_running-is_over s (faulted m x) e h j = (j, ap is_over e)
  test_running-is_over s _ e h j = cc
