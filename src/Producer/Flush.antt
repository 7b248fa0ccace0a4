-- ===== src/Producer/Flush.antt =====
-- The end of KafkaProducer::Stop, once the threads are joined: the wait until the out queue of the
-- Kafka client is empty. The lengths that the client gives, one each time it is asked, are the
-- argument.
use mathlib.Core.List.{append-nil}
use bigpipe_cpp.Base.{
  ℕ, zero, suc, ◌+◌, ◌<◌, ◌≡◌, sym, ap, ◌∙◌, List, [], ◌∷◌, ◌++◌, All, length, arith,
}

-- The queue was empty after so many seconds, or is about to be asked again after so many.
pub data Flush : Type 0 where
  flushed : ℕ → Flush
  asking : ℕ → Flush

-- Each round that finds messages sleeps for a second.
unfoldable pub flush_out_queue : ℕ → List ℕ → Flush
flush_out_queue slept [] = asking slept
flush_out_queue slept (zero ∷ lengths) = flushed slept
flush_out_queue slept (suc n ∷ lengths) = flush_out_queue (suc slept) lengths

-- Rounds that find messages only add up their seconds.
flush_out_queue-busy :
    (slept : ℕ) (busy later : List ℕ)
    → All (λ n. 0 < n) busy
    → flush_out_queue slept (busy ++ later) ≡ flush_out_queue (slept + length busy) later
unfolding flush_out_queue
flush_out_queue-busy slept [] later h = ap (λ n. flush_out_queue n later) (omega arith)
flush_out_queue-busy slept (zero ∷ busy) later h = absurd (omega (arith, h.0))
flush_out_queue-busy slept (suc n ∷ busy) later h =
    flush_out_queue-busy (suc slept) busy later h.1
    ∙ ap (λ n. flush_out_queue n later) (omega arith)

-- Stop returns the first time that the out queue is found empty, after a second for each time before
-- it, and not sooner.
pub flush_out_queue-flushed :
    (busy later : List ℕ)
    → All (λ n. 0 < n) busy
    → (flush_out_queue 0 (busy ++ 0 ∷ later) ≡ flushed (length busy))
      × (flush_out_queue 0 busy ≡ asking (length busy))
unfolding flush_out_queue
flush_out_queue-flushed busy later h = (
  flush_out_queue-busy 0 busy (0 ∷ later) h ∙ ap flushed (omega arith),
  ap (λ ns. flush_out_queue 0 ns) (sym (append-nil busy))
      ∙ flush_out_queue-busy 0 busy [] h
      ∙ ap asking (omega arith),
)
