-- ===== src/Client/Retry.antt =====
-- CallWithRetry: how many requests it sends.
use bigpipe_cpp.Base.{
  ℕ, suc, ◌+◌, ◌≤◌, ◌<◌, ◌≡◌, ap, ◌∙◌, false, List, [], ◌∷◌, ◌++◌, arith, none, some, done,
  back_of_empty, add_int, ℤ, pos, +ℤ_pos, eqb_ℤ, int_max, length, replicate, All, Double,
}
use bigpipe_cpp.Proto.Reqmsg.{RequestMessage}
use bigpipe_cpp.Breaker.{CircuitBreaker}
use bigpipe_cpp.Breaker.Fresh.{Reached, Reached-never_breaks}
use bigpipe_cpp.Client.{
  AsyncClient, Answer, status_code, returned, awaiting_answer, stopped, build_request,
  notify_circuit_breaker, retry_loop, sending, on_answer, and_then,
}

-- Answers with a status other than 200.
abbrev pub refusals : List (ℤ × ℤ) → List Answer
refusals [] = []
refusals ((status, now) ∷ fs) = status_code status now ∷ refusals fs

abbrev pub AllFailed : List (ℤ × ℤ) → Type 0
AllFailed = All λ f. eqb_ℤ f.0 (pos 200) ≡ false

add_int_one : (n : ℕ) → n < int_max → add_int (pos n) (pos 1) ≡ done (pos (n + 1))
unfolding add_int
add_int_one n h = rw (+ℤ_pos n 1) (ground arith)

budget_left : (n : ℕ) → eqb_ℤ (pos (n + 1)) (pos 0) ≡ false
budget_left n = ground arith

module _ {W : Type 0} (msg : RequestMessage) (c : AsyncClient W) (n : ℕ)
    (retries : c.retries ≡ pos n) (fits : n < int_max) where
  first_round :
      (a : Answer) (answers : List Answer) (i : ℤ)
      → retry_loop (a ∷ answers) i msg c
        ≡ sending
            (build_request msg)
            (on_answer a c λ c'. and_then (add_int i (pos 1)) λ i'. retry_loop answers i' msg c')
  unfolding retry_loop
  first_round a answers i = rw (retries, add_int_one n fits, budget_left n)

  no_answer : (i : ℤ) → retry_loop [] i msg c ≡ (awaiting_answer c, build_request msg ∷ [])
  unfolding retry_loop
  no_answer i = rw (retries, add_int_one n fits, budget_left n)

  -- With a breaker that was made by its constructor, and a budget of 0 or more that is not the
  -- largest `int`, the first answer of the server, whatever its status, ends the call in undefined
  -- behaviour: the code takes the back of an empty deque.
  pub retry_loop-guarded :
      ⦃d : Double W⦄
      → (b : CircuitBreaker W) (status now : ℤ) (answers : List Answer) (i : ℤ) → Reached b
      → c.circuit_breaker ≡ some b
      → retry_loop (status_code status now ∷ answers) i msg c
        ≡ (stopped back_of_empty, build_request msg ∷ [])
  unfolding notify_circuit_breaker
  retry_loop-guarded b status now answers i r e =
      let (s, f, _) = Reached-never_breaks r now [] in
      rw (first_round (status_code status now) answers i) (ground (arith, s, f))

  module _ (unguarded : c.circuit_breaker ≡ none) where
    one_refusal :
        (status now : ℤ) (answers : List Answer) (i : ℕ)
        → eqb_ℤ status (pos 200) ≡ false
        → i < int_max
        → retry_loop (status_code status now ∷ answers) (pos i) msg c
          ≡ sending (build_request msg) (retry_loop answers (pos (i + 1)) msg c)
    unfolding notify_circuit_breaker
    one_refusal status now answers i h k =
        rw (first_round (status_code status now) answers (pos i), h, unguarded, add_int_one i k)

    -- The retry budget is not looked at. Without a breaker, and with a budget of 0 or more that is
    -- not the largest `int`, a call of which the first answers are refusals and the next one is 200
    -- sends one request for each of them and returns, however many there are (up to the range of
    -- the round counter).
    pub retry_loop-succeeds :
        (fs : List (ℤ × ℤ)) (now : ℤ) (answers : List Answer) (i : ℕ)
        → AllFailed fs
        → i + length fs ≤ int_max
        → retry_loop (refusals fs ++ status_code (pos 200) now ∷ answers) (pos i) msg c
          ≡ (returned c, replicate (suc (length fs)) (build_request msg))
    unfolding notify_circuit_breaker
    retry_loop-succeeds [] now answers i h k =
        rw (first_round (status_code (pos 200) now) answers (pos i), unguarded)
    retry_loop-succeeds ((status, told) ∷ fs) now answers i h k =
        one_refusal status told (refusals fs ++ status_code (pos 200) now ∷ answers) i h.0
          (omega arith)
        ∙ ap (sending (build_request msg))
            (retry_loop-succeeds fs now answers (i + 1) h.1 (omega arith))

    -- A call does not give up. Without a breaker, and with a budget of 0 or more that is not the
    -- largest `int`, it has after any number of refusals (up to the range of the round counter) sent
    -- one request more than it has answers, and waits for the next answer.
    pub retry_loop-never_gives_up :
        (fs : List (ℤ × ℤ)) (i : ℕ)
        → AllFailed fs
        → i + length fs ≤ int_max
        → retry_loop (refusals fs) (pos i) msg c
          ≡ (awaiting_answer c, replicate (suc (length fs)) (build_request msg))
    retry_loop-never_gives_up [] i h k = no_answer (pos i)
    retry_loop-never_gives_up ((status, told) ∷ fs) i h k =
        one_refusal status told (refusals fs) i h.0 (omega arith)
        ∙ ap (sending (build_request msg)) (retry_loop-never_gives_up fs (i + 1) h.1 (omega arith))
