-- ===== src/RateLimit/Fill.antt =====
-- What filling does, and what it means for the limit.
use bigpipe_cpp.Base.{
  ◌≡◌, refl, true, false, List, [], ◌∷◌, arith, none, some, done, ℤ, pos, length, replicate, All,
  Double, IsOrdered, IsNumber,
}
use bigpipe_cpp.RateLimit.{TokenBucket, std_max, refilled, try_fill_bucket, get_token, get_tokens}

module _ {W : Type 0} ⦃d : Double W⦄ where
  -- The bucket after a call that finds enough tokens.
  abbrev pub spent : ℤ → ℤ → TokenBucket W → TokenBucket W
  spent count now t =
      let u = try_fill_bucket now t in
      record u { token_count = d.sub u.token_count (d.of_int count) }

  -- No sum that the calls compute is NaN.
  abbrev pub IsNumeric : List (ℤ × ℤ) → TokenBucket W → Type 0
  IsNumeric [] t = Unit
  IsNumeric ((count, now) ∷ calls) t =
      IsNumber (refilled now t) × IsNumeric calls (spent count now t)

module _ {W : Type 0} ⦃d : Double W⦄ ⦃o : IsOrdered W⦄ where
  -- The larger of the two, whatever the first is: a NaN first argument stays.
  std_max-ge : (x c : W) → IsNumber x → IsNumber c → d.le c (std_max x c) ≡ true
  std_max-ge x c hx hc = ground (arith, o.lt-eq-not-le x c hx hc)

  -- Filling makes the bucket at least full, whatever the time and whatever it held: the capacity is
  -- a lower bound of the tokens, provided that neither it nor the sum is NaN.
  pub try_fill_bucket-full :
      (now : ℤ) (t : TokenBucket W)
      → IsNumber t.capacity
      → IsNumber (refilled now t)
      → d.le t.capacity (try_fill_bucket now t).token_count ≡ true
  unfolding try_fill_bucket
  try_fill_bucket-full now t c n = std_max-ge (refilled now t) t.capacity n c

  pub get_token-passes :
      (count now : ℤ) (t : TokenBucket W)
      → d.le (d.of_int count) t.capacity ≡ true
      → IsNumber t.capacity
      → IsNumber (refilled now t)
      → get_token count now t ≡ done (spent count now t, none)
  unfolding get_token
  get_token-passes count now t small c n = rw (
      o.le_trans (d.of_int count) t.capacity (try_fill_bucket now t).token_count small
        (try_fill_bucket-full now t c n))

  -- The limiter does not limit: calls that each ask for no more than the capacity never sleep,
  -- however many there are and however close together, as long as no sum is NaN.
  pub get_tokens-never_sleeps :
      (calls : List (ℤ × ℤ)) (t : TokenBucket W)
      → IsNumber t.capacity
      → All (λ call. d.le (d.of_int call.0) t.capacity ≡ true) calls
      → IsNumeric calls t
      → (t' : TokenBucket W) × (get_tokens calls t ≡ done (t', replicate (length calls) none))
  unfolding get_tokens try_fill_bucket
  get_tokens-never_sleeps [] t c small n = (t, refl)
  get_tokens-never_sleeps ((count, now) ∷ calls) t c small n =
      let (t', rest) = get_tokens-never_sleeps calls (spent count now t) c small.1 n.1 in
      (t', rw (get_token-passes count now t small.0 c n.0, rest))

  -- A call that does sleep asked for more than the capacity, and leaves no token, provided that the
  -- capacity and the sum that fills the bucket are not NaN.
  pub get_token-sleeps :
      (count now w : ℤ) (t t' : TokenBucket W)
      → IsNumber t.capacity
      → IsNumber (refilled now t)
      → get_token count now t ≡ done (t', some w)
      → (d.le (d.of_int count) t.capacity ≡ false)
        × (t'.token_count ≡ d.of_int (pos 0))
        × (t'.last_fill_time ≡ now)
  unfolding get_token try_fill_bucket
  get_token-sleeps count now w t t' c n e = ground (
    arith,
    try_fill_bucket-full now t c n,
    o.le_trans (d.of_int count) t.capacity (try_fill_bucket now t).token_count,
  )
