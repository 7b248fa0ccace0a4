-- ===== src/RateLimit.antt =====
-- client/rate_limit.h, class TokenBucket. `steady_clock::now()` is an argument, in nanoseconds; the
-- `double`s are values of an interface; the lock makes GetToken one step, in which the thread may
-- sleep. A `sleep_for` is recorded by its number of milliseconds.
pub mod Fill
mod Tests
use bigpipe_cpp.Base.{
  ℕ, ◌/◌, Bool, List, [], ◌∷◌, Option, none, some, Outcome, done, fail, int_overflow, ◌>>=◌, ℤ, pos,
  negsuc, suc, ◌-ℤ◌, sub_ℕ, Double, if◌then◌else◌,
}

pub record TokenBucket (W : Type 0) : Type 0 where
  pub last_fill_time : ℤ
  pub token_per_micro_second : W
  pub token_count : W
  pub capacity : W

-- duration_cast from nanoseconds to microseconds rounds towards zero.
unfoldable pub microseconds : ℤ → ℤ
microseconds (pos n) = pos (n / 1000)
microseconds (negsuc n) = sub_ℕ 0 (suc n / 1000)

module _ {W : Type 0} ⦃d : Double W⦄ where
  unfoldable pub new_bucket : W → ℤ → TokenBucket W
  new_bucket rate now = record {
    last_fill_time = now;
    token_per_micro_second = d.div rate (d.of_int (pos 1000000));
    token_count = rate;
    capacity = rate;
  }

  -- std::max keeps its first argument unless that is smaller.
  abbrev pub std_max : W → W → W
  std_max a b = if d.lt a b then b else a

  -- The tokens that the time since the last filling adds to those at hand.
  abbrev pub refilled : ℤ → TokenBucket W → W
  refilled now t =
      d.add (d.mul (d.of_int (microseconds (now -ℤ t.last_fill_time))) t.token_per_micro_second)
        t.token_count

  unfoldable pub try_fill_bucket : ℤ → TokenBucket W → TokenBucket W
  try_fill_bucket now t = record t {
    token_count = std_max (refilled now t) t.capacity;
    last_fill_time = now;
  }

  -- The new bucket and the sleep, if there is one. A wait that is no `int` is undefined behaviour.
  unfoldable pub get_token : ℤ → ℤ → TokenBucket W → Outcome (TokenBucket W × Option ℤ)
  get_token count now t =
      let u = try_fill_bucket now t in
      let wait =
        d.to_int (d.abs (d.sub (d.of_int count) (d.div u.token_count u.token_per_micro_second))) in
      if d.le (d.of_int count) u.token_count
      then done (record u { token_count = d.sub u.token_count (d.of_int count) }, none)
      else elim wait [
        | none ↦ fail int_overflow
        | some w ↦ done (record u { token_count = d.of_int (pos 0) }, some w)
      ]

  -- A row of calls of GetToken(count), each with its time, and the sleeps that they make.
  unfoldable pub get_tokens :
      List (ℤ × ℤ) → TokenBucket W → Outcome (TokenBucket W × List (Option ℤ))
  get_tokens [] t = done (t, [])
  get_tokens ((count, now) ∷ calls) t = do
    (t', wait) ← get_token count now t
    (last, waits) ← get_tokens calls t'
    done (last, wait ∷ waits)
