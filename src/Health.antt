-- ===== src/Health.antt =====
-- client/circuit_breaker.hpp, class HealthStats: a window of one bucket for each second, counting
-- successful and failed calls. `std::time(nullptr)` is an argument of each operation; the counters
-- are `int`s that may overflow, the sums and times are `long`s taken as unbounded.
pub mod Window
pub mod Verdict
pub mod Fresh
mod Tests
use bigpipe_cpp.Base.{
  ℕ, ◌≡◌, Bool, true, ◌||◌, ◌&&◌, List, [], ◌∷◌, Outcome, done, fail, back_of_empty, ◌>>=◌, add_int,
  ℤ, pos, pos_part, ◌+ℤ◌, ◌-ℤ◌, ltb_ℤ, leb_ℤ, eqb_ℤ, leb, length, drop, Double, if◌then◌else◌,
}

pub record StatsBucket : Type 0 where
  pub n_success : ℤ
  pub n_fail : ℤ

pub record HealthStats (W : Type 0) : Type 0 where
  pub max_buckets : ℤ
  pub buckets : List StatsBucket
  pub update_time : ℤ
  pub bucket_thresh : ℤ
  pub health_thresh : W

-- The sums that the loop of IsHealthy leaves in TotalSuccess and TotalFail.
unfoldable pub total_success : ℤ → List StatsBucket → ℤ
total_success acc [] = acc
total_success acc (b ∷ bs) = total_success (acc +ℤ b.n_success) bs

unfoldable pub total_fail : ℤ → List StatsBucket → ℤ
total_fail acc [] = acc
total_fail acc (b ∷ bs) = total_fail (acc +ℤ b.n_fail) bs

-- `buckets.back().nSuccess++` and `buckets.back().nFail++`.
unfoldable pub back_success : List StatsBucket → Outcome (List StatsBucket)
back_success [] = fail back_of_empty
back_success (b ∷ []) = do n ← add_int b.n_success (pos 1); done (record b { n_success = n } ∷ [])
back_success (b ∷ c ∷ bs) = do rest ← back_success (c ∷ bs); done (b ∷ rest)

unfoldable pub back_fail : List StatsBucket → Outcome (List StatsBucket)
back_fail [] = fail back_of_empty
back_fail (b ∷ []) = do n ← add_int b.n_fail (pos 1); done (record b { n_fail = n } ∷ [])
back_fail (b ∷ c ∷ bs) = do rest ← back_fail (c ∷ bs); done (b ∷ rest)

module _ {W : Type 0} where
  -- The constructor, at the time `now`.
  unfoldable pub new_stats : ℤ → ℤ → W → ℤ → HealthStats W
  new_stats max_buckets bucket_thresh health_thresh now = record {
    max_buckets = max_buckets;
    buckets = [];
    update_time = now;
    bucket_thresh = bucket_thresh;
    health_thresh = health_thresh;
  }

  unfoldable pub update_buckets : ℤ → HealthStats W → HealthStats W
  update_buckets now h =
      let to_clean = now -ℤ h.update_time in
      if leb_ℤ to_clean (pos 0)
      then h
      else if leb (length h.buckets) (pos_part to_clean)
      then record h { buckets = []; update_time = now }
      else record h { buckets = drop (pos_part to_clean) h.buckets; update_time = now }

  unfoldable pub stats_on_success : ℤ → HealthStats W → Outcome (HealthStats W)
  stats_on_success now h = do
    let u = update_buckets now h
    bs ← back_success u.buckets
    done (record u { buckets = bs })

  unfoldable pub stats_on_fail : ℤ → HealthStats W → Outcome (HealthStats W)
  stats_on_fail now h = do
    let u = update_buckets now h
    bs ← back_fail u.buckets
    done (record u { buckets = bs })

module _ {W : Type 0} ⦃d : Double W⦄ where
  -- What IsHealthy computes once the window is brought up to date.
  unfoldable pub verdict : HealthStats W → Bool × W
  verdict h =
      let success = total_success (pos 0) h.buckets in
      let total = success +ℤ total_fail (pos 0) h.buckets in
      let rate = d.div (d.of_int success) (d.of_int total) in
      if eqb_ℤ total (pos 0)
      then (true, d.of_int (pos 1))
      else (ltb_ℤ total h.bucket_thresh || d.le h.health_thresh rate, rate)

  unfoldable pub is_healthy : ℤ → HealthStats W → HealthStats W × (Bool × W)
  is_healthy now h = let u = update_buckets now h in (u, verdict u)
