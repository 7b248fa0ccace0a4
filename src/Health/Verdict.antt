-- ===== src/Health/Verdict.antt =====
-- OnSuccess and OnFail count in the newest bucket, and IsHealthy judges the counts.
use bigpipe_cpp.Base.{
  ℕ, ◌+◌, ◌<◌, ◌≡◌, refl, true, false, List, [], ◌∷◌, ◌++◌, arith, done, fail, int_overflow,
  add_int, ℤ, pos, pos_part, ◌+ℤ◌, ◌≤ℤ◌, ◌<ℤ◌, +ℤ_parts, +ℤ_pos, eq_pos, int_laws, is_int, All,
  Double, IsOrdered, if◌then◌else◌,
}
use bigpipe_cpp.Health.{
  HealthStats, StatsBucket, update_buckets, stats_on_success, back_success, verdict, total_success,
  total_fail,
}

-- One more, where that is still an `int`.
abbrev pub bumped : StatsBucket → StatsBucket
bumped b = record b { n_success = b.n_success +ℤ pos 1 }

back_success-append :
    (bs : List StatsBucket) (b : StatsBucket)
    → back_success (bs ++ b ∷ [])
      ≡ (if is_int (b.n_success +ℤ pos 1) then done (bs ++ bumped b ∷ []) else fail int_overflow)
unfolding back_success add_int
back_success-append [] b = ground arith
back_success-append (a ∷ []) b = ground arith
back_success-append (a ∷ c ∷ bs) b = rw (back_success-append (c ∷ bs) b) (ground arith)

module _ {W : Type 0} where
  -- OnSuccess, for every window that is not empty once it is up to date: the newest bucket counts
  -- one success more and nothing else changes, unless the counter is at the end of its range.
  pub stats_on_success-newest :
      (now : ℤ) (h : HealthStats W) (bs : List StatsBucket) (b : StatsBucket)
      → (update_buckets now h).buckets ≡ bs ++ b ∷ []
      → stats_on_success now h ≡ (
          if is_int (b.n_success +ℤ pos 1)
          then done (record (update_buckets now h) { buckets = bs ++ bumped b ∷ [] })
          else fail int_overflow)
  unfolding stats_on_success
  stats_on_success-newest now h bs b e = rw (e, back_success-append bs b) (ground arith)

total_success-bumped :
    (acc : ℤ) (bs : List StatsBucket) (b : StatsBucket)
    → total_success acc (bs ++ bumped b ∷ []) ≡ total_success acc (bs ++ b ∷ []) +ℤ pos 1
unfolding total_success
total_success-bumped acc [] b = omega int_laws
total_success-bumped acc (c ∷ bs) b = total_success-bumped (acc +ℤ c.n_success) bs b

total_fail-bumped :
    (acc : ℤ) (bs : List StatsBucket) (b : StatsBucket)
    → total_fail acc (bs ++ bumped b ∷ []) ≡ total_fail acc (bs ++ b ∷ [])
unfolding total_fail
total_fail-bumped acc [] b = refl
total_fail-bumped acc (c ∷ bs) b = total_fail-bumped (acc +ℤ c.n_fail) bs b

module _ {W : Type 0} where
  -- OnSuccess adds one to the successes of a window that is not empty once it is up to date, and none
  -- to its failures, unless the counter is at the end of its range.
  pub stats_on_success-counts :
      (now : ℤ) (h : HealthStats W) (bs : List StatsBucket) (b : StatsBucket)
      → (update_buckets now h).buckets ≡ bs ++ b ∷ []
      → is_int (b.n_success +ℤ pos 1) ≡ true
      → (g : HealthStats W) × (stats_on_success now h ≡ done g)
        × (total_success (pos 0) g.buckets
            ≡ total_success (pos 0) (update_buckets now h).buckets +ℤ pos 1)
        × (total_fail (pos 0) g.buckets ≡ total_fail (pos 0) (update_buckets now h).buckets)
  stats_on_success-counts now h bs b e fits = (
    record (update_buckets now h) { buckets = bs ++ bumped b ∷ [] },
    rw (stats_on_success-newest now h bs b e, fits),
    rw (e, total_success-bumped),
    rw (e, total_fail-bumped),
  )

-- No counter is negative.
abbrev pub IsCounted : List StatsBucket → Type 0
IsCounted = All λ b. (pos 0 ≤ℤ b.n_success) × (pos 0 ≤ℤ b.n_fail)

total_success_nonneg :
    (acc : ℤ) (bs : List StatsBucket) → pos 0 ≤ℤ acc → IsCounted bs → pos 0 ≤ℤ total_success acc bs
unfolding total_success
total_success_nonneg acc [] h c = h
total_success_nonneg acc (b ∷ bs) h c =
    total_success_nonneg (acc +ℤ b.n_success) bs (omega (arith, +ℤ_parts acc b.n_success)) c.1

total_fail_nonneg :
    (acc : ℤ) (bs : List StatsBucket) → pos 0 ≤ℤ acc → IsCounted bs → pos 0 ≤ℤ total_fail acc bs
unfolding total_fail
total_fail_nonneg acc [] h c = h
total_fail_nonneg acc (b ∷ bs) h c =
    total_fail_nonneg (acc +ℤ b.n_fail) bs (omega (arith, +ℤ_parts acc b.n_fail)) c.1

module _ {W : Type 0} ⦃d : Double W⦄ ⦃o : IsOrdered W⦄ where
  ratio_le_one :
      (x : W) (a b : ℕ)
      → 0 < a + b
      → d.le x (d.of_int (pos 1)) ≡ false
      → d.le x (d.div (d.of_int (pos a)) (d.of_int (pos (a + b)))) ≡ false
  ratio_le_one x a b p high = ground (
    arith,
    o.ratio_bounds a (a + b) (omega arith) p,
    o.le_trans x (d.div (d.of_int (pos a)) (d.of_int (pos (a + b)))) (d.of_int (pos 1)),
  )

  verdict_high :
      (h : HealthStats W) (a b : ℕ)
      → total_success (pos 0) h.buckets ≡ pos a
      → total_fail (pos 0) h.buckets ≡ pos b
      → d.le h.health_thresh (d.of_int (pos 1)) ≡ false
      → pos 0 <ℤ h.bucket_thresh
      → h.bucket_thresh ≤ℤ pos (a + b)
      → (verdict h).0 ≡ false
  unfolding verdict
  verdict_high h a b s f high asked enough =
      rw (s, f, +ℤ_pos a b) (ground (arith, ratio_le_one h.health_thresh a b (omega arith) high))

  -- A threshold above one marks everything unhealthy: once the window holds as many calls as are
  -- asked for, at least one, the verdict is false, even if every call succeeded.
  pub high_thresh-unhealthy :
      (h : HealthStats W)
      → IsCounted h.buckets
      → d.le h.health_thresh (d.of_int (pos 1)) ≡ false
      → pos 0 <ℤ h.bucket_thresh
      → h.bucket_thresh ≤ℤ total_success (pos 0) h.buckets +ℤ total_fail (pos 0) h.buckets
      → (verdict h).0 ≡ false
  high_thresh-unhealthy h c high asked enough =
      verdict_high h (pos_part s) (pos_part f) (eq_pos s s_nonneg) (eq_pos f f_nonneg) high asked
        (omega (arith, +ℤ_parts s f, s_nonneg, f_nonneg))
    where
      s : ℤ
      s = total_success (pos 0) h.buckets

      f : ℤ
      f = total_fail (pos 0) h.buckets

      s_nonneg : pos 0 ≤ℤ s
      s_nonneg = total_success_nonneg (pos 0) h.buckets (omega arith) c

      f_nonneg : pos 0 ≤ℤ f
      f_nonneg = total_fail_nonneg (pos 0) h.buckets (omega arith) c
