-- ===== src/Health/Tests.antt =====
-- HealthStats on small windows.
use bigpipe_cpp.Base.{
  ℕ, ◌≡◌, refl, false, [], ◌∷◌, done, arith, ℤ, pos, ◌-ℤ◌, ◌+ℤ◌, millionths, millionths-IsOrdered,
}
use bigpipe_cpp.Health.{
  HealthStats, StatsBucket, update_buckets, stats_on_success, is_healthy, verdict, total_success,
  total_fail,
}
use bigpipe_cpp.Health.Window.{update_buckets_lem}
use bigpipe_cpp.Health.Verdict.{stats_on_success-counts, high_thresh-unhealthy}

abbrev bucket : ℕ → ℕ → StatsBucket
bucket s f = record { n_success = pos s; n_fail = pos f }

-- Three seconds up to time 100, of which the last has six successes and a failure.
abbrev window : HealthStats ℤ
window = record {
  max_buckets = pos 3;
  buckets = bucket 1 0 ∷ bucket 0 2 ∷ bucket 6 1 ∷ [];
  update_time = pos 100;
  bucket_thresh = pos 5;
  health_thresh = pos 2000000;
}

two_seconds_later : (update_buckets (pos 102) window).buckets ≡ bucket 6 1 ∷ []
unfolding update_buckets ◌-ℤ◌
two_seconds_later = refl

unhealthy_now : (is_healthy (pos 100) window).1.0 ≡ false
unfolding is_healthy update_buckets verdict total_success total_fail ◌-ℤ◌ ◌+ℤ◌
unhealthy_now = refl

update_buckets_lem_example :
    update_buckets (pos 102) window
    ≡ record window { buckets = bucket 6 1 ∷ []; update_time = pos 102 }
unfolding ◌-ℤ◌
update_buckets_lem_example = update_buckets_lem (pos 102) window

success_counted :
    (g : HealthStats ℤ) × (stats_on_success (pos 101) window ≡ done g)
    × (total_success (pos 0) g.buckets
        ≡ total_success (pos 0) (update_buckets (pos 101) window).buckets +ℤ pos 1)
    × (total_fail (pos 0) g.buckets ≡ total_fail (pos 0) (update_buckets (pos 101) window).buckets)
unfolding update_buckets ◌-ℤ◌ ◌+ℤ◌
success_counted = stats_on_success-counts (pos 101) window (bucket 0 2 ∷ []) (bucket 6 1) refl refl

high_thresh-unhealthy_example : (verdict window).0 ≡ false
unfolding total_success total_fail ◌+ℤ◌
high_thresh-unhealthy_example =
    high_thresh-unhealthy ⦃o = millionths-IsOrdered⦄ window (omega arith) refl (omega arith)
      (omega arith)
