-- ===== src/Health/Fresh.antt =====
-- What the constructor of HealthStats leads to.
use bigpipe_cpp.Base.{◌≡◌, refl, true, [], arith, done, fail, back_of_empty, ℤ, pos, ◌+ℤ◌, Double}
use bigpipe_cpp.Health.{
  HealthStats, new_stats, update_buckets, stats_on_success, stats_on_fail, back_success, back_fail,
  verdict, is_healthy, total_success, total_fail,
}

module _ {W : Type 0} where
  -- The states that a HealthStats can be in: made by its constructor, then any calls that return.
  pub data Reached : HealthStats W → Type 0 where
    made : (m b now : ℤ) (t : W) → Reached (new_stats m b t now)
    asked : (now : ℤ) {h : HealthStats W} → Reached h → Reached (update_buckets now h)
    succeeded :
        (now : ℤ) {h g : HealthStats W} → Reached h → stats_on_success now h ≡ done g → Reached g
    failed : (now : ℤ) {h g : HealthStats W} → Reached h → stats_on_fail now h ≡ done g → Reached g

  pub update_buckets_empty :
      (now : ℤ) (h : HealthStats W) → h.buckets ≡ [] → (update_buckets now h).buckets ≡ []
  unfolding update_buckets
  update_buckets_empty now h e = ground arith

  pub on_success_empty :
      (now : ℤ) (h : HealthStats W) → h.buckets ≡ [] → stats_on_success now h ≡ fail back_of_empty
  unfolding stats_on_success back_success
  on_success_empty now h e = rw (update_buckets_empty now h e)

  pub on_fail_empty :
      (now : ℤ) (h : HealthStats W) → h.buckets ≡ [] → stats_on_fail now h ≡ fail back_of_empty
  unfolding stats_on_fail back_fail
  on_fail_empty now h e = rw (update_buckets_empty now h e)

  pub Reached-empty : {h : HealthStats W} → Reached h → h.buckets ≡ []
  unfolding new_stats
  Reached-empty (made m b now t) = refl
  Reached-empty (asked now {h} r) = update_buckets_empty now h (Reached-empty r)
  Reached-empty (succeeded now {h} r e) = cc (on_success_empty now h (Reached-empty r))
  Reached-empty (failed now {h} r e) = cc (on_fail_empty now h (Reached-empty r))

module _ {W : Type 0} ⦃d : Double W⦄ where
  pub verdict_empty : (h : HealthStats W) → h.buckets ≡ [] → verdict h ≡ (true, d.of_int (pos 1))
  unfolding verdict total_success total_fail ◌+ℤ◌
  verdict_empty h e = rw e

  -- A HealthStats that was made by its constructor never does its work. Whatever was called before,
  -- OnSuccess and OnFail take the back of an empty deque, and IsHealthy answers (true, 1).
  pub Reached-inert :
      (now : ℤ) {h : HealthStats W}
      → Reached h
      → (stats_on_success now h ≡ fail back_of_empty)
        × (stats_on_fail now h ≡ fail back_of_empty)
        × ((is_healthy now h).1 ≡ (true, d.of_int (pos 1)))
  unfolding is_healthy
  Reached-inert now {h} r = (
    on_success_empty now h (Reached-empty r),
    on_fail_empty now h (Reached-empty r),
    verdict_empty _ (update_buckets_empty now h (Reached-empty r)),
  )
