-- ===== src/Health/Window.antt =====
-- UpdateBuckets: how the window moves with the clock.
use bigpipe_cpp.Base.{
  ℕ, ◌+◌, ◌≡◌, sym, ap, ◌≡⟨◌⟩◌, ◌∎, arith, ℤ, pos_part, ◌-ℤ◌, ◌≤ℤ◌, -ℤ_nonneg, -ℤ_nonpos, -ℤ_parts,
  drop, drop_all, drop-drop, if◌then◌else◌, leb_ℤ,
}
use bigpipe_cpp.Health.{HealthStats, update_buckets}

-- The whole seconds from `s` to `t`, none when `t` is not later.
abbrev pub elapsed : ℤ → ℤ → ℕ
elapsed s t = pos_part (t -ℤ s)

abbrev pub later : ℤ → ℤ → ℤ
later s t = if leb_ℤ t s then s else t

elapsed-add : (s t u : ℤ) → s ≤ℤ t → t ≤ℤ u → elapsed s t + elapsed t u ≡ elapsed s u
elapsed-add s t u h k = omega (arith, -ℤ_nonneg t s h, -ℤ_nonneg u t k, -ℤ_nonneg u s (omega arith))

later-later : (s t u : ℤ) → s ≤ℤ t → later (later u s) t ≡ later u t
later-later s t u h = ground arith

elapsed-later : (s t u : ℤ) → s ≤ℤ t → elapsed u s + elapsed (later u s) t ≡ elapsed u t
elapsed-later s t u h = ground (arith, -ℤ_nonpos s u, elapsed-add u s t)

module _ {W : Type 0} where
  abbrev shifted : ℤ → HealthStats W → HealthStats W
  shifted now h = record h {
    buckets = drop (elapsed h.update_time now) h.buckets;
    update_time = later h.update_time now;
  }

  -- The three cases of UpdateBuckets are one: the window loses its oldest bucket for every second
  -- gone by, and its end moves to the present but never back.
  pub update_buckets_lem :
      (now : ℤ) (h : HealthStats W)
      → update_buckets now h ≡ record h {
        buckets = drop (elapsed h.update_time now) h.buckets;
        update_time = later h.update_time now;
      }
  unfolding update_buckets
  update_buckets_lem now h = ground (
    arith,
    -ℤ_parts now h.update_time,
    -ℤ_nonpos now h.update_time,
    -ℤ_nonneg now h.update_time,
    drop_all (elapsed h.update_time now) h.buckets,
  )

  -- Two updates are one: what the window holds depends on the last time only, however often it was
  -- brought up to date before.
  pub update_buckets-update_buckets :
      (s t : ℤ) (h : HealthStats W)
      → s ≤ℤ t
      → update_buckets t (update_buckets s h) ≡ update_buckets t h
  update_buckets-update_buckets s t h k =
      update_buckets t (update_buckets s h)
      ≡⟨ ap (update_buckets t) (update_buckets_lem s h) ⟩ update_buckets t (shifted s h)
      ≡⟨ update_buckets_lem t (shifted s h) ⟩ shifted t (shifted s h)
      ≡⟨ (rw (
        drop-drop (elapsed h.update_time s) (elapsed (later h.update_time s) t) h.buckets,
        elapsed-later s t h.update_time k,
        later-later s t h.update_time k,
      )) ⟩
        shifted t h
      ≡⟨ sym (update_buckets_lem t h) ⟩ update_buckets t h ∎
