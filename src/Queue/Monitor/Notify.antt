-- ===== src/Queue/Monitor/Notify.antt =====
-- Which thread notify_one wakes.
use bigpipe_cpp.Base.{
  ℕ, zero, suc, ◌<◌, ◌≡◌, refl, ◌⊎◌, inl, inr, Bool-cases, ltb, arith, Option, none, some,
  Option-cases, update, dec_lt,
}
use bigpipe_cpp.Queue.Monitor.{Pc, notify_any, notify_one, wake}

module _ {A : Type 0} (wakes : Pc A → Option (Pc A)) where
  abbrev pub Notified : ℕ → (ℕ → Pc A) → (ℕ → Pc A) → Type 0
  Notified n pc pc' =
      (((j : ℕ) → j < n → wakes (pc j) ≡ none) × (pc' ≡ pc))
      ⊎ ((k : ℕ) × (p : Pc A) × (k < n) × (wakes (pc k) ≡ some p) × (pc' ≡ update pc k p))

  notify_any_lem : (n : ℕ) (pc : ℕ → Pc A) → Notified n pc (notify_any wakes n pc)
  unfolding notify_any
  notify_any_lem zero pc = inl (λ j h. absurd (omega arith), refl)
  notify_any_lem (suc n) pc = elim (Option-cases (wakes (pc n))) [
    | inl asleep ↦ elim (notify_any_lem n pc) [
      | inl (nobody, e) ↦ inl (
        λ j h. elim (dec_lt j n) [
          | yes below ↦ nobody j below
          | no last ↦ let same : j ≡ n = omega arith in rw same asleep
        ],
        rw (asleep, wake) e,
      )
      | inr (k, p, lt, e, f) ↦ inr (k, p, omega arith, e, rw (asleep, wake) f)
    ]
    | inr (p, e) ↦ inr (n, p, omega arith, e, rw (e, wake))
  ]

  pub notify_one_lem : (n w : ℕ) (pc : ℕ → Pc A) → Notified n pc (notify_one wakes n w pc)
  unfolding notify_one
  notify_one_lem n w pc = elim (Bool-cases (ltb w n)) [
    | inl inside ↦ elim (Option-cases (wakes (pc w))) [
      | inl asleep ↦ rw (inside, asleep, wake) (notify_any_lem n pc)
      | inr (p, e) ↦ inr (w, p, ground arith, e, rw (inside, e, wake))
    ]
    | inr beyond ↦ rw beyond (notify_any_lem n pc)
  ]
