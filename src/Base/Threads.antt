-- ===== src/Base/Threads.antt =====
-- Threads by number: the state of each as a function of its index, and sums over the first `n`.
use Prim.Native.Nat.{ℕ, zero, suc, ◌+◌, ◌≤◌, ◌<◌}
use mathlib.Core.Path.{◌≡◌}
use mathlib.Core.Logic.{ite}
use native.Mathlib.Decide.{dec_lt, ℕ_discrete}
use native.Mathlib.Omega.{arith}
use bigpipe_cpp.Base.Tests.{if◌then◌else◌, ltb}

-- The states after thread `i` has moved to `p`.
abbrev pub update {ℓ} : {A : Type ℓ} → (ℕ → A) → ℕ → A → ℕ → A
update pcs i p j = ite (ℕ_discrete i j) p (pcs j)

module _ {ℓ} {A : Type ℓ} (w : A → ℕ) where
  -- The weights of the threads 0, …, n - 1.
  pub total : ℕ → (ℕ → A) → ℕ
  total zero pcs = 0
  total (suc n) pcs = w (pcs n) + total n pcs

  -- What thread `i` counts for among the first `n`.
  abbrev share : ℕ → ℕ → A → ℕ
  share n i p = if ltb i n then w p else 0

  moved_share :
      (n i : ℕ) (p : A) (pcs : ℕ → A)
      → share n i (pcs i) + total n (update pcs i p) ≡ share n i p + total n pcs
  unfolding total
  moved_share zero i p pcs = ground arith
  moved_share (suc n) i p pcs = ground (arith, moved_share n i p pcs)

  -- When one of the threads moves, its old weight goes and its new one comes.
  pub total-update :
      (n : ℕ) (pcs : ℕ → A) (i : ℕ) (p : A)
      → i < n
      → w p + total n pcs ≡ total n (update pcs i p) + w (pcs i)
  total-update n pcs i p lt = ground (arith, moved_share n i p pcs)

  pub total-ge : (n : ℕ) (f : ℕ → A) (i : ℕ) → i < n → w (f i) ≤ total n f
  unfolding total
  total-ge zero f i h = absurd (omega arith)
  total-ge (suc n) f i h = elim (dec_lt i n) [
    | yes below ↦ ground (arith, total-ge n f i below)
    | no last ↦ ground arith
  ]

  -- Where a sum is positive, one of the threads has a positive weight.
  pub total-pos : (n : ℕ) (f : ℕ → A) → 0 < total n f → (i : ℕ) × (i < n) × (0 < w (f i))
  unfolding total
  total-pos zero f h = absurd (omega arith)
  total-pos (suc n) f h = elim (dec_lt 0 (w (f n))) [
    | yes here ↦ (n, omega arith, here)
    | no none_here ↦ let (i, lt, pos) = total-pos n f (omega arith) in (i, omega arith, pos)
  ]
