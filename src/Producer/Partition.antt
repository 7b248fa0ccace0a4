-- ===== src/Producer/Partition.antt =====
-- Which partitions CalcPartition can name.
use native.Mathlib.Nat.{mod-lt}
use bigpipe_cpp.Base.{
  ℕ, suc, ◌%◌, ◌≤◌, ◌<◌, ◌≡◌, refl, ◌≢◌, ◌⊎◌, inl, inr, false, arith, done, ℤ, pos, negsuc,
  pos_part, neg_part, sub_ℕ, ◌≤ℤ◌, ◌<ℤ◌, from_bits, to_bits, int_max, String, same_text,
}
use bigpipe_cpp.Producer.{rem_int, calc_partition}

-- The low 32 bits of the hash, as an `int`.
abbrev pub int_hash : (String → ℕ) → String → ℤ
int_hash str_hash key = from_bits (str_hash key)

ℤ-sign : (x : ℤ) → (pos 0 ≤ℤ x) ⊎ (x <ℤ pos 0)
ℤ-sign (pos a) = inl (omega arith)
ℤ-sign (negsuc a) = inr (omega arith)

module _ (p : ℕ) (some_partition : 0 < p) (fits : p ≤ int_max) where
  rem_int-pos : (a : ℕ) → rem_int (pos a) (pos p) ≡ done (pos (a % p))
  unfolding rem_int
  rem_int-pos a = ground arith

  rem_int-negsuc : (a : ℕ) → rem_int (negsuc a) (pos p) ≡ done (sub_ℕ 0 (suc a % p))
  unfolding rem_int
  rem_int-negsuc a = ground arith

  rem_int-nonneg : (x : ℤ) → pos 0 ≤ℤ x → rem_int x (pos p) ≡ done (pos (pos_part x % p))
  rem_int-nonneg (pos a) up = rem_int-pos a
  rem_int-nonneg (negsuc a) up = absurd (omega arith)

  rem_int-neg : (x : ℤ) → x <ℤ pos 0 → rem_int x (pos p) ≡ done (sub_ℕ 0 (neg_part x % p))
  rem_int-neg (pos a) down = absurd (omega arith)
  rem_int-neg (negsuc a) down = rem_int-negsuc a

  same_bits : to_bits (pos p) ≡ p
  same_bits = omega arith

  small_from_bits : (n : ℕ) → n < p → from_bits n ≡ pos n
  small_from_bits n h = ground arith

module _ (str_hash : String → ℕ) (rd p : ℕ) (some_partition : 0 < p) (fits : p ≤ int_max) where
  -- A message without a key goes to one of the partitions, where there is at least one.
  pub calc_partition-keyless :
      calc_partition str_hash rd (pos p) "" ≡ done (pos (rd % p)) × (rd % p < p)
  unfolding calc_partition
  calc_partition-keyless =
      let below : rd % p < p = mod-lt rd some_partition in
      (
        rw (same_bits p some_partition fits, small_from_bits p some_partition fits (rd % p) below)
            (ground arith),
        below,
      )

  -- Where there is at least one partition, a message whose key has a hash that is not negative as an
  -- `int` goes to one of them.
  pub calc_partition-keyed :
      (key : String)
      → same_text key "" ≡ false
      → pos 0 ≤ℤ int_hash str_hash key
      → (r : ℕ) × (calc_partition str_hash rd (pos p) key ≡ done (pos r)) × (r < p)
  unfolding calc_partition
  calc_partition-keyed key keyed up = (
    pos_part (int_hash str_hash key) % p,
    rw (keyed, rem_int-nonneg p some_partition fits (int_hash str_hash key) up),
    mod-lt _ some_partition,
  )

  -- A message whose key has a hash that is negative as an `int`, and not divisible by the number of
  -- partitions, is given a negative partition.
  pub calc_partition-negative :
      (key : String)
      → same_text key "" ≡ false
      → int_hash str_hash key <ℤ pos 0
      → neg_part (int_hash str_hash key) % p ≢ 0
      → (r : ℤ) × (calc_partition str_hash rd (pos p) key ≡ done r) × (r <ℤ pos 0)
  unfolding calc_partition
  calc_partition-negative key keyed down some_rest = (
    sub_ℕ 0 (neg_part (int_hash str_hash key) % p),
    rw (keyed, rem_int-neg p some_partition fits (int_hash str_hash key) down),
    ground arith,
  )

  -- With a key, and a number of partitions from 1 to the greatest `int`, CalcPartition ends, and the
  -- partition has the sign of the hash as an `int` and the remainder of its size: it lies strictly
  -- between minus the number of partitions and that number, and is negative exactly where the hash
  -- is negative and not divisible.
  pub calc_partition-signed :
      (key : String)
      → same_text key "" ≡ false
      → (r : ℤ) × (calc_partition str_hash rd (pos p) key ≡ done r)
        × (pos_part r ≡ pos_part (int_hash str_hash key) % p)
        × (neg_part r ≡ neg_part (int_hash str_hash key) % p)
        × (pos_part r < p)
        × (neg_part r < p)
  unfolding calc_partition
  calc_partition-signed key keyed = elim (ℤ-sign (int_hash str_hash key)) [
    | inl up ↦
        let rest : pos_part (int_hash str_hash key) % p < p = mod-lt _ some_partition in
        (
          pos (pos_part (int_hash str_hash key) % p),
          rw (keyed, rem_int-nonneg p some_partition fits (int_hash str_hash key) up),
          refl,
          ground arith,
          rest,
          some_partition,
        )
    | inr down ↦
        let rest : neg_part (int_hash str_hash key) % p < p = mod-lt _ some_partition in
        (
          sub_ℕ 0 (neg_part (int_hash str_hash key) % p),
          rw (keyed, rem_int-neg p some_partition fits (int_hash str_hash key) down),
          ground arith,
          ground arith,
          ground arith,
          ground arith,
        )
  ]
