-- ===== src/Capacity/Bounds.antt =====
-- What RoundUp promises, and where it overflows.
use infinibox_csi_driver.Prelude.{
  ℕ, ◌+◌, ◌-◌, ◌*◌, ◌/◌, ◌%◌, ◌^◌, ◌≤◌, ◌<◌, ◌≡◌, ◌≢◌, ap, ◌⊎◌, arith, ltb, ◌==◌, if◌then◌else◌,
  ◌&&◌,
}
use infinibox_csi_driver.Prelude.Int.{pos, negsuc}
use infinibox_csi_driver.Capacity.{bytes_1g, gib, round_up, expand_capacity}

-- The size that is asked for the request `n`.
pub record IsRounded (n r : ℕ) : Type 0 where
  pub enough : n ≤ r
  pub minimum : bytes_1g ≤ r
  pub whole : (r % bytes_1g ≡ 0) ⊎ (r % gib ≡ 0)
  pub near : bytes_1g ≤ n → r < n + gib

rounded : ℕ → ℕ
rounded n =
    if ltb n bytes_1g
    then bytes_1g
    else if ltb bytes_1g n && ltb n gib
    then gib
    else if n % bytes_1g == 0
    then n
    else if n % gib == 0
    then n
    else (n / gib + 1) * gib

round_up-rounded : (n : ℕ) → n + gib ≤ 2 ^ 63 → round_up (pos n) ≡ pos (rounded n)
unfolding round_up rounded
round_up-rounded n h = ground arith

rounded-IsRounded : (n : ℕ) → IsRounded n (rounded n)
unfolding rounded
rounded-IsRounded n = ground arith

-- For a request up to a GiB below the largest int64, RoundUp returns a size that is at least the
-- request and one gigabyte, is a whole number of GB or of GiB, and is less than a GiB above a
-- request of at least one GB.
pub round_up-IsRounded :
    (n : ℕ) → n + gib ≤ 2 ^ 63 → (r : ℕ) × (round_up (pos n) ≡ pos r) × IsRounded n r
round_up-IsRounded n h = (rounded n, round_up-rounded n h, rounded-IsRounded n)

rounded-rounded : (n : ℕ) → rounded (rounded n) ≡ rounded n
unfolding rounded
rounded-rounded n = ground arith

rounded_bound : (n : ℕ) → n + 2 * gib ≤ 2 ^ 63 → rounded n + gib ≤ 2 ^ 63
unfolding rounded
rounded_bound n h = ground arith

-- For a request up to two GiB below the largest int64, rounding the rounded size changes nothing.
pub round_up-round_up :
    (n : ℕ) → n + 2 * gib ≤ 2 ^ 63 → round_up (round_up (pos n)) ≡ round_up (pos n)
round_up-round_up n h =
    rw (round_up-rounded n (omega arith))
      (rw (round_up-rounded (rounded n) (rounded_bound n h)) (ap pos (rounded-rounded n)))

-- A request in the last GiB of the int64 range that is no whole number of GB overflows: the size
-- that RoundUp returns is -2^63.
pub round_up_overflow :
    (n : ℕ)
    → 2 ^ 63 < n + gib
    → n < 2 ^ 63
    → n % bytes_1g ≢ 0
    → round_up (pos n) ≡ negsuc (2 ^ 63 - 1)
unfolding round_up
round_up_overflow n low high g = ground arith

-- For a request up to a GiB below the largest int64, ControllerExpandVolume asks for at least a GiB,
-- and for at least the request.
pub expand_capacity_bounds :
    (n : ℕ) → n + gib ≤ 2 ^ 63 → (r : ℕ) × (expand_capacity (pos n) ≡ pos r) × (n ≤ r) × (gib ≤ r)
unfolding expand_capacity round_up rounded
expand_capacity_bounds n h =
    (rounded (if ltb n gib then gib else n), ground arith, ground arith, ground arith)
