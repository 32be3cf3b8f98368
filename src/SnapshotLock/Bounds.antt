-- ===== src/SnapshotLock/Bounds.antt =====
-- When the lock ends, with and without overflow.
use infinibox_csi_driver.Prelude.{
  ℕ, suc, ◌+◌, ◌*◌, ◌^◌, ◌≤◌, ◌<◌, ◌≡◌, refl, arith, some, [], ◌∷◌, ◌++◌,
}
use infinibox_csi_driver.Prelude.Int.{ℤ, pos, int64, ◌+ℤ◌, ◌<ℤ◌}
use infinibox_csi_driver.Strings.{Str, lit, split}
use infinibox_csi_driver.Strings.Split.{Lacks, split-sep, split-Lacks}
use infinibox_csi_driver.Strings.Decimal.{itoa}
use infinibox_csi_driver.Strings.RoundTrip.{atoi-itoa, Lacks-itoa}
use infinibox_csi_driver.Exec.{ok}
use infinibox_csi_driver.SnapshotLock.{millis_per, validate_snapshot_lock}

-- The parameter `<count> <frequency>`.
abbrev pub lock_parameter : ℕ → Str → Str
lock_parameter count frequency = itoa (pos count) ++ b' ' ∷ frequency

split_parameter :
    (count : ℕ) (frequency : Str)
    → Lacks b' ' frequency
    → split b' ' [] (lock_parameter count frequency) ≡ itoa (pos count) ∷ frequency ∷ []
split_parameter count frequency h =
    rw (split-sep b' ' [] (itoa (pos count)) frequency (Lacks-itoa b' ' (pos count) (omega arith)))
      (rw (split-Lacks b' ' [] frequency h))

lock_of_parameter :
    (now : ℤ) (n millis : ℕ) (frequency : Str)
    → suc n < 2 ^ 63
    → Lacks b' ' frequency
    → millis_per frequency ≡ some millis
    → validate_snapshot_lock now (lock_parameter (suc n) frequency)
      ≡ ok (now +ℤ int64 (suc n * millis))
unfolding validate_snapshot_lock
lock_of_parameter now n millis frequency small lacks unit =
    rw (split_parameter (suc n) frequency lacks)
      (rw (atoi-itoa (pos (suc n)) (omega arith)) (rw unit))

exact_expiry :
    (now product : ℕ) → now + product < 2 ^ 63 → pos now +ℤ int64 product ≡ pos (now + product)
unfolding ◌+ℤ◌
exact_expiry now product h = ground arith

-- The units that a lock is counted in, with the names and the hours that the parameter has for them:
-- a month is four weeks and a year is twelve of these months, 336 days.
pub data TimeUnit : Type 0 where
  hour day week month year : TimeUnit

abbrev pub name_of : TimeUnit → Str
name_of TimeUnit.hour = lit "Hours"
name_of TimeUnit.day = lit "Days"
name_of TimeUnit.week = lit "Weeks"
name_of TimeUnit.month = lit "Months"
name_of TimeUnit.year = lit "Years"

abbrev pub hours_of : TimeUnit → ℕ
hours_of TimeUnit.hour = 1
hours_of TimeUnit.day = 24
hours_of TimeUnit.week = 168
hours_of TimeUnit.month = 672
hours_of TimeUnit.year = 8064

millis_per-name_of : (u : TimeUnit) → millis_per (name_of u) ≡ some (hours_of u * 3600000)
unfolding millis_per
millis_per-name_of TimeUnit.hour = refl
millis_per-name_of TimeUnit.day = refl
millis_per-name_of TimeUnit.week = refl
millis_per-name_of TimeUnit.month = refl
millis_per-name_of TimeUnit.year = refl

name_of-Lacks : (u : TimeUnit) → Lacks b' ' (name_of u)
name_of-Lacks TimeUnit.hour = omega arith
name_of-Lacks TimeUnit.day = omega arith
name_of-Lacks TimeUnit.week = omega arith
name_of-Lacks TimeUnit.month = omega arith
name_of-Lacks TimeUnit.year = omega arith

-- For each of the five units, a positive int64 count of it and a time that is not negative, as long
-- as the end of the lock fits an int64, the lock ends that many times the unit's hours (1, 24, 168,
-- 672 or 8064 of 3,600,000 milliseconds) after the given time.
pub lock_exact :
    (now n : ℕ) (u : TimeUnit)
    → suc n < 2 ^ 63
    → now + suc n * (hours_of u * 3600000) < 2 ^ 63
    → validate_snapshot_lock (pos now) (lock_parameter (suc n) (name_of u))
      ≡ ok (pos (now + suc n * (hours_of u * 3600000)))
lock_exact now n u small fits =
    rw
      (lock_of_parameter (pos now) n (hours_of u * 3600000) (name_of u) small (name_of-Lacks u)
        (millis_per-name_of u))
      (rw (exact_expiry now (suc n * (hours_of u * 3600000)) fits))

wrapped_expiry :
    (now product : ℕ)
    → now < 2 ^ 63
    → 2 ^ 63 ≤ product
    → product < 2 ^ 64
    → (pos now +ℤ int64 product) <ℤ pos now
unfolding ◌+ℤ◌
wrapped_expiry now product a b c = ground arith

-- For a positive count of one of the five units and an int64 time that is not negative, a count whose
-- product with the unit passes the int64 range (up to twice that range) is accepted, and the lock
-- ends before the given time.
pub lock_overflow :
    (now n millis : ℕ) (frequency : Str)
    → suc n < 2 ^ 63
    → Lacks b' ' frequency
    → millis_per frequency ≡ some millis
    → now < 2 ^ 63
    → 2 ^ 63 ≤ suc n * millis
    → suc n * millis < 2 ^ 64
    → (r : ℤ) × (validate_snapshot_lock (pos now) (lock_parameter (suc n) frequency) ≡ ok r)
      × (r <ℤ pos now)
lock_overflow now n millis frequency small lacks unit a b c = (
  pos now +ℤ int64 (suc n * millis),
  lock_of_parameter (pos now) n millis frequency small lacks unit,
  wrapped_expiry now (suc n * millis) a b c,
)
