-- ===== src/SnapshotLock.antt =====
-- ValidateSnapshotLockingParameter of storage/common/snapshot.go: when the lock of a snapshot ends.
pub mod Bounds
use infinibox_csi_driver.Prelude.{ℕ, suc, ◌*◌, Option, none, some, List, [], ◌∷◌, if◌then◌else◌}
use infinibox_csi_driver.Prelude.Int.{ℤ, pos, negsuc, int64, ◌+ℤ◌}
use infinibox_csi_driver.Strings.{Str, lit, str_eq, split}
use infinibox_csi_driver.Strings.Decimal.{atoi}
use infinibox_csi_driver.Exec.{Answer, ok, err, plain_error}

abbrev pub millis_per_hour : ℕ
millis_per_hour = 3600000

abbrev pub millis_per_day : ℕ
millis_per_day = 24 * millis_per_hour

abbrev pub millis_per_week : ℕ
millis_per_week = 7 * millis_per_day

abbrev pub millis_per_month : ℕ
millis_per_month = 4 * millis_per_week

abbrev pub millis_per_year : ℕ
millis_per_year = 12 * millis_per_month

-- The `switch` on the unit.
unfoldable pub millis_per : Str → Option ℕ
unfolding str_eq
millis_per s =
    if str_eq s (lit "Hours")
    then some millis_per_hour
    else if str_eq s (lit "Days")
    then some millis_per_day
    else if str_eq s (lit "Weeks")
    then some millis_per_week
    else if str_eq s (lit "Months")
    then some millis_per_month
    else if str_eq s (lit "Years")
    then some millis_per_year
    else none

-- `nowTime + int64(count * millis)`, both in 64 bits.
abbrev pub expiry : ℤ → ℕ → Option ℕ → Answer ℤ
expiry now count none = err plain_error
expiry now count (some millis) = ok (now +ℤ int64 (count * millis))

-- `count < 1` is refused.
abbrev pub lock_count : ℤ → Option ℤ → Str → Answer ℤ
lock_count now none frequency = err plain_error
lock_count now (some (negsuc n)) frequency = err plain_error
lock_count now (some (pos ℕ.zero)) frequency = err plain_error
lock_count now (some (pos (suc n))) frequency = expiry now (suc n) (millis_per frequency)

abbrev pub lock_parts : ℤ → List Str → Answer ℤ
lock_parts now (count ∷ frequency ∷ []) = lock_count now (atoi count) frequency
lock_parts now _ = err plain_error

unfoldable pub validate_snapshot_lock : ℤ → Str → Answer ℤ
unfolding atoi
validate_snapshot_lock now input = lock_parts now (split b' ' [] input)
