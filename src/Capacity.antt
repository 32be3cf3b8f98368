-- ===== src/Capacity.antt =====
-- Sizes: RoundUp of helper/roundup.go, determineCapacity and the capacity that
-- ControllerExpandVolume computes (service/controller.go), and DetermineSSDValue
-- (storage/common/common.go).
pub mod Bounds
use infinibox_csi_driver.Prelude.{
  ℕ, ◌+◌, ◌*◌, ◌/◌, ◌%◌, Bool, true, false, Option, none, some, ◌&&◌, ltb, ◌==◌, if◌then◌else◌,
  is_empty,
}
use infinibox_csi_driver.Prelude.Int.{ℤ, pos, negsuc, int64, ltb_ℤ}
use infinibox_csi_driver.Strings.{Str, parse_bool}
use infinibox_csi_driver.Exec.{Answer, ok, err, Outcome, done, fail, panic, plain_error}
use infinibox_csi_driver.Params.{Params, value, round_up_requested_size}

abbrev pub bytes_1g : ℕ
bytes_1g = 1000000000

abbrev pub gib : ℕ
gib = 1073741824

-- RoundUp; the last line is the int64 product `(input / gib + 1) * gib`.
unfoldable pub round_up : ℤ → ℤ
round_up (negsuc n) = pos bytes_1g
round_up (pos n) =
    if ltb n bytes_1g
    then pos bytes_1g
    else if ltb bytes_1g n && ltb n gib
    then pos gib
    else if n % bytes_1g == 0
    then pos n
    else if n % gib == 0
    then pos n
    else int64 ((n / gib + 1) * gib)

abbrev chosen : ℤ → Option Bool → Outcome ℤ
chosen capacity none = fail plain_error
chosen capacity (some true) = done (round_up capacity)
chosen capacity (some false) = done capacity

-- determineCapacity; `none` is a request with no capacity range, whose field is read through nil.
unfoldable pub determine_capacity : Option ℤ → Params → Outcome ℤ
unfolding value round_up
determine_capacity none params = panic
determine_capacity (some required) params =
    let parameter = value params round_up_requested_size in
    chosen required (if is_empty parameter then some true else parse_bool parameter)

-- ControllerExpandVolume: at least one GiB, then rounded up.
unfoldable pub expand_capacity : ℤ → ℤ
unfolding round_up
expand_capacity required = round_up (if ltb_ℤ required (pos gib) then pos gib else required)

abbrev parsed_ssd : Option Bool → Answer Bool
parsed_ssd none = err plain_error
parsed_ssd (some b) = ok b

-- DetermineSSDValue: the StorageClass parameter, or else the pool's value.
unfoldable pub determine_ssd_value : Str → Bool → Answer Bool
determine_ssd_value parameter pool_value =
    if is_empty parameter then ok pool_value else parsed_ssd (parse_bool parameter)
