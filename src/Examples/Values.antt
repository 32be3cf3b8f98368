-- ===== src/Examples/Values.antt =====
-- Identifiers, sizes, locks and capabilities.
use infinibox_csi_driver.Prelude.{
  ℕ, ◌≡◌, ◌↔◌, ◌+◌, ◌*◌, ◌-◌, ◌^◌, refl, arith, false, some, [], ◌∷◌,
}
use infinibox_csi_driver.Prelude.Int.{ℤ, pos, negsuc, ◌<ℤ◌}
use infinibox_csi_driver.Strings.{lit, split, str_eq}
use infinibox_csi_driver.Strings.Decimal.{atoi}
use infinibox_csi_driver.Exec.{ok}
use infinibox_csi_driver.VolumeId.{VolumeConfig, validate_volume_id}
use infinibox_csi_driver.VolumeId.Sound.{Accepted, validate_volume_id_sound}
use infinibox_csi_driver.Capacity.{round_up}
use infinibox_csi_driver.Capacity.Bounds.{IsRounded, round_up-IsRounded, round_up_overflow}
use infinibox_csi_driver.SnapshotLock.{millis_per, validate_snapshot_lock}
use infinibox_csi_driver.SnapshotLock.Bounds.{TimeUnit, lock_parameter, lock_exact, lock_overflow}
use infinibox_csi_driver.Locks.{StringSet, Request, try_acquire_volume, locks_after}
use infinibox_csi_driver.Locks.Held.{held, try_acquire_volume_exclusive}
use infinibox_csi_driver.Prelude.{Bool, List, not, ◌&&◌, ◌||◌}
use infinibox_csi_driver.Strings.{Str}
use infinibox_csi_driver.Capability.{Mode, Access, Capability, validate_capabilities}
use infinibox_csi_driver.Capability.Accepted.{AreValid, validate_capabilities_iff}

abbrev volume_5 : VolumeConfig
volume_5 = record { volume_id = pos 5; storage_type = lit "fc"; treeq_id = pos 0 }

validate_volume_id_sound_example : Accepted (lit "5$$fc") volume_5
unfolding validate_volume_id split str_eq atoi
validate_volume_id_sound_example = validate_volume_id_sound (lit "5$$fc") volume_5 five
  where
    five : validate_volume_id (lit "5$$fc") ≡ ok volume_5
    five = refl

round_up-IsRounded_example : (r : ℕ) × (round_up (pos 5000000001) ≡ pos r) × IsRounded 5000000001 r
round_up-IsRounded_example = round_up-IsRounded 5000000001 (omega arith)

round_up_overflow_example : round_up (pos (2 ^ 63 - 1)) ≡ negsuc (2 ^ 63 - 1)
round_up_overflow_example = round_up_overflow (2 ^ 63 - 1) (omega arith) (omega arith) (cc)

lock_exact_example :
    validate_snapshot_lock (pos 1700000000000) (lock_parameter 2 (lit "Hours"))
    ≡ ok (pos (1700000000000 + 2 * 3600000))
lock_exact_example = lock_exact 1700000000000 1 TimeUnit.hour (omega arith) (omega arith)

abbrev capability : Capability
capability = record {
  access_mode = some Mode.single_node_writer;
  access = Access.mount (lit "ext4");
}

validate_capabilities_iff_example :
    (validate_capabilities (some (capability ∷ [])) ≡ ok tt) ↔ AreValid (some (capability ∷ []))
validate_capabilities_iff_example = validate_capabilities_iff (some (capability ∷ []))

lock_overflow_example :
    (r : ℤ) × (validate_snapshot_lock (pos 1700000000000) (lock_parameter 400000000 (lit "Years"))
      ≡ ok r)
    × (r <ℤ pos 1700000000000)
unfolding millis_per
lock_overflow_example =
    lock_overflow 1700000000000 399999999 29030400000 (lit "Years") (omega arith) (omega arith) refl
      (omega arith) (omega arith) (omega arith)

abbrev string_set : StringSet
string_set = record {
  Names = Str → Bool;
  new = λ y. false;
  has = λ s y. s y;
  insert = λ s x y. str_eq x y || s y;
  delete = λ s x y. not (str_eq x y) && s y;
  has-new = λ y. refl;
  has-insert = λ s x y. refl;
  has-delete = λ s x y. refl;
}

-- Volume 7 was locked and released, and volume 9 is locked.
abbrev requests : List Request
requests =
    Request.release (lit "7") ∷ Request.try_acquire (lit "9") ∷ Request.try_acquire (lit "7") ∷ []

try_acquire_volume_exclusive_example :
    ((try_acquire_volume string_set (lit "7") (locks_after string_set requests)).0
      ≡ not (held (lit "7") requests))
    × ((y : Str)
        → string_set.has
            (try_acquire_volume string_set (lit "7") (locks_after string_set requests)).1
            y
          ≡ (str_eq (lit "7") y || held y requests))
try_acquire_volume_exclusive_example = try_acquire_volume_exclusive string_set (lit "7") requests
