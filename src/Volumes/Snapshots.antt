-- ===== src/Volumes/Snapshots.antt =====
-- CommonCreateSnapshot of storage/common/createsnapshot.go.
pub mod Safety
pub mod Handle
use infinibox_csi_driver.Prelude.{Bool, true, false, List, [], ◌∷◌, ◌++◌, is_empty, if◌then◌else◌}
use infinibox_csi_driver.Prelude.Int.{ℤ, pos, int_eq}
use infinibox_csi_driver.Strings.{Str, lit}
use infinibox_csi_driver.Strings.Decimal.{itoa}
use infinibox_csi_driver.Exec.{
  Answer, ok, err, Err, Code, to_status, status_error, pure, throw, crash, from_answer, or_fail,
  ◌>>=◌, ◌>>◌,
}
use infinibox_csi_driver.Params.{Params, value, lock_expires_at_parameter}
use infinibox_csi_driver.SnapshotLock.{validate_snapshot_lock}
use infinibox_csi_driver.VolumeId.{VolumeConfig, with_protocol}
use infinibox_csi_driver.Ibox.{Volume, Snapshot, SnapshotRequest, Env}
use infinibox_csi_driver.Ibox.Client.{
  M, get_volume, get_volume_by_name, get_ntp_status, create_snapshot_volume, current_time,
}

-- csi.CreateSnapshotRequest
pub record CreateSnapshotRequest : Type 0 where
  pub name : Str
  pub source_volume_id : Str
  pub parameters : Params

-- csi.Snapshot
pub record CsiSnapshot : Type 0 where
  pub size_bytes : ℤ
  pub snapshot_id : Str
  pub source_volume_id : Str
  pub creation_time : ℤ
  pub ready_to_use : Bool

-- `ntpStatus[0]` is out of range when the appliance lists no server.
abbrev first_probe : List ℤ → M ℤ
first_probe [] = crash
first_probe (t ∷ ts) = pure t

module _ (env : Env) (config : VolumeConfig) (req : CreateSnapshotRequest) where
  abbrev pub described : (id size : ℤ) → M CsiSnapshot
  described id size = do
    time ← current_time env
    pure (record {
      size_bytes = size;
      snapshot_id = with_protocol (itoa id) config.storage_type;
      source_volume_id = req.source_volume_id;
      creation_time = time;
      ready_to_use = true;
    })

  -- The lock is counted from the appliance's own clock.
  abbrev pub lock_time : M ℤ
  lock_time =
      let lock : Str = value req.parameters lock_expires_at_parameter in
      if is_empty lock then pure (pos 0) else (do
        probes ← or_fail (get_ntp_status env) (to_status Code.internal)
        time ← first_probe probes
        from_answer (to_status Code.internal) (validate_snapshot_lock time lock))

  abbrev pub snapshot_request : Volume → ℤ → SnapshotRequest
  snapshot_request parent lock = record {
    parent_id = config.volume_id;
    snapshot_name = req.name;
    write_protected = true;
    ssd_enabled = parent.ssd_enabled;
    lock_expires_at = lock;
  }

  abbrev pub snapshot_of : Volume → ℤ → M CsiSnapshot
  snapshot_of parent lock = do
    snapshot ←
        or_fail (create_snapshot_volume env (snapshot_request parent lock))
          (to_status Code.internal)
    described snapshot.snapshot_id snapshot.size

  abbrev pub make_snapshot : M CsiSnapshot
  make_snapshot = do
    parent ← or_fail (get_volume env config.volume_id) (to_status Code.not_found)
    lock_time >>= snapshot_of parent

  -- A snapshot of the name is answered again if it is of the same volume.
  abbrev pub named_snapshot : Answer Volume → M CsiSnapshot
  named_snapshot (err e) =
      if e.is_not_found then make_snapshot else throw (to_status Code.internal e)
  named_snapshot (ok existing) =
      if int_eq existing.parent_id config.volume_id
      then described existing.id existing.size
      else throw (status_error Code.already_exists)

unfoldable pub create_snapshot : Env → VolumeConfig → CreateSnapshotRequest → M CsiSnapshot
create_snapshot env config req = get_volume_by_name env req.name >>= named_snapshot env config req
