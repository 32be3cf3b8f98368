-- ===== src/Fc/Rest.antt =====
-- DeleteVolume, DeleteSnapshot, ControllerUnpublishVolume, ControllerExpandVolume and CreateSnapshot
-- of storage/fc/fccontroller.go.
use infinibox_csi_driver.Prelude.{ℕ, Bool, true, Option}
use infinibox_csi_driver.Prelude.Int.{ℤ}
use infinibox_csi_driver.Strings.{Str}
use infinibox_csi_driver.Strings.Decimal.{atoi_clamped}
use infinibox_csi_driver.Exec.{internally, pure, or_fail, wrapping, ◌>>◌}
use infinibox_csi_driver.VolumeId.{VolumeConfig}
use infinibox_csi_driver.Ibox.{Host, Env}
use infinibox_csi_driver.Ibox.Client.{M, update_volume}
use infinibox_csi_driver.Volumes.Delete.{delete_chain}
use infinibox_csi_driver.Volumes.Hosts.{unpublish_volume}
use infinibox_csi_driver.Volumes.Snapshots.{CreateSnapshotRequest, CsiSnapshot, create_snapshot}

-- The fuel bounds the chain of parents.
unfoldable pub fc_delete_volume : Env → ℕ → VolumeConfig → M (Unit {0})
fc_delete_volume env fuel config = wrapping (delete_chain env fuel config.volume_id) internally

-- `snapshotID, _ := strconv.Atoi(…)`: the error is dropped.
unfoldable pub fc_delete_snapshot : Env → ℕ → Str → M (Unit {0})
unfolding atoi_clamped
fc_delete_snapshot env fuel id = wrapping (delete_chain env fuel (atoi_clamped id)) internally

unfoldable pub fc_unpublish : Env → Option Host → VolumeConfig → M (Unit {0})
fc_unpublish env host config = unpublish_volume env host config.volume_id

unfoldable pub fc_create_snapshot : Env → VolumeConfig → CreateSnapshotRequest → M CsiSnapshot
fc_create_snapshot env config req = create_snapshot env config req

-- The new size, and that the node must expand its file system.
unfoldable pub fc_expand : Env → VolumeConfig → (capacity : ℤ) → M (ℤ × Bool)
fc_expand env config capacity = do
  or_fail (update_volume env config.volume_id capacity) internally
  pure (capacity, true)
