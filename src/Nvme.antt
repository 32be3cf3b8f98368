-- ===== src/Nvme.antt =====
-- ControllerPublishVolume and ControllerExpandVolume of the NVMe controller:
-- storage/nvme/nvmecontroller.go. Its CreateVolume stands beside that of iSCSI.
use infinibox_csi_driver.Prelude.{Bool, not, [], ◌∷◌, ◌++◌}
use infinibox_csi_driver.Prelude.Int.{ℤ}
use infinibox_csi_driver.Strings.{Str, lit}
use infinibox_csi_driver.Strings.Decimal.{itoa}
use infinibox_csi_driver.Exec.{
  Answer, ok, err, Code, to_implementation, internally, pure, throw, from_answer, or_fail, wrapping,
  ◌>>=◌, ◌>>◌,
}
use infinibox_csi_driver.Params.{
  Params, lun_publish_context, host_id_publish_context, host_ports_publish_context,
}
use infinibox_csi_driver.VolumeId.{VolumeConfig, validate_volume_id, determine_host_name}
use infinibox_csi_driver.Capability.{is_valid_access_mode}
use infinibox_csi_driver.Ibox.{Volume, LunInfo, Host, Env}
use infinibox_csi_driver.Ibox.Client.{M, get_volume, update_volume}
use infinibox_csi_driver.Volumes.Hosts.{validate_host}
use infinibox_csi_driver.Fc.Publish.{PublishRequest, ports_of, publish_listed}
use infinibox_csi_driver.Service.Publish.{nvme_host_suffix}

abbrev pub nvme_context : Host → LunInfo → Params
nvme_context host lun =
    (lun_publish_context, itoa lun.lun)
    ∷ (host_id_publish_context, itoa host.id)
    ∷ (host_ports_publish_context, ports_of (lit "NVME") host.ports)
    ∷ []

-- The host has a name of its own for NVMe. At the limit the error is Internal, as all the others are.
module _ (env : Env) (remove_domain : Str) (req : PublishRequest) where
  abbrev pub nvme_publish_volume : ℤ → Answer Volume → M Params
  nvme_publish_volume id (err e) = throw (to_implementation Code.not_found e)
  nvme_publish_volume id (ok volume) = do
    from_answer internally (is_valid_access_mode volume.write_protected req.mode)
    name ← from_answer internally (determine_host_name remove_domain req.node_id)
    host ← wrapping (validate_host env remove_domain (name ++ nvme_host_suffix)) internally
    wrapping (publish_listed env req nvme_context nvme_context id host) internally

unfoldable pub nvme_publish : Env → Str → PublishRequest → M Params
nvme_publish env remove_domain req = do
  config ← from_answer (to_implementation Code.not_found) (validate_volume_id req.volume_id)
  get_volume env config.volume_id >>= nvme_publish_volume env remove_domain req config.volume_id

-- A block device needs no expansion on the node.
unfoldable pub nvme_expand : Env → VolumeConfig → (capacity : ℤ) → (block : Bool) → M (ℤ × Bool)
nvme_expand env config capacity block = do
  or_fail (update_volume env config.volume_id capacity) internally
  pure (capacity, not block)
