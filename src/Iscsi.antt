-- ===== src/Iscsi.antt =====
-- ControllerPublishVolume of the iSCSI controller: storage/iscsi/iscsicontroller.go.
pub mod Publish
pub mod Safety
pub mod Create
use infinibox_csi_driver.Prelude.{List, [], ◌∷◌, ◌++◌}
use infinibox_csi_driver.Prelude.Int.{ℤ}
use infinibox_csi_driver.Strings.{Str, lit}
use infinibox_csi_driver.Strings.Decimal.{itoa}
use infinibox_csi_driver.Exec.{
  Answer, ok, err, Err, Code, to_implementation, internally, throw, from_answer, wrapping, ◌>>=◌,
  ◌>>◌,
}
use infinibox_csi_driver.Params.{
  Params, lun_publish_context, host_id_publish_context, host_ports_publish_context,
  security_method_publish_context,
}
use infinibox_csi_driver.VolumeId.{VolumeConfig, validate_volume_id, determine_host_name}
use infinibox_csi_driver.Capability.{is_valid_access_mode}
use infinibox_csi_driver.Ibox.{Volume, LunInfo, Host, Env}
use infinibox_csi_driver.Ibox.Client.{M, get_volume}
use infinibox_csi_driver.Volumes.Hosts.{validate_host}
use infinibox_csi_driver.Fc.Publish.{PublishRequest, ports_of, publish_listed}

-- The answer for a mapping that exists.
abbrev pub iscsi_existing : Host → LunInfo → Params
iscsi_existing host lun =
    (lun_publish_context, itoa lun.lun)
    ∷ (host_id_publish_context, itoa host.id)
    ∷ (host_ports_publish_context, ports_of (lit "ISCSI") host.ports)
    ∷ []

-- The answer for a fresh mapping has the host's security method too.
abbrev pub iscsi_fresh : Host → LunInfo → Params
iscsi_fresh host lun =
    (lun_publish_context, itoa lun.lun)
    ∷ (host_id_publish_context, itoa host.id)
    ∷ (host_ports_publish_context, ports_of (lit "ISCSI") host.ports)
    ∷ (security_method_publish_context, host.security_method)
    ∷ []

module _ (env : Env) (remove_domain : Str) (req : PublishRequest) where
  abbrev pub iscsi_publish_volume : ℤ → Answer Volume → M Params
  iscsi_publish_volume id (err e) = throw (to_implementation Code.not_found e)
  iscsi_publish_volume id (ok volume) = do
    from_answer internally (is_valid_access_mode volume.write_protected req.mode)
    name ← from_answer internally (determine_host_name remove_domain req.node_id)
    host ← wrapping (validate_host env remove_domain name) internally
    publish_listed env req iscsi_existing iscsi_fresh id host

unfoldable pub iscsi_publish : Env → Str → PublishRequest → M Params
iscsi_publish env remove_domain req = do
  config ← from_answer (to_implementation Code.not_found) (validate_volume_id req.volume_id)
  get_volume env config.volume_id >>= iscsi_publish_volume env remove_domain req config.volume_id
