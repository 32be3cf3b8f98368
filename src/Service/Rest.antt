-- ===== src/Service/Rest.antt =====
-- CreateSnapshot, ControllerExpandVolume with validateExpandVolumeRequest, and
-- ValidateVolumeCapabilities of service/controller.go.
use infinibox_csi_driver.Prelude.{
  Bool, Option, none, some, List, [], ◌∷◌, ◌||◌, is_empty, if◌then◌else◌,
}
use infinibox_csi_driver.Prelude.Int.{ℤ, pos}
use infinibox_csi_driver.Strings.{Str, str_eq}
use infinibox_csi_driver.Strings.Decimal.{itoa}
use infinibox_csi_driver.Exec.{
  Answer, ok, err, Code, status_error, to_status, pure, throw, from_answer, or_fail, wrapping,
  ◌>>=◌, ◌>>◌,
}
use infinibox_csi_driver.Params.{Params, value, storage_protocol, protocol_nfs, protocol_treeq}
use infinibox_csi_driver.VolumeId.{validate_volume_id}
use infinibox_csi_driver.Capability.{Capability}
use infinibox_csi_driver.Capacity.{expand_capacity}
use infinibox_csi_driver.Ibox.{Env}
use infinibox_csi_driver.Ibox.Client.{M, get_file_system_by_id, get_volume}
use infinibox_csi_driver.Cluster.{Cluster}
use infinibox_csi_driver.Volumes.Snapshots.{CreateSnapshotRequest, CsiSnapshot}
use infinibox_csi_driver.Service.Secrets.{get_protocol_secret, validate_secret}
use infinibox_csi_driver.Service.Operations.{
  Controllers, build_common_service, new_storage_controller,
}

-- CreateSnapshot
unfoldable pub service_create_snapshot :
    Cluster → Controllers → (secrets : Params) → CreateSnapshotRequest → M CsiSnapshot
service_create_snapshot k c secrets req = do
  config ← from_answer (to_status Code.invalid_argument) (validate_volume_id req.source_volume_id)
  made ← from_answer (to_status Code.internal) (new_storage_controller k c secrets config (pos 0))
  wrapping (made.1.create_snapshot req) (to_status Code.internal)

-- validateExpandVolumeRequest, with the required bytes of the capacity range.
unfoldable pub validate_expand : (volume_id : Str) → (range : Option ℤ) → Answer ℤ
validate_expand volume_id none = err (status_error Code.invalid_argument)
validate_expand volume_id (some required) =
    if is_empty volume_id then err (status_error Code.invalid_argument) else ok required

-- ControllerExpandVolume. The identifier that the controller sees is the number alone.
unfoldable pub service_expand :
    Cluster
    → Controllers
    → (secrets : Params) → (volume_id : Str) → (range : Option ℤ) → (block : Bool) → M (ℤ × Bool)
service_expand k c secrets volume_id range block = do
  required ← from_answer (to_status Code.invalid_argument) (validate_expand volume_id range)
  config ← from_answer (to_status Code.invalid_argument) (validate_volume_id volume_id)
  from_answer (to_status Code.invalid_argument) (validate_secret secrets)
  made ←
      from_answer (to_status Code.internal)
        (new_storage_controller k c secrets config (expand_capacity required))
  wrapping (made.1.expand (itoa config.volume_id) required block) (to_status Code.internal)

abbrev pub capabilities_given : Option (List Capability) → Answer (List Capability)
capabilities_given none = err (status_error Code.invalid_argument)
capabilities_given (some []) = err (status_error Code.invalid_argument)
capabilities_given (some (c ∷ cs)) = ok (c ∷ cs)

-- The protocol secret, where one is in use, names the protocol instead of the parameters.
abbrev pub secret_protocol : (params : Params) → Option Params → Str
secret_protocol params none = value params storage_protocol
secret_protocol params (some secret) = value secret storage_protocol

abbrev pub object_exists : Env → (protocol : Str) → ℤ → M (Unit {0})
object_exists env protocol id =
    if str_eq protocol protocol_nfs || str_eq protocol protocol_treeq
    then (or_fail (get_file_system_by_id env id) (to_status Code.not_found) >>= λ _. pure tt)
    else (or_fail (get_volume env id) (to_status Code.not_found) >>= λ _. pure tt)

-- ValidateVolumeCapabilities confirms the capabilities of any volume that exists.
unfoldable pub validate_volume_capabilities :
    Cluster
    → (secrets params : Params) → (volume_id : Str) → Option (List Capability)
    → M (List Capability)
validate_volume_capabilities k secrets params volume_id capabilities =
    if is_empty volume_id then throw (status_error Code.invalid_argument) else (do
      confirmed ← from_answer (λ e. e) (capabilities_given capabilities)
      config ← from_answer (to_status Code.invalid_argument) (validate_volume_id volume_id)
      env ← from_answer (to_status Code.internal) (build_common_service k secrets)
      secret ← wrapping (get_protocol_secret k) (to_status Code.internal)
      object_exists env (secret_protocol params secret) config.volume_id
      pure confirmed)
