-- ===== src/Service/Operations.antt =====
-- The storage controllers behind one interface, and the choice among them: StorageOperations,
-- NewStorageController and NewStorageNode (storage/storageservice.go), and BuildCommonService
-- (storage/common/common.go).
use infinibox_csi_driver.Prelude.{Bool, Option, List, ltb, length, if◌then◌else◌}
use infinibox_csi_driver.Prelude.Int.{ℤ}
use infinibox_csi_driver.Strings.{Str, str_eq}
use infinibox_csi_driver.Exec.{Answer, ok, err, plain_error}
use infinibox_csi_driver.Params.{
  Params, protocol_fc, protocol_iscsi, protocol_nvme, protocol_nfs, protocol_treeq,
}
use infinibox_csi_driver.VolumeId.{VolumeConfig}
use infinibox_csi_driver.Capability.{Capability}
use infinibox_csi_driver.Ibox.{Host, Env}
use infinibox_csi_driver.Ibox.Client.{M}
use infinibox_csi_driver.Cluster.{Cluster}
use infinibox_csi_driver.Volumes.Response.{CreateRequest, CsiVolume}
use infinibox_csi_driver.Volumes.Snapshots.{CreateSnapshotRequest, CsiSnapshot}
use infinibox_csi_driver.Fc.Publish.{PublishRequest}

-- csi.CreateVolumeRequest, with the parts that the service or a file controller looks at.
pub record VolumeRequest : Type 0 where
  pub request : CreateRequest
  pub capabilities : Option (List Capability)
  pub secrets : Params
  pub required_bytes : Option ℤ

-- What the service calls of a storage controller. `unpublish` has the host and the node that the
-- service puts into the volume's configuration; `expand` has the request's
-- capacity, and whether its capability is for a block device.
pub record Operations : Type 0 where
  pub validate_storage_class : Params → Answer (Unit {0})
  pub create : VolumeRequest → M CsiVolume
  pub delete : Str → M (Unit {0})
  pub publish : PublishRequest → M Params
  pub unpublish : Option Host → (node_id volume_id : Str) → M (Unit {0})
  pub create_snapshot : CreateSnapshotRequest → M CsiSnapshot
  pub delete_snapshot : Str → M (Unit {0})
  pub expand : (volume_id : Str) (required : ℤ) (block : Bool) → M (ℤ × Bool)

abbrev pub Controller : Type 0
Controller = Env → VolumeConfig → (capacity : ℤ) → Operations

pub record Controllers : Type 0 where
  pub fc : Controller
  pub iscsi : Controller
  pub nvme : Controller
  pub nfs : Controller
  pub treeq : Controller

-- NewStorageNode
unfoldable pub new_storage_node : Controllers → (storage_type : Str) → Answer Controller
new_storage_node c kind =
    if str_eq kind protocol_fc
    then ok c.fc
    else if str_eq kind protocol_iscsi
    then ok c.iscsi
    else if str_eq kind protocol_nvme
    then ok c.nvme
    else if str_eq kind protocol_nfs
    then ok c.nfs
    else if str_eq kind protocol_treeq
    then ok c.treeq
    else err plain_error

-- BuildCommonService: the appliance that the secrets lead to.
unfoldable pub build_common_service : Cluster → (secrets : Params) → Answer Env
build_common_service k secrets =
    if ltb (length secrets) 3
    then err plain_error
    else if k.reaches secrets
    then ok (k.appliance secrets)
    else err plain_error

abbrev pub with_controller : Env → VolumeConfig → ℤ → Answer Controller → Answer (Env × Operations)
with_controller env config capacity (err e) = err e
with_controller env config capacity (ok c) = ok (env, c env config capacity)

abbrev pub with_service : Controllers → VolumeConfig → ℤ → Answer Env → Answer (Env × Operations)
with_service c config capacity (err e) = err e
with_service c config capacity (ok env) =
    with_controller env config capacity (new_storage_node c config.storage_type)

-- NewStorageController: the appliance, and the operations on it.
unfoldable pub new_storage_controller :
    Cluster
    → Controllers
    → (secrets : Params) → VolumeConfig
    → (capacity : ℤ) → Answer (Env × Operations)
new_storage_controller k c secrets config capacity =
    with_service c config capacity (build_common_service k secrets)
