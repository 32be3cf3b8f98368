-- ===== src/Ibox/Types.antt =====
-- The structs of iboxapi, with the fields that the modelled code reads.
use infinibox_csi_driver.Prelude.{Bool, Option, List}
use infinibox_csi_driver.Prelude.Int.{ℤ}
use infinibox_csi_driver.Strings.{Str}
use infinibox_csi_driver.Exec.{Err}

pub record Volume : Type 0 where
  pub id : ℤ
  pub name : Str
  pub size : ℤ
  pub pool_id : ℤ
  pub pool_name : Str
  pub parent_id : ℤ
  pub ssd_enabled : Bool
  pub write_protected : Bool
  pub lock_state : Str
  pub cg_id : ℤ
  pub created_at : ℤ

pub record Pool : Type 0 where
  pub id : ℤ
  pub name : Str
  pub ssd_enabled : Bool

pub record LunInfo : Type 0 where
  pub lun : ℤ
  pub volume_id : ℤ

pub record Port : Type 0 where
  pub port_type : Str
  pub address : Str

pub record Host : Type 0 where
  pub id : ℤ
  pub name : Str
  pub ports : List Port
  pub luns : List LunInfo
  pub security_method : Str

pub record FileSystem : Type 0 where
  pub id : ℤ
  pub name : Str
  pub size : ℤ
  pub parent_id : ℤ
  pub pool_id : ℤ
  pub ssd_enabled : Bool
  pub lock_state : Str

pub record Treeq : Type 0 where
  pub id : ℤ
  pub filesystem_id : ℤ
  pub path : Str
  pub hard_capacity : ℤ
  pub used_capacity : ℤ

pub record Permission : Type 0 where
  pub access : Str
  pub no_root_squash : Bool
  pub client : Str

pub record Export : Type 0 where
  pub id : ℤ
  pub export_path : Str
  pub permissions : List Permission

-- A value that encoding/json decodes: other values are numbers, null, lists and objects.
pub data Json : Type 0 where
  text : Str → Json
  flag : Bool → Json
  other : Json

-- iboxapi.CreateExportRequest; the permissions are decoded objects.
pub record ExportRequest : Type 0 where
  pub filesystem_id : ℤ
  pub privileged_port : Bool
  pub snapdir_visible : Bool
  pub export_path : Str
  pub permissions : List (List (Str × Json))

pub record Snapshot : Type 0 where
  pub snapshot_id : ℤ
  pub size : ℤ

pub record CreateVolumeRequest : Type 0 where
  pub pool_id : ℤ
  pub volume_size : ℤ
  pub name : Str
  pub provision_type : Str
  pub ssd_enabled : Bool

-- iboxapi.CreateSnapshotVolumeRequest and iboxapi.FileSystemSnapshot, which have the same fields.
pub record SnapshotRequest : Type 0 where
  pub parent_id : ℤ
  pub snapshot_name : Str
  pub write_protected : Bool
  pub ssd_enabled : Bool
  pub lock_expires_at : ℤ

pub record CreateFileSystemRequest : Type 0 where
  pub pool_id : ℤ
  pub name : Str
  pub size : ℤ
  pub provtype : Str
  pub ssd_enabled : Bool

pub record CreateTreeqRequest : Type 0 where
  pub path : Str
  pub name : Str
  pub hard_capacity : ℤ

pub record NetworkSpace : Type 0 where
  pub service : Str
  pub portals : List Str

pub record Feature : Type 0 where
  pub name : Str
  pub enabled : Bool

-- The remote part of an Iboxreplica or an Iboxcg (service/screplica.go): RemoteFields.
pub record RemoteFields : Type 0 where
  pub credential_name : Str
  pub credential_namespace : Str
  pub create_pvc : Option Bool
  pub pvc_name_suffix : Str
  pub pvc_name : Str
  pub pvc_namespace : Str
  pub network_space : Str
  pub pool_name : Str
  pub kubeconfig_name : Str
  pub kubeconfig_namespace : Str

-- An Iboxreplica with its annotations.
pub record ReplicaRequest : Type 0 where
  pub name : Str
  pub secret_name : Str
  pub secret_namespace : Str
  pub entity_type : Str
  pub entity : Str
  pub link : Str
  pub replication_type : Str
  pub remote_pool_id : ℤ
  pub remote : RemoteFields

-- An Iboxcg that adds a volume to a consistency group.
pub record GroupRequest : Type 0 where
  pub name : Str
  pub secret_name : Str
  pub secret_namespace : Str
  pub description : Str
  pub group : Str
  pub volume : Str
  pub remote : RemoteFields

pub record ConsistencyGroup : Type 0 where
  pub id : ℤ
  pub name : Str
  pub members_count : ℤ

-- A volume of a consistency group; the family is that of the volume it is a snapshot of.
pub record GroupMember : Type 0 where
  pub id : ℤ
  pub family_id : ℤ
  pub size : ℤ

pub record CreateConsistencyGroupRequest : Type 0 where
  pub pool_id : ℤ
  pub name : Str

-- A snapshot group; the prefix is the name, and there is no suffix.
pub record CreateSnapshotGroupRequest : Type 0 where
  pub cg_id : ℤ
  pub snap_name : Str

pub record Link : Type 0 where
  pub id : ℤ
  pub name : Str
  pub remote_system_name : Str
  pub remote_link_id : ℤ
  pub link_state : Str

pub record Replica : Type 0 where
  pub id : ℤ
  pub role : Str
  pub state : Str
  pub link_id : ℤ
  pub local_entity_id : ℤ
  pub remote_entity_id : ℤ
  pub local_pool_id : ℤ
  pub remote_pool_id : ℤ
  pub last_synchronized : ℤ
  pub sync_duration : ℤ

-- The other fields of a CreateReplicaRequest are constants.
pub record CreateReplicaRequest : Type 0 where
  pub local_entity_id : ℤ
  pub link_id : ℤ
  pub remote_pool_id : ℤ
  pub remote_entity_name : Str

-- What ListSnapshots reads of a `Volume` that stands for a snapshot of a volume or a file system.
pub record SnapshotInfo : Type 0 where
  pub id : ℤ
  pub name : Str
  pub size : ℤ
  pub parent_id : ℤ
  pub dataset_type : Str
  pub created_at : ℤ

-- A paged query returns the items read so far also beside an error.
pub record Listing {ℓ} (A : Type ℓ) : Type ℓ where
  pub items : List A
  pub error : Option Err
