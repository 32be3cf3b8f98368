-- ===== src/Ibox/Calls.antt =====
-- The calls that the driver makes: methods of iboxapi.Client, and of the Kubernetes client
-- (api/clientgo/goclient.go). The arguments are those that reach the appliance.
use infinibox_csi_driver.Prelude.{List}
use infinibox_csi_driver.Prelude.Int.{ℤ}
use infinibox_csi_driver.Strings.{Str}
use infinibox_csi_driver.Ibox.Types.{
  Permission, CreateVolumeRequest, SnapshotRequest, CreateFileSystemRequest, CreateTreeqRequest,
  ReplicaRequest, ExportRequest, GroupRequest, CreateConsistencyGroupRequest, CreateReplicaRequest,
  CreateSnapshotGroupRequest,
}

pub data Call : Type 0 where
  -- volumes
  get_volume get_volumes_by_parent_id delete_volume promote_snapshot : ℤ → Call
  get_volume_by_name : Str → Call
  create_volume : CreateVolumeRequest → Call
  update_volume : (id size : ℤ) → Call
  create_snapshot_volume : SnapshotRequest → Call
  -- pools, network spaces, system
  get_pool_by_name get_network_space_by_name : Str → Call
  get_pool_by_id : ℤ → Call
  get_features get_ntp_status get_max_treeq_per_fs : Call
  -- hosts
  get_host_by_name create_host : Str → Call
  delete_host get_all_lun_by_host : ℤ → Call
  map_volume_to_host get_lun_by_host_volume unmap_volume_from_host : (host volume : ℤ) → Call
  -- file systems and treeqs
  get_file_system_by_id get_file_systems_by_parent_id delete_file_system : ℤ → Call
  get_file_system_by_name : Str → Call
  get_file_systems_by_pool : ℤ → Str → Call
  create_file_system : CreateFileSystemRequest → Call
  update_file_system : (id size : ℤ) → Call
  create_file_system_snapshot : SnapshotRequest → Call
  get_treeqs_by_file_system : ℤ → Call
  get_treeq delete_treeq : (filesystem treeq : ℤ) → Call
  get_treeq_by_name : ℤ → Str → Call
  create_treeq : ℤ → CreateTreeqRequest → Call
  update_treeq : (filesystem treeq size : ℤ) → Call
  -- exports
  get_exports_by_file_system_id get_export_by_id delete_export : ℤ → Call
  create_export : ExportRequest → Call
  update_export_permissions : ℤ → List Permission → Call
  -- metadata: the object and the keys that are set
  put_metadata : ℤ → List Str → Call
  put_treeq_count : (filesystem count : ℤ) → Call
  get_metadata delete_metadata : ℤ → Call
  -- links and replicas
  get_links get_replicas : Call
  get_link delete_replica : ℤ → Call
  get_replica_for_local_entity_name : Str → Call
  create_entity_replica : CreateReplicaRequest → Call
  -- consistency groups
  get_consistency_group_by_name : Str → Call
  get_consistency_group get_members_by_cg_id delete_consistency_group : ℤ → Call
  create_consistency_group : CreateConsistencyGroupRequest → Call
  add_member_to_snapshot_group : (volume group : ℤ) → Call
  add_member_to_cg : (volume group : ℤ) (name : Str) → Call
  remove_member_from_cg : (group volume : ℤ) → Call
  create_snapshot_group : CreateSnapshotGroupRequest → Call
  get_all_snapshots : Call
  -- Kubernetes
  get_all_persistent_volumes get_nodes : Call
  get_secret get_pvc get_pvc_annotations : (name namespace : Str) → Call
  get_secret_contains_name : (namespace name : Str) → Call
  get_storage_class get_running_pods get_secrets : Str → Call
  exec_in_pod : (pod namespace command : Str) → Call
  create_replica : ReplicaRequest → Call
  create_group_change : GroupRequest → Call
