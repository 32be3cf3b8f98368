-- ===== src/Ibox/Surroundings.antt =====
-- The surroundings of the driver as a parameter: the appliance's answers, each any function of the
-- calls made before.
use infinibox_csi_driver.Prelude.{List}
use infinibox_csi_driver.Prelude.Int.{ℤ}
use infinibox_csi_driver.Strings.{Str}
use infinibox_csi_driver.Exec.{Answer}
use infinibox_csi_driver.Ibox.Types.{
  Volume, Pool, LunInfo, Host, FileSystem, Treeq, Permission, Export, Snapshot, CreateVolumeRequest,
  SnapshotRequest, CreateFileSystemRequest, CreateTreeqRequest, ExportRequest, NetworkSpace,
  Feature, Listing, Link, Replica, CreateReplicaRequest, ConsistencyGroup, GroupMember,
  CreateConsistencyGroupRequest, CreateSnapshotGroupRequest, SnapshotInfo,
}
use infinibox_csi_driver.Ibox.Calls.{Call}

-- The calls made so far, the latest first.
abbrev pub History : Type 0
History = List Call

pub record Env : Type 0 where
  -- `time.Unix(t, 0).String()`, and the clock that `timestamppb.Now()` reads
  pub format_time : ℤ → Str
  pub clock : History → ℤ
  pub get_volume : History → ℤ → Answer Volume
  pub get_volumes_by_parent_id : History → ℤ → Listing Volume
  pub delete_volume : History → ℤ → Answer (Unit {0})
  pub promote_snapshot : History → ℤ → Answer (Unit {0})
  pub get_volume_by_name : History → Str → Answer Volume
  pub create_volume : History → CreateVolumeRequest → Answer Volume
  pub update_volume : History → ℤ → ℤ → Answer (Unit {0})
  pub create_snapshot_volume : History → SnapshotRequest → Answer Snapshot
  pub get_pool_by_name : History → Str → Answer Pool
  pub get_pool_by_id : History → ℤ → Answer Pool
  pub get_network_space_by_name : History → Str → Answer NetworkSpace
  pub get_features : History → Answer (List Feature)
  -- the `last_probe_timestamp` of each NTP server
  pub get_ntp_status : History → Answer (List ℤ)
  pub get_max_treeq_per_fs : History → Answer ℤ
  pub get_links : History → Answer (List Link)
  pub get_link : History → ℤ → Answer Link
  pub get_replicas : History → Answer (List Replica)
  pub get_replica_for_local_entity_name : History → Str → Answer Replica
  pub delete_replica : History → ℤ → Answer (Unit {0})
  pub create_entity_replica : History → CreateReplicaRequest → Answer (Unit {0})
  pub get_consistency_group_by_name : History → Str → Answer ConsistencyGroup
  pub get_consistency_group : History → ℤ → Answer ConsistencyGroup
  pub get_members_by_cg_id : History → ℤ → Answer (List GroupMember)
  pub delete_consistency_group : History → ℤ → Answer (Unit {0})
  pub create_consistency_group : History → CreateConsistencyGroupRequest → Answer ConsistencyGroup
  pub add_member_to_snapshot_group : History → (volume group : ℤ) → Answer (Unit {0})
  pub add_member_to_cg : History → (volume group : ℤ) (name : Str) → Answer (Unit {0})
  pub remove_member_from_cg : History → (group volume : ℤ) → Answer (Unit {0})
  pub create_snapshot_group : History → CreateSnapshotGroupRequest → Answer ConsistencyGroup
  pub get_all_snapshots : History → Answer (List SnapshotInfo)
  pub get_host_by_name : History → Str → Answer Host
  pub create_host : History → Str → Answer Host
  pub delete_host : History → ℤ → Answer (Unit {0})
  pub get_all_lun_by_host : History → ℤ → Listing LunInfo
  pub map_volume_to_host : History → ℤ → ℤ → Answer LunInfo
  pub get_lun_by_host_volume : History → ℤ → ℤ → Answer LunInfo
  pub unmap_volume_from_host : History → ℤ → ℤ → Answer (Unit {0})
  pub get_file_system_by_id : History → ℤ → Answer FileSystem
  pub get_file_systems_by_parent_id : History → ℤ → Listing FileSystem
  pub delete_file_system : History → ℤ → Answer (Unit {0})
  pub get_file_system_by_name : History → Str → Answer FileSystem
  pub get_file_systems_by_pool : History → ℤ → Str → Listing FileSystem
  pub create_file_system : History → CreateFileSystemRequest → Answer FileSystem
  pub update_file_system : History → ℤ → ℤ → Answer (Unit {0})
  pub create_file_system_snapshot : History → SnapshotRequest → Answer Snapshot
  pub get_treeqs_by_file_system : History → ℤ → Listing Treeq
  pub get_treeq : History → ℤ → ℤ → Answer Treeq
  pub delete_treeq : History → ℤ → ℤ → Answer (Unit {0})
  pub get_treeq_by_name : History → ℤ → Str → Answer Treeq
  pub create_treeq : History → ℤ → CreateTreeqRequest → Answer Treeq
  pub update_treeq : History → ℤ → ℤ → ℤ → Answer (Unit {0})
  pub get_exports_by_file_system_id : History → ℤ → Listing Export
  pub get_export_by_id : History → ℤ → Answer Export
  pub delete_export : History → ℤ → Answer (Unit {0})
  pub create_export : History → ExportRequest → Answer Export
  pub update_export_permissions : History → ℤ → List Permission → Answer Export
  pub put_metadata : History → ℤ → List Str → Answer (Unit {0})
  pub put_treeq_count : History → ℤ → ℤ → Answer (Unit {0})
  -- the keys that an object has
  pub get_metadata : History → ℤ → Answer (List Str)
  pub delete_metadata : History → ℤ → Answer (Unit {0})
