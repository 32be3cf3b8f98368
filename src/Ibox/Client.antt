-- ===== src/Ibox/Client.antt =====
-- The calls as actions: each is put on the history, and answered from the history before it.
use infinibox_csi_driver.Prelude.{List, ◌∷◌, Option, none, some}
use infinibox_csi_driver.Prelude.Int.{ℤ}
use infinibox_csi_driver.Strings.{Str}
use infinibox_csi_driver.Exec.{Answer, Err, Exec, done, pure, throw, ◌>>=◌}
use infinibox_csi_driver.Ibox.Types.{
  Volume, Pool, LunInfo, Host, FileSystem, Treeq, Permission, Export, Snapshot, CreateVolumeRequest,
  SnapshotRequest, CreateFileSystemRequest, CreateTreeqRequest, ExportRequest, NetworkSpace,
  Feature, Listing, Link, Replica, CreateReplicaRequest, ConsistencyGroup, GroupMember,
  CreateConsistencyGroupRequest, CreateSnapshotGroupRequest, SnapshotInfo,
}
use infinibox_csi_driver.Ibox.Calls.{Call}
use infinibox_csi_driver.Ibox.Surroundings.{History, Env}

-- A handler over the appliance.
abbrev pub M {ℓ} : Type ℓ → Type ℓ
M A = Exec History A

abbrev ask {ℓ} : {A : Type ℓ} → Call → (History → A) → M A
ask c answer h = (done (answer h), c ∷ h)

-- `items, err := f(); if err != nil { return nil, wrap(err) }`
abbrev pub from_listing {ℓ} : {A : Type ℓ} → (Err → Err) → List A → Option Err → M (List A)
from_listing wrap items none = pure items
from_listing wrap items (some e) = throw (wrap e)

abbrev pub list_or_fail {ℓ} : {A : Type ℓ} → M (Listing A) → (Err → Err) → M (List A)
list_or_fail m wrap = m >>= λ l. from_listing wrap l.items l.error

module _ (env : Env) where
  abbrev pub current_time : M ℤ
  current_time h = (done (env.clock h), h)

  abbrev pub get_volume : ℤ → M (Answer Volume)
  get_volume a = ask (Call.get_volume a) (λ h. env.get_volume h a)

  abbrev pub get_volumes_by_parent_id : ℤ → M (Listing Volume)
  get_volumes_by_parent_id a =
      ask (Call.get_volumes_by_parent_id a) (λ h. env.get_volumes_by_parent_id h a)

  abbrev pub delete_volume : ℤ → M (Answer (Unit {0}))
  delete_volume a = ask (Call.delete_volume a) (λ h. env.delete_volume h a)

  abbrev pub promote_snapshot : ℤ → M (Answer (Unit {0}))
  promote_snapshot a = ask (Call.promote_snapshot a) (λ h. env.promote_snapshot h a)

  abbrev pub get_volume_by_name : Str → M (Answer Volume)
  get_volume_by_name a = ask (Call.get_volume_by_name a) (λ h. env.get_volume_by_name h a)

  abbrev pub create_volume : CreateVolumeRequest → M (Answer Volume)
  create_volume a = ask (Call.create_volume a) (λ h. env.create_volume h a)

  abbrev pub update_volume : ℤ → ℤ → M (Answer (Unit {0}))
  update_volume a b = ask (Call.update_volume a b) (λ h. env.update_volume h a b)

  abbrev pub create_snapshot_volume : SnapshotRequest → M (Answer Snapshot)
  create_snapshot_volume a =
      ask (Call.create_snapshot_volume a) (λ h. env.create_snapshot_volume h a)

  abbrev pub get_pool_by_name : Str → M (Answer Pool)
  get_pool_by_name a = ask (Call.get_pool_by_name a) (λ h. env.get_pool_by_name h a)

  abbrev pub get_pool_by_id : ℤ → M (Answer Pool)
  get_pool_by_id a = ask (Call.get_pool_by_id a) (λ h. env.get_pool_by_id h a)

  abbrev pub get_network_space_by_name : Str → M (Answer NetworkSpace)
  get_network_space_by_name a =
      ask (Call.get_network_space_by_name a) (λ h. env.get_network_space_by_name h a)

  abbrev pub get_features : M (Answer (List Feature))
  get_features = ask Call.get_features (λ h. env.get_features h)

  abbrev pub get_ntp_status : M (Answer (List ℤ))
  get_ntp_status = ask Call.get_ntp_status (λ h. env.get_ntp_status h)

  abbrev pub get_max_treeq_per_fs : M (Answer ℤ)
  get_max_treeq_per_fs = ask Call.get_max_treeq_per_fs (λ h. env.get_max_treeq_per_fs h)

  abbrev pub get_link : ℤ → M (Answer Link)
  get_link a = ask (Call.get_link a) (λ h. env.get_link h a)

  abbrev pub get_replicas : M (Answer (List Replica))
  get_replicas = ask Call.get_replicas (λ h. env.get_replicas h)

  abbrev pub get_replica_for_local_entity_name : Str → M (Answer Replica)
  get_replica_for_local_entity_name a =
      ask (Call.get_replica_for_local_entity_name a)
        (λ h. env.get_replica_for_local_entity_name h a)

  abbrev pub delete_replica : ℤ → M (Answer (Unit {0}))
  delete_replica a = ask (Call.delete_replica a) (λ h. env.delete_replica h a)

  abbrev pub create_entity_replica : CreateReplicaRequest → M (Answer (Unit {0}))
  create_entity_replica a = ask (Call.create_entity_replica a) (λ h. env.create_entity_replica h a)

  abbrev pub get_links : M (Answer (List Link))
  get_links = ask Call.get_links (λ h. env.get_links h)

  abbrev pub get_consistency_group_by_name : Str → M (Answer ConsistencyGroup)
  get_consistency_group_by_name a =
      ask (Call.get_consistency_group_by_name a) (λ h. env.get_consistency_group_by_name h a)

  abbrev pub get_consistency_group : ℤ → M (Answer ConsistencyGroup)
  get_consistency_group a = ask (Call.get_consistency_group a) (λ h. env.get_consistency_group h a)

  abbrev pub get_members_by_cg_id : ℤ → M (Answer (List GroupMember))
  get_members_by_cg_id a = ask (Call.get_members_by_cg_id a) (λ h. env.get_members_by_cg_id h a)

  abbrev pub delete_consistency_group : ℤ → M (Answer (Unit {0}))
  delete_consistency_group a =
      ask (Call.delete_consistency_group a) (λ h. env.delete_consistency_group h a)

  abbrev pub create_consistency_group : CreateConsistencyGroupRequest → M (Answer ConsistencyGroup)
  create_consistency_group a =
      ask (Call.create_consistency_group a) (λ h. env.create_consistency_group h a)

  abbrev pub add_member_to_snapshot_group : ℤ → ℤ → M (Answer (Unit {0}))
  add_member_to_snapshot_group a b =
      ask (Call.add_member_to_snapshot_group a b) (λ h. env.add_member_to_snapshot_group h a b)

  abbrev pub add_member_to_cg : ℤ → ℤ → Str → M (Answer (Unit {0}))
  add_member_to_cg a b c = ask (Call.add_member_to_cg a b c) (λ h. env.add_member_to_cg h a b c)

  abbrev pub remove_member_from_cg : ℤ → ℤ → M (Answer (Unit {0}))
  remove_member_from_cg a b =
      ask (Call.remove_member_from_cg a b) (λ h. env.remove_member_from_cg h a b)

  abbrev pub create_snapshot_group : CreateSnapshotGroupRequest → M (Answer ConsistencyGroup)
  create_snapshot_group a = ask (Call.create_snapshot_group a) (λ h. env.create_snapshot_group h a)

  abbrev pub get_all_snapshots : M (Answer (List SnapshotInfo))
  get_all_snapshots = ask Call.get_all_snapshots (λ h. env.get_all_snapshots h)

  abbrev pub get_host_by_name : Str → M (Answer Host)
  get_host_by_name a = ask (Call.get_host_by_name a) (λ h. env.get_host_by_name h a)

  abbrev pub create_host : Str → M (Answer Host)
  create_host a = ask (Call.create_host a) (λ h. env.create_host h a)

  abbrev pub delete_host : ℤ → M (Answer (Unit {0}))
  delete_host a = ask (Call.delete_host a) (λ h. env.delete_host h a)

  abbrev pub get_all_lun_by_host : ℤ → M (Listing LunInfo)
  get_all_lun_by_host a = ask (Call.get_all_lun_by_host a) (λ h. env.get_all_lun_by_host h a)

  abbrev pub map_volume_to_host : ℤ → ℤ → M (Answer LunInfo)
  map_volume_to_host a b = ask (Call.map_volume_to_host a b) (λ h. env.map_volume_to_host h a b)

  abbrev pub get_lun_by_host_volume : ℤ → ℤ → M (Answer LunInfo)
  get_lun_by_host_volume a b =
      ask (Call.get_lun_by_host_volume a b) (λ h. env.get_lun_by_host_volume h a b)

  abbrev pub unmap_volume_from_host : ℤ → ℤ → M (Answer (Unit {0}))
  unmap_volume_from_host a b =
      ask (Call.unmap_volume_from_host a b) (λ h. env.unmap_volume_from_host h a b)

  abbrev pub get_file_system_by_id : ℤ → M (Answer FileSystem)
  get_file_system_by_id a = ask (Call.get_file_system_by_id a) (λ h. env.get_file_system_by_id h a)

  abbrev pub get_file_systems_by_parent_id : ℤ → M (Listing FileSystem)
  get_file_systems_by_parent_id a =
      ask (Call.get_file_systems_by_parent_id a) (λ h. env.get_file_systems_by_parent_id h a)

  abbrev pub delete_file_system : ℤ → M (Answer (Unit {0}))
  delete_file_system a = ask (Call.delete_file_system a) (λ h. env.delete_file_system h a)

  abbrev pub get_file_system_by_name : Str → M (Answer FileSystem)
  get_file_system_by_name a =
      ask (Call.get_file_system_by_name a) (λ h. env.get_file_system_by_name h a)

  abbrev pub get_file_systems_by_pool : ℤ → Str → M (Listing FileSystem)
  get_file_systems_by_pool a b =
      ask (Call.get_file_systems_by_pool a b) (λ h. env.get_file_systems_by_pool h a b)

  abbrev pub create_file_system : CreateFileSystemRequest → M (Answer FileSystem)
  create_file_system a = ask (Call.create_file_system a) (λ h. env.create_file_system h a)

  abbrev pub update_file_system : ℤ → ℤ → M (Answer (Unit {0}))
  update_file_system a b = ask (Call.update_file_system a b) (λ h. env.update_file_system h a b)

  abbrev pub create_file_system_snapshot : SnapshotRequest → M (Answer Snapshot)
  create_file_system_snapshot a =
      ask (Call.create_file_system_snapshot a) (λ h. env.create_file_system_snapshot h a)

  abbrev pub get_treeqs_by_file_system : ℤ → M (Listing Treeq)
  get_treeqs_by_file_system a =
      ask (Call.get_treeqs_by_file_system a) (λ h. env.get_treeqs_by_file_system h a)

  abbrev pub get_treeq : ℤ → ℤ → M (Answer Treeq)
  get_treeq a b = ask (Call.get_treeq a b) (λ h. env.get_treeq h a b)

  abbrev pub delete_treeq : ℤ → ℤ → M (Answer (Unit {0}))
  delete_treeq a b = ask (Call.delete_treeq a b) (λ h. env.delete_treeq h a b)

  abbrev pub get_treeq_by_name : ℤ → Str → M (Answer Treeq)
  get_treeq_by_name a b = ask (Call.get_treeq_by_name a b) (λ h. env.get_treeq_by_name h a b)

  abbrev pub create_treeq : ℤ → CreateTreeqRequest → M (Answer Treeq)
  create_treeq a b = ask (Call.create_treeq a b) (λ h. env.create_treeq h a b)

  abbrev pub update_treeq : ℤ → ℤ → ℤ → M (Answer (Unit {0}))
  update_treeq a b c = ask (Call.update_treeq a b c) (λ h. env.update_treeq h a b c)

  abbrev pub get_exports_by_file_system_id : ℤ → M (Listing Export)
  get_exports_by_file_system_id a =
      ask (Call.get_exports_by_file_system_id a) (λ h. env.get_exports_by_file_system_id h a)

  abbrev pub get_export_by_id : ℤ → M (Answer Export)
  get_export_by_id a = ask (Call.get_export_by_id a) (λ h. env.get_export_by_id h a)

  abbrev pub delete_export : ℤ → M (Answer (Unit {0}))
  delete_export a = ask (Call.delete_export a) (λ h. env.delete_export h a)

  abbrev pub create_export : ExportRequest → M (Answer Export)
  create_export a = ask (Call.create_export a) (λ h. env.create_export h a)

  abbrev pub update_export_permissions : ℤ → List Permission → M (Answer Export)
  update_export_permissions a b =
      ask (Call.update_export_permissions a b) (λ h. env.update_export_permissions h a b)

  abbrev pub put_metadata : ℤ → List Str → M (Answer (Unit {0}))
  put_metadata a b = ask (Call.put_metadata a b) (λ h. env.put_metadata h a b)

  abbrev pub put_treeq_count : ℤ → ℤ → M (Answer (Unit {0}))
  put_treeq_count a b = ask (Call.put_treeq_count a b) (λ h. env.put_treeq_count h a b)

  abbrev pub get_metadata : ℤ → M (Answer (List Str))
  get_metadata a = ask (Call.get_metadata a) (λ h. env.get_metadata h a)

  abbrev pub delete_metadata : ℤ → M (Answer (Unit {0}))
  delete_metadata a = ask (Call.delete_metadata a) (λ h. env.delete_metadata h a)
