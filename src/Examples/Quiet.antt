-- ===== src/Examples/Quiet.antt =====
-- An appliance that knows no object, and objects for the examples.
use infinibox_csi_driver.Prelude.{none, false, true, [], ◌∷◌}
use infinibox_csi_driver.Prelude.Int.{pos}
use infinibox_csi_driver.Strings.{lit}
use infinibox_csi_driver.Exec.{Err, Shape, err, ok}
use infinibox_csi_driver.Ibox.{Volume, Pool, Host, LunInfo, Env}

abbrev pub gone : Err
gone = record {
  shape = Shape.plain;
  is_not_found = true;
  is_mapping_exists = false;
  text = lit "NOT_FOUND";
}

abbrev pub quiet : Env
quiet = record {
  format_time = λ _. [];
  clock = λ _. pos 1700000000;
  get_volume = λ _ _. err gone;
  get_volumes_by_parent_id = λ _ _. record { items = []; error = none };
  delete_volume = λ _ _. err gone;
  promote_snapshot = λ _ _. err gone;
  get_volume_by_name = λ _ _. err gone;
  create_volume = λ _ _. err gone;
  update_volume = λ _ _ _. err gone;
  create_snapshot_volume = λ _ _. err gone;
  get_pool_by_name = λ _ _. err gone;
  get_pool_by_id = λ _ _. err gone;
  get_network_space_by_name = λ _ _. err gone;
  get_features = λ _. err gone;
  get_ntp_status = λ _. err gone;
  get_max_treeq_per_fs = λ _. err gone;
  get_links = λ _. err gone;
  get_link = λ _ _. err gone;
  get_replicas = λ _. err gone;
  get_replica_for_local_entity_name = λ _ _. err gone;
  delete_replica = λ _ _. err gone;
  create_entity_replica = λ _ _. err gone;
  get_consistency_group_by_name = λ _ _. err gone;
  get_consistency_group = λ _ _. err gone;
  get_members_by_cg_id = λ _ _. err gone;
  delete_consistency_group = λ _ _. err gone;
  create_consistency_group = λ _ _. err gone;
  add_member_to_snapshot_group = λ _ _ _. err gone;
  add_member_to_cg = λ _ _ _ _. err gone;
  remove_member_from_cg = λ _ _ _. err gone;
  create_snapshot_group = λ _ _. err gone;
  get_all_snapshots = λ _. err gone;
  get_host_by_name = λ _ _. err gone;
  create_host = λ _ _. err gone;
  delete_host = λ _ _. err gone;
  get_all_lun_by_host = λ _ _. record { items = []; error = none };
  map_volume_to_host = λ _ _ _. err gone;
  get_lun_by_host_volume = λ _ _ _. err gone;
  unmap_volume_from_host = λ _ _ _. err gone;
  get_file_system_by_id = λ _ _. err gone;
  get_file_systems_by_parent_id = λ _ _. record { items = []; error = none };
  delete_file_system = λ _ _. err gone;
  get_file_system_by_name = λ _ _. err gone;
  get_file_systems_by_pool = λ _ _ _. record { items = []; error = none };
  create_file_system = λ _ _. err gone;
  update_file_system = λ _ _ _. err gone;
  create_file_system_snapshot = λ _ _. err gone;
  get_treeqs_by_file_system = λ _ _. record { items = []; error = none };
  get_treeq = λ _ _ _. err gone;
  delete_treeq = λ _ _ _. err gone;
  get_treeq_by_name = λ _ _ _. err gone;
  create_treeq = λ _ _ _. err gone;
  update_treeq = λ _ _ _ _. err gone;
  get_exports_by_file_system_id = λ _ _. record { items = []; error = none };
  get_export_by_id = λ _ _. err gone;
  delete_export = λ _ _. err gone;
  create_export = λ _ _. err gone;
  update_export_permissions = λ _ _ _. err gone;
  put_metadata = λ _ _ _. err gone;
  put_treeq_count = λ _ _ _. err gone;
  get_metadata = λ _ _. err gone;
  delete_metadata = λ _ _. err gone;
}

abbrev pub data_volume : Volume
data_volume = record {
  id = pos 7;
  name = lit "data";
  size = pos 1073741824;
  pool_id = pos 3;
  pool_name = lit "fast";
  parent_id = pos 0;
  ssd_enabled = true;
  write_protected = false;
  lock_state = lit "UNLOCKED";
  cg_id = pos 0;
  created_at = pos 1600000000;
}

abbrev pub fast_pool : Pool
fast_pool = record { id = pos 3; name = lit "fast"; ssd_enabled = true }

abbrev pub worker : Host
worker = record { id = pos 11; name = lit "worker"; ports = []; luns = []; security_method = [] }

abbrev pub data_lun : LunInfo
data_lun = record { lun = pos 4; volume_id = pos 7 }

-- An appliance with one volume, its pool, and a host that has it mapped as LUN 4.
abbrev pub stocked : Env
stocked = record quiet {
  get_volume = λ _ _. ok data_volume;
  get_volume_by_name = λ _ _. ok data_volume;
  get_pool_by_name = λ _ _. ok fast_pool;
  get_pool_by_id = λ _ _. ok fast_pool;
  get_host_by_name = λ _ _. ok worker;
  get_all_lun_by_host = λ _ _. record { items = data_lun ∷ []; error = none };
}
