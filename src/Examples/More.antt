-- ===== src/Examples/More.antt =====
-- Exports, file systems and treeqs.
use infinibox_csi_driver.Prelude.{◌≡◌, ◌≢◌, ◌⊎◌, refl, arith, true, false, none, [], ◌∷◌, All, List}
use infinibox_csi_driver.Prelude.Int.{pos}
use infinibox_csi_driver.Strings.{lit}
use infinibox_csi_driver.Exec.{Err, Shape, ok, err, done}
use infinibox_csi_driver.Ibox.{Call, Permission, Export, FileSystem, Treeq, Env}
use infinibox_csi_driver.Ibox.Safety.{Always}
use infinibox_csi_driver.Examples.Quiet.{quiet}
use infinibox_csi_driver.Exports.{delete_node, or_default, delete_export_rule}
use infinibox_csi_driver.Exports.Effect.{WithoutLast, delete_node_effect}
use infinibox_csi_driver.Exports.Twice.{delete_export_rule_twice}
use infinibox_csi_driver.FileSystems.{delete_complete, delete_ancestors}
use infinibox_csi_driver.FileSystems.Safety.{IsMarkChecked, delete_ancestors-IsMarkChecked}
use infinibox_csi_driver.Ibox.Ending.{Ends}
use infinibox_csi_driver.FileSystems.Termination.{delete_ancestors-Ends}
use infinibox_csi_driver.FileSystems.Stops.{delete_complete_export_kept}
use infinibox_csi_driver.Treeqs.{delete_treeq_volume, update_treeq_volume}
use infinibox_csi_driver.Ibox.Returned.{Returned}
use infinibox_csi_driver.Treeqs.Choice.{expected_file_system}
use infinibox_csi_driver.Treeqs.Choice.Room.{IsExpected, expected_file_system-IsExpected}
use infinibox_csi_driver.Treeqs.Removal.{IsRemovalChecked, delete_treeq_volume-IsRemovalChecked}
use infinibox_csi_driver.Treeqs.Growth.{IsGrowthChecked, update_treeq_volume-IsGrowthChecked}

abbrev node_a : Permission
node_a = record { access = lit "RW"; no_root_squash = true; client = lit "10.0.0.1" }

abbrev node_a_again : Permission
node_a_again = record { access = lit "RO"; no_root_squash = true; client = lit "10.0.0.1" }

abbrev export : Export
export = record { id = pos 21; export_path = lit "/data"; permissions = node_a ∷ [] }

abbrev exported : Env
exported = record quiet { get_export_by_id = λ _ _. ok export }

delete_node_effect_example :
    (((delete_node exported export (lit "10.0.0.1") []).1 ≡ [])
      × All (λ q. q.client ≢ lit "10.0.0.1") export.permissions)
    ⊎ ((qs : List Permission) × WithoutLast (lit "10.0.0.1") export.permissions qs
        × ((delete_node exported export (lit "10.0.0.1") []).1
            ≡ Call.update_export_permissions (pos 21) (or_default qs) ∷ []))
delete_node_effect_example = delete_node_effect exported export (lit "10.0.0.1") []

abbrev export_twice : Export
export_twice = record export { permissions = node_a ∷ node_a_again ∷ [] }

abbrev exported_twice : Env
exported_twice = record quiet {
  get_exports_by_file_system_id = λ _ _. record { items = export_twice ∷ []; error = none };
  update_export_permissions = λ _ _ _. ok export;
}

delete_export_rule_twice_example : delete_export_rule exported_twice (pos 5) (lit "10.0.0.1") [] ≡ (
  done tt,
  Call.update_export_permissions (pos 21) (node_a ∷ [])
      ∷ Call.update_export_permissions (pos 21) (node_a ∷ [])
      ∷ Call.get_exports_by_file_system_id (pos 5)
      ∷ [],
)
delete_export_rule_twice_example =
    delete_export_rule_twice exported_twice (pos 5) (lit "10.0.0.1") [] export_twice export node_a
      node_a_again refl refl refl refl refl refl

abbrev file_system : FileSystem
file_system = record {
  id = pos 5;
  name = lit "csit_data";
  size = pos 1073741824;
  parent_id = pos 0;
  pool_id = pos 3;
  ssd_enabled = true;
  lock_state = lit "UNLOCKED";
}

abbrev treeq : Treeq
treeq = record {
  id = pos 20000;
  filesystem_id = pos 5;
  path = lit "/data";
  hard_capacity = pos 1073741824;
  used_capacity = pos 0;
}

-- A file system with one empty treeq and a mark of an earlier deletion; every deletion succeeds.
abbrev filed : Env
filed = record quiet {
  get_metadata = λ _ _. ok (lit "host.k8s.to_be_deleted" ∷ []);
  get_file_system_by_id = λ _ _. ok file_system;
  get_treeq = λ _ _ _. ok treeq;
  get_treeqs_by_file_system = λ _ _. record { items = treeq ∷ []; error = none };
  put_treeq_count = λ _ _ _. ok tt;
  delete_treeq = λ _ _ _. ok tt;
  delete_metadata = λ _ _. ok tt;
  delete_file_system = λ _ _. ok tt;
  update_file_system = λ _ _ _. ok tt;
  update_treeq = λ _ _ _ _. ok tt;
}

delete_ancestors-IsMarkChecked_example :
    Always (IsMarkChecked filed) (delete_ancestors filed 3 (pos 5) []).1
delete_ancestors-IsMarkChecked_example = delete_ancestors-IsMarkChecked filed 3 (pos 5) [] tt

abbrev export_gone : Env
export_gone = record filed {
  get_exports_by_file_system_id = λ _ _. record { items = export ∷ []; error = none };
}

abbrev refused : Err
refused = record {
  shape = Shape.plain;
  is_not_found = false;
  is_mapping_exists = false;
  text = lit "EXPORT_IN_USE";
}

abbrev export_kept : Env
export_kept = record export_gone { delete_export = λ _ _. err refused }

delete_complete_export_kept_example : delete_complete export_kept (pos 5) [] ≡ (
  done tt,
  Call.delete_file_system (pos 5)
      ∷ Call.delete_metadata (pos 5)
      ∷ Call.delete_export (pos 21)
      ∷ Call.get_exports_by_file_system_id (pos 5)
      ∷ [],
)
delete_complete_export_kept_example =
    delete_complete_export_kept export_kept (pos 5) [] export refused refl refl refl refl refl

delete_treeq_volume-IsRemovalChecked_example :
    Always
      (IsRemovalChecked filed (pos 5) (pos 20000))
      (delete_treeq_volume filed (pos 5) (pos 20000) []).1
delete_treeq_volume-IsRemovalChecked_example =
    delete_treeq_volume-IsRemovalChecked filed (pos 5) (pos 20000) [] tt

update_treeq_volume-IsGrowthChecked_example :
    Always
      (IsGrowthChecked filed true (pos 5) (pos 20000) (pos 2147483648) [])
      (update_treeq_volume filed true (pos 5) (pos 20000) (pos 2147483648) [] []).1
update_treeq_volume-IsGrowthChecked_example =
    update_treeq_volume-IsGrowthChecked filed true (pos 5) (pos 20000) (pos 2147483648) [] [] tt

-- The only file system has no parent.
delete_ancestors-Ends_example : Ends (delete_ancestors filed 1 (pos 5) []).0
delete_ancestors-Ends_example =
    delete_ancestors-Ends filed (λ i. 0) (λ h i fs q n. absurd (n (cc))) 1 (pos 5) [] (omega arith)

-- One file system of 1 GiB with one treeq, and room for nine more.
abbrev pooled : Env
pooled = record filed {
  get_max_treeq_per_fs = λ _. ok (pos 10);
  get_file_systems_by_pool = λ _ _ _. record { items = file_system ∷ []; error = none };
}

expected_file_system-IsExpected_example :
    Returned
      (IsExpected pooled (pos 1073741824) (pos 10737418240) [] (pos 3) [])
      (expected_file_system pooled [] (pos 3) (pos 1073741824) (pos 10737418240) []).0
expected_file_system-IsExpected_example =
    expected_file_system-IsExpected pooled (pos 1073741824) (pos 10737418240) [] (pos 3) []
