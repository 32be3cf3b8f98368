-- ===== src/Examples/Nfs.antt =====
-- The NFS controller against small appliances.
use infinibox_csi_driver.Prelude.{
  ◌≡◌, refl, ap, arith, true, false, none, List, [], ◌∷◌, ◌++◌, ◌∙◌, ◌||◌, any, if◌then◌else◌,
}
use infinibox_csi_driver.Prelude.Int.{ℤ, pos}
use infinibox_csi_driver.Strings.{Str, lit, str_eq}
use infinibox_csi_driver.Exec.{ok, done}
use infinibox_csi_driver.Ibox.{Call, Permission, FileSystem, Env, History}
use infinibox_csi_driver.Examples.Quiet.{quiet}
use infinibox_csi_driver.FileSystems.{delete_ancestors}
use infinibox_csi_driver.Nfs.Create.{export_and_metadata}
use infinibox_csi_driver.Nfs.Operations.{delete_nfs_volume, nfs_unpublish}
use infinibox_csi_driver.Nfs.Reverting.{EndsWith, export_and_metadata-EndsWith}
use infinibox_csi_driver.Nfs.Rules.{node_identifier, nfs_unpublish_keeps_rules}
use infinibox_csi_driver.Nfs.Marks.{
  changes_metadata, AddsKeys, KeepsMetadata, delete_nfs_volume_unmarked,
}
use infinibox_csi_driver.Examples.Clusters.{library, fc_volume}

export_and_metadata-EndsWith_example : EndsWith (Call.delete_file_system (pos 5)) (
    export_and_metadata quiet library []
      (record { privileged_port = true; snapdir_visible = false })
      (lit "/data")
      (pos 5)
      [])
export_and_metadata-EndsWith_example =
    export_and_metadata-EndsWith quiet library []
      (record { privileged_port = true; snapdir_visible = false }) (lit "/data") (pos 5) refl []

abbrev node_rule : Permission
node_rule = record { access = lit "RW"; no_root_squash = true; client = lit "10.0.0.1" }

abbrev shared : Env
shared = record quiet {
  get_exports_by_file_system_id = λ _ _. record {
    items = record { id = pos 21; export_path = lit "/data"; permissions = node_rule ∷ [] } ∷ [];
    error = none;
  };
}

nfs_unpublish_keeps_rules_example :
    nfs_unpublish shared fc_volume (node_identifier (lit "worker") (lit "10.0.0.1")) []
    ≡ (done tt, Call.get_exports_by_file_system_id (pos 7) ∷ [])
nfs_unpublish_keeps_rules_example =
    nfs_unpublish_keeps_rules shared fc_volume (lit "worker") (lit "10.0.0.1") [] refl
      ((refl, tt), tt)

abbrev parent_system : FileSystem
parent_system = record {
  id = pos 5;
  name = lit "csit_data";
  size = pos 1073741824;
  parent_id = pos 0;
  pool_id = pos 3;
  ssd_enabled = true;
  lock_state = lit "UNLOCKED";
}

-- The keys of an object after the calls.
abbrev written : Call → List Str → List Str
written (Call.put_metadata j keys) old = keys ++ old
written c old = []

abbrev stored : ℤ → History → List Str
stored id [] = []
stored id (c ∷ h) = let old = stored id h in if changes_metadata id c then written c old else old

-- The file system has a child until that is deleted.
abbrev children_of : History → List FileSystem
children_of (Call.delete_file_system i ∷ h) = []
children_of (Call.get_metadata i ∷ h) = children_of h
children_of h = parent_system ∷ []

abbrev cloned : Env
cloned = record quiet {
  get_file_system_by_id = λ _ _. ok parent_system;
  get_file_systems_by_parent_id = λ h _. record { items = children_of h; error = none };
  put_metadata = λ _ _ _. ok tt;
  get_metadata = λ h id. ok (stored id h);
}

any_append :
    (key : Str) (xs ys : List Str)
    → any (str_eq key) (xs ++ ys) ≡ (any (str_eq key) xs || any (str_eq key) ys)
any_append key [] ys = refl
any_append key (x ∷ xs) ys = ground (arith, any_append key xs ys)

cloned-AddsKeys : AddsKeys cloned (pos 5)
cloned-AddsKeys h old new q =
    let e : stored (pos 5) h ≡ old = cc (q) in
    (
      new ++ stored (pos 5) h,
      refl,
      λ key.
          any_append key new (stored (pos 5) h)
          ∙ ap (λ o. any (str_eq key) new || any (str_eq key) o) e,
    )

cloned-KeepsMetadata : KeepsMetadata cloned (pos 5)
cloned-KeepsMetadata h c q = rw q refl

-- The deletion of the child lies between.
delete_nfs_volume_unmarked_example :
    let later = Call.delete_file_system (pos 6) ∷ [] ++ (delete_nfs_volume cloned 2 (pos 5) []).1 in
    (delete_ancestors cloned 3 (pos 5) later).1
    ≡ Call.get_file_systems_by_parent_id (pos 5) ∷ Call.get_metadata (pos 5) ∷ later
unfolding str_eq
delete_nfs_volume_unmarked_example =
    delete_nfs_volume_unmarked cloned (pos 5) cloned-AddsKeys cloned-KeepsMetadata 2 2 []
      (Call.delete_file_system (pos 6) ∷ []) parent_system parent_system [] ([], refl, refl) refl
      refl refl (refl, tt)
