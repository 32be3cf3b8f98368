-- ===== src/Nfs/Operations.antt =====
-- The other operations of storage/nfs/nfscontroller.go: ValidateStorageClass, DeleteVolume and
-- DeleteNFSVolume, publish, unpublish, snapshots and expansion.
use infinibox_csi_driver.Prelude.{
  ℕ, Bool, true, false, Option, none, some, List, [], ◌∷◌, is_empty, if◌then◌else◌,
}
use infinibox_csi_driver.Prelude.Int.{ℤ, pos, int_eq}
use infinibox_csi_driver.Strings.{Str, lit, str_eq, contains, parse_bool}
use infinibox_csi_driver.Strings.Decimal.{itoa, atoi, atoi_clamped}
use infinibox_csi_driver.Exec.{
  Answer, ok, err, Code, implementation_error, to_implementation, internally, pure, throw, crash,
  from_answer, or_fail, wrapping, attempt, ◌>>=◌, ◌>>◌,
}
use infinibox_csi_driver.Params.{
  Params, value, network_space, pool_name, uid, gid, nfs_export_permissions, locked_state,
  lock_expires_at_parameter,
}
use infinibox_csi_driver.VolumeId.{VolumeConfig, split_dollars, with_protocol}
use infinibox_csi_driver.Capability.{is_valid_access_mode_nfs}
use infinibox_csi_driver.SnapshotLock.{validate_snapshot_lock}
use infinibox_csi_driver.Ibox.{Json, text, FileSystem, Env}
use infinibox_csi_driver.Ibox.Client.{
  M, list_or_fail, get_file_system_by_id, get_file_system_by_name, get_file_systems_by_parent_id,
  put_metadata, get_ntp_status, create_file_system_snapshot, update_file_system, current_time,
}
use infinibox_csi_driver.FileSystems.{delete_complete, delete_ancestors}
use infinibox_csi_driver.Exports.{add_node, delete_export_rule}
use infinibox_csi_driver.Volumes.Snapshots.{CreateSnapshotRequest, CsiSnapshot}
use infinibox_csi_driver.Fc.Publish.{PublishRequest}
use infinibox_csi_driver.Service.Classes.{validate_parameters}
use infinibox_csi_driver.Nfs.Permissions.{
  Library, JsonObject, permission_maps, field, validate_export_permissions,
}
use infinibox_csi_driver.Nfs.Create.{ExportFlags}

abbrev parsed_flag : Option Bool → Answer Bool
parsed_flag none = err (implementation_error Code.invalid_argument)
parsed_flag (some b) = ok b

abbrev flag_parameter : Params → Str → Answer Bool
flag_parameter params key =
    let v = value params key in if is_empty v then ok false else parsed_flag (parse_bool v)

abbrev pub nfs_required : List (Str × Str)
nfs_required = (network_space, lit "\\A.*\\z") ∷ (pool_name, lit "[a-zA-Z]+") ∷ []

abbrev pub nfs_optional : List (Str × Str)
nfs_optional = (uid, lit "^\\d+$") ∷ (gid, lit "^\\d+$") ∷ []

abbrev with_snapdir : Params → Bool → Answer Bool → Answer ExportFlags
with_snapdir params snapdir (err e) = err e
with_snapdir params snapdir (ok privileged) =
    ok (record { privileged_port = privileged; snapdir_visible = snapdir })

abbrev with_flags : Params → Answer Bool → Answer ExportFlags
with_flags params (err e) = err e
with_flags params (ok snapdir) =
    with_snapdir params snapdir (flag_parameter params (lit "privileged_ports_only"))

abbrev if_permitted : Params → Answer (Unit {0}) → Answer ExportFlags
if_permitted params (err e) = err (to_implementation Code.invalid_argument e)
if_permitted params (ok u) = with_flags params (flag_parameter params (lit "snapdir_visible"))

abbrev if_valid : Library → Params → Answer (Unit {0}) → Answer ExportFlags
if_valid lib params (err e) = err (to_implementation Code.invalid_argument e)
if_valid lib params (ok u) = if_permitted params (validate_export_permissions lib params)

-- ValidateStorageClass: the flags that it leaves for CreateVolume.
unfoldable pub nfs_validate : (matches : Str → Str → Bool) → Library → Params → Answer ExportFlags
nfs_validate matches lib params =
    if_valid lib params (validate_parameters matches nfs_required nfs_optional params)

module _ (env : Env) (fuel : ℕ) (id : ℤ) where
  abbrev pub delete_parent_of : FileSystem → M (Unit {0})
  delete_parent_of fs =
      if int_eq fs.parent_id (pos 0)
      then pure tt
      else wrapping (delete_ancestors env fuel fs.parent_id) internally

  -- With children the file system stays, and the metadata that is put is empty.
  abbrev pub delete_without_children : FileSystem → List FileSystem → M (Unit {0})
  delete_without_children fs children =
      if is_empty children
      then (do wrapping (delete_complete env id) internally; delete_parent_of fs)
      else or_fail (put_metadata env id []) internally

  abbrev pub delete_unlocked : FileSystem → M (Unit {0})
  delete_unlocked fs =
      if str_eq fs.lock_state locked_state
      then throw (implementation_error Code.aborted)
      else list_or_fail (get_file_systems_by_parent_id env id) internally
        >>= delete_without_children fs

-- DeleteNFSVolume; the fuel bounds the chain of parents.
unfoldable pub delete_nfs_volume : Env → ℕ → ℤ → M (Unit {0})
delete_nfs_volume env fuel id =
    or_fail (get_file_system_by_id env id) internally >>= delete_unlocked env fuel id

abbrev pub unless_gone : Answer (Unit {0}) → M (Unit {0})
unless_gone (ok u) = pure tt
unless_gone (err e) = if contains e.text (lit "FILESYSTEM_NOT_FOUND") then pure tt else throw e

unfoldable pub nfs_delete_volume : Env → ℕ → VolumeConfig → M (Unit {0})
nfs_delete_volume env fuel config =
    attempt (delete_nfs_volume env fuel config.volume_id) >>= unless_gone

abbrev pub delete_numbered : Env → ℕ → Option ℤ → M (Unit {0})
delete_numbered env fuel none = throw (implementation_error Code.aborted)
delete_numbered env fuel (some id) = attempt (delete_nfs_volume env fuel id) >>= unless_gone

unfoldable pub nfs_delete_snapshot : Env → ℕ → (snapshot_id : Str) → M (Unit {0})
nfs_delete_snapshot env fuel snapshot_id = delete_numbered env fuel (atoi snapshot_id)

-- `exportPermissionMapArray[0]["access"].(string)`: a value that is no text panics.
abbrev pub access_text : Option Json → M Str
access_text (some (text s)) = pure s
access_text _ = crash

abbrev pub first_access : List JsonObject → M Str
first_access [] = pure []
first_access (o ∷ os) = access_text (field o (lit "access"))

module _ (env : Env) (lib : Library) (req : PublishRequest) where
  abbrev pub add_to_export : (access : Str) → List Str → M Params
  add_to_export access (name ∷ ip ∷ []) = do
    or_fail
        (attempt (
          add_node env lib.parse_ip (atoi_clamped (value req.volume_context (lit "exportID")))
            access true ip))
        internally
    pure []
  add_to_export access _ = throw (implementation_error Code.internal)

  abbrev pub publish_to_node : M Params
  publish_to_node = do
    maps ←
        from_answer internally
          (permission_maps lib (value req.volume_context nfs_export_permissions))
    access ← first_access maps
    add_to_export access (split_dollars req.node_id)

  abbrev pub publish_permitted : M Params
  publish_permitted = do
    from_answer internally (is_valid_access_mode_nfs req.volume_context req.mode)
    if is_empty (value req.volume_context nfs_export_permissions) then pure [] else publish_to_node

unfoldable pub nfs_publish : Env → Library → PublishRequest → M Params
nfs_publish env lib req =
    if is_empty req.node_id
    then throw (implementation_error Code.invalid_argument)
    else publish_permitted env lib req

-- ControllerUnpublishVolume of the NFS and of the treeq controller: the rule that is taken away is
-- that of a client spelled like the whole node identifier.
unfoldable pub nfs_unpublish : Env → VolumeConfig → (node_id : Str) → M (Unit {0})
nfs_unpublish env config node_id =
    wrapping (delete_export_rule env config.volume_id node_id) internally

abbrev pub first_probe : List ℤ → M ℤ
first_probe [] = crash
first_probe (t ∷ ts) = pure t

module _ (env : Env) (config : VolumeConfig) (req : CreateSnapshotRequest) where
  abbrev pub describe_snapshot : (id size : ℤ) → M CsiSnapshot
  describe_snapshot id size = do
    time ← current_time env
    pure (record {
      size_bytes = size;
      snapshot_id = with_protocol (itoa id) config.storage_type;
      source_volume_id = req.source_volume_id;
      creation_time = time;
      ready_to_use = true;
    })

  abbrev pub snapshot_lock : M ℤ
  snapshot_lock =
      let lock : Str = value req.parameters lock_expires_at_parameter in
      if is_empty lock then pure (pos 0) else (do
        probes ← or_fail (get_ntp_status env) (to_implementation Code.already_exists)
        time ← first_probe probes
        from_answer internally (validate_snapshot_lock time lock))

  abbrev pub take_snapshot : FileSystem → (lock : ℤ) → M CsiSnapshot
  take_snapshot parent lock = do
    snapshot ←
        or_fail
          (create_file_system_snapshot env (record {
            parent_id = config.volume_id;
            snapshot_name = req.name;
            write_protected = true;
            ssd_enabled = parent.ssd_enabled;
            lock_expires_at = lock;
          }))
          internally
    describe_snapshot snapshot.snapshot_id snapshot.size

  abbrev pub snapshot_parent : M CsiSnapshot
  snapshot_parent = do
    parent ←
        or_fail (get_file_system_by_id env config.volume_id) (to_implementation Code.already_exists)
    snapshot_lock >>= take_snapshot parent

  abbrev pub snapshot_named : Answer FileSystem → M CsiSnapshot
  snapshot_named (err e) = if e.is_not_found then snapshot_parent else throw (internally e)
  snapshot_named (ok fs) =
      if int_eq fs.parent_id config.volume_id
      then describe_snapshot fs.id fs.size
      else throw (implementation_error Code.already_exists)

unfoldable pub nfs_create_snapshot : Env → VolumeConfig → CreateSnapshotRequest → M CsiSnapshot
nfs_create_snapshot env config req =
    get_file_system_by_name env req.name >>= snapshot_named env config req

unfoldable pub nfs_expand : Env → VolumeConfig → (capacity : ℤ) → M (ℤ × Bool)
nfs_expand env config capacity = do
  or_fail (update_file_system env config.volume_id capacity) internally
  pure (capacity, false)
