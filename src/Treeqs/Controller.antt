-- ===== src/Treeqs/Controller.antt =====
-- The treeq controller: storage/treeq/treeqcontroller.go. Publishing answers nothing, and snapshots
-- are refused.
use infinibox_csi_driver.Prelude.{Bool, false, List, [], ◌∷◌, ◌++◌, is_empty, if◌then◌else◌}
use infinibox_csi_driver.Prelude.Int.{ℤ, pos, ltb_ℤ}
use infinibox_csi_driver.Strings.{Str, lit}
use infinibox_csi_driver.Exec.{
  Answer, ok, err, Code, implementation_error, to_implementation, internally, pure, throw, wrapping,
  attempt, ◌>>=◌, ◌>>◌,
}
use infinibox_csi_driver.Params.{
  Params, value, put, pool_name, network_space, nfs_export_permissions, storage_protocol, uid, gid,
  max_filesystems, max_treeqs_per_filesystem, max_filesystem_size,
}
use infinibox_csi_driver.VolumeId.{VolumeConfig}
use infinibox_csi_driver.Capacity.{gib}
use infinibox_csi_driver.Ibox.{FileSystem, Env}
use infinibox_csi_driver.Ibox.Client.{M}
use infinibox_csi_driver.Volumes.Response.{CsiVolume}
use infinibox_csi_driver.Service.Operations.{VolumeRequest}
use infinibox_csi_driver.Service.Classes.{validate_parameters}
use infinibox_csi_driver.Nfs.Permissions.{Library, validate_export_permissions}
use infinibox_csi_driver.Nfs.Create.{asks_for_block}
use infinibox_csi_driver.Treeqs.{delete_treeq_volume, update_treeq_volume}
use infinibox_csi_driver.Treeqs.Choice.{prefix_of}
use infinibox_csi_driver.Treeqs.Create.{is_treeq_already_exist, create_treeq_volume}

abbrev pub treeq_required : List (Str × Str)
treeq_required = (network_space, lit "\\A.*\\z") ∷ (pool_name, lit "[a-zA-Z]+") ∷ []

abbrev pub treeq_optional : List (Str × Str)
treeq_optional =
    (uid, lit "^\\d+$")
    ∷ (gid, lit "^\\d+$")
    ∷ (max_filesystems, lit "^\\d+$")
    ∷ (max_treeqs_per_filesystem, lit "^\\d+$")
    ∷ (max_filesystem_size, lit "\\A.*\\z")
    ∷ []

abbrev refused : Answer (Unit {0}) → Answer (Unit {0})
refused (ok u) = ok tt
refused (err e) = err (to_implementation Code.invalid_argument e)

abbrev then_permissions : Library → Params → Answer (Unit {0}) → Answer (Unit {0})
then_permissions lib params (err e) = err e
then_permissions lib params (ok u) = refused (validate_export_permissions lib params)

-- ValidateStorageClass
unfoldable pub treeq_validate : (matches : Str → Str → Bool) → Library → Params → Answer (Unit {0})
treeq_validate matches lib params =
    then_permissions lib params
      (refused (validate_parameters matches treeq_required treeq_optional params))

-- The context of the treeq with four of the parameters.
abbrev pub with_class : Params → Params → Params
with_class params context =
    put
      (put
        (put (put context nfs_export_permissions (value params nfs_export_permissions))
          storage_protocol (value params storage_protocol))
        uid (value params uid))
      gid (value params gid)

abbrev pub treeq_volume : VolumeRequest → (capacity : ℤ) → Params → CsiVolume
treeq_volume req capacity context = record {
  volume_id = value context (lit "ID") ++ (lit "#" ++ value context (lit "TREEQID"));
  capacity_bytes = capacity;
  volume_context = with_class req.request.parameters context;
  content_source = req.request.source;
}

module _ (env : Env) (lib : Library) (gib_first : Bool)
    (arrival : List FileSystem → List FileSystem) (capacity : ℤ) (req : VolumeRequest) where
  abbrev pub unless_found : Params → M Params
  unless_found found =
      if is_empty found
      then wrapping
          (create_treeq_volume env lib gib_first req.request.parameters capacity req.request.name
            (prefix_of req.request.parameters))
          internally
      else pure found

  abbrev pub create_for_treeq : M CsiVolume
  create_for_treeq = do
    found ←
        wrapping
          (is_treeq_already_exist env lib arrival (value req.request.parameters pool_name)
            (value req.request.parameters network_space) req.request.name
            (prefix_of req.request.parameters))
          internally
    context ← unless_found found
    pure (treeq_volume req capacity context)

-- CreateVolume
unfoldable pub treeq_create_volume :
    Env
    → Library
    → (gib_first : Bool) → (arrival : List FileSystem → List FileSystem) → (capacity : ℤ)
    → VolumeRequest
    → M CsiVolume
treeq_create_volume env lib gib_first arrival capacity req =
    if asks_for_block req.capabilities
    then throw (implementation_error Code.invalid_argument)
    else create_for_treeq env lib gib_first arrival capacity req

abbrev pub unless_missing : Answer (Unit {0}) → M (Unit {0})
unless_missing (ok u) = pure tt
unless_missing (err e) = if e.is_not_found then pure tt else throw e

-- DeleteVolume
unfoldable pub treeq_delete_volume : Env → VolumeConfig → M (Unit {0})
treeq_delete_volume env config =
    attempt (delete_treeq_volume env config.volume_id config.treeq_id) >>= unless_missing

abbrev pub at_least_gib : ℤ → ℤ
at_least_gib required = if ltb_ℤ required (pos gib) then pos gib else required

-- ControllerExpandVolume. The StorageClass parameters are those of a fresh controller, which has
-- none, so that the limit is empty.
unfoldable pub treeq_expand :
    Env → (gib_first : Bool) → VolumeConfig → (required : ℤ) → M (ℤ × Bool)
treeq_expand env gib_first config required = do
  wrapping
      (update_treeq_volume env gib_first config.volume_id config.treeq_id (at_least_gib required)
        [])
      internally
  pure (at_least_gib required, false)
