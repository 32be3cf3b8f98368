-- ===== src/Nfs/Create.antt =====
-- CreateVolume, CreateNFSVolume, CreateFileSystem, CreateExportPathAndAddMetadata, createExportPath,
-- createVolumeFromPVCSource and getNfsCsiResponse of storage/nfs/nfscontroller.go.
use infinibox_csi_driver.Prelude.{
  Bool, false, Option, none, some, List, [], ◌∷◌, ◌++◌, any, is_empty, if◌then◌else◌,
}
use infinibox_csi_driver.Prelude.Int.{ℤ, pos, int_eq}
use infinibox_csi_driver.Strings.{Str, lit, str_eq}
use infinibox_csi_driver.Strings.Decimal.{itoa}
use infinibox_csi_driver.Exec.{
  Answer, ok, err, Code, implementation_error, to_implementation, internally, pure, throw,
  from_answer, or_fail, wrapping, attempt, ◌>>=◌, ◌>>◌,
}
use infinibox_csi_driver.Params.{
  Params, value, put, pool_name, network_space, provision_type, thin_provision, thick_provision,
  ssd_enabled, nfs_export_permissions, pv_name_key, created_by_key,
}
use infinibox_csi_driver.VolumeId.{validate_volume_id}
use infinibox_csi_driver.Capability.{Capability, is_block}
use infinibox_csi_driver.Capacity.{determine_ssd_value}
use infinibox_csi_driver.Ibox.{FileSystem, Export, Pool, CreateFileSystemRequest, Env}
use infinibox_csi_driver.Ibox.Client.{
  M, list_or_fail, get_pool_by_name, create_file_system, create_export, put_metadata, delete_export,
  delete_file_system, get_file_system_by_name, get_file_system_by_id, get_exports_by_file_system_id,
  create_file_system_snapshot,
}
use infinibox_csi_driver.Volumes.Response.{Source, from_snapshot, from_volume, unset, CsiVolume}
use infinibox_csi_driver.Service.Operations.{VolumeRequest}
use infinibox_csi_driver.Nfs.Permissions.{Library, permission_maps, network_space_ip, trim_spaces}

-- A deferred function that runs when the named result `err` is set.
abbrev pub after_failure {ℓ} : {A : Type ℓ} → M (Unit {0}) → Answer A → M A
after_failure undo (ok a) = pure a
after_failure undo (err e) = undo >>= λ _. throw e

abbrev pub on_failure {ℓ} : {A : Type ℓ} → M A → M (Unit {0}) → M A
on_failure m undo = attempt m >>= after_failure undo

-- The fields that ValidateStorageClass sets for a later CreateVolume.
pub record ExportFlags : Type 0 where
  pub privileged_port : Bool
  pub snapdir_visible : Bool

-- The provisioning type in capital letters; an empty one is THIN.
abbrev pub known_provision : Str → Answer Str
known_provision kind =
    if is_empty kind
    then ok thin_provision
    else if any (str_eq kind) (thin_provision ∷ thick_provision ∷ [])
    then ok kind
    else err (implementation_error Code.internal)

module _ (env : Env) (lib : Library) (params : Params) (capacity : ℤ) where
  abbrev pub file_system_request :
      (name : Str) → Pool → (kind : Str) → Bool → CreateFileSystemRequest
  file_system_request name pool kind ssd = record {
    pool_id = pool.id;
    name = name;
    size = capacity;
    provtype = kind;
    ssd_enabled = ssd;
  }

  -- CreateFileSystem: the identifier of the file system.
  unfoldable pub make_file_system : (name : Str) → M ℤ
  make_file_system name = do
    pool ← or_fail (get_pool_by_name env (value params pool_name)) internally
    kind ← from_answer internally (known_provision (lib.to_upper (value params provision_type)))
    ssd ← from_answer internally (determine_ssd_value (value params ssd_enabled) pool.ssd_enabled)
    fs ← or_fail (create_file_system env (file_system_request name pool kind ssd)) internally
    pure fs.id

module _ (env : Env) (lib : Library) (params : Params) (flags : ExportFlags) (path : Str)
    (filesystem : ℤ) where
  -- createExportPath: the identifier of the export.
  abbrev pub make_export : M ℤ
  make_export = do
    permissions ← from_answer internally (permission_maps lib (value params nfs_export_permissions))
    export ←
        or_fail
          (create_export env (record {
            filesystem_id = filesystem;
            privileged_port = flags.privileged_port;
            snapdir_visible = flags.snapdir_visible;
            export_path = path;
            permissions = permissions;
          }))
          internally
    pure export.id

  -- Without permissions in the StorageClass no export is made, and its identifier stays 0.
  abbrev pub export_if_asked : M ℤ
  export_if_asked =
      if is_empty (value params nfs_export_permissions)
      then pure (pos 0)
      else wrapping make_export internally

  -- The deferred functions; their errors are logged.
  abbrev pub revert_export : (export : ℤ) → M (Unit {0})
  revert_export export =
      if int_eq export (pos 0) then pure tt else (delete_export env export >>= λ _. pure tt)

  abbrev pub revert_file_system : M (Unit {0})
  revert_file_system =
      if int_eq filesystem (pos 0)
      then pure tt
      else (delete_file_system env filesystem >>= λ _. pure tt)

  abbrev pub add_metadata : (export : ℤ) → M ℤ
  add_metadata export = do
    or_fail (put_metadata env filesystem (pv_name_key ∷ created_by_key ∷ [])) internally
    pure export

  -- CreateExportPathAndAddMetadata: the identifier of the export. A failure takes the export and the
  -- file system back.
  unfoldable pub export_and_metadata : M ℤ
  export_and_metadata =
      on_failure
        (export_if_asked >>= λ export. on_failure (add_metadata export) (revert_export export))
        revert_file_system

-- getNfsCsiResponse: the parameters are the volume's context.
unfoldable pub nfs_response :
    VolumeRequest → (capacity : ℤ) (ip path : Str) (filesystem export : ℤ) → CsiVolume
nfs_response req capacity ip path filesystem export = record {
  volume_id = itoa filesystem;
  capacity_bytes = capacity;
  volume_context =
      put (put (put req.request.parameters (lit "ipAddress") ip) (lit "exportID") (itoa export))
        (lit "volPathd") path;
  content_source = req.request.source;
}

abbrev pub asks_for_block : Option (List Capability) → Bool
asks_for_block none = false
asks_for_block (some cs) = any (λ (c : Capability). is_block c.access) cs

abbrev pub first_export : List Export → ℤ
first_export [] = pos 0
first_export (e ∷ es) = e.id

module _ (env : Env) (lib : Library) (flags : ExportFlags) (capacity : ℤ)
    (req : VolumeRequest) where
  abbrev pub export_path : Str
  export_path = lit "/" ++ req.request.name

  abbrev pub exported : (ip : Str) (filesystem : ℤ) → M CsiVolume
  exported ip filesystem = do
    export ←
        wrapping (export_and_metadata env lib req.request.parameters flags export_path filesystem)
          internally
    pure (nfs_response req capacity ip export_path filesystem export)

  -- CreateNFSVolume
  abbrev pub create_nfs_volume : (ip : Str) → M CsiVolume
  create_nfs_volume ip = do
    filesystem ←
        wrapping (make_file_system env lib req.request.parameters capacity req.request.name)
          internally
    exported ip filesystem

  abbrev pub clone_of : (ip : Str) (source : ℤ) → FileSystem → Pool → M CsiVolume
  clone_of ip source fs pool =
      if int_eq pool.id fs.pool_id
      then (do
        snapshot ←
            or_fail
              (create_file_system_snapshot env (record {
                parent_id = source;
                snapshot_name = req.request.name;
                write_protected = false;
                ssd_enabled = false;
                lock_expires_at = pos 0;
              }))
              internally
        exported ip snapshot.snapshot_id)
      else throw (implementation_error Code.invalid_argument)

  abbrev pub clone_sized : (ip : Str) (source : ℤ) → FileSystem → M CsiVolume
  clone_sized ip source fs =
      if int_eq fs.size capacity
      then or_fail (get_pool_by_name env (value req.request.parameters pool_name))
          (to_implementation Code.invalid_argument)
        >>= clone_of ip source fs
      else throw (implementation_error Code.invalid_argument)

  -- createVolumeFromPVCSource
  abbrev pub clone_file_system : (ip source : Str) → M CsiVolume
  clone_file_system ip source = do
    config ← from_answer (to_implementation Code.not_found) (validate_volume_id source)
    fs ← or_fail (get_file_system_by_id env config.volume_id) (to_implementation Code.not_found)
    clone_sized ip config.volume_id fs

  abbrev pub from_source : (ip : Str) → Option Source → M CsiVolume
  from_source ip (some (from_snapshot id)) = clone_file_system ip id
  from_source ip (some (from_volume id)) = clone_file_system ip id
  from_source ip (some unset) = create_nfs_volume ip
  from_source ip none = create_nfs_volume ip

  -- A file system of the name and the size is answered again.
  abbrev pub named_file_system : (ip : Str) → Answer FileSystem → M CsiVolume
  named_file_system ip (err e) =
      if e.is_not_found
      then wrapping (from_source ip req.request.source) internally
      else throw (internally e)
  named_file_system ip (ok fs) = do
    exports ← list_or_fail (get_exports_by_file_system_id env fs.id) internally
    if int_eq capacity fs.size
        then pure (nfs_response req capacity ip export_path fs.id (first_export exports))
        else throw (implementation_error Code.already_exists)

  abbrev pub create_for_files : M CsiVolume
  create_for_files = do
    ip ←
        wrapping
          (network_space_ip env lib (trim_spaces (value req.request.parameters network_space)))
          (to_implementation Code.invalid_argument)
    get_file_system_by_name env req.request.name >>= named_file_system ip

unfoldable pub nfs_create_volume :
    Env → Library → ExportFlags → (capacity : ℤ) → VolumeRequest → M CsiVolume
nfs_create_volume env lib flags capacity req =
    if asks_for_block req.capabilities
    then throw (implementation_error Code.invalid_argument)
    else create_for_files env lib flags capacity req
