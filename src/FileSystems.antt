-- ===== src/FileSystems.antt =====
-- Deletion of file systems: DeleteFileSystemComplete and DeleteParentFileSystem of
-- api/nfsapiclient.go.
pub mod Complete
pub mod Safety
pub mod Stops
pub mod Termination
use infinibox_csi_driver.Prelude.{
  ℕ, zero, suc, Bool, true, false, Option, none, some, List, [], ◌∷◌, ◌&&◌, any, is_empty,
  if◌then◌else◌,
}
use infinibox_csi_driver.Prelude.Int.{ℤ, pos, int_eq}
use infinibox_csi_driver.Strings.{Str, lit, str_eq, contains}
use infinibox_csi_driver.Exec.{Answer, ok, err, Err, pure, throw, out_of_fuel, or_fail, ◌>>=◌, ◌>>◌}
use infinibox_csi_driver.Params.{to_be_deleted}
use infinibox_csi_driver.Ibox.{FileSystem, Export, Listing, Env}
use infinibox_csi_driver.Ibox.Client.{
  M, list_or_fail, get_exports_by_file_system_id, delete_export, delete_metadata,
  delete_file_system, get_metadata, get_file_systems_by_parent_id, get_file_system_by_id,
}

-- Errors are passed on as they are.
abbrev pub same_error : Err → Err
same_error e = e

module _ (env : Env) where
  -- The loop stops at an export that is not found, and goes on after any other error.
  abbrev pub after_export : Answer (Unit {0}) → M (Unit {0}) → M (Unit {0})
  after_export (ok u) rest = rest
  after_export (err e) rest = if e.is_not_found then throw e else rest

  abbrev pub delete_exports : List Export → M (Unit {0})
  delete_exports [] = pure tt
  delete_exports (e ∷ es) = delete_export env e.id >>= (λ r. after_export r (delete_exports es))

  -- The exports that were read before an error; EXPORT_NOT_FOUND is ignored.
  abbrev pub listed_exports : List Export → Option Err → M (List Export)
  listed_exports items none = pure items
  listed_exports items (some e) =
      if contains e.text (lit "EXPORT_NOT_FOUND") then pure items else throw e

  abbrev pub metadata_deleted : Answer (Unit {0}) → M (Unit {0})
  metadata_deleted (ok u) = pure tt
  metadata_deleted (err e) =
      if contains e.text (lit "METADATA_IS_NOT_SUPPORTED_FOR_ENTITY") then pure tt else throw e

-- DeleteFileSystemComplete
unfoldable pub delete_complete : Env → ℤ → M (Unit {0})
delete_complete env id = do
  listing ← get_exports_by_file_system_id env id
  exports ← listed_exports env listing.items listing.error
  delete_exports env exports
  delete_metadata env id >>= metadata_deleted env
  or_fail (delete_file_system env id) same_error

module _ (env : Env) (delete_parent : ℤ → M (Unit {0})) where
  abbrev pub delete_ready : (id : ℤ) → Answer FileSystem → M (Unit {0})
  delete_ready id (err e) = throw e
  delete_ready id (ok fs) = do
    delete_complete env id
    if int_eq fs.parent_id (pos 0) then pure tt else delete_parent fs.parent_id

  abbrev pub delete_marked : (id : ℤ) → List FileSystem → Bool → M (Unit {0})
  delete_marked id children marked =
      if is_empty children && marked
      then get_file_system_by_id env id >>= delete_ready id
      else pure tt

  abbrev pub delete_listed : (id : ℤ) → Bool → M (Unit {0})
  delete_listed id marked = do
    children ← list_or_fail (get_file_systems_by_parent_id env id) same_error
    delete_marked id children marked

  abbrev pub delete_known : (id : ℤ) → Answer (List Str) → M (Unit {0})
  delete_known id (err e) = throw e
  delete_known id (ok keys) = delete_listed id (any (str_eq to_be_deleted) keys)

-- DeleteParentFileSystem; the fuel bounds the chain of parents.
unfoldable pub delete_ancestors : Env → ℕ → ℤ → M (Unit {0})
delete_ancestors env zero id = out_of_fuel
delete_ancestors env (suc fuel) id =
    get_metadata env id >>= delete_known env (delete_ancestors env fuel) id
