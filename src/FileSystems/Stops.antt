-- ===== src/FileSystems/Stops.antt =====
-- DeleteFileSystemComplete when an export cannot be deleted.
use infinibox_csi_driver.Prelude.{◌≡◌, refl, true, false, none, List, [], ◌∷◌}
use infinibox_csi_driver.Prelude.Int.{ℤ}
use infinibox_csi_driver.Exec.{ok, err, Err, done, fail}
use infinibox_csi_driver.Ibox.{Call, Export, Env, History}
use infinibox_csi_driver.FileSystems.{delete_complete}

-- If the exports are listed without error and the first is gone already, then
-- DeleteFileSystemComplete fails with that error, and the file system is not deleted.
pub delete_complete_export_gone :
    (env : Env) (id : ℤ) (h : History) (export : Export) (exports : List Export) (e : Err)
    → env.get_exports_by_file_system_id h id ≡ record { items = export ∷ exports; error = none }
    → env.delete_export (Call.get_exports_by_file_system_id id ∷ h) export.id ≡ err e
    → e.is_not_found ≡ true
    → delete_complete env id h
      ≡ (fail e, Call.delete_export export.id ∷ Call.get_exports_by_file_system_id id ∷ h)
unfolding delete_complete
delete_complete_export_gone env id h export exports e listed deleted gone =
    rw listed (rw deleted (rw gone refl))

-- If the file system has one export, which the appliance fails to delete for another reason, and
-- the metadata and the file system can be deleted, then DeleteFileSystemComplete succeeds.
pub delete_complete_export_kept :
    (env : Env) (id : ℤ) (h : History) (export : Export) (e : Err)
    → env.get_exports_by_file_system_id h id ≡ record { items = export ∷ []; error = none }
    → env.delete_export (Call.get_exports_by_file_system_id id ∷ h) export.id ≡ err e
    → e.is_not_found ≡ false
    → env.delete_metadata
        (Call.delete_export export.id ∷ Call.get_exports_by_file_system_id id ∷ h)
        id
      ≡ ok tt
    → env.delete_file_system
        (Call.delete_metadata id
          ∷ Call.delete_export export.id
          ∷ Call.get_exports_by_file_system_id id
          ∷ h)
        id
      ≡ ok tt
    → delete_complete env id h ≡ (
      done tt,
      Call.delete_file_system id
          ∷ Call.delete_metadata id
          ∷ Call.delete_export export.id
          ∷ Call.get_exports_by_file_system_id id
          ∷ h,
    )
unfolding delete_complete
delete_complete_export_kept env id h export e listed deleted other unmarked removed =
    rw listed (rw deleted (rw other (rw unmarked (rw removed refl))))
