-- ===== src/Nfs/Reverting.antt =====
-- What CreateExportPathAndAddMetadata leaves behind when it fails.
use infinibox_csi_driver.Prelude.{◌≡◌, refl, false, ◌∷◌}
use infinibox_csi_driver.Prelude.Int.{ℤ, pos, int_eq}
use infinibox_csi_driver.Strings.{Str}
use infinibox_csi_driver.Exec.{Outcome, done, fail, panic, unfinished, caught, continue}
use infinibox_csi_driver.Params.{Params}
use infinibox_csi_driver.Ibox.{Call, Env, History}
use infinibox_csi_driver.Nfs.Permissions.{Library}
use infinibox_csi_driver.Nfs.Create.{
  ExportFlags, after_failure, revert_file_system, export_and_metadata,
}

-- If the outcome is an error, the call was the last one.
abbrev pub EndsWith {ℓ} : {A : Type ℓ} → Call → Outcome A × History → Type 0
EndsWith c (done a, h) = Unit
EndsWith c (fail e, h) = (before : History) × (h ≡ c ∷ before)
EndsWith c (panic, h) = Unit
EndsWith c (unfinished, h) = Unit

module _ (env : Env) (lib : Library) (params : Params) (flags : ExportFlags) (path : Str)
    (filesystem : ℤ) (numbered : int_eq filesystem (pos 0) ≡ false) where
  reverted {ℓ} :
      {A : Type ℓ} (r : Outcome A × History)
      → EndsWith (Call.delete_file_system filesystem) (
          continue
            (caught r)
            (after_failure (revert_file_system env lib params flags path filesystem)))
  reverted (done a, h) = tt
  reverted (fail e, h) = rw numbered (h, refl)
  reverted (panic, h) = tt
  reverted (unfinished, h) = tt

  -- For any appliance and any file system whose identifier is not 0: if CreateExportPathAndAddMetadata
  -- fails, whether at the export or at the metadata, then the last call that it made deletes the file
  -- system.
  pub export_and_metadata-EndsWith :
      (h : History)
      → EndsWith
          (Call.delete_file_system filesystem)
          (export_and_metadata env lib params flags path filesystem h)
  unfolding export_and_metadata
  export_and_metadata-EndsWith h = reverted _
