-- ===== src/Treeqs/Choice.antt =====
-- Which file system a new treeq goes to: getExpectedFileSystemID and getExportPath of
-- storage/treeq/treeqservice.go.
pub mod Room
use infinibox_csi_driver.Prelude.{
  Bool, true, false, Option, none, some, List, [], ◌∷◌, length, is_empty, if◌then◌else◌,
}
use infinibox_csi_driver.Prelude.Int.{ℤ, pos, ltb_ℤ, ◌+ℤ◌}
use infinibox_csi_driver.Strings.{Str}
use infinibox_csi_driver.Strings.Decimal.{atoi}
use infinibox_csi_driver.Exec.{
  Answer, ok, err, Err, Shape, plain_error, pure, throw, from_answer, or_fail, ◌>>=◌, ◌>>◌,
}
use infinibox_csi_driver.Params.{
  Params, value, max_treeqs_per_filesystem, fs_prefix, fs_prefix_default,
}
use infinibox_csi_driver.Ibox.{FileSystem, Export, Treeq, Listing, Env}
use infinibox_csi_driver.Ibox.Client.{
  M, list_or_fail, get_max_treeq_per_fs, get_file_systems_by_pool, get_treeqs_by_file_system,
  get_exports_by_file_system_id,
}
use infinibox_csi_driver.FileSystems.{same_error}

-- iboxapi.ErrNotFound
abbrev pub not_found : Err
not_found = record plain_error { is_not_found = true }

-- What the service remembers of its choice: the file system, `TreeqCnt`, and `ExportPath`, which
-- stays as it was if the file system has no export.
pub record Chosen : Type 0 where
  pub file_system : FileSystem
  pub treeq_count : ℤ
  pub export_path : Option Str

abbrev pub first_path : List Export → Option Str
first_path [] = none
first_path (e ∷ es) = some e.export_path

abbrev parsed_limit : Option ℤ → Answer ℤ
parsed_limit none = err plain_error
parsed_limit (some n) = ok n

-- The StorageClass overrides the appliance's limit of treeqs per file system.
unfoldable pub treeq_limit : Params → ℤ → Answer ℤ
treeq_limit params limit =
    let parameter = value params max_treeqs_per_filesystem in
    if is_empty parameter then ok limit else parsed_limit (atoi parameter)

abbrev pub prefix_of : Params → Str
prefix_of params =
    let prefix = value params fs_prefix in if is_empty prefix then fs_prefix_default else prefix

module _ (env : Env) (capacity maximum limit : ℤ) where
  abbrev pub with_path : FileSystem → ℤ → M Chosen
  with_path fs count = do
    exports ← list_or_fail (get_exports_by_file_system_id env fs.id) same_error
    pure (record { file_system = fs; treeq_count = count; export_path = first_path exports })

  abbrev pub if_room : FileSystem → M Chosen → List Treeq → M Chosen
  if_room fs rest treeqs =
      if ltb_ℤ (pos (length treeqs)) limit then with_path fs (pos (length treeqs)) else rest

  -- The first file system with space and with room for a treeq.
  abbrev pub choose : List FileSystem → M Chosen
  choose [] = throw not_found
  choose (fs ∷ more) =
      let rest = choose more in
      if ltb_ℤ (fs.size +ℤ capacity) maximum
      then list_or_fail (get_treeqs_by_file_system env fs.id) (λ e. plain_error) >>= if_room fs rest
      else rest

unfoldable pub expected_file_system : Env → Params → (pool capacity maximum : ℤ) → M Chosen
expected_file_system env params pool capacity maximum =
    if ltb_ℤ maximum capacity then throw plain_error else (do
      allowed ← or_fail (get_max_treeq_per_fs env) same_error
      limit ← from_answer same_error (treeq_limit params allowed)
      systems ←
          list_or_fail (get_file_systems_by_pool env pool (prefix_of params)) (λ e. plain_error)
      choose env capacity maximum limit systems)
