-- ===== src/Controllers/Files.antt =====
-- The identifiers of the file systems that the NFS controller creates.
use infinibox_csi_driver.Prelude.{◌≡◌, refl, false, Bool-cases, inl, inr, Option, none, some, ◌∷◌}
use infinibox_csi_driver.Prelude.Int.{ℤ, pos, int_eq, IsInt64}
use infinibox_csi_driver.Strings.{Str}
use infinibox_csi_driver.Exec.{Answer, ok, err, internally, to_implementation, Code}
use infinibox_csi_driver.Params.{value, pool_name, provision_type, ssd_enabled, network_space}
use infinibox_csi_driver.Capacity.{determine_ssd_value}
use infinibox_csi_driver.VolumeId.{validate_volume_id}
use infinibox_csi_driver.Ibox.{
  Call, FileSystem, Pool, Snapshot, CreateFileSystemRequest, SnapshotRequest, Env, History,
}
use infinibox_csi_driver.Ibox.Returned.{
  Returned, Returned-bind, Returned-answer, Returned-listing, Returned-through, Returned-wrapping,
}
use infinibox_csi_driver.Exec.{wrapping}
use infinibox_csi_driver.Volumes.Response.{Source, from_snapshot, from_volume, unset}
use infinibox_csi_driver.Service.Operations.{VolumeRequest}
use infinibox_csi_driver.Service.Create.Handle.{IsNumbered}
use infinibox_csi_driver.Nfs.Permissions.{Library, network_space_ip, trim_spaces}
use infinibox_csi_driver.Nfs.Create.{
  ExportFlags, known_provision, file_system_request, make_file_system, export_and_metadata,
  nfs_response, asks_for_block, export_path, exported, create_nfs_volume, clone_of,
  clone_file_system, from_source, named_file_system, nfs_create_volume,
}

-- Every file system, and every snapshot of one, that the appliance answers with is named by an int64.
abbrev pub HasSmallSystems : Env → Type 0
HasSmallSystems env =
    ((h : History) (name : Str) (fs : FileSystem)
      → env.get_file_system_by_name h name ≡ ok fs
      → IsInt64 fs.id)
    × ((h : History) (r : CreateFileSystemRequest) (fs : FileSystem)
        → env.create_file_system h r ≡ ok fs
        → IsInt64 fs.id)
    × ((h : History) (r : SnapshotRequest) (s : Snapshot)
        → env.create_file_system_snapshot h r ≡ ok s
        → IsInt64 s.snapshot_id)

module _ (env : Env) (lib : Library) (flags : ExportFlags) (capacity : ℤ) (req : VolumeRequest)
    (small : HasSmallSystems env) where
  system-IsInt64 :
      (name : Str) (h : History)
      → Returned IsInt64 (make_file_system env lib req.request.parameters capacity name h).0
  unfolding make_file_system
  system-IsInt64 name h =
      Returned-answer IsInt64 internally
        (env.get_pool_by_name h (value req.request.parameters pool_name)) _
        (Call.get_pool_by_name (value req.request.parameters pool_name) ∷ h)
        (λ pool q.
          Returned-answer IsInt64 internally
            (known_provision (lib.to_upper (value req.request.parameters provision_type))) _
            (Call.get_pool_by_name (value req.request.parameters pool_name) ∷ h)
            (λ kind q'.
              Returned-answer IsInt64 internally
                (determine_ssd_value (value req.request.parameters ssd_enabled) pool.ssd_enabled) _
                (Call.get_pool_by_name (value req.request.parameters pool_name) ∷ h)
                (λ ssd q''.
                  let request : CreateFileSystemRequest =
                    file_system_request env lib req.request.parameters capacity name pool kind
                      ssd in
                  let asked : History =
                    Call.get_pool_by_name (value req.request.parameters pool_name) ∷ h in
                  Returned-answer IsInt64 internally (env.create_file_system asked request) _
                    (Call.create_file_system request ∷ asked)
                    (λ fs made. small.1 asked request fs made))))

  exported-IsNumbered :
      (ip : Str) (filesystem : ℤ) (h : History)
      → IsInt64 filesystem
      → Returned IsNumbered (exported env lib flags capacity req ip filesystem h).0
  unfolding nfs_response
  exported-IsNumbered ip filesystem h s =
      Returned-bind IsNumbered
        (wrapping
          (export_and_metadata env lib req.request.parameters flags
            (export_path env lib flags capacity req) filesystem)
          internally)
        _ h (λ export g. (filesystem, s, refl))

  created-IsNumbered :
      (ip : Str) (h : History)
      → Returned IsNumbered (create_nfs_volume env lib flags capacity req ip h).0
  created-IsNumbered ip h =
      Returned-through IsInt64 IsNumbered
        (wrapping (make_file_system env lib req.request.parameters capacity req.request.name)
          internally h)
        _
        (Returned-wrapping IsInt64
          (make_file_system env lib req.request.parameters capacity req.request.name) internally h
          (system-IsInt64 req.request.name h))
        (λ filesystem g s. exported-IsNumbered ip filesystem g s)

  copied-IsNumbered :
      (ip : Str) (source : ℤ) (fs : FileSystem) (pool : Pool) (h : History)
      → Returned IsNumbered (clone_of env lib flags capacity req ip source fs pool h).0
  copied-IsNumbered ip source fs pool h = elim (Bool-cases (int_eq pool.id fs.pool_id)) [
    | inl same ↦
        let request : SnapshotRequest = record {
          parent_id = source;
          snapshot_name = req.request.name;
          write_protected = false;
          ssd_enabled = false;
          lock_expires_at = pos 0;
        } in
        rw same (
          Returned-answer IsNumbered internally (env.create_file_system_snapshot h request) _
            (Call.create_file_system_snapshot request ∷ h)
            (λ s q. exported-IsNumbered ip s.snapshot_id _ (small.2 h request s q)))
    | inr other ↦ rw other tt
  ]

  cloned-IsNumbered :
      (ip source : Str) (h : History)
      → Returned IsNumbered (clone_file_system env lib flags capacity req ip source h).0
  cloned-IsNumbered ip source h =
      Returned-answer IsNumbered (to_implementation Code.not_found) (validate_volume_id source) _ h
        (λ config q.
          Returned-answer IsNumbered (to_implementation Code.not_found)
            (env.get_file_system_by_id h config.volume_id) _
            (Call.get_file_system_by_id config.volume_id ∷ h)
            (λ fs q'. elim (Bool-cases (int_eq fs.size capacity)) [
              | inl same ↦ rw same (
                  Returned-answer IsNumbered (to_implementation Code.invalid_argument)
                    (env.get_pool_by_name (Call.get_file_system_by_id config.volume_id ∷ h)
                      (value req.request.parameters pool_name))
                    _ _ (λ pool q''. copied-IsNumbered ip config.volume_id fs pool _))
              | inr other ↦ rw other tt
            ]))

  sourced-IsNumbered :
      (ip : Str) (source : Option Source) (h : History)
      → Returned IsNumbered (from_source env lib flags capacity req ip source h).0
  sourced-IsNumbered ip (some (from_snapshot id)) h = cloned-IsNumbered ip id h
  sourced-IsNumbered ip (some (from_volume id)) h = cloned-IsNumbered ip id h
  sourced-IsNumbered ip (some unset) h = created-IsNumbered ip h
  sourced-IsNumbered ip none h = created-IsNumbered ip h

  named-IsNumbered :
      (ip : Str) (h : History) (r : Answer FileSystem)
      → env.get_file_system_by_name h req.request.name ≡ r
      → Returned IsNumbered
          (named_file_system env lib flags capacity req ip r
            (Call.get_file_system_by_name req.request.name ∷ h)).0
  unfolding nfs_response
  named-IsNumbered ip h (err e) q = elim (Bool-cases e.is_not_found) [
    | inl free ↦ rw free (
        Returned-wrapping IsNumbered (from_source env lib flags capacity req ip req.request.source)
          internally _ (sourced-IsNumbered ip req.request.source _))
    | inr failed ↦ rw failed tt
  ]
  named-IsNumbered ip h (ok fs) q =
      let named : History = Call.get_file_system_by_name req.request.name ∷ h in
      Returned-listing IsNumbered internally (env.get_exports_by_file_system_id named fs.id).items
        (env.get_exports_by_file_system_id named fs.id).error _
        (Call.get_exports_by_file_system_id fs.id ∷ named)
        (λ listed. elim (Bool-cases (int_eq capacity fs.size)) [
          | inl same ↦ rw same (fs.id, small.0 h req.request.name fs q, refl)
          | inr other ↦ rw other tt
        ])

  pub nfs_create_volume-IsNumbered :
      (h : History) → Returned IsNumbered (nfs_create_volume env lib flags capacity req h).0
  unfolding nfs_create_volume
  nfs_create_volume-IsNumbered h = elim (Bool-cases (asks_for_block req.capabilities)) [
    | inl block ↦ rw block tt
    | inr files ↦ rw files (
        Returned-bind IsNumbered
          (wrapping
            (network_space_ip env lib (trim_spaces (value req.request.parameters network_space)))
            (to_implementation Code.invalid_argument))
          _ h (λ ip g. named-IsNumbered ip g (env.get_file_system_by_name g req.request.name) refl))
  ]
