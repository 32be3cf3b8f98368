-- ===== src/Volumes/Snapshots/Handle.antt =====
-- The identifiers that CommonCreateSnapshot hands out.
use infinibox_csi_driver.Prelude.{◌≡◌, ◌≢◌, refl, [], ◌∷◌, Bool-cases, inl, inr}
use infinibox_csi_driver.Prelude.Int.{ℤ, pos, IsInt64, int_eq}
use infinibox_csi_driver.Strings.{Str}
use infinibox_csi_driver.Strings.Split.{Lacks}
use infinibox_csi_driver.Exec.{Answer, ok, err, Code, to_status}
use infinibox_csi_driver.Params.{protocol_treeq}
use infinibox_csi_driver.VolumeId.{VolumeConfig, validate_volume_id}
use infinibox_csi_driver.VolumeId.Format.{validate_volume_id-with_protocol}
use infinibox_csi_driver.Ibox.{Call, Volume, Snapshot, SnapshotRequest, Env, History}
use infinibox_csi_driver.Ibox.Returned.{Returned, Returned-bind, Returned-answer}
use infinibox_csi_driver.Volumes.Snapshots.{
  CreateSnapshotRequest, CsiSnapshot, lock_time, snapshot_of, snapshot_request, named_snapshot,
  create_snapshot,
}

-- The identifiers that the appliance answers for volumes and new snapshots are int64.
abbrev pub HasSmallIds : Env → Type 0
HasSmallIds env =
    ((h : History) (name : Str) (v : Volume) → env.get_volume_by_name h name ≡ ok v → IsInt64 v.id)
    × ((h : History) (r : SnapshotRequest) (s : Snapshot)
        → env.create_snapshot_volume h r ≡ ok s
        → IsInt64 s.snapshot_id)

-- The handle of a snapshot is read back with the protocol of its source.
abbrev pub IsReadable : VolumeConfig → CsiSnapshot → Type 0
IsReadable config s =
    (i : ℤ) × (validate_volume_id s.snapshot_id
      ≡ ok (record { volume_id = i; storage_type = config.storage_type; treeq_id = pos 0 }))

module _ (env : Env) (config : VolumeConfig) (req : CreateSnapshotRequest) (small : HasSmallIds env)
    (some_type : config.storage_type ≢ []) (not_treeq : config.storage_type ≢ protocol_treeq)
    (lacks : Lacks b'$' config.storage_type) where
  made-IsReadable :
      (parent : Volume) (lock : ℤ) (h : History)
      → Returned (IsReadable config) (snapshot_of env config req parent lock h).0
  made-IsReadable parent lock h =
      let request : SnapshotRequest = snapshot_request env config req parent lock in
      Returned-answer (IsReadable config) (to_status Code.internal)
        (env.create_snapshot_volume h request) _ (Call.create_snapshot_volume request ∷ h)
        (λ s q. (
          s.snapshot_id,
          validate_volume_id-with_protocol s.snapshot_id config.storage_type (small.1 h request s q)
              some_type not_treeq lacks,
        ))

  named-IsReadable :
      (h : History) (r : Answer Volume)
      → env.get_volume_by_name h req.name ≡ r
      → Returned
          (IsReadable config)
          (named_snapshot env config req r (Call.get_volume_by_name req.name ∷ h)).0
  named-IsReadable h (err e) q = elim (Bool-cases e.is_not_found) [
    | inl free ↦
        let asked : History = Call.get_volume_by_name req.name ∷ h in
        rw free (
          Returned-answer (IsReadable config) (to_status Code.not_found)
            (env.get_volume asked config.volume_id) _ (Call.get_volume config.volume_id ∷ asked)
            (λ parent p.
              Returned-bind (IsReadable config) (lock_time env config req)
                (snapshot_of env config req parent) (Call.get_volume config.volume_id ∷ asked)
                (made-IsReadable parent)))
    | inr failed ↦ rw failed tt
  ]
  named-IsReadable h (ok v) q = elim (Bool-cases (int_eq v.parent_id config.volume_id)) [
    | inl same ↦ rw same (
      v.id,
      validate_volume_id-with_protocol v.id config.storage_type (small.0 h req.name v q) some_type
          not_treeq lacks,
    )
    | inr other ↦ rw other tt
  ]

  -- If the appliance's identifiers are int64 and the source's protocol is not empty, is not nfs_treeq
  -- and holds no dollar sign, then every snapshot that CommonCreateSnapshot returns, a new one or one
  -- that exists, has an identifier that ValidateVolumeID accepts, with the protocol of the source.
  pub create_snapshot_handle :
      (h : History) → Returned (IsReadable config) (create_snapshot env config req h).0
  unfolding create_snapshot
  create_snapshot_handle h = named-IsReadable h (env.get_volume_by_name h req.name) refl
