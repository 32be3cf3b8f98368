-- ===== src/Service/Snapshots.antt =====
-- ListSnapshots (service/controller.go) and ListSnapshotsImplementation (service/listsnapshots.go).
use infinibox_csi_driver.Prelude.{
  ℕ, zero, suc, ◌+◌, ◌/◌, List, [], ◌∷◌, ◌++◌, is_empty, if◌then◌else◌,
}
use infinibox_csi_driver.Prelude.Int.{ℤ, pos, negsuc, int_eq}
use infinibox_csi_driver.Strings.{Str, lit, str_eq}
use infinibox_csi_driver.Strings.Decimal.{itoa}
use infinibox_csi_driver.Exec.{
  Answer, ok, err, Code, status_error, to_status, pure, throw, from_answer, or_fail, wrapping,
  ◌>>=◌, ◌>>◌,
}
use infinibox_csi_driver.Params.{Params}
use infinibox_csi_driver.VolumeId.{VolumeConfig, validate_volume_id}
use infinibox_csi_driver.Ibox.{SnapshotInfo, Env}
use infinibox_csi_driver.Ibox.Client.{M, get_all_snapshots, get_volume, get_file_system_by_id}
use infinibox_csi_driver.Cluster.{Cluster, build_client, get_secrets}

-- csi.ListSnapshotsRequest
pub record SnapshotFilter : Type 0 where
  pub snapshot_id : Str
  pub source_volume_id : Str

-- An entry of ListSnapshots, with its time in seconds.
pub record SnapshotEntry : Type 0 where
  pub snapshot_id : Str
  pub source_volume_id : Str
  pub size_bytes : ℤ
  pub creation_time : ℤ

-- Go's division cuts towards 0.
abbrev pub negated : ℕ → ℤ
negated zero = pos 0
negated (suc n) = negsuc n

abbrev pub seconds_of : (milliseconds : ℤ) → ℤ
seconds_of (pos n) = pos (n / 1000)
seconds_of (negsuc n) = negated ((n + 1) / 1000)

abbrev pub unknown_parent : Str
unknown_parent = lit "unknown"

-- The parent's number if the appliance still has it.
abbrev pub parent_or_unknown {ℓ} : {A : Type ℓ} → ℤ → Answer A → M Str
parent_or_unknown id (ok parent) = pure (itoa id)
parent_or_unknown id (err e) = pure unknown_parent

abbrev pub parent_name : Env → SnapshotInfo → M Str
parent_name env s =
    if str_eq s.dataset_type (lit "VOLUME")
    then get_volume env s.parent_id >>= parent_or_unknown s.parent_id
    else if str_eq s.dataset_type (lit "FILESYSTEM")
    then get_file_system_by_id env s.parent_id >>= parent_or_unknown s.parent_id
    else pure unknown_parent

abbrev pub snapshot_entry : SnapshotInfo → (parent : Str) → SnapshotEntry
snapshot_entry s parent = record {
  snapshot_id = s.name;
  source_volume_id = parent;
  size_bytes = s.size;
  creation_time = seconds_of s.created_at;
}

module _ (filter : SnapshotFilter) where
  abbrev pub of_source : SnapshotEntry → Answer VolumeConfig → Answer (List SnapshotEntry)
  of_source entry (err e) = err (to_status Code.invalid_argument e)
  of_source entry (ok config) =
      if str_eq (itoa config.volume_id) entry.source_volume_id
      then ok (record entry { source_volume_id = filter.source_volume_id } ∷ [])
      else ok []

  abbrev pub of_snapshot : (wanted id : ℤ) → SnapshotEntry → List SnapshotEntry
  of_snapshot wanted id entry =
      if int_eq wanted id then record entry { snapshot_id = filter.snapshot_id } ∷ [] else []

  -- A filter by source goes before one by snapshot.
  abbrev pub selected : (wanted : ℤ) → SnapshotInfo → (parent : Str) → Answer (List SnapshotEntry)
  selected wanted s parent =
      if is_empty filter.source_volume_id
      then (if is_empty filter.snapshot_id
          then ok (snapshot_entry s parent ∷ [])
          else ok (of_snapshot wanted s.id (snapshot_entry s parent)))
      else of_source (snapshot_entry s parent) (validate_volume_id filter.source_volume_id)

  -- The number of the snapshot that is asked for; none is asked for as 0.
  abbrev pub wanted_number : Answer VolumeConfig → Answer ℤ
  wanted_number (err e) = err (to_status Code.invalid_argument e)
  wanted_number (ok config) = ok config.volume_id

  abbrev pub wanted_snapshot : Answer ℤ
  wanted_snapshot =
      if is_empty filter.snapshot_id
      then ok (pos 0)
      else wanted_number (validate_volume_id filter.snapshot_id)

  unfoldable pub snapshot_entries : Env → (wanted : ℤ) → List SnapshotInfo → M (List SnapshotEntry)
  snapshot_entries env wanted [] = pure []
  snapshot_entries env wanted (s ∷ ss) = do
    parent ← parent_name env s
    entries ← from_answer (λ e. e) (selected wanted s parent)
    rest ← snapshot_entries env wanted ss
    pure (entries ++ rest)

  abbrev pub made_client : Cluster → Params → Answer Env
  made_client k secret =
      if k.client_made secret then ok (k.appliance secret) else err (status_error Code.unavailable)

  -- Each appliance that a secret of the driver leads to is asked in turn.
  unfoldable pub snapshots_of : Cluster → List Params → M (List SnapshotEntry)
  snapshots_of k [] = pure []
  snapshots_of k (secret ∷ secrets) = do
    env ← from_answer (λ e. e) (made_client k secret)
    snapshots ← or_fail (get_all_snapshots env) (to_status Code.unavailable)
    wanted ← from_answer (λ e. e) wanted_snapshot
    entries ← snapshot_entries env wanted snapshots
    rest ← snapshots_of k secrets
    pure (entries ++ rest)

  abbrev pub snapshots_in_namespace : Cluster → M (List SnapshotEntry)
  snapshots_in_namespace k = do
    secrets ← or_fail (get_secrets k k.pod_namespace) (to_status Code.unavailable)
    snapshots_of k secrets

-- ListSnapshots
unfoldable pub list_snapshots : Cluster → SnapshotFilter → M (List SnapshotEntry)
list_snapshots k filter = do
  or_fail (build_client k) (to_status Code.unavailable)
  if is_empty k.pod_namespace
      then throw (status_error Code.unavailable)
      else wrapping (snapshots_in_namespace filter k) (to_status Code.unavailable)
