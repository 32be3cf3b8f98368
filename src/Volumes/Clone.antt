-- ===== src/Volumes/Clone.antt =====
-- CreateVolumeFromVolumeContent of storage/common/snapshot.go.
pub mod Safety
use infinibox_csi_driver.Prelude.{
  Bool, true, false, Option, none, some, List, [], ◌∷◌, not, is_empty, if◌then◌else◌,
}
use infinibox_csi_driver.Prelude.Int.{ℤ, pos, int_eq}
use infinibox_csi_driver.Strings.{Str, str_eq, parse_bool}
use infinibox_csi_driver.Exec.{
  Answer, ok, err, Code, to_status, status_error, pure, throw, from_answer, or_fail, ◌>>=◌, ◌>>◌,
}
use infinibox_csi_driver.Params.{value, ssd_enabled, pv_name_key, feature_promote_snapshot}
use infinibox_csi_driver.VolumeId.{VolumeConfig, validate_volume_id}
use infinibox_csi_driver.Ibox.{Volume, Pool, Snapshot, SnapshotRequest, Feature, Env}
use infinibox_csi_driver.Ibox.Client.{
  M, get_volume, get_pool_by_name, create_snapshot_volume, get_features, promote_snapshot,
  put_metadata,
}
use infinibox_csi_driver.Volumes.Response.{
  Source, from_snapshot, from_volume, unset, CreateRequest, CsiVolume, csi_response,
  with_parameters,
}

abbrev pub source_id : Source → Str
source_id (from_snapshot id) = id
source_id (from_volume id) = id
source_id unset = []

-- featureEnabled: the first feature of the name decides.
unfoldable pub feature_of : Str → List Feature → Bool
feature_of name [] = false
feature_of name (f ∷ fs) =
    let rest = feature_of name fs in if str_eq f.name name then f.enabled else rest

-- `ssdEnabled, _ := strconv.ParseBool(ssd)`
abbrev bool_or_false : Option Bool → Bool
bool_or_false none = false
bool_or_false (some b) = b

abbrev pub requested_ssd : Str → Bool
requested_ssd s = if is_empty s then false else bool_or_false (parse_bool s)

module _ (env : Env) (req : CreateRequest) where
  abbrev pub promote_if : Bool → ℤ → M (Unit {0})
  promote_if enabled volume =
      if enabled then or_fail (promote_snapshot env volume) (to_status Code.internal) else pure tt

  abbrev pub describe_clone : Volume → M CsiVolume
  describe_clone volume = do
    response ← csi_response env req volume
    or_fail (put_metadata env volume.id (pv_name_key ∷ [])) (to_status Code.internal)
    pure (with_parameters req response)

  abbrev pub promote_clone : Volume → List Feature → M CsiVolume
  promote_clone volume features = do
    promote_if (feature_of feature_promote_snapshot features) volume.id
    describe_clone volume

  -- After the snapshot is made: promote it if the appliance can, and describe it.
  abbrev pub finish_clone : ℤ → M CsiVolume
  finish_clone snapshot = do
    volume ← or_fail (get_volume env snapshot) (to_status Code.internal)
    or_fail (get_features env) (to_status Code.internal) >>= promote_clone volume

  abbrev pub clone_request : ℤ → SnapshotRequest
  clone_request parent = record {
    parent_id = parent;
    snapshot_name = req.name;
    write_protected = false;
    ssd_enabled = requested_ssd (value req.parameters ssd_enabled);
    lock_expires_at = pos 0;
  }

  abbrev pub clone_pooled : (parent : ℤ) → Volume → Pool → M CsiVolume
  clone_pooled parent source pool =
      if int_eq pool.id source.pool_id
      then (do
        snapshot ←
            or_fail (create_snapshot_volume env (clone_request parent)) (to_status Code.internal)
        finish_clone snapshot.snapshot_id)
      else throw (status_error Code.invalid_argument)

  abbrev pub clone_read : (size : ℤ) (pool : Str) (parent : ℤ) → Volume → M CsiVolume
  clone_read size pool parent source =
      if int_eq source.size size
      then or_fail (get_pool_by_name env pool) (to_status Code.internal)
        >>= clone_pooled parent source
      else throw (status_error Code.invalid_argument)

-- CreateVolumeFromVolumeContent, for a request that has a content source.
unfoldable pub clone : Env → CreateRequest → Source → (size : ℤ) (pool : Str) → M CsiVolume
clone env req source size pool = do
  config ← from_answer (to_status Code.not_found) (validate_volume_id (source_id source))
  or_fail (get_volume env config.volume_id) (to_status Code.not_found)
      >>= clone_read env req size pool config.volume_id
