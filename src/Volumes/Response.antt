-- ===== src/Volumes/Response.antt =====
-- The answer to CreateVolume: GetCSIResponse, getStoragePoolNameFromID and CopyRequestParameters of
-- storage/common/common.go.
pub mod Copy
use infinibox_csi_driver.Prelude.{Option, none, some, List, [], ◌∷◌, is_empty, if◌then◌else◌}
use infinibox_csi_driver.Prelude.Int.{ℤ, int_eq}
use infinibox_csi_driver.Strings.{Str}
use infinibox_csi_driver.Strings.Decimal.{itoa}
use infinibox_csi_driver.Exec.{Answer, ok, err, pure, crash, ◌>>=◌, ◌>>◌}
use infinibox_csi_driver.Params.{
  Params, value, put, id_key, name_key, storage_pool_id_key, storage_pool_name_key,
  creation_time_key, target_wwns_key,
}
use infinibox_csi_driver.Ibox.{Volume, Pool, Env}
use infinibox_csi_driver.Ibox.Client.{M, get_pool_by_id}

-- csi.VolumeContentSource
pub data Source : Type 0 where
  from_snapshot from_volume : Str → Source
  unset : Source

-- csi.CreateVolumeRequest
pub record CreateRequest : Type 0 where
  pub name : Str
  pub parameters : Params
  pub source : Option Source

-- csi.Volume
pub record CsiVolume : Type 0 where
  pub volume_id : Str
  pub capacity_bytes : ℤ
  pub volume_context : Params
  pub content_source : Option Source

-- A Go map from numbers to names: `none` is nil, which reads as empty, and a write to it panics.
abbrev pub PoolNames : Type 0
PoolNames = Option (List (ℤ × Str))

abbrev looked_up : ℤ → List (ℤ × Str) → Str
looked_up id [] = []
looked_up id ((i, name) ∷ names) = if int_eq i id then name else looked_up id names

abbrev pub cached_name : PoolNames → ℤ → Str
cached_name none id = []
cached_name (some names) id = looked_up id names

abbrev pub cache_name : PoolNames → ℤ → Str → M PoolNames
cache_name none id name = crash
cache_name (some names) id name = pure (some ((id, name) ∷ names))

-- The field `storagePoolIDName` of a new Commonservice, which BuildCommonService leaves nil.
abbrev pub new_pool_names : PoolNames
new_pool_names = none

abbrev pub found_pool_name : PoolNames → ℤ → Answer Pool → M Str
found_pool_name names id (err e) = pure []
found_pool_name names id (ok pool) = do cache_name names id pool.name; pure pool.name

-- The name in the cache, or else the appliance's.
abbrev pub pool_name_with : Env → PoolNames → ℤ → M Str
pool_name_with env names id =
    if is_empty (cached_name names id)
    then get_pool_by_id env id >>= found_pool_name names id
    else pure (cached_name names id)

unfoldable pub storage_pool_name : Env → ℤ → M Str
storage_pool_name env pool_id = pool_name_with env new_pool_names pool_id

abbrev pub csi_volume : Env → CreateRequest → Volume → Str → CsiVolume
csi_volume env req vol pool = record {
  volume_id = itoa vol.id;
  capacity_bytes = vol.size;
  volume_context =
      (id_key, itoa vol.id)
      ∷ (name_key, vol.name)
      ∷ (storage_pool_id_key, itoa vol.pool_id)
      ∷ (storage_pool_name_key, pool)
      ∷ (creation_time_key, env.format_time vol.created_at)
      ∷ (target_wwns_key, value req.parameters target_wwns_key)
      ∷ [];
  content_source = req.source;
}

-- GetCSIResponse
unfoldable pub csi_response : Env → CreateRequest → Volume → M CsiVolume
unfolding storage_pool_name
csi_response env req vol = do
  pool ← if is_empty vol.pool_name then storage_pool_name env vol.pool_id else pure vol.pool_name
  pure (csi_volume env req vol pool)

-- CopyRequestParameters: the keys of a map are distinct, so that the order of the loop is free.
unfoldable pub copy_parameters : Params → Params → Params
unfolding put
copy_parameters [] out = out
copy_parameters ((k, v) ∷ ps) out = copy_parameters ps (if is_empty v then out else put out k v)

abbrev pub with_parameters : CreateRequest → CsiVolume → CsiVolume
with_parameters req vol = record vol {
  volume_context = copy_parameters req.parameters vol.volume_context;
}
