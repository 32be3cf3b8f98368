-- ===== src/Fc/Create.antt =====
-- CreateVolume of storage/fc/fccontroller.go.
pub mod Safety
use infinibox_csi_driver.Prelude.{
  ◌≡◌, Bool, true, false, Option, none, some, List, [], ◌∷◌, if◌then◌else◌,
}
use infinibox_csi_driver.Prelude.Int.{ℤ, int_eq}
use infinibox_csi_driver.Strings.{Str}
use infinibox_csi_driver.Exec.{
  Answer, ok, err, Code, internally, implementation_error, pure, throw, from_answer, or_fail, ◌>>=◌,
  ◌>>◌,
}
use infinibox_csi_driver.Params.{
  Params, lookup, value, pool_name, provision_type, thin_provision, ssd_enabled, pv_name_key,
}
use infinibox_csi_driver.Capacity.{determine_ssd_value}
use infinibox_csi_driver.Ibox.{Volume, Pool, CreateVolumeRequest, Env}
use infinibox_csi_driver.Ibox.Client.{
  M, get_volume, get_volume_by_name, get_pool_by_name, create_volume, put_metadata,
}
use infinibox_csi_driver.Volumes.Response.{
  Source, CreateRequest, CsiVolume, csi_volume, csi_response, with_parameters,
}
use infinibox_csi_driver.Volumes.Clone.{clone}

abbrev or_thin : Option Str → Str
or_thin none = thin_provision
or_thin (some kind) = kind

-- A StorageClass without the parameter makes thin volumes; an empty one is passed on.
unfoldable pub requested_provision : Params → Str
unfolding lookup
requested_provision params = or_thin (lookup params provision_type)

module _ (env : Env) (req : CreateRequest) (size : ℤ) where
  -- The volume is read back once, and once more if that fails.
  abbrev pub confirm_created : Volume → Answer Volume → M CsiVolume
  confirm_created created (ok volume) = do
    or_fail (put_metadata env created.id (pv_name_key ∷ [])) internally
    pure (with_parameters req (csi_volume env req created created.pool_name))
  confirm_created created (err e) = do
    or_fail (get_volume env created.id) internally
    or_fail (put_metadata env created.id (pv_name_key ∷ [])) internally
    pure (with_parameters req (csi_volume env req created created.pool_name))

  abbrev pub volume_request : Pool → Bool → CreateVolumeRequest
  volume_request pool ssd = record {
    pool_id = pool.id;
    volume_size = size;
    name = req.name;
    provision_type = requested_provision req.parameters;
    ssd_enabled = ssd;
  }

  abbrev pub create_in : Pool → M CsiVolume
  create_in pool = do
    ssd ←
        from_answer internally
          (determine_ssd_value (value req.parameters ssd_enabled) pool.ssd_enabled)
    created ← or_fail (create_volume env (volume_request pool ssd)) internally
    get_volume env created.id >>= confirm_created created

  abbrev pub create_new : Option Source → M CsiVolume
  create_new (some source) = clone env req source size (value req.parameters pool_name)
  create_new none =
      or_fail (get_pool_by_name env (value req.parameters pool_name)) internally >>= create_in

  -- The name is looked up first: the same size is answered again, another size is refused.
  abbrev pub named_volume : Answer Volume → M CsiVolume
  named_volume (err e) = if e.is_not_found then create_new req.source else throw (internally e)
  named_volume (ok existing) =
      if int_eq existing.size size
      then (do response ← csi_response env req existing; pure (with_parameters req response))
      else throw (implementation_error Code.already_exists)

unfoldable pub fc_create_volume : Env → CreateRequest → (size : ℤ) → M CsiVolume
fc_create_volume env req size = get_volume_by_name env req.name >>= named_volume env req size
