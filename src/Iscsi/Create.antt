-- ===== src/Iscsi/Create.antt =====
-- CreateVolume of the iSCSI and of the NVMe controller (storage/iscsi/iscsicontroller.go,
-- storage/nvme/nvmecontroller.go), which differ in an error and in how they wait for the volume.
use infinibox_csi_driver.Prelude.{ℕ, zero, suc, Option, none, some, [], ◌∷◌, if◌then◌else◌}
use infinibox_csi_driver.Prelude.Int.{ℤ, int_eq}
use infinibox_csi_driver.Exec.{
  Answer, ok, err, Err, Code, internally, to_implementation, wrap_error, implementation_error, pure,
  throw, from_answer, or_fail, ◌>>=◌, ◌>>◌,
}
use infinibox_csi_driver.Params.{value, pool_name, ssd_enabled, pv_name_key}
use infinibox_csi_driver.Capacity.{determine_ssd_value}
use infinibox_csi_driver.Ibox.{Volume, Pool, Env}
use infinibox_csi_driver.Ibox.Client.{
  M, get_volume, get_volume_by_name, get_pool_by_name, create_volume, put_metadata,
}
use infinibox_csi_driver.Volumes.Response.{
  Source, CreateRequest, CsiVolume, csi_response, with_parameters,
}
use infinibox_csi_driver.Volumes.Clone.{clone}
use infinibox_csi_driver.Fc.Create.{volume_request}

-- `lookup_failed` wraps an error of the lookup of the name; `confirm` reads the new volume.
module _ (env : Env) (lookup_failed : Err → Err) (confirm : ℤ → M Volume) (req : CreateRequest)
    (size : ℤ) where
  abbrev pub describe_created : Volume → M CsiVolume
  describe_created created = do
    response ← csi_response env req created
    volume ← confirm created.id
    or_fail (put_metadata env volume.id (pv_name_key ∷ [])) internally
    pure (with_parameters req response)

  abbrev pub create_in_pool : Pool → M CsiVolume
  create_in_pool pool = do
    ssd ←
        from_answer internally
          (determine_ssd_value (value req.parameters ssd_enabled) pool.ssd_enabled)
    created ← or_fail (create_volume env (volume_request env req size pool ssd)) internally
    describe_created created

  abbrev pub create_block : Option Source → M CsiVolume
  create_block (some source) = clone env req source size (value req.parameters pool_name)
  create_block none =
      or_fail (get_pool_by_name env (value req.parameters pool_name)) internally >>= create_in_pool

  abbrev pub named_block : Answer Volume → M CsiVolume
  named_block (err e) = if e.is_not_found then create_block req.source else throw (lookup_failed e)
  named_block (ok existing) =
      if int_eq existing.size size
      then (do response ← csi_response env req existing; pure (with_parameters req response))
      else throw (implementation_error Code.already_exists)

  unfoldable pub create_block_volume : M CsiVolume
  create_block_volume = get_volume_by_name env req.name >>= named_block

-- The volume is read once; the loop behind it waits while a read returns no volume and no error.
abbrev pub read_once : Env → ℤ → M Volume
read_once env id = or_fail (get_volume env id) internally

unfoldable pub iscsi_create_volume : Env → CreateRequest → (size : ℤ) → M CsiVolume
iscsi_create_volume env req size =
    create_block_volume env (λ e. wrap_error (to_implementation Code.not_found e)) (read_once env)
      req size

-- The volume is read up to ten times, with pauses.
unfoldable pub read_again : Env → (tries : ℕ) → ℤ → Answer Volume → M Volume
read_again env tries id (ok volume) = pure volume
read_again env zero id (err e) = throw (implementation_error Code.internal)
read_again env (suc tries) id (err e) = get_volume env id >>= read_again env tries id

abbrev pub read_ten_times : Env → ℤ → M Volume
unfolding read_again
read_ten_times env id = get_volume env id >>= read_again env 9 id

unfoldable pub nvme_create_volume : Env → CreateRequest → (size : ℤ) → M CsiVolume
nvme_create_volume env req size =
    create_block_volume env (to_implementation Code.not_found) (read_ten_times env) req size
