-- ===== src/Controllers/Numbers.antt =====
-- The identifiers of the volumes that the controllers create.
use infinibox_csi_driver.Prelude.{
  ◌≡◌, refl, Bool-cases, inl, inr, Option, none, some, [], ◌∷◌, is_empty, if◌then◌else◌,
}
use infinibox_csi_driver.Prelude.Int.{ℤ, int_eq, IsInt64}
use infinibox_csi_driver.Strings.{Str}
use infinibox_csi_driver.Exec.{Answer, ok, err, Err, Code, internally, to_status, pure, ◌>>=◌}
use infinibox_csi_driver.Params.{
  value, pool_name, ssd_enabled, pv_name_key, feature_promote_snapshot,
}
use infinibox_csi_driver.Capacity.{determine_ssd_value}
use infinibox_csi_driver.VolumeId.{validate_volume_id}
use infinibox_csi_driver.Ibox.{Call, Volume, Pool, CreateVolumeRequest, Env, History}
use infinibox_csi_driver.Ibox.Client.{M}
use infinibox_csi_driver.Ibox.Returned.{Returned, Returned-bind, Returned-answer, Returned-through}
use infinibox_csi_driver.Volumes.Response.{
  Source, CreateRequest, storage_pool_name, csi_response, with_parameters,
}
use infinibox_csi_driver.Volumes.Clone.{
  source_id, promote_if, feature_of, describe_clone, finish_clone, clone_request, clone_pooled,
  clone,
}
use infinibox_csi_driver.Fc.Create.{
  confirm_created, volume_request, create_in, create_new, named_volume, fc_create_volume,
}
use infinibox_csi_driver.Iscsi.Create.{
  create_in_pool, create_block, named_block, create_block_volume,
}
use infinibox_csi_driver.Service.Create.Handle.{IsNumbered}

-- Every volume that the appliance answers with is named by an int64.
abbrev pub HasSmallVolumes : Env → Type 0
HasSmallVolumes env =
    ((h : History) (name : Str) (v : Volume) → env.get_volume_by_name h name ≡ ok v → IsInt64 v.id)
    × ((h : History) (id : ℤ) (v : Volume) → env.get_volume h id ≡ ok v → IsInt64 v.id)
    × ((h : History) (r : CreateVolumeRequest) (v : Volume)
        → env.create_volume h r ≡ ok v
        → IsInt64 v.id)

module _ (env : Env) (req : CreateRequest) (small : HasSmallVolumes env) where
  response-IsNumbered :
      (volume : Volume) (h : History)
      → IsInt64 volume.id
      → Returned IsNumbered (csi_response env req volume h).0
  unfolding csi_response
  response-IsNumbered volume h s =
      Returned-bind IsNumbered
        (if is_empty volume.pool_name
          then storage_pool_name env volume.pool_id
          else pure volume.pool_name)
        _ h (λ pool g. (volume.id, s, refl))

  described-IsNumbered :
      (volume : Volume) (h : History)
      → IsInt64 volume.id
      → Returned IsNumbered (describe_clone env req volume h).0
  described-IsNumbered volume h s =
      Returned-through IsNumbered IsNumbered (csi_response env req volume h) _
        (response-IsNumbered volume h s)
        (λ r g n.
          Returned-answer IsNumbered (to_status Code.internal)
            (env.put_metadata g volume.id (pv_name_key ∷ [])) _
            (Call.put_metadata volume.id (pv_name_key ∷ []) ∷ g) (λ u q. n))

  finished-IsNumbered :
      (snapshot : ℤ) (h : History) → Returned IsNumbered (finish_clone env req snapshot h).0
  finished-IsNumbered snapshot h =
      Returned-answer IsNumbered (to_status Code.internal) (env.get_volume h snapshot) _
        (Call.get_volume snapshot ∷ h)
        (λ volume q.
          Returned-answer IsNumbered (to_status Code.internal)
            (env.get_features (Call.get_volume snapshot ∷ h)) _
            (Call.get_features ∷ Call.get_volume snapshot ∷ h)
            (λ features q'.
              Returned-bind IsNumbered
                (promote_if env req (feature_of feature_promote_snapshot features) volume.id) _
                (Call.get_features ∷ Call.get_volume snapshot ∷ h)
                (λ u g. described-IsNumbered volume g (small.1 h snapshot volume q))))

  pooled-IsNumbered :
      (parent : ℤ) (source : Volume) (pool : Pool) (h : History)
      → Returned IsNumbered (clone_pooled env req parent source pool h).0
  pooled-IsNumbered parent source pool h = elim (Bool-cases (int_eq pool.id source.pool_id)) [
    | inl same ↦ rw same (
        Returned-answer IsNumbered (to_status Code.internal)
          (env.create_snapshot_volume h (clone_request env req parent)) _
          (Call.create_snapshot_volume (clone_request env req parent) ∷ h)
          (λ snapshot q. finished-IsNumbered snapshot.snapshot_id _))
    | inr other ↦ rw other tt
  ]

  clone-IsNumbered :
      (source : Source) (size : ℤ) (pool : Str) (h : History)
      → Returned IsNumbered (clone env req source size pool h).0
  unfolding clone
  clone-IsNumbered source size pool h =
      Returned-answer IsNumbered (to_status Code.not_found) (validate_volume_id (source_id source))
        _ h
        (λ config q.
          Returned-answer IsNumbered (to_status Code.not_found) (env.get_volume h config.volume_id)
            _ (Call.get_volume config.volume_id ∷ h)
            (λ volume q'. elim (Bool-cases (int_eq volume.size size)) [
              | inl same ↦ rw same (
                  Returned-answer IsNumbered (to_status Code.internal)
                    (env.get_pool_by_name (Call.get_volume config.volume_id ∷ h) pool) _
                    (Call.get_pool_by_name pool ∷ Call.get_volume config.volume_id ∷ h)
                    (λ p q''. pooled-IsNumbered config.volume_id volume p _))
              | inr other ↦ rw other tt
            ]))

  -- The name's volume, if there is one of the size.
  existing-IsNumbered :
      (volume : Volume) (h : History)
      → IsInt64 volume.id
      → Returned IsNumbered
          ((csi_response env req volume >>= λ response. pure (with_parameters req response)) h).0
  existing-IsNumbered volume h s =
      Returned-through IsNumbered IsNumbered (csi_response env req volume h) _
        (response-IsNumbered volume h s) (λ r g n. n)

  module _ (size : ℤ) where
    confirmed-IsNumbered :
        (created : Volume) (r : Answer Volume) (h : History)
        → IsInt64 created.id
        → Returned IsNumbered (confirm_created env req size created r h).0
    confirmed-IsNumbered created (ok v) h s =
        Returned-answer IsNumbered internally (env.put_metadata h created.id (pv_name_key ∷ [])) _ _
          (λ u q. (created.id, s, refl))
    confirmed-IsNumbered created (err e) h s =
        Returned-answer IsNumbered internally (env.get_volume h created.id) _
          (Call.get_volume created.id ∷ h)
          (λ v q.
            Returned-answer IsNumbered internally
              (env.put_metadata (Call.get_volume created.id ∷ h) created.id (pv_name_key ∷ [])) _ _
              (λ u q'. (created.id, s, refl)))

    in-IsNumbered :
        (pool : Pool) (h : History) → Returned IsNumbered (create_in env req size pool h).0
    in-IsNumbered pool h =
        Returned-answer IsNumbered internally
          (determine_ssd_value (value req.parameters ssd_enabled) pool.ssd_enabled) _ h
          (λ ssd q.
            let request : CreateVolumeRequest = volume_request env req size pool ssd in
            Returned-answer IsNumbered internally (env.create_volume h request) _
              (Call.create_volume request ∷ h)
              (λ created q'.
                confirmed-IsNumbered created
                  (env.get_volume (Call.create_volume request ∷ h) created.id) _
                  (small.2 h request created q')))

    new-IsNumbered :
        (source : Option Source) (h : History)
        → Returned IsNumbered (create_new env req size source h).0
    new-IsNumbered (some source) h = clone-IsNumbered source size (value req.parameters pool_name) h
    new-IsNumbered none h =
        Returned-answer IsNumbered internally
          (env.get_pool_by_name h (value req.parameters pool_name)) _
          (Call.get_pool_by_name (value req.parameters pool_name) ∷ h)
          (λ pool q. in-IsNumbered pool _)

    named-IsNumbered :
        (h : History) (r : Answer Volume)
        → env.get_volume_by_name h req.name ≡ r
        → Returned IsNumbered (named_volume env req size r (Call.get_volume_by_name req.name ∷ h)).0
    named-IsNumbered h (err e) q = elim (Bool-cases e.is_not_found) [
      | inl free ↦ rw free (new-IsNumbered req.source _)
      | inr failed ↦ rw failed tt
    ]
    named-IsNumbered h (ok v) q = elim (Bool-cases (int_eq v.size size)) [
      | inl same ↦ rw same (existing-IsNumbered v _ (small.0 h req.name v q))
      | inr other ↦ rw other tt
    ]

    pub fc_create_volume-IsNumbered :
        (h : History) → Returned IsNumbered (fc_create_volume env req size h).0
    unfolding fc_create_volume
    fc_create_volume-IsNumbered h = named-IsNumbered h (env.get_volume_by_name h req.name) refl

    -- iSCSI and NVMe, whose ways to read the volume back differ.
    module _ (lookup_failed : Err → Err) (confirm : ℤ → M Volume) where
      pool-IsNumbered :
          (pool : Pool) (h : History)
          → Returned IsNumbered (create_in_pool env lookup_failed confirm req size pool h).0
      pool-IsNumbered pool h =
          Returned-answer IsNumbered internally
            (determine_ssd_value (value req.parameters ssd_enabled) pool.ssd_enabled) _ h
            (λ ssd q.
              let request : CreateVolumeRequest = volume_request env req size pool ssd in
              Returned-answer IsNumbered internally (env.create_volume h request) _
                (Call.create_volume request ∷ h)
                (λ created q'.
                  Returned-through IsNumbered IsNumbered
                    (csi_response env req created (Call.create_volume request ∷ h)) _
                    (response-IsNumbered created _ (small.2 h request created q'))
                    (λ r g n. Returned-bind IsNumbered (confirm created.id) _ g (λ v g'.
                      Returned-answer IsNumbered internally
                        (env.put_metadata g' v.id (pv_name_key ∷ [])) _ _ (λ u q''. n)))))

      block-IsNumbered :
          (source : Option Source) (h : History)
          → Returned IsNumbered (create_block env lookup_failed confirm req size source h).0
      block-IsNumbered (some source) h =
          clone-IsNumbered source size (value req.parameters pool_name) h
      block-IsNumbered none h =
          Returned-answer IsNumbered internally
            (env.get_pool_by_name h (value req.parameters pool_name)) _
            (Call.get_pool_by_name (value req.parameters pool_name) ∷ h)
            (λ pool q. pool-IsNumbered pool _)

      found-IsNumbered :
          (h : History) (r : Answer Volume)
          → env.get_volume_by_name h req.name ≡ r
          → Returned IsNumbered
              (named_block env lookup_failed confirm req size r
                (Call.get_volume_by_name req.name ∷ h)).0
      found-IsNumbered h (err e) q = elim (Bool-cases e.is_not_found) [
        | inl free ↦ rw free (block-IsNumbered req.source _)
        | inr failed ↦ rw failed tt
      ]
      found-IsNumbered h (ok v) q = elim (Bool-cases (int_eq v.size size)) [
        | inl same ↦ rw same (existing-IsNumbered v _ (small.0 h req.name v q))
        | inr other ↦ rw other tt
      ]

      pub create_block_volume-IsNumbered :
          (h : History)
          → Returned IsNumbered (create_block_volume env lookup_failed confirm req size h).0
      unfolding create_block_volume
      create_block_volume-IsNumbered h = found-IsNumbered h (env.get_volume_by_name h req.name) refl
