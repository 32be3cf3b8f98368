-- ===== src/Fc/Create/Safety.antt =====
-- Which volumes CreateVolume makes.
use infinibox_csi_driver.Prelude.{
  ◌≡◌, refl, arith, Bool, Option, none, some, [], ◌∷◌, is_empty, Bool-cases, inl, inr,
}
use infinibox_csi_driver.Prelude.Int.{ℤ, int_eq}
use infinibox_csi_driver.Strings.{Str}
use infinibox_csi_driver.Exec.{Answer, ok, err, internally}
use infinibox_csi_driver.Params.{value, pool_name, ssd_enabled, pv_name_key}
use infinibox_csi_driver.Capacity.{determine_ssd_value}
use infinibox_csi_driver.Ibox.{Call, Volume, Pool, CreateVolumeRequest, Env, History}
use infinibox_csi_driver.Ibox.Safety.{Once, now, before, Always, keeps-bind, keeps-answer}
use infinibox_csi_driver.Volumes.Snapshots.Safety.{NameFree}
use infinibox_csi_driver.Volumes.Clone.Safety.{IsCloneChecked, MakesNoVolume, clone_keeps}
use infinibox_csi_driver.Volumes.Response.{Source, CreateRequest, csi_response, storage_pool_name}
use infinibox_csi_driver.Fc.Create.{
  requested_provision, confirm_created, volume_request, create_in, create_new, named_volume,
  fc_create_volume,
}

module _ (env : Env) (req : CreateRequest) (size : ℤ) where
  -- The call found the pool of the request, from which the SSD setting follows.
  abbrev pub ReadPoolSsd : ℤ → Bool → History → Call → Type 0
  ReadPoolSsd id ssd h c =
      (p : Pool) × (c ≡ Call.get_pool_by_name (value req.parameters pool_name))
      × (env.get_pool_by_name h (value req.parameters pool_name) ≡ ok p)
      × (p.id ≡ id)
      × (determine_ssd_value (value req.parameters ssd_enabled) p.ssd_enabled ≡ ok ssd)

  abbrev pool : Str
  pool = value req.parameters pool_name

  -- What holds when a volume, or a snapshot, is made.
  abbrev pub IsCreateChecked : History → Call → Type 0
  IsCreateChecked h (Call.create_volume r) =
      Once (NameFree env req.name) h
      × Once (ReadPoolSsd r.pool_id r.ssd_enabled) h
      × (r.name ≡ req.name)
      × (r.volume_size ≡ size)
      × (r.provision_type ≡ requested_provision req.parameters)
      × (req.source ≡ none)
  IsCreateChecked h (Call.create_snapshot_volume r) =
      IsCloneChecked env req size (value req.parameters pool_name) h (Call.create_snapshot_volume r)
  IsCreateChecked h _ = Unit

  clone_allows :
      (h : History) (c : Call)
      → IsCloneChecked env req size pool h c × MakesNoVolume c
      → IsCreateChecked h c
  clone_allows h (Call.create_volume r) x = absurd x.1
  clone_allows h (Call.create_snapshot_volume r) x = x.0
  clone_allows h _ x = tt

  confirm_keeps :
      (created : Volume) (r : Answer Volume) (h : History)
      → Always IsCreateChecked h
      → Always IsCreateChecked (confirm_created env req size created r h).1
  confirm_keeps created (ok volume) h a =
      keeps-answer IsCreateChecked internally (env.put_metadata h created.id (pv_name_key ∷ [])) _
        (Call.put_metadata created.id (pv_name_key ∷ []) ∷ h) (tt, a) (λ u _. (tt, a))
  confirm_keeps created (err e) h a =
      let read : History = Call.get_volume created.id ∷ h in
      keeps-answer IsCreateChecked internally (env.get_volume h created.id) _ read (tt, a)
        (λ v _.
          keeps-answer IsCreateChecked internally
            (env.put_metadata read created.id (pv_name_key ∷ [])) _
            (Call.put_metadata created.id (pv_name_key ∷ []) ∷ read) (tt, (tt, a))
            (λ u _. (tt, (tt, a))))

  in_keeps :
      (p : Pool) (h : History)
      → env.get_pool_by_name h pool ≡ ok p
      → Once (NameFree env req.name) h
      → req.source ≡ none
      → Always IsCreateChecked h
      → Always IsCreateChecked (create_in env req size p (Call.get_pool_by_name pool ∷ h)).1
  in_keeps p h q n s a =
      let found : History = Call.get_pool_by_name pool ∷ h in
      keeps-answer IsCreateChecked internally
        (determine_ssd_value (value req.parameters ssd_enabled) p.ssd_enabled) _ found (tt, a)
        (λ ssd v.
          let request : CreateVolumeRequest = volume_request env req size p ssd in
          let made : History = Call.create_volume request ∷ found in
          let kept : Always IsCreateChecked made =
            ((before n, now (p, refl, q, refl, v), refl, refl, refl, s), (tt, a)) in
          keeps-answer IsCreateChecked internally (env.create_volume found request) _ made kept
            (λ created _.
              confirm_keeps created (env.get_volume made created.id)
                (Call.get_volume created.id ∷ made) (tt, kept)))

  new_keeps :
      (source : Option Source) (h : History)
      → req.source ≡ source
      → Once (NameFree env req.name) h
      → Always IsCreateChecked h
      → Always IsCreateChecked (create_new env req size source h).1
  new_keeps (some source) h s n a =
      clone_keeps env req size pool IsCreateChecked clone_allows source h a
  new_keeps none h s n a =
      keeps-answer IsCreateChecked internally (env.get_pool_by_name h pool) _
        (Call.get_pool_by_name pool ∷ h) (tt, a) (λ p q. in_keeps p h q n s a)

  existing_keeps :
      (existing : Volume) (h : History)
      → Always IsCreateChecked h
      → Always IsCreateChecked (csi_response env req existing h).1
  unfolding csi_response storage_pool_name
  existing_keeps existing h a = elim (Bool-cases (is_empty existing.pool_name)) [
    | inl e ↦ rw e (ground (arith, a))
    | inr e ↦ rw e a
  ]

  named_keeps :
      (h : History)
      → Always IsCreateChecked h
      → (r : Answer Volume) → env.get_volume_by_name h req.name ≡ r
      → Always IsCreateChecked
          (named_volume env req size r (Call.get_volume_by_name req.name ∷ h)).1
  named_keeps h a (err e) q = elim (Bool-cases e.is_not_found) [
    | inl free ↦ rw free (
        new_keeps req.source (Call.get_volume_by_name req.name ∷ h) refl (now (e, refl, q, free))
          (tt, a))
    | inr failed ↦ rw failed (tt, a)
  ]
  named_keeps h a (ok existing) q = elim (Bool-cases (int_eq existing.size size)) [
    | inl same ↦ rw same (
        keeps-bind IsCreateChecked (csi_response env req existing) _
          (Call.get_volume_by_name req.name ∷ h) (existing_keeps existing _ (tt, a))
          (λ response h' a'. a'))
    | inr other ↦ rw other (tt, a)
  ]

  -- For any appliance and any earlier calls, in whatever way CreateVolume of the FC controller ends,
  -- a volume that it makes has the requested name, which a query had found free, the requested
  -- size and provision type, and the pool that has the requested name, with the SSD setting that
  -- follows from the request and that pool; and it makes one only for a request without content
  -- source. A snapshot that it makes is one that CreateVolumeFromVolumeContent may make.
  pub fc_create_volume-IsCreateChecked :
      (h : History)
      → Always IsCreateChecked h
      → Always IsCreateChecked (fc_create_volume env req size h).1
  unfolding fc_create_volume
  fc_create_volume-IsCreateChecked h a = named_keeps h a (env.get_volume_by_name h req.name) refl
