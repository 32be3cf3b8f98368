-- ===== src/Volumes/Clone/Safety.antt =====
-- What CreateVolumeFromVolumeContent makes and promotes.
use infinibox_csi_driver.Prelude.{
  ◌≡◌, refl, arith, true, false, List, [], ◌∷◌, is_empty, Bool-cases, inl, inr,
}
use infinibox_csi_driver.Prelude.Int.{ℤ, pos, int_eq, int_eq_iff}
use infinibox_csi_driver.Strings.{Str}
use infinibox_csi_driver.Exec.{Answer, ok, err, Code, to_status, from_answer, ◌>>=◌}
use infinibox_csi_driver.Params.{pv_name_key, feature_promote_snapshot}
use infinibox_csi_driver.VolumeId.{validate_volume_id}
use infinibox_csi_driver.Ibox.{Call, Volume, Pool, Feature, Env, History}
use infinibox_csi_driver.Ibox.Client.{get_pool_by_id}
use infinibox_csi_driver.Ibox.Safety.{Once, now, before, Always, keeps-bind, keeps-answer}
use infinibox_csi_driver.Volumes.Response.{
  Source, CreateRequest, new_pool_names, found_pool_name, storage_pool_name, csi_response,
}
use infinibox_csi_driver.Volumes.Clone.{
  source_id, feature_of, promote_clone, describe_clone, finish_clone, clone_request, clone_pooled,
  clone_read, clone,
}

abbrev pub MakesNoVolume : Call → Type 0
MakesNoVolume (Call.create_volume r) = ⊥
MakesNoVolume _ = Unit

module _ (env : Env) where
  -- The call read volume `j`, and it has this size and this pool.
  abbrev pub ReadSource : (j size pool : ℤ) → History → Call → Type 0
  ReadSource j size pool h c =
      (v : Volume) × (c ≡ Call.get_volume j)
      × (env.get_volume h j ≡ ok v)
      × (v.size ≡ size)
      × (v.pool_id ≡ pool)

  -- The call found a pool of the name, with this identifier.
  abbrev pub ReadPool : Str → ℤ → History → Call → Type 0
  ReadPool name id h c =
      (p : Pool) × (c ≡ Call.get_pool_by_name name)
      × (env.get_pool_by_name h name ≡ ok p)
      × (p.id ≡ id)

  -- The call read the appliance's features, and snapshots can be promoted.
  abbrev pub ReadPromotes : History → Call → Type 0
  ReadPromotes h c =
      (fs : List Feature) × (c ≡ Call.get_features)
      × (env.get_features h ≡ ok fs)
      × (feature_of feature_promote_snapshot fs ≡ true)

  module _ (req : CreateRequest) (size : ℤ) (pool : Str) where
    -- What holds when a snapshot is made, and when one is promoted.
    abbrev pub IsCloneChecked : History → Call → Type 0
    IsCloneChecked h (Call.create_snapshot_volume r) =
        (id : ℤ) × Once (ReadSource r.parent_id size id) h
        × Once (ReadPool pool id) h
        × (r.snapshot_name ≡ req.name)
        × (r.write_protected ≡ false)
        × (r.lock_expires_at ≡ pos 0)
    IsCloneChecked h (Call.promote_snapshot j) = Once ReadPromotes h
    IsCloneChecked h _ = Unit

    -- What the history keeps when CreateVolumeFromVolumeContent runs as a part of another handler.
    module _ (P : History → Call → Type 0)
        (allows : (h : History) (c : Call) → IsCloneChecked h c × MakesNoVolume c → P h c) where
      found_name_keeps :
          (id : ℤ) (r : Answer Pool) (h : History)
          → Always P h
          → Always P (found_pool_name new_pool_names id r h).1
      found_name_keeps id (ok p) h a = a
      found_name_keeps id (err e) h a = a

      response_keeps :
          (volume : Volume) (h : History) → Always P h → Always P (csi_response env req volume h).1
      unfolding csi_response storage_pool_name
      response_keeps volume h a = elim (Bool-cases (is_empty volume.pool_name)) [
        | inl e ↦ rw e (
            keeps-bind P (storage_pool_name env volume.pool_id) _ h
              (keeps-bind P (get_pool_by_id env volume.pool_id)
                (found_pool_name new_pool_names volume.pool_id) h (allows _ _ (tt, tt), a)
                (found_name_keeps volume.pool_id))
              (λ name h' a'. a'))
        | inr e ↦ rw e a
      ]

      described_keeps :
          (volume : Volume) (h : History)
          → Always P h
          → Always P (describe_clone env req volume h).1
      described_keeps volume h a =
          keeps-bind P (csi_response env req volume) _ h (response_keeps volume h a)
            (λ response h' a'.
              keeps-answer P (to_status Code.internal)
                (env.put_metadata h' volume.id (pv_name_key ∷ [])) _
                (Call.put_metadata volume.id (pv_name_key ∷ []) ∷ h') (allows _ _ (tt, tt), a')
                (λ u _. (allows _ _ (tt, tt), a')))

      promoted_keeps :
          (volume : Volume) (h : History)
          → Always P h
          → (r : Answer (List Feature)) → env.get_features h ≡ r
          → Always P
              ((from_answer (to_status Code.internal) r >>= promote_clone env req volume)
                (Call.get_features ∷ h)).1
      promoted_keeps volume h a (err e) q = (allows _ _ (tt, tt), a)
      promoted_keeps volume h a (ok fs) q =
          let read : History = Call.get_features ∷ h in
          elim (Bool-cases (feature_of feature_promote_snapshot fs)) [
            | inl can ↦
                let promoted : History = Call.promote_snapshot volume.id ∷ read in
                let kept : Always P promoted =
                  (allows _ _ (now (fs, refl, q, can), tt), (allows _ _ (tt, tt), a)) in
                rw can (
                  keeps-answer P (to_status Code.internal) (env.promote_snapshot read volume.id) _
                    promoted kept (λ u _. described_keeps volume promoted kept))
            | inr cannot ↦ rw cannot (described_keeps volume read (allows _ _ (tt, tt), a))
          ]

      finish_keeps :
          (snapshot : ℤ) (h : History) → Always P h → Always P (finish_clone env req snapshot h).1
      finish_keeps snapshot h a =
          let read : History = Call.get_volume snapshot ∷ h in
          keeps-answer P (to_status Code.internal) (env.get_volume h snapshot) _ read
            (allows _ _ (tt, tt), a)
            (λ volume _.
              promoted_keeps volume read (allows _ _ (tt, tt), a) (env.get_features read) refl)

      pooled_keeps :
          (parent : ℤ) (source : Volume) (p : Pool) (h : History)
          → Once (ReadSource parent size source.pool_id) h
          → Once (ReadPool pool p.id) h
          → Always P h
          → Always P (clone_pooled env req parent source p h).1
      pooled_keeps parent source p h s n a = elim (Bool-cases (int_eq p.id source.pool_id)) [
        | inl same ↦
            let made : History = Call.create_snapshot_volume (clone_request env req parent) ∷ h in
            let id : p.id ≡ source.pool_id = ground (arith, int_eq_iff p.id source.pool_id, same) in
            let kept : Always P made = (allows _ _ ((p.id, rw id s, n, refl, refl, refl), tt), a) in
            rw same (
              keeps-answer P (to_status Code.internal)
                (env.create_snapshot_volume h (clone_request env req parent)) _ made kept
                (λ snapshot _. finish_keeps snapshot.snapshot_id made kept))
        | inr other ↦ rw other a
      ]

      read_keeps :
          (parent : ℤ) (h : History)
          → Always P h
          → (r : Answer Volume) → env.get_volume h parent ≡ r
          → Always P
              ((from_answer (to_status Code.not_found) r >>= clone_read env req size pool parent)
                (Call.get_volume parent ∷ h)).1
      read_keeps parent h a (err e) q = (allows _ _ (tt, tt), a)
      read_keeps parent h a (ok source) q =
          let read : History = Call.get_volume parent ∷ h in
          let found : History = Call.get_pool_by_name pool ∷ read in
          elim (Bool-cases (int_eq source.size size)) [
            | inl same ↦
                let fits : source.size ≡ size = ground (arith, int_eq_iff source.size size, same) in
                rw same (
                  keeps-answer P (to_status Code.internal) (env.get_pool_by_name read pool) _ found
                    (allows _ _ (tt, tt), (allows _ _ (tt, tt), a))
                    (λ p n.
                      pooled_keeps parent source p found
                        (before (now (source, refl, q, fits, refl))) (now (p, refl, n, refl))
                        (allows _ _ (tt, tt), (allows _ _ (tt, tt), a))))
            | inr other ↦ rw other (allows _ _ (tt, tt), a)
          ]

      pub clone_keeps :
          (source : Source) (h : History)
          → Always P h
          → Always P (clone env req source size pool h).1
      unfolding clone
      clone_keeps source h a =
          keeps-answer P (to_status Code.not_found) (validate_volume_id (source_id source)) _ h a
            (λ config _. read_keeps config.volume_id h a (env.get_volume h config.volume_id) refl)

    -- For any appliance and any earlier calls, in whatever way CreateVolumeFromVolumeContent ends, a
    -- snapshot that it makes is of a volume that was read with the requested size, in the pool that
    -- has the requested name; it has the requested name, is writable and not locked. It promotes a
    -- snapshot only after the appliance said that it can.
    pub clone-IsCloneChecked :
        (source : Source) (h : History)
        → Always IsCloneChecked h
        → Always IsCloneChecked (clone env req source size pool h).1
    clone-IsCloneChecked = clone_keeps IsCloneChecked (λ h c x. x.0)
