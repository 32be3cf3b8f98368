-- ===== src/Volumes/Snapshots/Safety.antt =====
-- Which snapshots CommonCreateSnapshot makes.
use infinibox_csi_driver.Prelude.{
  ◌≡◌, ◌≢◌, refl, arith, Bool, true, List, [], ◌∷◌, is_empty, Bool-cases, inl, inr,
}
use infinibox_csi_driver.Prelude.Int.{ℤ, pos}
use infinibox_csi_driver.Strings.{Str}
use infinibox_csi_driver.Exec.{Answer, ok, err, Err, Code, to_status, from_answer, ◌>>=◌}
use infinibox_csi_driver.Params.{value, lock_expires_at_parameter}
use infinibox_csi_driver.SnapshotLock.{validate_snapshot_lock}
use infinibox_csi_driver.VolumeId.{VolumeConfig}
use infinibox_csi_driver.Ibox.{Call, Volume, SnapshotRequest, Env, History}
use infinibox_csi_driver.Ibox.Safety.{Once, now, before, Always, keeps-answer}
use infinibox_csi_driver.Volumes.Snapshots.{
  CreateSnapshotRequest, first_probe, lock_time, snapshot_request, snapshot_of, named_snapshot,
  create_snapshot,
}

module _ (env : Env) where
  -- The call looked for a volume of the name, and there is none.
  abbrev pub NameFree : Str → History → Call → Type 0
  NameFree name h c =
      (e : Err) × (c ≡ Call.get_volume_by_name name)
      × (env.get_volume_by_name h name ≡ err e)
      × (e.is_not_found ≡ true)

  -- The call read the parent, and it has this SSD setting.
  abbrev pub ReadParent : ℤ → Bool → History → Call → Type 0
  ReadParent j ssd h c =
      (v : Volume) × (c ≡ Call.get_volume j) × (env.get_volume h j ≡ ok v) × (v.ssd_enabled ≡ ssd)

  -- The call read the appliance's clock, from which the parameter gives this time.
  abbrev pub ReadClock : Str → ℤ → History → Call → Type 0
  ReadClock parameter time h c =
      (t : ℤ) × (ts : List ℤ) × (c ≡ Call.get_ntp_status)
      × (env.get_ntp_status h ≡ ok (t ∷ ts))
      × (validate_snapshot_lock t parameter ≡ ok time)

  -- The time of the lock is the one asked for: zero without the parameter.
  abbrev pub IsLock : Str → ℤ → History → Type 0
  IsLock parameter time h =
      ((parameter ≡ []) → time ≡ pos 0) × ((parameter ≢ []) → Once (ReadClock parameter time) h)

  module _ (config : VolumeConfig) (req : CreateSnapshotRequest) where
    abbrev parameter : Str
    parameter = value req.parameters lock_expires_at_parameter

    -- What holds when a snapshot is made.
    abbrev pub IsSnapshotChecked : History → Call → Type 0
    IsSnapshotChecked h (Call.create_snapshot_volume r) =
        Once (NameFree req.name) h
        × Once (ReadParent config.volume_id r.ssd_enabled) h
        × IsLock (value req.parameters lock_expires_at_parameter) r.lock_expires_at h
        × (r.parent_id ≡ config.volume_id)
        × (r.snapshot_name ≡ req.name)
        × (r.write_protected ≡ true)
    IsSnapshotChecked h _ = Unit

    request_keeps :
        (parent : Volume) (lock : ℤ) (h : History)
        → Once (NameFree req.name) h
        → Once (ReadParent config.volume_id parent.ssd_enabled) h
        → IsLock parameter lock h
        → Always IsSnapshotChecked h
        → Always IsSnapshotChecked
            (Call.create_snapshot_volume (snapshot_request env config req parent lock) ∷ h)
    request_keeps parent lock h n p l a = ((n, p, l, refl, refl, refl), a)

    -- The rest of the handler, from the lock's time on.
    made_keeps :
        (parent : Volume) (lock : ℤ) (h : History)
        → Once (NameFree req.name) h
        → Once (ReadParent config.volume_id parent.ssd_enabled) h
        → IsLock parameter lock h
        → Always IsSnapshotChecked h
        → Always IsSnapshotChecked (snapshot_of env config req parent lock h).1
    made_keeps parent lock h n p l a =
        let request : SnapshotRequest = snapshot_request env config req parent lock in
        keeps-answer IsSnapshotChecked (to_status Code.internal)
          (env.create_snapshot_volume h request) _ (Call.create_snapshot_volume request ∷ h)
          (request_keeps parent lock h n p l a) (λ snapshot _. request_keeps parent lock h n p l a)

    clock_keeps :
        (parent : Volume) (h : History) (set : parameter ≢ [])
        → Once (NameFree req.name) h
        → Once (ReadParent config.volume_id parent.ssd_enabled) h
        → Always IsSnapshotChecked h
        → (probes : List ℤ) → env.get_ntp_status h ≡ ok probes
        → Always IsSnapshotChecked
            (((first_probe probes >>= (λ t.
                  from_answer (to_status Code.internal) (validate_snapshot_lock t parameter)))
                >>= snapshot_of env config req parent)
              (Call.get_ntp_status ∷ h)).1
    clock_keeps parent h set n p a [] q = (tt, a)
    clock_keeps parent h set n p a (t ∷ ts) q =
        keeps-answer IsSnapshotChecked (to_status Code.internal)
          (validate_snapshot_lock t parameter) (snapshot_of env config req parent)
          (Call.get_ntp_status ∷ h) (tt, a)
          (λ time v.
            made_keeps parent time (Call.get_ntp_status ∷ h) (before n) (before p)
              ((λ e. absurd (set e)), (λ _. now (t, ts, refl, q, v))) (tt, a))

    answered_clock_keeps :
        (parent : Volume) (h : History) (set : parameter ≢ [])
        → Once (NameFree req.name) h
        → Once (ReadParent config.volume_id parent.ssd_enabled) h
        → Always IsSnapshotChecked h
        → (r : Answer (List ℤ)) → env.get_ntp_status h ≡ r
        → Always IsSnapshotChecked
            ((((from_answer (to_status Code.internal) r) >>= (λ probes. first_probe probes >>= (λ t.
                  from_answer (to_status Code.internal) (validate_snapshot_lock t parameter))))
                >>= snapshot_of env config req parent)
              (Call.get_ntp_status ∷ h)).1
    answered_clock_keeps parent h set n p a (err e) q = (tt, a)
    answered_clock_keeps parent h set n p a (ok probes) q = clock_keeps parent h set n p a probes q

    locked_keeps :
        (parent : Volume) (h : History)
        → Once (NameFree req.name) h
        → Once (ReadParent config.volume_id parent.ssd_enabled) h
        → Always IsSnapshotChecked h
        → Always IsSnapshotChecked
            ((lock_time env config req >>= snapshot_of env config req parent) h).1
    locked_keeps parent h n p a = elim (Bool-cases (is_empty parameter)) [
      | inl e ↦
          rw e
            (made_keeps parent (pos 0) h n p ((λ _. refl), (λ s. absurd (s (ground (arith, e))))) a)
      | inr e ↦
          rw e (answered_clock_keeps parent h (ground (arith, e)) n p a (env.get_ntp_status h) refl)
    ]

    parent_keeps :
        (h : History)
        → Once (NameFree req.name) h
        → Always IsSnapshotChecked h
        → (r : Answer Volume) → env.get_volume h config.volume_id ≡ r
        → Always IsSnapshotChecked
            ((from_answer (to_status Code.not_found) r
                >>= (λ parent. lock_time env config req >>= snapshot_of env config req parent))
              (Call.get_volume config.volume_id ∷ h)).1
    parent_keeps h n a (err e) q = (tt, a)
    parent_keeps h n a (ok parent) q =
        locked_keeps parent (Call.get_volume config.volume_id ∷ h) (before n)
          (now (parent, refl, q, refl)) (tt, a)

    named_keeps :
        (h : History)
        → Always IsSnapshotChecked h
        → (r : Answer Volume) → env.get_volume_by_name h req.name ≡ r
        → Always IsSnapshotChecked
            (named_snapshot env config req r (Call.get_volume_by_name req.name ∷ h)).1
    named_keeps h a (ok v) q = ground (arith, a)
    named_keeps h a (err e) q = elim (Bool-cases e.is_not_found) [
      | inl free ↦
          let asked : History = Call.get_volume_by_name req.name ∷ h in
          rw free (
            parent_keeps asked (now (e, refl, q, free)) (tt, a)
              (env.get_volume asked config.volume_id) refl)
      | inr failed ↦ rw failed (tt, a)
    ]

    -- For any appliance and any earlier calls, in whatever way CommonCreateSnapshot ends, a snapshot
    -- that it makes is of the given volume, under the requested name, write protected and with the
    -- SSD setting that its parent had when it was read; a query had found the name free; and it is
    -- locked until the time that the parameter gives by the appliance's clock, or not locked when
    -- the parameter is empty or absent.
    pub create_snapshot-IsSnapshotChecked :
        (h : History)
        → Always IsSnapshotChecked h
        → Always IsSnapshotChecked (create_snapshot env config req h).1
    unfolding create_snapshot
    create_snapshot-IsSnapshotChecked h a = named_keeps h a (env.get_volume_by_name h req.name) refl
