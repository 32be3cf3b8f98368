-- ===== src/Fc/Publish/Luns.antt =====
-- The LUNs and hosts that a publishing controller works with.
use infinibox_csi_driver.Prelude.{
  ◌≡◌, ◌≢◌, refl, arith, Option, none, some, List, [], ◌∷◌, ◌⊎◌, inl, inr, All, Bool-cases, length,
}
use infinibox_csi_driver.Prelude.Int.{ℤ, pos, int_eq, int_eq_iff}
use infinibox_csi_driver.Strings.{Str}
use infinibox_csi_driver.Exec.{
  Answer, ok, err, to_status, Code, internally, pure, from_answer, wrapping,
}
use infinibox_csi_driver.Params.{Params, value, max_vols_per_host, csi_created_host}
use infinibox_csi_driver.VolumeId.{VolumeConfig, validate_volume_id, determine_host_name}
use infinibox_csi_driver.Ibox.{Call, Host, LunInfo, Listing, Env, History}
use infinibox_csi_driver.Ibox.Returned.{
  Returned, Returned-answer, Returned-listing, Returned-through, Returned-wrapping,
}
use infinibox_csi_driver.Volumes.Hosts.{
  short_name, create_marked_host, found_host, validate_host, mapped_lun, map_volume,
}
use infinibox_csi_driver.Fc.Publish.{
  PublishRequest, find_lun, check_limit, publish_lun, publish_listed,
}

-- One of the LUNs, and a LUN of the volume.
abbrev pub IsLunOf : ℤ → LunInfo → List LunInfo → Type 0
IsLunOf volume lun [] = ⊥
IsLunOf volume lun (l ∷ ls) = ((lun ≡ l) × (l.volume_id ≡ volume)) ⊎ IsLunOf volume lun ls

-- What the search for the volume finds.
abbrev pub IsFoundLun : ℤ → List LunInfo → Option LunInfo → Type 0
IsFoundLun volume luns none = All (λ l. l.volume_id ≢ volume) luns
IsFoundLun volume luns (some lun) = IsLunOf volume lun luns

find_lun-IsFoundLun :
    (volume : ℤ) (luns : List LunInfo) → IsFoundLun volume luns (find_lun volume luns)
unfolding find_lun
find_lun-IsFoundLun volume [] = tt
find_lun-IsFoundLun volume (l ∷ ls) = elim (Bool-cases (int_eq l.volume_id volume)) [
  | inl same ↦ rw same (inl (refl, (int_eq_iff l.volume_id volume).0 same))
  | inr other ↦ rw other (
      more (find_lun volume ls) (λ e. ground (arith, other, int_eq_iff l.volume_id volume, e))
        (find_lun-IsFoundLun volume ls))
]
  where
    more :
        (o : Option LunInfo)
        → l.volume_id ≢ volume
        → IsFoundLun volume ls o
        → IsFoundLun volume (l ∷ ls) o
    more none n f = (n, f)
    more (some lun) n f = inr f

module _ (env : Env) where
  -- The appliance knew the host by its name, or made it.
  abbrev pub IsHostOf : Str → Host → Type 0
  IsHostOf name host =
      (k : History) × ((env.get_host_by_name k name ≡ ok host) ⊎ (env.create_host k name ≡ ok host))

  -- The appliance mapped the volume, or looked the mapping up when it had one already.
  abbrev pub IsMappedAs : (volume host : ℤ) → LunInfo → Type 0
  IsMappedAs volume host lun =
      (k : History) × ((env.map_volume_to_host k host volume ≡ ok lun)
        ⊎ (env.get_lun_by_host_volume k host volume ≡ ok lun))

  -- The host's LUNs were listed without error: the volume is among them and `existing` holds of its
  -- LUN, or it is not and `fresh` holds of the LUN that it was mapped as.
  abbrev pub IsPublishedLun : ℤ → Host → (existing fresh : LunInfo → Type 0) → Type 0
  IsPublishedLun volume host existing fresh =
      (k : History) × (lun : LunInfo) × ((env.get_all_lun_by_host k host.id).error ≡ none)
      × ((IsLunOf volume lun (env.get_all_lun_by_host k host.id).items × existing lun)
          ⊎ (All (λ l. l.volume_id ≢ volume) (env.get_all_lun_by_host k host.id).items
              × IsMappedAs volume host.id lun
              × fresh lun))

  -- The host is the node's, and the volume is the request's.
  abbrev pub IsPublished :
      (remove_domain : Str)
      → PublishRequest
      → (existing fresh : Params → Host → LunInfo → Type 0) → Params
      → Type 0
  IsPublished remove_domain req existing fresh context =
      (config : VolumeConfig) × (name : Str) × (host : Host) × (validate_volume_id req.volume_id
        ≡ ok config)
      × (determine_host_name remove_domain req.node_id ≡ ok name)
      × IsHostOf (short_name remove_domain name) host
      × IsPublishedLun config.volume_id host (existing context host) (fresh context host)

  created-IsHostOf :
      (name : Str) (h : History) → Returned (IsHostOf name) (create_marked_host env name h).0
  created-IsHostOf name h =
      Returned-answer (IsHostOf name) (to_status Code.internal) (env.create_host h name) _
        (Call.create_host name ∷ h)
        (λ host q.
          Returned-answer (IsHostOf name) (to_status Code.internal)
            (env.put_metadata (Call.create_host name ∷ h) host.id (csi_created_host ∷ []))
            (λ u. pure host)
            (Call.put_metadata host.id (csi_created_host ∷ []) ∷ Call.create_host name ∷ h)
            (λ u p. (h, inr q)))

  pub validate_host-IsHostOf :
      (remove_domain name : Str) (h : History)
      → Returned
          (IsHostOf (short_name remove_domain name))
          (validate_host env remove_domain name h).0
  unfolding validate_host
  validate_host-IsHostOf remove_domain name h =
      found (env.get_host_by_name h (short_name remove_domain name)) refl
    where
      found :
          (r : Answer Host)
          → env.get_host_by_name h (short_name remove_domain name) ≡ r
          → Returned
              (IsHostOf (short_name remove_domain name))
              (found_host env
                (short_name remove_domain name)
                r
                (Call.get_host_by_name (short_name remove_domain name) ∷ h)).0
      found (ok host) q = (h, inl q)
      found (err e) q = elim (Bool-cases e.is_not_found) [
        | inl gone ↦ rw gone (
            created-IsHostOf (short_name remove_domain name)
              (Call.get_host_by_name (short_name remove_domain name) ∷ h))
        | inr failed ↦ rw failed tt
      ]

  map_volume-IsMappedAs :
      (volume host : ℤ) (h : History)
      → Returned (IsMappedAs volume host) (map_volume env volume host h).0
  unfolding map_volume
  map_volume-IsMappedAs volume host h = mapped (env.map_volume_to_host h host volume) refl
    where
      mapped :
          (r : Answer LunInfo)
          → env.map_volume_to_host h host volume ≡ r
          → Returned
              (IsMappedAs volume host)
              (mapped_lun env volume host r (Call.map_volume_to_host host volume ∷ h)).0
      mapped (ok lun) q = (h, inl q)
      mapped (err e) q = elim (Bool-cases e.is_mapping_exists) [
        | inl mapped_before ↦ rw mapped_before (
            looked_up
              (env.get_lun_by_host_volume (Call.map_volume_to_host host volume ∷ h) host volume)
              refl)
        | inr failed ↦ rw failed tt
      ]
        where
          looked_up :
              (r : Answer LunInfo)
              → env.get_lun_by_host_volume (Call.map_volume_to_host host volume ∷ h) host volume ≡ r
              → Returned
                  (IsMappedAs volume host)
                  (from_answer
                    (λ f. f)
                    r
                    (Call.get_lun_by_host_volume host volume
                      ∷ Call.map_volume_to_host host volume
                      ∷ h)).0
          looked_up (ok lun) p = (Call.map_volume_to_host host volume ∷ h, inr p)
          looked_up (err f) p = tt

  -- What the two contexts are known to satisfy.
  module _ (req : PublishRequest) (existing fresh : Host → LunInfo → Params)
      (Existing Fresh : Params → Host → LunInfo → Type 0)
      (when_existing : (host : Host) (lun : LunInfo) → Existing (existing host lun) host lun)
      (when_fresh : (host : Host) (lun : LunInfo) → Fresh (fresh host lun) host lun) where
    abbrev Published : ℤ → Host → Params → Type 0
    Published volume host context =
        IsPublishedLun volume host (Existing context host) (Fresh context host)

    lun-Published :
        (volume : ℤ) (host : Host) (k h : History) (o : Option LunInfo)
        → (env.get_all_lun_by_host k host.id).error ≡ none
        → IsFoundLun volume (env.get_all_lun_by_host k host.id).items o
        → Returned
            (Published volume host)
            (publish_lun env req existing fresh volume host
              (env.get_all_lun_by_host k host.id).items
              o
              h).0
    lun-Published volume host k h (some lun) e found =
        (k, lun, e, inl (found, when_existing host lun))
    lun-Published volume host k h none e absent =
        Returned-answer (Published volume host) (λ x. x)
          (check_limit (value req.volume_context max_vols_per_host)
            (pos (length (env.get_all_lun_by_host k host.id).items)))
          _ h
          (λ u q.
            Returned-through (IsMappedAs volume host.id) (Published volume host)
              (wrapping (map_volume env volume host.id) internally h) (λ lun. pure (fresh host lun))
              (Returned-wrapping (IsMappedAs volume host.id) (map_volume env volume host.id)
                internally h (map_volume-IsMappedAs volume host.id h))
              (λ lun g mapped. (k, lun, e, inr (absent, mapped, when_fresh host lun))))

    pub publish_listed-Published :
        (volume : ℤ) (host : Host) (h : History)
        → Returned (Published volume host) (publish_listed env req existing fresh volume host h).0
    publish_listed-Published volume host h =
        let luns : Listing LunInfo = env.get_all_lun_by_host h host.id in
        Returned-listing (Published volume host) internally luns.items luns.error
          (λ ls. publish_lun env req existing fresh volume host ls (find_lun volume ls))
          (Call.get_all_lun_by_host host.id ∷ h)
          (λ e.
            lun-Published volume host h (Call.get_all_lun_by_host host.id ∷ h)
              (find_lun volume luns.items) e (find_lun-IsFoundLun volume luns.items))
