-- ===== src/Fc/Publish/Safety.antt =====
-- Which volumes ControllerPublishVolume maps to a host.
use infinibox_csi_driver.Prelude.{
  ◌≡◌, ◌≢◌, refl, ap, ◌∙◌, arith, Bool, true, Option, none, some, [], ◌∷◌, length,
}
use infinibox_csi_driver.Prelude.Int.{ℤ, pos, ◌<ℤ◌}
use infinibox_csi_driver.Strings.{Str}
use infinibox_csi_driver.Strings.Decimal.{atoi}
use infinibox_csi_driver.Exec.{internally, Answer, ok, err, wrapping}
use infinibox_csi_driver.Params.{Params, value, max_vols_per_host}
use infinibox_csi_driver.VolumeId.{validate_volume_id, determine_host_name}
use infinibox_csi_driver.Capability.{Mode, access_allowed, mode_of, is_valid_access_mode}
use infinibox_csi_driver.Ibox.{Call, Volume, Host, LunInfo, Listing, Env, History}
use infinibox_csi_driver.Ibox.Safety.{
  Once, now, before, Always, keeps-bind, keeps-wrapping, keeps-answer, keeps-listing,
}
use infinibox_csi_driver.Volumes.Hosts.{validate_host, map_volume, mapped_lun}
use infinibox_csi_driver.Fc.Publish.{
  PublishRequest, find_lun, limit_answer, check_limit, publish_context, publish_lun, publish_listed,
  publish_volume, publish,
}

-- Below the limit, if there is one.
abbrev pub IsBelow : Str → ℤ → Type 0
IsBelow limit mapped = (limit ≢ []) → (m : ℤ) × (atoi limit ≡ some m) × (mapped <ℤ m)

check_limit-IsBelow :
    (limit : Str) (mapped : ℤ) (u : Unit {0})
    → check_limit limit mapped ≡ ok u
    → IsBelow limit mapped
unfolding check_limit
check_limit-IsBelow [] mapped u q n = absurd (n refl)
check_limit-IsBelow (c ∷ s) mapped u q n = answered (atoi (c ∷ s)) refl q
  where
    answered :
        (r : Option ℤ)
        → atoi (c ∷ s) ≡ r
        → limit_answer mapped r ≡ ok u
        → (m : ℤ) × (atoi (c ∷ s) ≡ some m) × (mapped <ℤ m)
    answered none p e = ground arith
    answered (some m) p e = (m, p, ground (arith, e))

true_only :
    (mode : Mode) (write_protected b : Bool) → access_allowed mode write_protected ≡ ok b → b ≡ true
true_only mode write_protected b q = ground (arith, q)

pub granted_true :
    (mode : Option Mode) (write_protected b : Bool)
    → is_valid_access_mode write_protected mode ≡ ok b
    → is_valid_access_mode write_protected mode ≡ ok true
unfolding is_valid_access_mode
granted_true mode write_protected b allowed =
    allowed ∙ ap ok (true_only (mode_of mode) write_protected b allowed)

module _ (env : Env) (req : PublishRequest) where
  -- The call read volume `j`, and its write protection allows the requested mode.
  abbrev pub ReadAllowed : ℤ → History → Call → Type 0
  ReadAllowed j h c =
      (v : Volume) × (c ≡ Call.get_volume j)
      × (env.get_volume h j ≡ ok v)
      × (is_valid_access_mode v.write_protected req.mode ≡ ok true)

  -- The call listed the LUNs of host `j`: not one is of the volume, and there are fewer than the
  -- storage class allows.
  abbrev pub ReadRoom : (host volume : ℤ) → History → Call → Type 0
  ReadRoom j volume h c =
      (c ≡ Call.get_all_lun_by_host j)
      × ((env.get_all_lun_by_host h j).error ≡ none)
      × (find_lun volume (env.get_all_lun_by_host h j).items ≡ none)
      × IsBelow (value req.volume_context max_vols_per_host)
          (pos (length (env.get_all_lun_by_host h j).items))

  -- A volume is mapped to a host only after both.
  abbrev pub IsRoomChecked : History → Call → Type 0
  IsRoomChecked h (Call.map_volume_to_host j volume) =
      Once (ReadAllowed volume) h × Once (ReadRoom j volume) h
  IsRoomChecked h _ = Unit

  mapped_keeps :
      (volume j : ℤ) (r : Answer LunInfo) (h : History)
      → Always IsRoomChecked h
      → Always IsRoomChecked (mapped_lun env volume j r h).1
  mapped_keeps volume j (ok lun) h a = a
  mapped_keeps volume j (err e) h a = ground (arith, a)

  map_keeps :
      (volume j : ℤ) (h : History)
      → Once (ReadAllowed volume) h
      → Once (ReadRoom j volume) h
      → Always IsRoomChecked h
      → Always IsRoomChecked (map_volume env volume j h).1
  unfolding map_volume
  map_keeps volume j h r n a =
      mapped_keeps volume j (env.map_volume_to_host h j volume)
        (Call.map_volume_to_host j volume ∷ h) ((r, n), a)

  pub host_keeps :
      (remove_domain name : Str) (h : History)
      → Always IsRoomChecked h
      → Always IsRoomChecked (validate_host env remove_domain name h).1
  unfolding validate_host
  host_keeps remove_domain name h a = ground arith

  module _ (existing fresh : Host → LunInfo → Params) where
    room_keeps :
        (volume : ℤ) (host : Host) (h : History) (luns : Listing LunInfo)
        → env.get_all_lun_by_host h host.id ≡ luns
        → luns.error ≡ none
        → (found : Option LunInfo) → find_lun volume luns.items ≡ found
        → Once (ReadAllowed volume) h
        → Always IsRoomChecked h
        → Always IsRoomChecked
            (publish_lun env req existing fresh volume host luns.items found
              (Call.get_all_lun_by_host host.id ∷ h)).1
    room_keeps volume host h luns l e (some lun) f r a = (tt, a)
    room_keeps volume host h luns l e none f r a =
        let listed : History = Call.get_all_lun_by_host host.id ∷ h in
        let limit : Str = value req.volume_context max_vols_per_host in
        let mapped : ℤ = pos (length luns.items) in
        keeps-answer IsRoomChecked (λ e. e) (check_limit limit mapped) _ listed (tt, a)
          (λ u q.
            keeps-bind IsRoomChecked (wrapping (map_volume env volume host.id) internally) _ listed
              (keeps-wrapping IsRoomChecked (map_volume env volume host.id) internally listed (
                map_keeps volume host.id listed (before r)
                  (now (refl, rw l e, rw l f, rw l (check_limit-IsBelow limit mapped u q)))
                  (tt, a)))
              (λ lun h' a'. a'))

    pub lun_keeps :
        (volume : ℤ) (host : Host) (h : History)
        → Once (ReadAllowed volume) h
        → Always IsRoomChecked h
        → Always IsRoomChecked (publish_listed env req existing fresh volume host h).1
    lun_keeps volume host h r a =
        let luns : Listing LunInfo = env.get_all_lun_by_host h host.id in
        let listed : History = Call.get_all_lun_by_host host.id ∷ h in
        keeps-listing IsRoomChecked internally luns.items luns.error
          (λ ls. publish_lun env req existing fresh volume host ls (find_lun volume ls)) listed
          (tt, a) (λ e. room_keeps volume host h luns refl e (find_lun volume luns.items) refl r a)

    volume_keeps :
        (volume : ℤ) (host : Host) (h : History)
        → Always IsRoomChecked h
        → Always IsRoomChecked
            (publish_volume env req existing fresh volume host
              (env.get_volume h volume)
              (Call.get_volume volume ∷ h)).1
    unfolding is_valid_access_mode
    volume_keeps volume host h a = answered (env.get_volume h volume) refl
      where
        read : History
        read = Call.get_volume volume ∷ h

        answered :
            (r : Answer Volume)
            → env.get_volume h volume ≡ r
            → Always IsRoomChecked (publish_volume env req existing fresh volume host r read).1
        answered (err e) q = (tt, a)
        answered (ok v) q =
            keeps-answer IsRoomChecked internally (is_valid_access_mode v.write_protected req.mode)
              (λ b. publish_listed env req existing fresh volume host) read (tt, a)
              (λ b allowed.
                lun_keeps volume host read
                  (now (
                    v,
                    refl,
                    q,
                    allowed ∙ ap ok (true_only (mode_of req.mode) v.write_protected b allowed),
                  ))
                  (tt, a))

  -- For any appliance and any earlier calls, in whatever way ControllerPublishVolume of the FC
  -- controller ends, it maps a
  -- volume to a host only after the volume was read and its write protection allows the requested
  -- mode, and after the LUNs of the host were listed without error, were not of the volume, and were
  -- fewer than max_vols_per_host, if the storage class has it.
  pub publish-IsRoomChecked :
      (remove_domain : Str) (h : History)
      → Always IsRoomChecked h
      → Always IsRoomChecked (publish env remove_domain req h).1
  unfolding publish
  publish-IsRoomChecked remove_domain h a =
      keeps-answer IsRoomChecked internally (validate_volume_id req.volume_id) _ h a (λ config _.
        keeps-answer IsRoomChecked internally (determine_host_name remove_domain req.node_id) _ h a
          (λ name _.
            keeps-bind IsRoomChecked (wrapping (validate_host env remove_domain name) internally) _
              h
              (keeps-wrapping IsRoomChecked (validate_host env remove_domain name) internally h
                (host_keeps remove_domain name h a))
              (λ host h' a'.
                volume_keeps publish_context publish_context config.volume_id host h' a')))
