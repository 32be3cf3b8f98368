-- ===== src/Iscsi/Safety.antt =====
-- Which volumes the iSCSI controller maps to a host.
use infinibox_csi_driver.Prelude.{◌≡◌, refl, Bool, true, false, if◌then◌else◌, [], ◌∷◌}
use infinibox_csi_driver.Prelude.Int.{ℤ}
use infinibox_csi_driver.Strings.{Str}
use infinibox_csi_driver.Exec.{
  Err, Answer, ok, err, Code, to_status, from_answer, throw, pure, ◌>>=◌, to_implementation,
  internally, wrapping,
}
use infinibox_csi_driver.VolumeId.{validate_volume_id, determine_host_name}
use infinibox_csi_driver.Capability.{is_valid_access_mode}
use infinibox_csi_driver.Ibox.{Call, Volume, Host, Env, History}
use infinibox_csi_driver.Ibox.Safety.{
  Once, now, before, Always, keeps-answer, through-bind, through-wrapping,
}
use infinibox_csi_driver.Volumes.Hosts.{short_name, create_marked_host, found_host, validate_host}
use infinibox_csi_driver.Params.{csi_created_host}
use infinibox_csi_driver.Ibox.Client.{M}
use infinibox_csi_driver.Fc.Publish.{PublishRequest, publish_listed}
use infinibox_csi_driver.Fc.Publish.Safety.{
  ReadAllowed, IsRoomChecked, host_keeps, lun_keeps, granted_true,
}
use infinibox_csi_driver.Iscsi.{iscsi_existing, iscsi_fresh, iscsi_publish_volume, iscsi_publish}

-- A host that is found or created leaves the earlier calls in the history.
module _ (env : Env) (remove_domain : Str) (Q : History → Call → Type 0) where
  answered-Once {ℓ κ} :
      {A : Type ℓ} {B : Type κ} (wrap : Err → Err) (r : Answer A) (f : A → M B) (h : History)
      → Once Q h
      → ((a : A) → Once Q (f a h).1)
      → Once Q ((from_answer wrap r >>= f) h).1
  answered-Once wrap (ok a) f h q n = n a
  answered-Once wrap (err e) f h q n = q

  found-Once :
      (name : Str) (r : Answer Host) (h : History) → Once Q h → Once Q (found_host env name r h).1
  found-Once name (ok host) h q = q
  found-Once name (err e) h q = created e.is_not_found
    where
      created :
          (missing : Bool)
          → Once Q
              ((if missing then create_marked_host env name else throw (to_status Code.internal e))
                h).1
      created false = q
      created true =
          answered-Once (to_status Code.internal) (env.create_host h name) _ _ (before q) (λ host.
            answered-Once (to_status Code.internal)
              (env.put_metadata (Call.create_host name ∷ h) host.id (csi_created_host ∷ []))
              (λ _. pure host) _ (before (before q)) (λ _. before (before q)))

  host-Once :
      (name : Str) (h : History) → Once Q h → Once Q (validate_host env remove_domain name h).1
  unfolding validate_host
  host-Once name h q =
      let name' : Str = short_name remove_domain name in
      found-Once name' (env.get_host_by_name h name') (Call.get_host_by_name name' ∷ h) (before q)

module _ (env : Env) (req : PublishRequest) (remove_domain : Str) where
  volume_keeps :
      (id : ℤ) (h : History)
      → Always (IsRoomChecked env req) h
      → (r : Answer Volume) → env.get_volume h id ≡ r
      → Always
          (IsRoomChecked env req)
          (iscsi_publish_volume env remove_domain req id r (Call.get_volume id ∷ h)).1
  volume_keeps id h a (err e) q = (tt, a)
  volume_keeps id h a (ok v) q =
      let read : History = Call.get_volume id ∷ h in
      keeps-answer (IsRoomChecked env req) internally
        (is_valid_access_mode v.write_protected req.mode) _ read (tt, a)
        (λ b allowed.
          keeps-answer (IsRoomChecked env req) internally
            (determine_host_name remove_domain req.node_id) _ read (tt, a)
            (λ name _.
              through-bind (λ k. Once (ReadAllowed env req id) k × Always (IsRoomChecked env req) k)
                (Always (IsRoomChecked env req))
                (wrapping (validate_host env remove_domain name) internally)
                (publish_listed env req iscsi_existing iscsi_fresh id) read
                (through-wrapping
                  (λ k. Once (ReadAllowed env req id) k × Always (IsRoomChecked env req) k)
                  (validate_host env remove_domain name) internally read
                  (
                    host-Once env remove_domain (ReadAllowed env req id) name read
                        (now (v, refl, q, granted_true req.mode v.write_protected b allowed)),
                    host_keeps env req remove_domain name read (tt, a),
                  ))
                (λ k x. x.1)
                (λ host k (u, x). lun_keeps env req iscsi_existing iscsi_fresh id host k u x)))

  -- For any appliance and any earlier calls, in whatever way ControllerPublishVolume of the iSCSI
  -- controller ends, it maps a volume to a host only after the volume was read and its write
  -- protection allows the requested mode, and after the LUNs of the host were listed without error,
  -- were not of the volume, and were fewer than max_vols_per_host, if the storage class has it.
  pub iscsi_publish-IsRoomChecked :
      (h : History)
      → Always (IsRoomChecked env req) h
      → Always (IsRoomChecked env req) (iscsi_publish env remove_domain req h).1
  unfolding iscsi_publish
  iscsi_publish-IsRoomChecked h a =
      keeps-answer (IsRoomChecked env req) (to_implementation Code.not_found)
        (validate_volume_id req.volume_id) _ h a
        (λ config _. volume_keeps config.volume_id h a (env.get_volume h config.volume_id) refl)
