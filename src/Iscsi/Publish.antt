-- ===== src/Iscsi/Publish.antt =====
-- The contexts that the iSCSI controller publishes.
use infinibox_csi_driver.Prelude.{◌≡◌, refl, none, some, ◌∷◌}
use infinibox_csi_driver.Strings.{Str, lit, str_eq}
use infinibox_csi_driver.Strings.Decimal.{itoa}
use infinibox_csi_driver.Exec.{Answer, ok, err, to_implementation, Code, internally, wrapping}
use infinibox_csi_driver.Params.{
  Params, lookup, lun_publish_context, host_id_publish_context, host_ports_publish_context,
  security_method_publish_context,
}
use infinibox_csi_driver.VolumeId.{VolumeConfig, validate_volume_id, determine_host_name}
use infinibox_csi_driver.Capability.{is_valid_access_mode}
use infinibox_csi_driver.Ibox.{Call, Volume, Host, LunInfo, Env, History}
use infinibox_csi_driver.Ibox.Returned.{
  Returned, Returned-answer, Returned-through, Returned-wrapping, Returned-weaken,
}
use infinibox_csi_driver.Volumes.Hosts.{short_name, validate_host}
use infinibox_csi_driver.Fc.Publish.{PublishRequest, ports_of, publish_listed}
use infinibox_csi_driver.Fc.Publish.Luns.{
  IsHostOf, validate_host-IsHostOf, IsPublishedLun, IsPublished, publish_listed-Published,
}
use infinibox_csi_driver.Iscsi.{iscsi_existing, iscsi_fresh, iscsi_publish_volume, iscsi_publish}

-- The context has the LUN of the mapping, the host's number and its iSCSI ports.
abbrev IsAddressed : Params → Host → LunInfo → Type 0
IsAddressed context host lun =
    (lookup context lun_publish_context ≡ some (itoa lun.lun))
    × (lookup context host_id_publish_context ≡ some (itoa host.id))
    × (lookup context host_ports_publish_context ≡ some (ports_of (lit "ISCSI") host.ports))

-- The same without a security method, and with the host's.
abbrev pub IsWithoutSecurity : Params → Host → LunInfo → Type 0
IsWithoutSecurity context host lun =
    IsAddressed context host lun × (lookup context security_method_publish_context ≡ none)

abbrev pub IsWithSecurity : Params → Host → LunInfo → Type 0
IsWithSecurity context host lun =
    IsAddressed context host lun
    × (lookup context security_method_publish_context ≡ some host.security_method)

existing-IsWithoutSecurity :
    (host : Host) (lun : LunInfo) → IsWithoutSecurity (iscsi_existing host lun) host lun
unfolding lookup str_eq
existing-IsWithoutSecurity host lun = ((refl, refl, refl), refl)

fresh-IsWithSecurity :
    (host : Host) (lun : LunInfo) → IsWithSecurity (iscsi_fresh host lun) host lun
unfolding lookup str_eq
fresh-IsWithSecurity host lun = ((refl, refl, refl), refl)

module _ (env : Env) (remove_domain : Str) (req : PublishRequest) where
  abbrev Good : Params → Type 0
  Good = IsPublished env remove_domain req IsWithoutSecurity IsWithSecurity

  published :
      (config : VolumeConfig) (r : Answer Volume) (h : History)
      → validate_volume_id req.volume_id ≡ ok config
      → Returned Good (iscsi_publish_volume env remove_domain req config.volume_id r h).0
  published config (err e) h c = tt
  published config (ok volume) h c =
      Returned-answer Good internally (is_valid_access_mode volume.write_protected req.mode) _ h
        (λ allowed a.
          Returned-answer Good internally (determine_host_name remove_domain req.node_id) _ h
            (λ name n.
              Returned-through (IsHostOf env (short_name remove_domain name)) Good
                (wrapping (validate_host env remove_domain name) internally h) _
                (Returned-wrapping (IsHostOf env (short_name remove_domain name))
                  (validate_host env remove_domain name) internally h
                  (validate_host-IsHostOf env remove_domain name h))
                (λ host g known.
                  Returned-weaken
                    (λ context.
                      IsPublishedLun env config.volume_id host (IsWithoutSecurity context host)
                        (IsWithSecurity context host))
                    Good
                    (publish_listed env req iscsi_existing iscsi_fresh config.volume_id host g).0
                    (λ context good. (config, name, host, c, n, known, good))
                    (publish_listed-Published env req iscsi_existing iscsi_fresh IsWithoutSecurity
                      IsWithSecurity existing-IsWithoutSecurity fresh-IsWithSecurity
                      config.volume_id host g))))

  -- For any appliance and any earlier calls, a context that ControllerPublishVolume of the iSCSI
  -- controller returns has the number and the ports of the node's host, which the appliance knew by
  -- its name or made, and a LUN of the request's volume on that host. If the host's error-free listing
  -- has the LUN, there is no security method in the context; only if the listing has none of the
  -- volume, the LUN is the one that the volume was mapped as, and the context has the host's security
  -- method.
  pub iscsi_publish-IsPublished :
      (h : History) → Returned Good (iscsi_publish env remove_domain req h).0
  unfolding iscsi_publish
  iscsi_publish-IsPublished h =
      Returned-answer Good (to_implementation Code.not_found) (validate_volume_id req.volume_id) _ h
        (λ config c.
          published config (env.get_volume h config.volume_id)
            (Call.get_volume config.volume_id ∷ h) c)
