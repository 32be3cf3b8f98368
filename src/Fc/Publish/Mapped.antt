-- ===== src/Fc/Publish/Mapped.antt =====
-- Which LUN ControllerPublishVolume answers with.
use infinibox_csi_driver.Prelude.{◌≡◌, refl, some, ◌∷◌}
use infinibox_csi_driver.Strings.{Str, lit, str_eq}
use infinibox_csi_driver.Strings.Decimal.{itoa}
use infinibox_csi_driver.Exec.{Answer, ok, err, internally, wrapping}
use infinibox_csi_driver.Params.{
  Params, lookup, lun_publish_context, host_id_publish_context, host_ports_publish_context,
}
use infinibox_csi_driver.VolumeId.{VolumeConfig, validate_volume_id, determine_host_name}
use infinibox_csi_driver.Capability.{is_valid_access_mode}
use infinibox_csi_driver.Ibox.{Call, Volume, Host, LunInfo, Env, History}
use infinibox_csi_driver.Ibox.Returned.{
  Returned, Returned-answer, Returned-through, Returned-wrapping, Returned-weaken,
}
use infinibox_csi_driver.Volumes.Hosts.{short_name, validate_host}
use infinibox_csi_driver.Fc.Publish.{
  PublishRequest, ports_of, publish_context, publish_listed, publish_volume, publish,
}
use infinibox_csi_driver.Fc.Publish.Luns.{
  IsHostOf, validate_host-IsHostOf, IsPublishedLun, IsPublished, publish_listed-Published,
}

-- The context has the LUN of the mapping, the host's number and its Fibre Channel ports.
abbrev pub IsFcContext : Params → Host → LunInfo → Type 0
IsFcContext context host lun =
    (lookup context lun_publish_context ≡ some (itoa lun.lun))
    × (lookup context host_id_publish_context ≡ some (itoa host.id))
    × (lookup context host_ports_publish_context ≡ some (ports_of (lit "FC") host.ports))

publish_context-IsFcContext :
    (host : Host) (lun : LunInfo) → IsFcContext (publish_context host lun) host lun
unfolding lookup str_eq
publish_context-IsFcContext host lun = (refl, refl, refl)

module _ (env : Env) where
  published :
      (remove_domain : Str) (req : PublishRequest) (config : VolumeConfig) (name : Str)
      (host : Host) (r : Answer Volume) (h : History)
      → validate_volume_id req.volume_id ≡ ok config
      → determine_host_name remove_domain req.node_id ≡ ok name
      → IsHostOf env (short_name remove_domain name) host
      → Returned
          (IsPublished env remove_domain req IsFcContext IsFcContext)
          (publish_volume env req publish_context publish_context config.volume_id host r h).0
  published remove_domain req config name host (err e) h c n known = tt
  published remove_domain req config name host (ok volume) h c n known =
      let Good : Params → Type 0 = IsPublished env remove_domain req IsFcContext IsFcContext in
      let Here : Params → Type 0 = λ context.
        IsPublishedLun env config.volume_id host (IsFcContext context host)
          (IsFcContext context host) in
      Returned-answer Good internally (is_valid_access_mode volume.write_protected req.mode)
        (λ allowed. publish_listed env req publish_context publish_context config.volume_id host) h
        (λ allowed a.
          Returned-weaken Here Good
            (publish_listed env req publish_context publish_context config.volume_id host h).0
            (λ context good. (config, name, host, c, n, known, good))
            (publish_listed-Published env req publish_context publish_context IsFcContext
              IsFcContext publish_context-IsFcContext publish_context-IsFcContext config.volume_id
              host h))

  -- For any appliance and any earlier calls, a context that ControllerPublishVolume of the FC
  -- controller returns has the number and the ports of the node's host, which the appliance knew by
  -- its name or made, and a LUN of the request's volume on that host: one that the host's error-free
  -- listing has of this volume, or, only if that listing has none, the one that it was mapped as.
  pub publish-IsPublished :
      (remove_domain : Str) (req : PublishRequest) (h : History)
      → Returned
          (IsPublished env remove_domain req IsFcContext IsFcContext)
          (publish env remove_domain req h).0
  unfolding publish
  publish-IsPublished remove_domain req h =
      let Good : Params → Type 0 = IsPublished env remove_domain req IsFcContext IsFcContext in
      Returned-answer Good internally (validate_volume_id req.volume_id) _ h (λ config c.
        Returned-answer Good internally (determine_host_name remove_domain req.node_id) _ h
          (λ name n.
            Returned-through (IsHostOf env (short_name remove_domain name)) Good
              (wrapping (validate_host env remove_domain name) internally h) _
              (Returned-wrapping (IsHostOf env (short_name remove_domain name))
                (validate_host env remove_domain name) internally h
                (validate_host-IsHostOf env remove_domain name h))
              (λ host g known.
                published remove_domain req config name host (env.get_volume g config.volume_id)
                  (Call.get_volume config.volume_id ∷ g) c n known)))
