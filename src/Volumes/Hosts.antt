-- ===== src/Volumes/Hosts.antt =====
-- Hosts and mappings: ValidateHost, MapVolumeTohost, UnmapVolumeFromHost and HostCleanup of
-- storage/common/common.go, CommonUnpublishVolume of storage/common/unpublishvolume.go.
pub mod Cleanup
use infinibox_csi_driver.Prelude.{
  Bool, true, false, Option, none, some, List, [], ◌∷◌, ◌||◌, any, is_empty, if◌then◌else◌,
}
use infinibox_csi_driver.Prelude.Int.{ℤ}
use infinibox_csi_driver.Strings.{Str, lit, str_eq, contains}
use infinibox_csi_driver.Exec.{
  Answer, ok, err, Err, Code, wrap_error, to_status, pure, throw, crash, or_fail, wrapping, ◌>>=◌,
  ◌>>◌,
}
use infinibox_csi_driver.Params.{csi_created_host}
use infinibox_csi_driver.VolumeId.{first_part, split_dots}
use infinibox_csi_driver.Ibox.{LunInfo, Host, Env}
use infinibox_csi_driver.Ibox.Client.{
  M, get_host_by_name, create_host, delete_host, get_all_lun_by_host, map_volume_to_host,
  get_lun_by_host_volume, unmap_volume_from_host, put_metadata, get_metadata,
}

-- With REMOVE_DOMAIN_NAME set to true the host is known by its short name.
abbrev pub short_name : (remove_domain name : Str) → Str
short_name remove_domain name =
    if str_eq remove_domain (lit "true") then first_part (split_dots name) else name

module _ (env : Env) where
  -- A host that the driver creates is marked, so that HostCleanup may delete it.
  abbrev pub create_marked_host : Str → M Host
  create_marked_host name = do
    host ← or_fail (create_host env name) (to_status Code.internal)
    or_fail (put_metadata env host.id (csi_created_host ∷ [])) (to_status Code.internal)
    pure host

  abbrev pub found_host : Str → Answer Host → M Host
  found_host name (ok host) = pure host
  found_host name (err e) =
      if e.is_not_found then create_marked_host name else throw (to_status Code.internal e)

  -- MapVolumeTohost: an existing mapping is looked up.
  abbrev pub mapped_lun : (volume host : ℤ) → Answer LunInfo → M LunInfo
  mapped_lun volume host (ok lun) = pure lun
  mapped_lun volume host (err e) =
      if e.is_mapping_exists
      then or_fail (get_lun_by_host_volume env host volume) (λ f. f)
      else throw e

  abbrev pub ignored : Err → Bool
  ignored e =
      contains e.text (lit "HOST_NOT_FOUND")
      || (contains e.text (lit "LUN_NOT_FOUND") || contains e.text (lit "VOLUME_NOT_FOUND"))

  -- UnmapVolumeFromHost
  abbrev pub unmapped : Answer (Unit {0}) → M (Unit {0})
  unmapped (ok u) = pure tt
  unmapped (err e) = if ignored e then pure tt else throw e

  abbrev pub deleted_host : Answer (Unit {0}) → M (Unit {0})
  deleted_host (ok u) = pure tt
  deleted_host (err e) = if e.is_not_found then pure tt else throw (wrap_error e)

unfoldable pub validate_host : Env → (remove_domain name : Str) → M Host
validate_host env remove_domain name =
    let name' = short_name remove_domain name in get_host_by_name env name' >>= found_host env name'

unfoldable pub map_volume : Env → (volume host : ℤ) → M LunInfo
map_volume env volume host = map_volume_to_host env host volume >>= mapped_lun env volume host

unfoldable pub unmap_volume : Env → (host volume : ℤ) → M (Unit {0})
unmap_volume env host volume = unmap_volume_from_host env host volume >>= unmapped env

-- HostCleanup deletes a host that carries the driver's mark.
abbrev pub cleaned : Env → ℤ → Answer (List Str) → M (Unit {0})
cleaned env host (err e) = throw (wrap_error e)
cleaned env host (ok keys) =
    if any (str_eq csi_created_host) keys
    then delete_host env host >>= deleted_host env
    else pure tt

unfoldable pub host_cleanup : Env → ℤ → M (Unit {0})
host_cleanup env host = get_metadata env host >>= cleaned env host

-- CommonUnpublishVolume after the volume is unmapped. An error of the query for the host's LUNs is
-- logged, and the LUNs read before it are used.
abbrev pub without_luns : Env → ℤ → M (Unit {0})
unfolding host_cleanup
without_luns env host = do
  luns ← get_all_lun_by_host env host
  if is_empty luns.items
      then wrapping (host_cleanup env host) (to_status Code.internal)
      else pure tt

-- CommonUnpublishVolume; `none` is a nil `VolProto.Host`.
unfoldable pub unpublish_volume : Env → Option Host → ℤ → M (Unit {0})
unfolding unmap_volume
unpublish_volume env none volume = crash
unpublish_volume env (some host) volume =
    if is_empty host.luns
    then without_luns env host.id
    else wrapping (unmap_volume env host.id volume) (to_status Code.internal)
      >>= (λ u. without_luns env host.id)
