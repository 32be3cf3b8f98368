-- ===== src/Fc/Publish.antt =====
-- ControllerPublishVolume of storage/fc/fccontroller.go.
pub mod Safety
pub mod Luns
pub mod Mapped
use infinibox_csi_driver.Prelude.{
  Bool, true, false, Option, none, some, List, [], ◌∷◌, ◌++◌, length, is_empty, if◌then◌else◌,
}
use infinibox_csi_driver.Prelude.Int.{ℤ, pos, int_eq, ltb_ℤ}
use infinibox_csi_driver.Strings.{Str, lit, str_eq}
use infinibox_csi_driver.Strings.Decimal.{itoa, atoi}
use infinibox_csi_driver.Exec.{
  Answer, ok, err, Err, Code, to_implementation, implementation_error, internally, pure, throw,
  from_answer, or_fail, wrapping, ◌>>=◌, ◌>>◌,
}
use infinibox_csi_driver.Params.{
  Params, value, max_vols_per_host, lun_publish_context, host_id_publish_context,
  host_ports_publish_context,
}
use infinibox_csi_driver.VolumeId.{VolumeConfig, validate_volume_id, determine_host_name}
use infinibox_csi_driver.Capability.{Mode, is_valid_access_mode}
use infinibox_csi_driver.Ibox.{Volume, LunInfo, Port, Host, Env}
use infinibox_csi_driver.Ibox.Client.{M, get_volume, get_all_lun_by_host, list_or_fail}
use infinibox_csi_driver.Volumes.Hosts.{validate_host, map_volume}

-- csi.ControllerPublishVolumeRequest
pub record PublishRequest : Type 0 where
  pub volume_id : Str
  pub node_id : Str
  pub volume_context : Params
  pub mode : Option Mode

-- Every port of the kind adds a comma and its address.
abbrev listed_ports : (kind : Str) → List Port → Str
listed_ports kind [] = []
listed_ports kind (p ∷ ps) =
    let rest = listed_ports kind ps in
    if str_eq p.port_type kind then lit "," ++ (p.address ++ rest) else rest

-- `if ports != "" { ports = ports[1:] }`
abbrev without_first : Str → Str
without_first [] = []
without_first (c ∷ s) = s

unfoldable pub ports_of : (kind : Str) → List Port → Str
ports_of kind ps = without_first (listed_ports kind ps)

unfoldable pub find_lun : ℤ → List LunInfo → Option LunInfo
find_lun volume [] = none
find_lun volume (l ∷ ls) =
    let rest = find_lun volume ls in if int_eq l.volume_id volume then some l else rest

abbrev pub publish_context : Host → LunInfo → Params
publish_context host lun =
    (lun_publish_context, itoa lun.lun)
    ∷ (host_id_publish_context, itoa host.id)
    ∷ (host_ports_publish_context, ports_of (lit "FC") host.ports)
    ∷ []

abbrev below_limit : (mapped limit : ℤ) → Answer (Unit {0})
below_limit mapped limit =
    if ltb_ℤ limit (pos 1)
    then err (implementation_error Code.internal)
    else if ltb_ℤ mapped limit
    then ok tt
    else err (implementation_error Code.resource_exhausted)

abbrev pub limit_answer : (mapped : ℤ) → Option ℤ → Answer (Unit {0})
limit_answer mapped none = err (implementation_error Code.internal)
limit_answer mapped (some limit) = below_limit mapped limit

-- The parameter max_vols_per_host is optional.
unfoldable pub check_limit : Str → (mapped : ℤ) → Answer (Unit {0})
check_limit limit mapped = if is_empty limit then ok tt else limit_answer mapped (atoi limit)

-- The contexts for a mapping that exists, and for a fresh one, are those of the protocol.
module _ (env : Env) (req : PublishRequest) (existing fresh : Host → LunInfo → Params) where
  -- A volume that the host has already is answered with its LUN.
  abbrev pub publish_lun : ℤ → Host → List LunInfo → Option LunInfo → M Params
  publish_lun volume host luns (some lun) = pure (existing host lun)
  publish_lun volume host luns none = do
    from_answer (λ e. e)
        (check_limit (value req.volume_context max_vols_per_host) (pos (length luns)))
    lun ← wrapping (map_volume env volume host.id) internally
    pure (fresh host lun)

  abbrev pub publish_listed : ℤ → Host → M Params
  publish_listed volume host = do
    luns ← list_or_fail (get_all_lun_by_host env host.id) internally
    publish_lun volume host luns (find_lun volume luns)

  abbrev pub publish_volume : ℤ → Host → Answer Volume → M Params
  publish_volume id host (err e) = throw (internally e)
  publish_volume id host (ok volume) = do
    from_answer internally (is_valid_access_mode volume.write_protected req.mode)
    publish_listed id host

-- `remove_domain` is the environment variable REMOVE_DOMAIN_NAME.
unfoldable pub publish : Env → Str → PublishRequest → M Params
publish env remove_domain req = do
  config ← from_answer internally (validate_volume_id req.volume_id)
  name ← from_answer internally (determine_host_name remove_domain req.node_id)
  host ← wrapping (validate_host env remove_domain name) internally
  get_volume env config.volume_id
      >>= publish_volume env req publish_context publish_context config.volume_id host
