-- ===== src/Service/Secrets.antt =====
-- Secrets: GetProtocolSecret (service/protocolsecret.go), validateSecret,
-- validateStorageClassSecretParameters and handlePVCAnnotations (service/controller.go).
pub mod Required
use infinibox_csi_driver.Prelude.{
  Bool, true, false, not, Option, none, some, List, [], ◌∷◌, ◌||◌, ◌&&◌, any, is_empty,
  if◌then◌else◌,
}
use infinibox_csi_driver.Strings.{Str, lit, str_eq}
use infinibox_csi_driver.Exec.{
  Answer, ok, err, Err, Code, plain_error, status_error, to_status, wrap_error, pure, throw,
  from_answer, or_fail, ◌>>=◌, ◌>>◌,
}
use infinibox_csi_driver.Params.{
  Params, value, put, storage_protocol, protocol_nfs, protocol_treeq, protocol_nvme, protocol_fc,
  protocol_iscsi, protocol_auto, credential_username, credential_password, credential_hostname,
  pvc_name_key, pvc_namespace_key, provisioner_secret_name, provisioner_secret_namespace,
  controller_publish_secret_name, controller_publish_secret_namespace, node_stage_secret_name,
  node_stage_secret_namespace, node_publish_secret_name, node_publish_secret_namespace,
  controller_expand_secret_name, controller_expand_secret_namespace, node_expand_secret_name,
  node_expand_secret_namespace, annotation_ibox_secret, annotation_network_space,
  annotation_pool_name, annotation_volume_metadata, pool_name, network_space,
}
use infinibox_csi_driver.Ibox.Client.{M}
use infinibox_csi_driver.Cluster.{
  Cluster, build_client, get_secret, get_pvc, get_storage_class, get_pvc_annotations,
}

-- The protocols that the protocol secret may name; it may name none.
abbrev pub known_protocol : Str → Bool
known_protocol p =
    is_empty p
    || any (str_eq p) (
        protocol_nfs ∷ protocol_treeq ∷ protocol_nvme ∷ protocol_fc ∷ protocol_iscsi ∷ protocol_auto
        ∷ [])

abbrev pub checked_secret : Params → M (Option Params)
checked_secret secret =
    if known_protocol (value secret storage_protocol)
    then pure (some secret)
    else throw (status_error Code.invalid_argument)

abbrev pub named_secret : Cluster → M (Option Params)
named_secret k = do
  or_fail (build_client k) (to_status Code.invalid_argument)
  secret ←
      or_fail (get_secret k k.protocol_secret_name k.pod_namespace)
        (to_status Code.invalid_argument)
  checked_secret secret

-- GetProtocolSecret; `none` is `found == false`.
unfoldable pub get_protocol_secret : Cluster → M (Option Params)
get_protocol_secret k =
    if is_empty k.protocol_secret_name
    then pure none
    else if is_empty k.pod_namespace
    then throw (status_error Code.invalid_argument)
    else named_secret k

-- validateSecret
unfoldable pub validate_secret : Params → Answer (Unit {0})
validate_secret secrets =
    if is_empty (value secrets credential_username)
      || is_empty (value secrets credential_password)
      || is_empty (value secrets credential_hostname)
    then err (status_error Code.invalid_argument)
    else ok tt

abbrev pub required_secret_parameters : List Str
required_secret_parameters =
    provisioner_secret_name ∷ provisioner_secret_namespace ∷ controller_publish_secret_name
    ∷ controller_publish_secret_namespace ∷ node_stage_secret_name ∷ node_stage_secret_namespace
    ∷ node_publish_secret_name ∷ node_publish_secret_namespace ∷ controller_expand_secret_name
    ∷ controller_expand_secret_namespace ∷ node_expand_secret_name ∷ node_expand_secret_namespace
    ∷ []

-- The loop over the required parameters.
unfoldable pub has_parameters : Params → List Str → Answer (Unit {0})
has_parameters class [] = ok tt
has_parameters class (p ∷ ps) =
    let rest = has_parameters class ps in if is_empty (value class p) then err plain_error else rest

abbrev pub check_class : Cluster → (class : Option Str) → M (Unit {0})
check_class k none = throw plain_error
check_class k (some class) = if is_empty class then throw plain_error else (do
  parameters ← or_fail (get_storage_class k class) wrap_error
  from_answer (λ e. e) (has_parameters parameters required_secret_parameters))

-- validateStorageClassSecretParameters
unfoldable pub validate_class_secrets : Cluster → Params → M (Unit {0})
validate_class_secrets k params = do
  or_fail (build_client k) wrap_error
  class ←
      or_fail (get_pvc k (value params pvc_name_key) (value params pvc_namespace_key)) wrap_error
  check_class k class

-- `if annotation != "" { req.Parameters[key] = annotation }`
abbrev pub put_if_given : Params → (key v : Str) → Params
put_if_given params key v = if is_empty v then params else put params key v

-- The request's parameters after the annotations of the claim.
unfoldable pub annotated : (annotations : Params) → Params → Params
annotated annotations params =
    let space = value annotations annotation_network_space in
    let pool = value annotations annotation_pool_name in
    put_if_given
      (put_if_given
        (put_if_given (put (put params annotation_network_space space) annotation_pool_name pool)
          pool_name pool)
        network_space space)
      annotation_volume_metadata (value annotations annotation_volume_metadata)

abbrev pub claim_annotations : Cluster → Params → M Params
claim_annotations k params =
    if is_empty (value params pvc_name_key) || is_empty (value params pvc_namespace_key)
    then pure []
    else or_fail
        (get_pvc_annotations k (value params pvc_name_key) (value params pvc_namespace_key))
        (to_status Code.invalid_argument)

-- A secret that the claim names replaces the request's.
abbrev pub claim_secrets : Cluster → (secrets annotations : Params) → M Params
claim_secrets k secrets annotations =
    if is_empty (value annotations annotation_ibox_secret)
    then pure secrets
    else or_fail (get_secret k (value annotations annotation_ibox_secret) k.pod_namespace)
        (to_status Code.invalid_argument)

-- handlePVCAnnotations: the secrets to use, and the parameters.
unfoldable pub handle_annotations : Cluster → (secrets params : Params) → M (Params × Params)
handle_annotations k secrets params = do
  or_fail (build_client k) (to_status Code.internal)
  annotations ← claim_annotations k params
  chosen ← claim_secrets k secrets annotations
  pure (chosen, annotated annotations params)
