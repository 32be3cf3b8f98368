-- ===== src/Service/Publish.antt =====
-- ControllerPublishVolume and ControllerUnpublishVolume of service/controller.go. The mutex that is
-- held around the controller's ControllerPublishVolume is left out: a handler is one sequence of
-- calls here, and what other clients do is in the appliance's answers.
use infinibox_csi_driver.Prelude.{
  Bool, ◌||◌, Option, none, some, [], ◌∷◌, ◌++◌, is_empty, if◌then◌else◌,
}
use infinibox_csi_driver.Prelude.Int.{pos}
use infinibox_csi_driver.Strings.{Str, lit, str_eq}
use infinibox_csi_driver.Exec.{
  Answer, ok, err, Code, status_error, to_status, pure, throw, crash, from_answer, wrapping, ◌>>=◌,
  ◌>>◌,
}
use infinibox_csi_driver.Params.{
  Params, value, put, network_space, protocol_iscsi, protocol_nvme, protocol_nfs, protocol_treeq,
  secret_iscsi_network_space, secret_nvme_network_space,
}
use infinibox_csi_driver.VolumeId.{
  VolumeConfig, validate_volume_id, validate_node_id, determine_host_name,
}
use infinibox_csi_driver.Capability.{Capability, validate_capabilities}
use infinibox_csi_driver.Ibox.{Host, Env}
use infinibox_csi_driver.Ibox.Client.{M, get_host_by_name}
use infinibox_csi_driver.Cluster.{Cluster}
use infinibox_csi_driver.Fc.Publish.{PublishRequest}
use infinibox_csi_driver.Service.Secrets.{get_protocol_secret, validate_secret}
use infinibox_csi_driver.Service.Protocol.{get_node_protocol}
use infinibox_csi_driver.Service.Operations.{Operations, Controllers, new_storage_controller}

-- csi.ControllerPublishVolumeRequest; the volume context may be a nil map.
pub record PublishCall : Type 0 where
  pub volume_id : Str
  pub node_id : Str
  pub capability : Option Capability
  pub volume_context : Option Params
  pub secrets : Params

abbrev pub or_nil : Option Params → Params
or_nil none = []
or_nil (some m) = m

-- A write to a nil map panics.
abbrev pub put_space : Option Params → (space : Str) → M (Option Params)
put_space none space = crash
put_space (some m) space = pure (some (put m network_space space))

abbrev pub with_space : Option Params → (space : Str) → M (Option Params)
with_space context space =
    if is_empty space then throw (status_error Code.invalid_argument) else put_space context space

-- The switch on the protocol of the node's label.
abbrev pub space_in_secret : (protocol : Str) → Option Params → Option Params → M (Option Params)
space_in_secret protocol context none = throw (status_error Code.invalid_argument)
space_in_secret protocol context (some secret) =
    if str_eq protocol protocol_iscsi
    then with_space context (value secret secret_iscsi_network_space)
    else if str_eq protocol protocol_nvme
    then with_space context (value secret secret_nvme_network_space)
    else pure context

-- A label on the node takes the place of the volume's protocol.
abbrev pub labelled : VolumeConfig → (protocol : Str) → VolumeConfig
labelled config protocol =
    if is_empty protocol then config else record config { storage_type = protocol }

abbrev pub node_context : Cluster → Option Params → (protocol : Str) → M (Option Params)
node_context k context protocol =
    if is_empty protocol
    then pure context
    else wrapping (get_protocol_secret k) (to_status Code.invalid_argument)
      >>= space_in_secret protocol context

abbrev pub publish_request : PublishCall → Capability → Option Params → PublishRequest
publish_request req capability context = record {
  volume_id = req.volume_id;
  node_id = req.node_id;
  volume_context = or_nil context;
  mode = capability.access_mode;
}

-- `if s == "" { return nil, status.Error(codes.InvalidArgument, msg) }`
abbrev pub must_be_given : Str → M (Unit {0})
must_be_given s = if is_empty s then throw (status_error Code.invalid_argument) else pure tt

abbrev pub check_node_id : Str → M (Unit {0})
check_node_id node_id =
    if is_empty node_id
    then pure tt
    else from_answer (to_status Code.invalid_argument) (validate_node_id node_id)

module _ (k : Cluster) (c : Controllers) (req : PublishCall) where
  abbrev pub publish_with : Capability → VolumeConfig → Option Params → M Params
  publish_with capability config context = do
    must_be_given req.node_id
    from_answer (to_status Code.internal) (validate_node_id req.node_id)
    from_answer (to_status Code.invalid_argument) (validate_secret req.secrets)
    made ←
        from_answer (to_status Code.internal)
          (new_storage_controller k c req.secrets config (pos 0))
    wrapping (made.1.publish (publish_request req capability context)) (to_status Code.internal)

  abbrev pub publish_capable : Option Capability → M Params
  publish_capable none = throw (status_error Code.invalid_argument)
  publish_capable (some capability) = do
    from_answer (to_status Code.failed_precondition)
        (validate_capabilities (some (capability ∷ [])))
    must_be_given req.volume_id
    config ← from_answer (to_status Code.invalid_argument) (validate_volume_id req.volume_id)
    protocol ← wrapping (get_node_protocol k req.node_id) (to_status Code.invalid_argument)
    context ← node_context k req.volume_context protocol
    publish_with capability (labelled config protocol) context

-- ControllerPublishVolume
unfoldable pub service_publish : Cluster → Controllers → PublishCall → M Params
service_publish k c req = publish_capable k c req req.capability

-- NVMEHostSuffix of storage/nvme
abbrev pub nvme_host_suffix : Str
nvme_host_suffix = lit "-nvme"

abbrev pub is_file_protocol : Str → Bool
is_file_protocol p = str_eq p protocol_nfs || str_eq p protocol_treeq

abbrev pub suffixed : (protocol name : Str) → Str
suffixed protocol name = if str_eq protocol protocol_nvme then name ++ nvme_host_suffix else name

module _ (volume_id node_id : Str) where
  abbrev pub unpublish_from : Operations → Option Host → M (Unit {0})
  unpublish_from ops host =
      wrapping (ops.unpublish host node_id volume_id) (to_status Code.internal)

  -- A host that is not there has nothing to be unpublished from.
  abbrev pub unpublish_found : Operations → Answer Host → M (Unit {0})
  unpublish_found ops (ok host) = unpublish_from ops (some host)
  unpublish_found ops (err e) =
      if e.is_not_found then pure tt else throw (to_status Code.internal e)

  abbrev pub unpublish_with : (protocol name : Str) → Env × Operations → M (Unit {0})
  unpublish_with protocol name (env, ops) =
      if is_file_protocol protocol
      then unpublish_from ops none
      else get_host_by_name env (suffixed protocol name) >>= unpublish_found ops

-- ControllerUnpublishVolume
unfoldable pub service_unpublish :
    Cluster → Controllers → (secrets : Params) → (volume_id node_id : Str) → M (Unit {0})
service_unpublish k c secrets volume_id node_id = do
  must_be_given volume_id
  config ← from_answer (to_status Code.invalid_argument) (validate_volume_id volume_id)
  check_node_id node_id
  label ← wrapping (get_node_protocol k node_id) (to_status Code.invalid_argument)
  let config' = labelled config label
  name ← from_answer (to_status Code.internal) (determine_host_name k.remove_domain node_id)
  made ← from_answer (to_status Code.internal) (new_storage_controller k c secrets config' (pos 0))
  unpublish_with volume_id node_id config'.storage_type name made
