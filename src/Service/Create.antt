-- ===== src/Service/Create.antt =====
-- CreateVolume of service/controller.go, with handlePVCAnnotationForMetadata.
pub mod Handle
use infinibox_csi_driver.Prelude.{Bool, Option, none, some, List, [], ◌∷◌, is_empty, if◌then◌else◌}
use infinibox_csi_driver.Prelude.Int.{ℤ, pos}
use infinibox_csi_driver.Strings.{Str}
use infinibox_csi_driver.Strings.Decimal.{atoi}
use infinibox_csi_driver.Exec.{
  Answer, Outcome, done, fail, panic, unfinished, Code, status_error, to_status, pure, throw, crash,
  out_of_fuel, from_answer, wrapping, ◌>>=◌, ◌>>◌,
}
use infinibox_csi_driver.Params.{Params, value, annotation_volume_metadata}
use infinibox_csi_driver.VolumeId.{VolumeConfig, with_protocol}
use infinibox_csi_driver.Capability.{validate_capabilities}
use infinibox_csi_driver.Capacity.{determine_capacity}
use infinibox_csi_driver.Ibox.{Env}
use infinibox_csi_driver.Ibox.Client.{M, put_metadata}
use infinibox_csi_driver.Cluster.{Cluster}
use infinibox_csi_driver.Volumes.Response.{CreateRequest, CsiVolume}
use infinibox_csi_driver.Service.Secrets.{
  validate_secret, validate_class_secrets, handle_annotations,
}
use infinibox_csi_driver.Service.Protocol.{determine_storage_protocol}
use infinibox_csi_driver.Service.Classes.{validate_common_parameters}
use infinibox_csi_driver.Service.Replicas.{handle_replica}
use infinibox_csi_driver.Service.Operations.{
  VolumeRequest, Operations, Controllers, new_storage_controller,
}

-- A pure function with Go's outcomes, as an action.
abbrev pub from_outcome {ℓ} : {A : Type ℓ} → Outcome A → M A
from_outcome (done a) = pure a
from_outcome (fail e) = throw e
from_outcome panic = crash
from_outcome unfinished = out_of_fuel

abbrev pub put_annotation : Env → Option ℤ → M (Unit {0})
put_annotation env none = pure tt
put_annotation env (some id) =
    put_metadata env id (annotation_volume_metadata ∷ []) >>= λ _. pure tt

-- handlePVCAnnotationForMetadata: an identifier that is no number, or an error, is only logged.
unfoldable pub handle_metadata : Env → (metadata volume_id : Str) → M (Unit {0})
handle_metadata env metadata volume_id =
    if is_empty metadata then pure tt else put_annotation env (atoi volume_id)

abbrev pub unidentified : (protocol : Str) → VolumeConfig
unidentified protocol = record { volume_id = pos 0; storage_type = protocol; treeq_id = pos 0 }

abbrev pub with_parameters : VolumeRequest → Params → VolumeRequest
with_parameters req params = record req { request = record req.request { parameters = params } }

module _ (k : Cluster) (req : VolumeRequest) (protocol : Str) (params : Params) where
  -- After the controller has made the volume.
  abbrev pub finish_volume : Env → CsiVolume → M CsiVolume
  finish_volume env vol = if is_empty vol.volume_id then throw (status_error Code.internal) else (do
    handle_metadata env (value params annotation_volume_metadata) vol.volume_id
    wrapping (handle_replica k env req.request.name protocol params) (to_status Code.internal)
    pure (record vol { volume_id = with_protocol vol.volume_id protocol }))

  -- The error of the controller is passed on as it is.
  abbrev pub create_with : Env × Operations → M CsiVolume
  create_with (env, ops) = do
    wrapping (validate_common_parameters env k.to_upper params protocol) (to_status Code.internal)
    from_answer (to_status Code.internal) (ops.validate_storage_class params)
    vol ← ops.create (with_parameters req params)
    finish_volume env vol

  abbrev pub create_secured : Controllers → (secrets : Params) → M CsiVolume
  create_secured c secrets = do
    capacity ←
        wrapping (from_outcome (determine_capacity req.required_bytes params))
          (to_status Code.internal)
    from_answer (to_status Code.invalid_argument) (validate_secret req.secrets)
    wrapping (validate_class_secrets k params) (to_status Code.invalid_argument)
    made ←
        from_answer (to_status Code.internal)
          (new_storage_controller k c secrets (unidentified protocol) capacity)
    create_with made

abbrev pub create_annotated : Cluster → Controllers → VolumeRequest → Str × Params → M CsiVolume
create_annotated k c req (protocol, params) = do
  from_answer (to_status Code.invalid_argument) (validate_capabilities req.capabilities)
  prepared ← wrapping (handle_annotations k req.secrets params) (to_status Code.invalid_argument)
  create_secured k req protocol prepared.1 c prepared.0

-- The parameters are one map, which the steps change in turn.
unfoldable pub service_create_volume : Cluster → Controllers → VolumeRequest → M CsiVolume
service_create_volume k c req =
    if is_empty req.request.name
    then throw (status_error Code.invalid_argument)
    else if is_empty req.request.parameters
    then throw (status_error Code.invalid_argument)
    else wrapping (determine_storage_protocol k req.request.parameters)
        (to_status Code.invalid_argument)
      >>= create_annotated k c req
