-- ===== src/Service/Delete.antt =====
-- DeleteVolume and DeleteSnapshot of service/controller.go, and GetAllPersistentVolumes of
-- api/clientgo/goclient.go.
pub mod Secrets
pub mod Safety
use infinibox_csi_driver.Prelude.{Bool, Option, none, some, List, [], ◌∷◌, is_empty, if◌then◌else◌}
use infinibox_csi_driver.Prelude.Int.{ℤ, pos}
use infinibox_csi_driver.Strings.{Str, str_eq}
use infinibox_csi_driver.Strings.Decimal.{itoa}
use infinibox_csi_driver.Exec.{
  Answer, ok, err, Err, Shape, Code, to_status, pure, throw, crash, from_answer, or_fail, wrapping,
  ◌>>=◌, ◌>>◌,
}
use infinibox_csi_driver.Params.{Params, service_name}
use infinibox_csi_driver.VolumeId.{VolumeConfig, validate_volume_id}
use infinibox_csi_driver.Ibox.{Env}
use infinibox_csi_driver.Ibox.Client.{M}
use infinibox_csi_driver.Cluster.{
  Cluster, CsiSource, PersistentVolume, build_client, get_secret, list_persistent_volumes,
}
use infinibox_csi_driver.Service.Operations.{Operations, Controllers, new_storage_controller}

-- The persistent volumes that this driver provisioned.
unfoldable pub own_volumes : List PersistentVolume → List PersistentVolume
own_volumes [] = []
own_volumes (v ∷ vs) =
    let rest = own_volumes vs in if str_eq v.provisioned_by service_name then v ∷ rest else rest

-- GetAllPersistentVolumes
unfoldable pub get_all_persistent_volumes : Cluster → (Err → Err) → M (List PersistentVolume)
get_all_persistent_volumes k wrap = do
  volumes ← or_fail (list_persistent_volumes k) wrap
  pure (own_volumes volumes)

abbrev pub secret_of_source : Cluster → (secrets : Params) → CsiSource → M Params
secret_of_source k secrets source =
    if is_empty source.publish_secret
    then pure secrets
    else or_fail (get_secret k source.publish_secret k.pod_namespace)
        (to_status Code.invalid_argument)

abbrev pub source_secrets :
    Cluster → (secrets : Params) → (handle : Str) → (rest : M Params) → Option CsiSource → M Params
source_secrets k secrets handle rest none = crash
source_secrets k secrets handle rest (some source) =
    if str_eq source.volume_handle handle then secret_of_source k secrets source else rest

-- The first persistent volume with the handle decides on the secrets. A persistent volume without a
-- CSI source is dereferenced all the same.
unfoldable pub secrets_of_volume :
    Cluster → (secrets : Params) → (handle : Str) → List PersistentVolume → M Params
secrets_of_volume k secrets handle [] = pure secrets
secrets_of_volume k secrets handle (v ∷ vs) =
    let rest = secrets_of_volume k secrets handle vs in source_secrets k secrets handle rest v.csi

-- DeleteVolume
unfoldable pub service_delete_volume :
    Cluster → Controllers → (secrets : Params) → (volume_id : Str) → M (Unit {0})
service_delete_volume k c secrets volume_id = do
  config ← from_answer (to_status Code.invalid_argument) (validate_volume_id volume_id)
  or_fail (build_client k) (to_status Code.internal)
  volumes ← get_all_persistent_volumes k (to_status Code.invalid_argument)
  chosen ← secrets_of_volume k secrets volume_id volumes
  made ← from_answer (to_status Code.internal) (new_storage_controller k c chosen config (pos 0))
  wrapping (made.1.delete volume_id) (to_status Code.internal)

-- `err.(storagecommon.ImplementationError)`: its code is passed on.
abbrev pub code_of : Shape → Code
code_of (Shape.implementation c) = c
code_of _ = Code.internal

abbrev pub with_own_code : Err → Err
with_own_code e = to_status (code_of e.shape) e

-- DeleteSnapshot
unfoldable pub service_delete_snapshot :
    Cluster → Controllers → (secrets : Params) → (snapshot_id : Str) → M (Unit {0})
service_delete_snapshot k c secrets snapshot_id = do
  config ← from_answer (to_status Code.invalid_argument) (validate_volume_id snapshot_id)
  made ← from_answer (to_status Code.internal) (new_storage_controller k c secrets config (pos 0))
  wrapping (made.1.delete_snapshot (itoa config.volume_id)) with_own_code
