-- ===== src/Examples/Service.antt =====
-- The service against a small cluster.
use infinibox_csi_driver.Controllers.Numbers.{HasSmallVolumes}
use infinibox_csi_driver.Controllers.Files.{HasSmallSystems}
use infinibox_csi_driver.Controllers.Handles.{create_volume-IsReadBack}
use infinibox_csi_driver.Examples.Quiet.{data_volume, stocked}
use mathlib.Core.List.{map}
use infinibox_csi_driver.Prelude.{
  ◌≡◌, ◌↔◌, refl, arith, true, none, some, [], ◌∷◌, All, is_empty, if◌then◌else◌,
}
use infinibox_csi_driver.Prelude.Int.{pos}
use infinibox_csi_driver.Strings.{lit, str_eq, split}
use infinibox_csi_driver.Strings.Decimal.{atoi}
use infinibox_csi_driver.Exec.{ok, err, fail, plain_error}
use infinibox_csi_driver.Params.{value, storage_protocol, pool_name, protocol_fc}
use infinibox_csi_driver.VolumeId.{validate_volume_id}
use infinibox_csi_driver.Ibox.{Call}
use infinibox_csi_driver.Ibox.Returned.{Returned}
use infinibox_csi_driver.Cluster.{Cluster}
use infinibox_csi_driver.Examples.Quiet.{gone, quiet}
use infinibox_csi_driver.Service.Secrets.{required_secret_parameters, get_protocol_secret}
use infinibox_csi_driver.Service.Protocol.{determine_storage_protocol}
use infinibox_csi_driver.Service.Protocol.Spaces.{determine_storage_protocol_iscsi}
use infinibox_csi_driver.Service.Classes.{validate_parameters}
use infinibox_csi_driver.Service.Classes.Accepted.{IsGiven, MayBeGiven, validate_parameters_iff}
use infinibox_csi_driver.Service.Operations.{
  VolumeRequest, new_storage_node, build_common_service, new_storage_controller,
}
use infinibox_csi_driver.Service.Create.{service_create_volume}
use infinibox_csi_driver.Service.Create.Handle.{IsReadBack}
use infinibox_csi_driver.Service.Delete.{
  get_all_persistent_volumes, secrets_of_volume, own_volumes, service_delete_volume,
}
use infinibox_csi_driver.Volumes.Delete.{delete_chain}
use infinibox_csi_driver.Fc.Rest.{fc_delete_volume}
use infinibox_csi_driver.Service.Delete.Safety.{
  IsCheckedOnOwn, service_delete_volume-IsCheckedOnOwn,
}
use infinibox_csi_driver.Controllers.{all_controllers}
use infinibox_csi_driver.Params.{service_name}
use infinibox_csi_driver.Cluster.{CsiSource, PersistentVolume}
use infinibox_csi_driver.Ibox.{Env}
use infinibox_csi_driver.Capability.{Mode, Access}
use infinibox_csi_driver.Examples.Clusters.{
  cluster, setup, credentials, fc_volume, iscsi_secret, secretive,
}

determine_storage_protocol_iscsi_example :
    determine_storage_protocol secretive [] []
    ≡ (fail plain_error, Call.get_secret (lit "protocol") (lit "infinidat") ∷ [])
unfolding get_protocol_secret str_eq value
determine_storage_protocol_iscsi_example =
    determine_storage_protocol_iscsi secretive [] iscsi_secret []
      (Call.get_secret (lit "protocol") (lit "infinidat") ∷ []) refl refl refl refl

validate_parameters_iff_example :
    (validate_parameters
        (λ _ _. true)
        ((pool_name, lit "[a-zA-Z]+") ∷ [])
        []
        ((pool_name, lit "fast") ∷ [])
      ≡ ok tt)
    ↔ (All
          (IsGiven (λ _ _. true) ((pool_name, lit "fast") ∷ []))
          ((pool_name, lit "[a-zA-Z]+") ∷ [])
        × All (MayBeGiven (λ _ _. true) ((pool_name, lit "fast") ∷ [])) [])
validate_parameters_iff_example =
    validate_parameters_iff (λ _ _. true) ((pool_name, lit "fast") ∷ [])
      ((pool_name, lit "[a-zA-Z]+") ∷ []) []

abbrev request : VolumeRequest
request = record {
  request = record {
    name = lit "data";
    parameters = (storage_protocol, protocol_fc) ∷ (pool_name, lit "fast") ∷ [];
    source = none;
  };
  capabilities = some (
      record { access_mode = some Mode.single_node_writer; access = Access.mount (lit "ext4") }
      ∷ []);
  secrets = credentials;
  required_bytes = some (pos 1073741824);
}

-- Volumes can be made: the one that is made is `7`.
abbrev creating : Env
creating = record stocked {
  get_volume_by_name = λ _ _. err gone;
  create_volume = λ _ _. ok data_volume;
  put_metadata = λ _ _ _. ok tt;
}

creating-HasSmallVolumes : HasSmallVolumes creating
creating-HasSmallVolumes = (
  (λ h name v q. absurd (cc (q))),
  (λ h id v q. let e : v ≡ data_volume = cc (q) in rw e (omega arith, omega arith)),
  λ h r v q. let e : v ≡ data_volume = cc (q) in rw e (omega arith, omega arith),
)

creating-HasSmallSystems : HasSmallSystems creating
creating-HasSmallSystems = (
  (λ h name fs q. absurd (cc (q))),
  (λ h r fs q. absurd (cc (q))),
  λ h r snapshot q. absurd (cc (q)),
)

-- A StorageClass that names every secret.
abbrev maker : Cluster
maker = record cluster {
  appliance = λ _. creating;
  get_pvc = λ _ _ _. ok (some (lit "class"));
  get_storage_class = λ _ _. ok (map (λ p. (p, lit "named")) required_secret_parameters);
}

create_volume-IsReadBack_example :
    Returned
      (IsReadBack protocol_fc)
      (service_create_volume maker (all_controllers setup) request []).0
unfolding determine_storage_protocol str_eq value
create_volume-IsReadBack_example =
    create_volume-IsReadBack maker setup request [] [] protocol_fc
      ((storage_protocol, protocol_fc) ∷ (pool_name, lit "fast") ∷ [])
      (λ secrets. creating-HasSmallVolumes) (λ secrets. creating-HasSmallSystems) refl (λ e. cc)

-- A persistent volume of the driver names a secret, which leads to another appliance than the
-- request's.
abbrev own_source : CsiSource
own_source = record { volume_handle = lit "7$$fc"; publish_secret = lit "own"; attributes = [] }

abbrev own_volume : PersistentVolume
own_volume = record {
  name = lit "pv";
  provisioned_by = service_name;
  capacity = pos 1073741824;
  csi = some own_source;
}

abbrev deletable : Env
deletable = record stocked { delete_metadata = λ _ _. ok tt; delete_volume = λ _ _. ok tt }

abbrev owned : Cluster
owned = record cluster {
  appliance = λ s. if is_empty s then quiet else deletable;
  list_persistent_volumes = λ _. ok (own_volume ∷ []);
  get_secret = λ _ _ _. ok credentials;
}

service_delete_volume-IsCheckedOnOwn_example :
    IsCheckedOnOwn owned []
      (lit "7$$fc")
      (service_delete_volume owned (all_controllers setup) [] (lit "7$$fc") []).1
unfolding validate_volume_id split atoi str_eq
service_delete_volume-IsCheckedOnOwn_example =
    service_delete_volume-IsCheckedOnOwn owned setup [] (lit "7$$fc") fc_volume [] refl refl
      (λ t. tt)

owned_deletes :
    (service_delete_volume owned (all_controllers setup) [] (lit "7$$fc") []).1
    ≡ Call.delete_volume (pos 7)
      ∷ Call.delete_metadata (pos 7)
      ∷ Call.get_volumes_by_parent_id (pos 7)
      ∷ Call.get_volume (pos 7)
      ∷ Call.get_secret (lit "own") (lit "infinidat")
      ∷ Call.get_all_persistent_volumes
      ∷ []
unfolding service_delete_volume validate_volume_id split str_eq atoi get_all_persistent_volumes
    secrets_of_volume own_volumes new_storage_controller build_common_service new_storage_node
    fc_delete_volume delete_chain
owned_deletes = refl
