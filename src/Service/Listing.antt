-- ===== src/Service/Listing.antt =====
-- ListVolumes (service/controller.go) and ListVolumesImplementation (service/listvolumes.go).
use infinibox_csi_driver.Prelude.{Option, none, some, List, [], ◌∷◌, ◌||◌, is_empty, if◌then◌else◌}
use infinibox_csi_driver.Prelude.Int.{ℤ}
use infinibox_csi_driver.Strings.{Str, lit, str_eq}
use infinibox_csi_driver.Exec.{
  Code, status_error, to_status, pure, throw, crash, or_fail, ◌>>=◌, ◌>>◌,
}
use infinibox_csi_driver.Params.{
  Params, value, service_name, network_space, pool_name, storage_protocol,
}
use infinibox_csi_driver.Ibox.Client.{M}
use infinibox_csi_driver.Cluster.{Cluster, CsiSource, PersistentVolume, build_client}
use infinibox_csi_driver.Service.Delete.{get_all_persistent_volumes}

-- An entry of ListVolumes.
pub record VolumeEntry : Type 0 where
  pub volume_id : Str
  pub capacity_bytes : ℤ
  pub volume_context : Params
  pub published_node_ids : List Str

abbrev pub volume_entry : PersistentVolume → CsiSource → VolumeEntry
volume_entry v source = record {
  volume_id = v.name;
  capacity_bytes = v.capacity;
  volume_context =
      (network_space, value source.attributes network_space)
      ∷ (pool_name, value source.attributes pool_name)
      ∷ (storage_protocol, value source.attributes storage_protocol)
      ∷ [];
  published_node_ids = v.name ∷ [];
}

abbrev pub then_entry :
    PersistentVolume → M (List VolumeEntry) → Option CsiSource → M (List VolumeEntry)
then_entry v rest none = crash
then_entry v rest (some source) = rest >>= λ es. pure (volume_entry v source ∷ es)

-- The loop of ListVolumesImplementation.
unfoldable pub volume_entries : List PersistentVolume → M (List VolumeEntry)
volume_entries [] = pure []
volume_entries (v ∷ vs) =
    let rest = volume_entries vs in
    if str_eq v.provisioned_by service_name then then_entry v rest v.csi else rest

-- ListVolumes
unfoldable pub list_volumes : Cluster → (starting_token : Str) → M (List VolumeEntry)
list_volumes k token =
    if is_empty token || str_eq token (lit "next-token")
    then (do
      or_fail (build_client k) (to_status Code.unavailable)
      volumes ← get_all_persistent_volumes k (to_status Code.unavailable)
      volume_entries volumes)
    else throw (status_error Code.aborted)
