-- ===== src/Service/Delete/Safety.antt =====
-- Which volumes DeleteVolume of the service deletes, and on which appliance.
use infinibox_csi_driver.Prelude.{◌≡◌, arith, ◌⊎◌, inl, inr, List}
use infinibox_csi_driver.Prelude.Int.{pos}
use infinibox_csi_driver.Strings.{Str, str_eq}
use infinibox_csi_driver.Exec.{ok, Code, to_status, internally, from_answer, ◌>>=◌, wrapping}
use infinibox_csi_driver.Params.{Params, protocol_fc}
use infinibox_csi_driver.VolumeId.{VolumeConfig, validate_volume_id}
use infinibox_csi_driver.Ibox.{Env, History}
use infinibox_csi_driver.Ibox.Safety.{Always, through-wrapping, through-answer}
use infinibox_csi_driver.Cluster.{Cluster, PersistentVolume}
use infinibox_csi_driver.Volumes.Delete.{delete_chain}
use infinibox_csi_driver.Volumes.Delete.Safety.{IsChecked, delete_chain-IsChecked}
use infinibox_csi_driver.Fc.Rest.{fc_delete_volume}
use infinibox_csi_driver.Service.Operations.{
  Operations, new_storage_node, build_common_service, new_storage_controller,
}
use infinibox_csi_driver.Service.Delete.{
  get_all_persistent_volumes, secrets_of_volume, service_delete_volume,
}
use infinibox_csi_driver.Controllers.{Setup, fc_controller, all_controllers}
use infinibox_csi_driver.Ibox.Returned.{through-returned}
use infinibox_csi_driver.Service.Delete.Secrets.{
  IsCheckedEverywhere, FromListing, IsSecretFor, secrets-Chosen, listed-Everywhere,
}

module _ (k : Cluster) where
  -- Nothing was deleted unchecked on any appliance, or: the persistent volumes were listed, and by
  -- them secrets belong to the handle on whose appliance each deletion was checked.
  abbrev pub IsCheckedOnOwn : (secrets : Params) (handle : Str) → History → Type 0
  IsCheckedOnOwn secrets handle h =
      IsCheckedEverywhere k h
      ⊎ (g : History) × (vs : List PersistentVolume) × (s : Params) × (k.list_persistent_volumes g
          ≡ ok vs)
        × IsSecretFor k secrets handle vs s
        × Always (IsChecked (k.appliance s)) h

  module _ (s : Setup) where
    -- The controller of a Fibre Channel volume works on the appliance of the secrets.
    controller-is-fc :
        (secrets : Params) (config : VolumeConfig) (made : Env × Operations)
        → config.storage_type ≡ protocol_fc
        → new_storage_controller k (all_controllers s) secrets config (pos 0) ≡ ok made
        → made ≡ (k.appliance secrets, fc_controller s (k.appliance secrets) config (pos 0))
    unfolding new_storage_controller build_common_service new_storage_node str_eq
    controller-is-fc secrets config made fc q = ground (arith, q, fc)

    deleted-IsChecked :
        (secrets : Params) (volume_id : Str) (config : VolumeConfig) (h : History)
        → config.storage_type ≡ protocol_fc
        → IsCheckedEverywhere k h
        → Always
            (IsChecked (k.appliance secrets))
            ((from_answer
                  (to_status Code.internal)
                  (new_storage_controller k (all_controllers s) secrets config (pos 0))
                >>= λ made. wrapping (made.1.delete volume_id) (to_status Code.internal))
              h).1
    unfolding fc_delete_volume
    deleted-IsChecked secrets volume_id config h fc a =
        let env : Env = k.appliance secrets in
        let Kept : History → Type 0 = Always (IsChecked env) in
        through-answer (IsCheckedEverywhere k) Kept (to_status Code.internal)
          (new_storage_controller k (all_controllers s) secrets config (pos 0)) _ h a
          (λ g b. b secrets)
          (λ made q. rw (controller-is-fc secrets config made fc q) (
            through-wrapping Kept (wrapping (delete_chain env s.fuel config.volume_id) internally)
              (to_status Code.internal) h
              (through-wrapping Kept (delete_chain env s.fuel config.volume_id) internally h
                (delete_chain-IsChecked env s.fuel config.volume_id h (a secrets)))))

    -- For any cluster, any appliances and any earlier calls that deleted no volume unchecked: if the
    -- identifier is one of a Fibre Channel volume, then in whatever way DeleteVolume of the service
    -- ends, either still no volume was deleted unchecked on any appliance; or the persistent volumes
    -- were listed, and each volume that was deleted was read before, unlocked and without children, on
    -- the appliance of the secrets that the list gives for the identifier: those that the first of
    -- the driver's volumes with this handle names, or the request's, if it names none or no volume
    -- has the handle.
    pub service_delete_volume-IsCheckedOnOwn :
        (secrets : Params) (volume_id : Str) (config : VolumeConfig) (h : History)
        → validate_volume_id volume_id ≡ ok config
        → config.storage_type ≡ protocol_fc
        → ((t : Params) → Always (IsChecked (k.appliance t)) h)
        → IsCheckedOnOwn secrets volume_id
            (service_delete_volume k (all_controllers s) secrets volume_id h).1
    unfolding service_delete_volume
    service_delete_volume-IsCheckedOnOwn secrets volume_id config h valid fc a =
        let Own : History → Type 0 = IsCheckedOnOwn secrets volume_id in
        let over : (g : History) → IsCheckedEverywhere k g → Own g = λ g b. inl b in
        rw valid (
          through-answer (IsCheckedEverywhere k) Own (to_status Code.internal) (k.build_client h) _
            h a over
            (λ u q.
              through-returned (FromListing k) (IsCheckedEverywhere k) Own
                (get_all_persistent_volumes k (to_status Code.invalid_argument) h) _
                (listed-Everywhere k h a) over
                (λ us g b (at, vs, listed, own).
                  through-returned (IsSecretFor k secrets volume_id vs) (IsCheckedEverywhere k) Own
                    (secrets_of_volume k secrets volume_id us g) _
                    (rw own (secrets-Chosen k secrets volume_id vs g b)) over
                    (λ chosen g' b' belongs. inr (
                      at,
                      vs,
                      chosen,
                      listed,
                      belongs,
                      deleted-IsChecked chosen volume_id config g' fc b',
                    )))))
