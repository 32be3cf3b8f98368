-- ===== src/Controllers/Handles.antt =====
-- CreateVolume of the service with the driver's own controllers.
use infinibox_csi_driver.Prelude.{◌≡◌, ◌≢◌, arith, Bool-cases, inl, inr}
use infinibox_csi_driver.Prelude.Int.{ℤ}
use infinibox_csi_driver.Strings.{Str, str_eq, str_eq_iff}
use infinibox_csi_driver.Exec.{ok, done, wrap_error, to_implementation, Code}
use infinibox_csi_driver.Params.{
  Params, protocol_fc, protocol_iscsi, protocol_nvme, protocol_nfs, protocol_treeq,
}
use infinibox_csi_driver.VolumeId.{VolumeConfig}
use infinibox_csi_driver.Ibox.{Env, History}
use infinibox_csi_driver.Ibox.Returned.{Returned}
use infinibox_csi_driver.Cluster.{Cluster}
use infinibox_csi_driver.Iscsi.Create.{
  read_once, read_ten_times, iscsi_create_volume, nvme_create_volume,
}
use infinibox_csi_driver.Service.Operations.{VolumeRequest, Controller, new_storage_node}
use infinibox_csi_driver.Service.Protocol.{determine_storage_protocol}
use infinibox_csi_driver.Service.Create.{service_create_volume}
use infinibox_csi_driver.Service.Create.Handle.{
  IsNumbered, IsReadBack, service_create_volume-IsReadBack,
}
use infinibox_csi_driver.Nfs.Operations.{nfs_validate}
use infinibox_csi_driver.Controllers.{
  Setup, flags_of, all_controllers, nfs_controller, iscsi_controller, nvme_controller,
  fc_controller,
}
use infinibox_csi_driver.Controllers.Numbers.{
  HasSmallVolumes, fc_create_volume-IsNumbered, create_block_volume-IsNumbered,
}
use infinibox_csi_driver.Controllers.Files.{HasSmallSystems, nfs_create_volume-IsNumbered}

module _ (s : Setup) (env : Env) (volumes : HasSmallVolumes env) (systems : HasSmallSystems env)
    (config : VolumeConfig) (capacity : ℤ) (r : VolumeRequest) (h : History) where
  -- Each controller but that of treeqs numbers its volumes.
  controller-IsNumbered :
      (kind : Str) (controller : Controller)
      → new_storage_node (all_controllers s) kind ≡ ok controller
      → kind ≢ protocol_treeq
      → Returned IsNumbered ((controller env config capacity).create r h).0
  unfolding new_storage_node iscsi_create_volume nvme_create_volume
  controller-IsNumbered kind controller q n = elim (Bool-cases (str_eq kind protocol_fc)) [
    | inl fc ↦
        let is : controller ≡ fc_controller s = ground (arith, q, fc) in
        rw is (fc_create_volume-IsNumbered env r.request volumes capacity h)
    | inr a ↦ elim (Bool-cases (str_eq kind protocol_iscsi)) [
      | inl iscsi ↦
          let is : controller ≡ iscsi_controller s = ground (arith, q, a, iscsi) in
          rw is (
            create_block_volume-IsNumbered env r.request volumes capacity
              (λ e. wrap_error (to_implementation Code.not_found e)) (read_once env) h)
      | inr b ↦ elim (Bool-cases (str_eq kind protocol_nvme)) [
        | inl nvme ↦
            let is : controller ≡ nvme_controller s = ground (arith, q, a, b, nvme) in
            rw is (
              create_block_volume-IsNumbered env r.request volumes capacity
                (to_implementation Code.not_found) (read_ten_times env) h)
        | inr c ↦ elim (Bool-cases (str_eq kind protocol_nfs)) [
          | inl nfs ↦
              let is : controller ≡ nfs_controller s = ground (arith, q, a, b, c, nfs) in
              rw is (
                nfs_create_volume-IsNumbered env s.library
                  (flags_of (nfs_validate s.matches s.library r.request.parameters)) capacity r
                  systems h)
          | inr d ↦ elim (Bool-cases (str_eq kind protocol_treeq)) [
            | inl treeq ↦ absurd (n ((str_eq_iff kind protocol_treeq).0 treeq))
            | inr e ↦ absurd (ground (arith, q, a, b, c, d, e))
          ]
        ]
      ]
    ]
  ]

-- If every appliance of the cluster names its volumes, file systems and snapshots by int64 numbers,
-- and the protocol of the request is determined and is not nfs_treeq, then whenever CreateVolume of
-- the service, with the driver's controllers, returns a volume, ValidateVolumeID reads its identifier
-- back with that protocol.
pub create_volume-IsReadBack :
    (k : Cluster) (s : Setup) (req : VolumeRequest) (h h' : History) (protocol : Str)
    (params : Params)
    → ((secrets : Params) → HasSmallVolumes (k.appliance secrets))
    → ((secrets : Params) → HasSmallSystems (k.appliance secrets))
    → determine_storage_protocol k req.request.parameters h ≡ (done (protocol, params), h')
    → protocol ≢ protocol_treeq
    → Returned (IsReadBack protocol) (service_create_volume k (all_controllers s) req h).0
create_volume-IsReadBack k s req h h' protocol params volumes systems determined not_treeq =
    service_create_volume-IsReadBack k (all_controllers s) req h h' protocol params
      (λ kind controller secrets config capacity r g found n.
        controller-IsNumbered s (k.appliance secrets) (volumes secrets) (systems secrets) config
          capacity r g kind controller found n)
      determined not_treeq
