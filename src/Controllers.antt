-- ===== src/Controllers.antt =====
-- The five storage controllers as implementations of the interface that the service calls
-- (StorageOperations of storage/storageservice.go).
pub mod Numbers
pub mod Files
pub mod Handles
use infinibox_csi_driver.Prelude.{ℕ, Bool, List, [], ◌∷◌}
use infinibox_csi_driver.Strings.{Str, lit}
use infinibox_csi_driver.Exec.{
  Answer, ok, err, Err, Code, to_implementation, wrap_error, status_error, pure, throw,
}
use infinibox_csi_driver.Params.{pool_name, provision_type, uid, gid, network_space, use_chap}
use infinibox_csi_driver.Ibox.{FileSystem}
use infinibox_csi_driver.Volumes.Delete.{delete_chain}
use infinibox_csi_driver.Fc.Publish.{publish}
use infinibox_csi_driver.Fc.Create.{fc_create_volume}
use infinibox_csi_driver.Fc.Rest.{
  fc_delete_volume, fc_delete_snapshot, fc_unpublish, fc_create_snapshot, fc_expand,
}
use infinibox_csi_driver.Iscsi.{iscsi_publish}
use infinibox_csi_driver.Iscsi.Create.{iscsi_create_volume, nvme_create_volume}
use infinibox_csi_driver.Nvme.{nvme_publish, nvme_expand}
use infinibox_csi_driver.Nfs.Permissions.{Library}
use infinibox_csi_driver.Nfs.Create.{ExportFlags, nfs_create_volume}
use infinibox_csi_driver.Nfs.Operations.{
  nfs_validate, nfs_delete_volume, nfs_delete_snapshot, nfs_publish, nfs_unpublish,
  nfs_create_snapshot, nfs_expand,
}
use infinibox_csi_driver.Treeqs.Create.{no_flags}
use infinibox_csi_driver.Treeqs.Controller.{
  treeq_validate, treeq_create_volume, treeq_delete_volume, treeq_expand,
}
use infinibox_csi_driver.Service.Classes.{validate_parameters}
use infinibox_csi_driver.Service.Operations.{Controller, Controllers}

-- What the controllers take from their surroundings: the patterns' matcher, the libraries, the
-- variable REMOVE_DOMAIN_NAME, the order of the units in a loop over a map, the order in which
-- concurrent answers arrive, and the bound on chains of parents.
pub record Setup : Type 0 where
  pub matches : Str → Str → Bool
  pub library : Library
  pub remove_domain : Str
  pub gib_first : Bool
  pub arrival : List FileSystem → List FileSystem
  pub fuel : ℕ

abbrev rejected : (Err → Err) → Answer (Unit {0}) → Answer (Unit {0})
rejected wrap (ok u) = ok tt
rejected wrap (err e) = err (wrap e)

abbrev pub fc_required : List (Str × Str)
fc_required = (pool_name, lit "[a-zA-Z]+") ∷ []

abbrev pub block_optional : List (Str × Str)
block_optional =
    (provision_type, lit "(?i)\\A(THICK|THIN)\\z") ∷ (uid, lit "^\\d+$") ∷ (gid, lit "^\\d+$") ∷ []

abbrev pub iscsi_required : List (Str × Str)
iscsi_required =
    (pool_name, lit "[a-zA-Z]+")
    ∷ (use_chap, lit "(?i)\\A(none|chap|mutual_chap)\\z")
    ∷ (network_space, lit "\\A.*\\z")
    ∷ []

abbrev pub nvme_required : List (Str × Str)
nvme_required = (pool_name, lit "[a-zA-Z]+") ∷ (network_space, lit "\\A.*\\z") ∷ []

abbrev pub flags_of : Answer ExportFlags → ExportFlags
flags_of (ok f) = f
flags_of (err e) = no_flags

abbrev verdict : Answer ExportFlags → Answer (Unit {0})
verdict (ok f) = ok tt
verdict (err e) = err e

module _ (s : Setup) where
  abbrev pub fc_controller : Controller
  fc_controller env config capacity = record {
    validate_storage_class = λ params.
        rejected (to_implementation Code.invalid_argument)
          (validate_parameters s.matches fc_required block_optional params);
    create = λ req. fc_create_volume env req.request capacity;
    delete = λ id. fc_delete_volume env s.fuel config;
    publish = λ req. publish env s.remove_domain req;
    unpublish = λ host node id. fc_unpublish env host config;
    create_snapshot = λ req. fc_create_snapshot env config req;
    delete_snapshot = λ id. fc_delete_snapshot env s.fuel id;
    expand = λ id required block. fc_expand env config capacity;
  }

  -- DeleteVolume, snapshots and expansion are those of Fibre Channel.
  abbrev pub iscsi_controller : Controller
  iscsi_controller env config capacity = record (fc_controller env config capacity) {
    validate_storage_class = λ params.
        rejected (λ e. wrap_error (to_implementation Code.invalid_argument e))
          (validate_parameters s.matches iscsi_required block_optional params);
    create = λ req. iscsi_create_volume env req.request capacity;
    publish = λ req. iscsi_publish env s.remove_domain req;
  }

  -- The errors of DeleteVolume are passed on as they are.
  abbrev pub nvme_controller : Controller
  nvme_controller env config capacity = record (fc_controller env config capacity) {
    validate_storage_class = λ params.
        rejected (to_implementation Code.invalid_argument)
          (validate_parameters s.matches nvme_required [] params);
    create = λ req. nvme_create_volume env req.request capacity;
    delete = λ id. delete_chain env s.fuel config.volume_id;
    publish = λ req. nvme_publish env s.remove_domain req;
    expand = λ id required block. nvme_expand env config capacity block;
  }

  -- The flags of CreateVolume are those that ValidateStorageClass left for the same parameters.
  abbrev pub nfs_controller : Controller
  nfs_controller env config capacity = record {
    validate_storage_class = λ params. verdict (nfs_validate s.matches s.library params);
    create = λ req.
        nfs_create_volume env s.library
          (flags_of (nfs_validate s.matches s.library req.request.parameters)) capacity req;
    delete = λ id. nfs_delete_volume env s.fuel config;
    publish = λ req. nfs_publish env s.library req;
    unpublish = λ host node id. nfs_unpublish env config node;
    create_snapshot = λ req. nfs_create_snapshot env config req;
    delete_snapshot = λ id. nfs_delete_snapshot env s.fuel id;
    expand = λ id required block. nfs_expand env config capacity;
  }

  abbrev pub treeq_controller : Controller
  treeq_controller env config capacity = record {
    validate_storage_class = λ params. treeq_validate s.matches s.library params;
    create = λ req. treeq_create_volume env s.library s.gib_first s.arrival capacity req;
    delete = λ id. treeq_delete_volume env config;
    publish = λ req. pure [];
    unpublish = λ host node id. nfs_unpublish env config node;
    create_snapshot = λ req. throw (status_error Code.unimplemented);
    delete_snapshot = λ id. throw (status_error Code.unimplemented);
    expand = λ id required block. treeq_expand env s.gib_first config required;
  }

  abbrev pub all_controllers : Controllers
  all_controllers = record {
    fc = fc_controller;
    iscsi = iscsi_controller;
    nvme = nvme_controller;
    nfs = nfs_controller;
    treeq = treeq_controller;
  }
