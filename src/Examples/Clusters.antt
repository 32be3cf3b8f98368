-- ===== src/Examples/Clusters.antt =====
-- A small cluster, the secrets of its appliance, and what the controllers take from elsewhere.
use infinibox_csi_driver.Prelude.{true, none, [], ◌∷◌}
use infinibox_csi_driver.Prelude.Int.{pos}
use infinibox_csi_driver.Strings.{lit}
use infinibox_csi_driver.Exec.{ok, err}
use infinibox_csi_driver.Params.{
  Params, storage_protocol, protocol_fc, protocol_iscsi, credential_hostname, credential_username,
  credential_password,
}
use infinibox_csi_driver.VolumeId.{VolumeConfig}
use infinibox_csi_driver.Cluster.{Cluster, Node}
use infinibox_csi_driver.Examples.Quiet.{gone, stocked}
use infinibox_csi_driver.Nfs.Permissions.{Library}
use infinibox_csi_driver.Controllers.{Setup}

abbrev pub worker_node : Node
worker_node = record { name = lit "worker"; node_protocol = [] }

-- One unlabelled node, and no claims, classes or pods; each secret leads to the same appliance.
abbrev pub cluster : Cluster
cluster = record {
  protocol_secret_name = [];
  pod_namespace = lit "infinidat";
  remove_domain = [];
  to_upper = λ s. s;
  trim_space = λ s. s;
  matches = λ _ _. true;
  reaches = λ _. true;
  client_made = λ _. true;
  appliance = λ _. stocked;
  build_client = λ _. ok tt;
  get_secret = λ _ _ _. err gone;
  get_secret_contains_name = λ _ _ _. err gone;
  get_secrets = λ _ _. err gone;
  get_nodes = λ _. ok (worker_node ∷ []);
  list_persistent_volumes = λ _. ok [];
  get_pvc = λ _ _ _. ok none;
  get_pvc_annotations = λ _ _ _. ok [];
  get_storage_class = λ _ _. ok [];
  running_pod = λ _ _. err gone;
  exec_in_pod = λ _ _ _ _. err gone;
  create_replica = λ _ _. ok tt;
  create_group_change = λ _ _. ok tt;
}

abbrev pub library : Library
library = record {
  to_upper = λ s. s;
  unmarshal = λ _. ok [];
  join = λ a b. b;
  parse_ip = λ s. s;
  pick = λ _ _. 0;
}

abbrev pub setup : Setup
setup = record {
  matches = λ _ _. true;
  library = library;
  remove_domain = [];
  gib_first = true;
  arrival = λ systems. systems;
  fuel = 3;
}

abbrev pub credentials : Params
credentials =
    (credential_hostname, lit "ibox")
    ∷ (credential_username, lit "admin")
    ∷ (credential_password, lit "123456")
    ∷ []

abbrev pub fc_volume : VolumeConfig
fc_volume = record { volume_id = pos 7; storage_type = protocol_fc; treeq_id = pos 0 }

abbrev pub iscsi_secret : Params
iscsi_secret = (storage_protocol, protocol_iscsi) ∷ []

abbrev pub secretive : Cluster
secretive = record cluster {
  protocol_secret_name = lit "protocol";
  get_secret = λ _ _ _. ok iscsi_secret;
}
