-- ===== src/Cluster.antt =====
-- The driver's other surroundings: the Kubernetes client (api/clientgo/goclient.go), the environment
-- variables, and what third-party or Unicode-aware library calls answer.
use infinibox_csi_driver.Prelude.{List, Option, Bool, ◌∷◌}
use infinibox_csi_driver.Prelude.Int.{ℤ}
use infinibox_csi_driver.Strings.{Str}
use infinibox_csi_driver.Exec.{Answer, done}
use infinibox_csi_driver.Params.{Params}
use infinibox_csi_driver.Ibox.{Call, Env, History, ReplicaRequest, GroupRequest}
use infinibox_csi_driver.Ibox.Client.{M}

-- v1.Node, with its label infinidat.com/node-protocol; a missing label reads as the empty string.
pub record Node : Type 0 where
  pub name : Str
  pub node_protocol : Str

-- The CSI source of a v1.PersistentVolume: a missing secret reference reads as an empty name, which
-- the code treats alike.
pub record CsiSource : Type 0 where
  pub volume_handle : Str
  pub publish_secret : Str
  pub attributes : Params

pub record PersistentVolume : Type 0 where
  pub name : Str
  pub provisioned_by : Str
  pub capacity : ℤ
  pub csi : Option CsiSource

-- Standard output and standard error of a command in a pod.
pub record Output : Type 0 where
  pub out : Str
  pub error_out : Str

pub record Cluster : Type 0 where
  -- environment variables
  pub protocol_secret_name : Str
  pub pod_namespace : Str
  pub remove_domain : Str
  -- strings.ToUpper, strings.TrimSpace, regexp.MatchString
  pub to_upper : Str → Str
  pub trim_space : Str → Str
  pub matches : (pattern text : Str) → Bool
  -- whether the hostname of a secret parses as a URL and api.ClientService.NewClient succeeds
  pub reaches : Params → Bool
  -- whether api.ClientService.NewClient succeeds with a secret
  pub client_made : Params → Bool
  -- the appliance that a secret leads to
  pub appliance : Params → Env
  -- clientgo.BuildClient
  pub build_client : History → Answer (Unit {0})
  pub get_secret : History → (name namespace : Str) → Answer Params
  -- GetSecretContainsName of a namespace and a part of the name
  pub get_secret_contains_name : History → (namespace name : Str) → Answer Params
  pub get_secrets : History → (namespace : Str) → Answer (List Params)
  pub get_nodes : History → Answer (List Node)
  -- the persistent volumes that are not filtered yet
  pub list_persistent_volumes : History → Answer (List PersistentVolume)
  pub get_pvc : History → (name namespace : Str) → Answer (Option Str)
  pub get_pvc_annotations : History → (name namespace : Str) → Answer Params
  pub get_storage_class : History → Str → Answer Params
  -- GetRunningDriverNodePods is an error when there is none
  pub running_pod : History → Str → Answer Str
  pub exec_in_pod : History → (pod namespace command : Str) → Answer Output
  pub create_replica : History → ReplicaRequest → Answer (Unit {0})
  pub create_group_change : History → GroupRequest → Answer (Unit {0})

abbrev ask {ℓ} : {A : Type ℓ} → Call → (History → A) → M A
ask c answer h = (done (answer h), c ∷ h)

module _ (k : Cluster) where
  abbrev pub build_client : M (Answer (Unit {0}))
  build_client h = (done (k.build_client h), h)

  abbrev pub get_secret : Str → Str → M (Answer Params)
  get_secret a b = ask (Call.get_secret a b) (λ h. k.get_secret h a b)

  abbrev pub get_secret_contains_name : Str → Str → M (Answer Params)
  get_secret_contains_name a b =
      ask (Call.get_secret_contains_name a b) (λ h. k.get_secret_contains_name h a b)

  abbrev pub get_secrets : Str → M (Answer (List Params))
  get_secrets a = ask (Call.get_secrets a) (λ h. k.get_secrets h a)

  abbrev pub get_nodes : M (Answer (List Node))
  get_nodes = ask Call.get_nodes (λ h. k.get_nodes h)

  abbrev pub list_persistent_volumes : M (Answer (List PersistentVolume))
  list_persistent_volumes = ask Call.get_all_persistent_volumes (λ h. k.list_persistent_volumes h)

  abbrev pub get_pvc : Str → Str → M (Answer (Option Str))
  get_pvc a b = ask (Call.get_pvc a b) (λ h. k.get_pvc h a b)

  abbrev pub get_pvc_annotations : Str → Str → M (Answer Params)
  get_pvc_annotations a b = ask (Call.get_pvc_annotations a b) (λ h. k.get_pvc_annotations h a b)

  abbrev pub get_storage_class : Str → M (Answer Params)
  get_storage_class a = ask (Call.get_storage_class a) (λ h. k.get_storage_class h a)

  abbrev pub running_pod : Str → M (Answer Str)
  running_pod a = ask (Call.get_running_pods a) (λ h. k.running_pod h a)

  abbrev pub exec_in_pod : Str → Str → Str → M (Answer Output)
  exec_in_pod a b c = ask (Call.exec_in_pod a b c) (λ h. k.exec_in_pod h a b c)

  abbrev pub create_replica : ReplicaRequest → M (Answer (Unit {0}))
  create_replica a = ask (Call.create_replica a) (λ h. k.create_replica h a)

  abbrev pub create_group_change : GroupRequest → M (Answer (Unit {0}))
  create_group_change a = ask (Call.create_group_change a) (λ h. k.create_group_change h a)
