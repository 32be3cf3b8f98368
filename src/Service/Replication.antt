-- ===== src/Service/Replication.antt =====
-- The replication server of the CSI add-ons: service/csiaddons/replication.go. The pause of
-- DemoteVolume is left out; ResyncVolume returns a constant.
pub mod Promotion
use infinibox_csi_driver.Prelude.{
  Bool, Option, none, some, List, [], ◌∷◌, any, is_empty, if◌then◌else◌,
}
use infinibox_csi_driver.Prelude.Int.{ℤ, pos, int_eq}
use infinibox_csi_driver.Strings.{Str, lit, str_eq}
use infinibox_csi_driver.Exec.{
  Answer, ok, err, Err, Code, plain_error, status_error, to_status, pure, throw, from_answer,
  or_fail, wrapping, ◌>>=◌, ◌>>◌,
}
use infinibox_csi_driver.Params.{Params, value}
use infinibox_csi_driver.VolumeId.{validate_volume_id}
use infinibox_csi_driver.Ibox.{Link, Replica, CreateReplicaRequest, Volume, Pool, Env}
use infinibox_csi_driver.Ibox.Client.{
  M, get_volume, get_pool_by_name, get_links, get_link, get_replicas,
  get_replica_for_local_entity_name, delete_replica, create_entity_replica,
}
use infinibox_csi_driver.Cluster.{Cluster, build_client, get_secret_contains_name}
use infinibox_csi_driver.Service.Operations.{build_common_service}

abbrev pub required_replication : List Str
required_replication =
    lit "link_remote_system_name"
    ∷ lit "remote_pool_name"
    ∷ lit "remote_ibox_credential_name"
    ∷ lit "remote_ibox_credential_namespace"
    ∷ []

-- validateLink: the last link to the system decides.
unfoldable pub last_link : (system : Str) → Option Link → List Link → Option Link
last_link system found [] = found
last_link system found (l ∷ ls) =
    last_link system (if str_eq l.remote_system_name system then some l else found) ls

abbrev pub usable_link : Option Link → Answer Link
usable_link none = err plain_error
usable_link (some l) =
    if int_eq l.id (pos 0)
    then err plain_error
    else if str_eq l.link_state (lit "UP")
    then ok l
    else err plain_error

abbrev pub validate_link : Env → (system : Str) → M Link
validate_link env system = do
  links ← or_fail (get_links env) (λ e. e)
  from_answer (λ e. e) (usable_link (last_link system none links))

-- What every operation begins with: the appliance and the volume's number.
abbrev pub source_volume : Cluster → (secrets : Params) → (volume_id : Str) → M (Env × ℤ)
source_volume k secrets volume_id = do
  config ← from_answer (to_status Code.invalid_argument) (validate_volume_id volume_id)
  env ← from_answer (to_status Code.unauthenticated) (build_common_service k secrets)
  pure (env, config.volume_id)

abbrev pub enable_request : Volume → Pool → Link → CreateReplicaRequest
enable_request volume pool l = record {
  local_entity_id = volume.id;
  link_id = l.id;
  remote_pool_id = pool.id;
  remote_entity_name = volume.name;
}

abbrev pub create_unless_replicated : Env → Volume → Pool → Link → List Replica → M (Unit {0})
create_unless_replicated env volume pool l replicas =
    if any (λ (r : Replica). int_eq r.local_entity_id volume.id) replicas
    then throw (status_error Code.invalid_argument)
    else or_fail (create_entity_replica env (enable_request volume pool l)) (to_status Code.unknown)

abbrev pub enable_on : Env → Params → ℤ → M (Unit {0})
enable_on env params id = do
  volume ← or_fail (get_volume env id) (to_status Code.not_found)
  pool ←
      or_fail (get_pool_by_name env (value params (lit "remote_pool_name")))
        (to_status Code.invalid_argument)
  l ←
      wrapping (validate_link env (value params (lit "link_remote_system_name")))
        (to_status Code.invalid_argument)
  replicas ← or_fail (get_replicas env) (to_status Code.invalid_argument)
  create_unless_replicated env volume pool l replicas

-- EnableVolumeReplication
unfoldable pub enable_replication :
    Cluster → (secrets params : Params) → (volume_id : Str) → M (Unit {0})
enable_replication k secrets params volume_id =
    if any (λ key. is_empty (value params key)) required_replication
    then throw (status_error Code.invalid_argument)
    else (do (env, id) ← source_volume k secrets volume_id; enable_on env params id)

-- DisableVolumeReplication
unfoldable pub disable_replication : Cluster → (secrets : Params) → (volume_id : Str) → M (Unit {0})
disable_replication k secrets volume_id = do
  (env, id) ← source_volume k secrets volume_id
  volume ← or_fail (get_volume env id) (to_status Code.not_found)
  replica ← or_fail (get_replica_for_local_entity_name env volume.name) (to_status Code.unknown)
  or_fail (delete_replica env replica.id) (to_status Code.unknown)

-- getSecretForLink
abbrev pub link_namespace : Str → Str
link_namespace namespace = if is_empty namespace then lit "infinidat-csi" else namespace

abbrev pub secret_for_link : Cluster → (system : Str) → M Params
secret_for_link k system = do
  or_fail (build_client k) (λ e. e)
  or_fail (get_secret_contains_name k (link_namespace k.pod_namespace) system) (λ e. e)

-- The first link whose own name is the system's, or 0.
unfoldable pub link_named : (system : Str) → List Link → ℤ
link_named system [] = pos 0
link_named system (l ∷ ls) =
    let rest = link_named system ls in if str_eq l.name system then l.id else rest

-- The other appliance of a replica.
abbrev pub other_appliance : Cluster → (system : Str) → M Env
other_appliance k system = do
  secret ← wrapping (secret_for_link k system) (to_status Code.not_found)
  from_answer (to_status Code.unauthenticated) (build_common_service k secret)

abbrev pub promoted_request : Volume → Replica → (link : ℤ) → CreateReplicaRequest
promoted_request volume replica link = record {
  local_entity_id = volume.id;
  link_id = link;
  remote_pool_id = replica.remote_pool_id;
  remote_entity_name = volume.name;
}

abbrev pub create_back : Env → Volume → Replica → (link : ℤ) → M (Unit {0})
create_back env volume replica link =
    if int_eq link (pos 0)
    then throw (status_error Code.unknown)
    else or_fail (create_entity_replica env (promoted_request volume replica link))
        (to_status Code.unknown)

-- The replica of the primary is deleted, and one in the other direction is made.
unfoldable pub turn_around : Cluster → Env → List Link → Volume → Replica → M (Unit {0})
turn_around k env links volume replica = do
  l ← or_fail (get_link env replica.link_id) (to_status Code.not_found)
  other ← other_appliance k l.remote_system_name
  theirs ← or_fail (get_replica_for_local_entity_name other volume.name) (to_status Code.unknown)
  or_fail (delete_replica other theirs.id) (to_status Code.unknown)
  create_back env volume replica (link_named l.remote_system_name links)

abbrev pub promote_replica : Cluster → Env → List Link → Volume → Answer Replica → M (Unit {0})
promote_replica k env links volume (err e) =
    if e.is_not_found then pure tt else throw (to_status Code.unknown e)
promote_replica k env links volume (ok replica) =
    if str_eq replica.role (lit "SOURCE") then pure tt else turn_around k env links volume replica

-- PromoteVolume
unfoldable pub promote_volume : Cluster → (secrets : Params) → (volume_id : Str) → M (Unit {0})
promote_volume k secrets volume_id = do
  (env, id) ← source_volume k secrets volume_id
  links ← or_fail (get_links env) (to_status Code.unknown)
  volume ← or_fail (get_volume env id) (to_status Code.not_found)
  get_replica_for_local_entity_name env volume.name >>= promote_replica k env links volume

abbrev pub demoted_request : Volume → Replica → Link → CreateReplicaRequest
demoted_request remote replica l = record {
  local_entity_id = remote.id;
  link_id = l.remote_link_id;
  remote_pool_id = replica.local_pool_id;
  remote_entity_name = remote.name;
}

abbrev pub demote_source : Cluster → Env → Replica → M (Unit {0})
demote_source k env replica = do
  l ← or_fail (get_link env replica.link_id) (to_status Code.not_found)
  other ← other_appliance k l.remote_system_name
  or_fail (delete_replica env replica.id) (to_status Code.unknown)
  remote ← or_fail (get_volume other replica.remote_entity_id) (to_status Code.not_found)
  or_fail (create_entity_replica other (demoted_request remote replica l)) (to_status Code.unknown)

abbrev pub demote_replica : Cluster → Env → Answer Replica → M (Unit {0})
demote_replica k env (err e) = if e.is_not_found then pure tt else throw (to_status Code.unknown e)
demote_replica k env (ok replica) =
    if str_eq replica.role (lit "TARGET") then pure tt else demote_source k env replica

-- DemoteVolume
unfoldable pub demote_volume : Cluster → (secrets : Params) → (volume_id : Str) → M (Unit {0})
demote_volume k secrets volume_id = do
  (env, id) ← source_volume k secrets volume_id
  volume ← or_fail (get_volume env id) (to_status Code.not_found)
  get_replica_for_local_entity_name env volume.name >>= demote_replica k env

-- GetVolumeReplicationInfoResponse, with its status as whether it is healthy.
pub record ReplicationInfo : Type 0 where
  pub last_sync_time : ℤ
  pub last_sync_duration : ℤ
  pub is_healthy : Bool
  pub status_message : Str

-- GetVolumeReplicationInfo
unfoldable pub replication_info :
    Cluster → (secrets : Params) → (volume_id : Str) → M ReplicationInfo
replication_info k secrets volume_id = do
  (env, id) ← source_volume k secrets volume_id
  volume ← or_fail (get_volume env id) (to_status Code.not_found)
  replica ← or_fail (get_replica_for_local_entity_name env volume.name) (to_status Code.unknown)
  pure (record {
    last_sync_time = replica.last_synchronized;
    last_sync_duration = replica.sync_duration;
    is_healthy = str_eq replica.state (lit "ACTIVE");
    status_message = replica.state;
  })
