-- ===== src/Service/Replicas.antt =====
-- Replicas of new volumes: handleSCReplica, verifyCGExists, verifyLinkExists and handleCreatePVC of
-- service/screplica.go. The pauses are left out.
pub mod Waiting
pub mod Links
use infinibox_csi_driver.Prelude.{
  ℕ, zero, suc, Bool, true, false, Option, none, some, List, [], ◌∷◌, ◌++◌, ◌||◌, any, is_empty,
  if◌then◌else◌,
}
use infinibox_csi_driver.Prelude.Int.{ℤ, pos}
use infinibox_csi_driver.Strings.{Str, lit, str_eq, parse_bool}
use infinibox_csi_driver.Strings.Decimal.{atoi}
use infinibox_csi_driver.Exec.{
  Answer, ok, err, Err, plain_error, pure, throw, from_answer, or_fail, ◌>>=◌, ◌>>◌,
}
use infinibox_csi_driver.Params.{Params, value, protocol_nfs}
use infinibox_csi_driver.Ibox.{
  Link, RemoteFields, ReplicaRequest, GroupRequest, ConsistencyGroup, Env,
}
use infinibox_csi_driver.Ibox.Client.{M, get_links, get_consistency_group_by_name}
use infinibox_csi_driver.Cluster.{
  Cluster, build_client, get_secret, create_replica, create_group_change,
}

abbrev pub same_error : Err → Err
same_error e = e

-- verifyLinkExists
unfoldable pub verify_link : Env → Str → M (Unit {0})
verify_link env name = do
  links ← or_fail (get_links env) same_error
  if any (λ (l : Link). str_eq l.remote_system_name name) links then pure tt else throw plain_error

-- verifyCGExists tries ten times.
unfoldable pub found_group : Env → ℕ → Str → Answer ConsistencyGroup → M (Unit {0})
found_group env tries name (ok u) = pure tt
found_group env zero name (err e) = throw plain_error
found_group env (suc tries) name (err e) =
    get_consistency_group_by_name env name >>= found_group env tries name

unfoldable pub verify_group : Env → Str → M (Unit {0})
unfolding found_group
verify_group env name = get_consistency_group_by_name env name >>= found_group env 9 name

-- The parameters that are read, with what they must be.
abbrev pub replica_types : List Str
replica_types = lit "SYNC" ∷ lit "ASYNC" ∷ lit "ACTIVE_ACTIVE" ∷ []

abbrev pub required_remote : List Str
required_remote =
    lit "remote_pvc_namespace"
    ∷ lit "remote_network_space"
    ∷ lit "remote_pool_name"
    ∷ lit "remote_ibox_credential_name"
    ∷ lit "remote_ibox_credential_namespace"
    ∷ []

abbrev parsed_flag : Option Bool → Answer Bool
parsed_flag none = err plain_error
parsed_flag (some b) = ok b

-- Whether a claim is to be made at the remote site; an absent parameter reads as false.
unfoldable pub creates_claim : Params → Answer Bool
creates_claim params =
    let flag = value params (lit "remote_create_pvc") in
    if is_empty flag then ok false else parsed_flag (parse_bool flag)

abbrev pub remote_fields : Params → RemoteFields
remote_fields params = record {
  credential_name = value params (lit "remote_ibox_credential_name");
  credential_namespace = value params (lit "remote_ibox_credential_namespace");
  create_pvc = some true;
  pvc_name_suffix = value params (lit "remote_pvc_name_suffix");
  pvc_name = [];
  pvc_namespace = value params (lit "remote_pvc_namespace");
  network_space = value params (lit "remote_network_space");
  pool_name = value params (lit "remote_pool_name");
  kubeconfig_name = value params (lit "remote_kubeconfig_secret_name");
  kubeconfig_namespace = value params (lit "remote_kubeconfig_secret_namespace");
}

-- handleCreatePVC, where the flag is true: its required parameters are tested in this order.
unfoldable pub handle_create_pvc : Params → Answer RemoteFields
handle_create_pvc params =
    if any (λ key. is_empty (value params key)) required_remote
    then err plain_error
    else ok (remote_fields params)

-- The fields without a remote claim: of an Iboxcg none, of an Iboxreplica three.
abbrev pub no_remote : RemoteFields
no_remote = record {
  credential_name = [];
  credential_namespace = [];
  create_pvc = none;
  pvc_name_suffix = [];
  pvc_name = [];
  pvc_namespace = [];
  network_space = [];
  pool_name = [];
  kubeconfig_name = [];
  kubeconfig_namespace = [];
}

abbrev pub replica_remote : Params → Option RemoteFields → RemoteFields
replica_remote params (some fields) = fields
replica_remote params none = record no_remote {
  credential_name = value params (lit "remote_ibox_credential_name");
  credential_namespace = value params (lit "remote_ibox_credential_namespace");
  pool_name = value params (lit "remote_pool_name");
}

abbrev pub group_remote : Option RemoteFields → RemoteFields
group_remote (some fields) = fields
group_remote none = no_remote

-- The entity is the consistency group if one is given, the file system under NFS, else the volume.
abbrev pub entity_type : (group protocol : Str) → Str
entity_type group protocol =
    if is_empty group
    then (if str_eq protocol protocol_nfs then lit "FILESYSTEM" else lit "VOLUME")
    else lit "CONSISTENCY_GROUP"

abbrev parsed_pool : Option ℤ → Answer ℤ
parsed_pool none = err plain_error
parsed_pool (some n) = ok n

abbrev pub remote_pool : Params → Answer ℤ
remote_pool params =
    let pool = value params (lit "remote_pool_id") in
    if is_empty pool then ok (pos 0) else parsed_pool (atoi pool)

abbrev pub must_have : Params → Str → Answer (Unit {0})
must_have params key = if is_empty (value params key) then err plain_error else ok tt

module _ (k : Cluster) (env : Env) (volume protocol : Str) (params : Params) where
  abbrev pub replica_request : (pool : ℤ) → Option RemoteFields → ReplicaRequest
  replica_request pool fields = record {
    name = lit "iboxreplica-" ++ volume;
    secret_name = value params (lit "local_ibox_credential_name");
    secret_namespace = value params (lit "local_ibox_credential_namespace");
    entity_type = entity_type (value params (lit "cg_name")) protocol;
    entity = volume;
    link = value params (lit "link_remote_system_name");
    replication_type = value params (lit "replication_type");
    remote_pool_id = pool;
    remote = replica_remote params fields;
  }

  abbrev pub group_request : Option RemoteFields → GroupRequest
  group_request fields = record {
    name = lit "iboxcg-" ++ volume;
    secret_name = value params (lit "local_ibox_credential_name");
    secret_namespace = value params (lit "local_ibox_credential_namespace");
    description = volume ++ (lit "-" ++ value params (lit "cg_name"));
    group = value params (lit "cg_name");
    volume = volume;
    remote = group_remote fields;
  }

  -- Without a consistency group a replica is made; with one the volume is to be added to it.
  abbrev pub make_replica : (pool : ℤ) → Option RemoteFields → M (Unit {0})
  make_replica pool fields =
      if is_empty (value params (lit "cg_name"))
      then or_fail (create_replica k (replica_request pool fields)) same_error
      else (do
        verify_group env (value params (lit "cg_name"))
        or_fail (create_group_change k (group_request fields)) same_error)

  abbrev pub kubeconfig_exists : RemoteFields → M (Unit {0})
  kubeconfig_exists fields = if is_empty fields.kubeconfig_name then pure tt else (do
    or_fail (get_secret k fields.kubeconfig_name fields.kubeconfig_namespace) same_error
    pure tt)

  abbrev pub claim_fields : Bool → M (Option RemoteFields)
  claim_fields false = pure none
  claim_fields true = do
    fields ← from_answer same_error (handle_create_pvc params)
    kubeconfig_exists fields
    pure (some fields)

  abbrev pub requested_replica : M (Unit {0})
  requested_replica = do
    pool ← from_answer same_error (remote_pool params)
    from_answer same_error (must_have params (lit "link_remote_system_name"))
    verify_link env (value params (lit "link_remote_system_name"))
    from_answer same_error (must_have params (lit "local_ibox_credential_name"))
    from_answer same_error (must_have params (lit "local_ibox_credential_namespace"))
    or_fail (build_client k) same_error
    or_fail
        (get_secret k (value params (lit "local_ibox_credential_name"))
          (value params (lit "local_ibox_credential_namespace")))
        same_error
    creates ← from_answer same_error (creates_claim params)
    fields ← claim_fields creates
    make_replica pool fields

-- handleSCReplica: nothing is done unless the StorageClass asks for a replica.
unfoldable pub handle_replica : Cluster → Env → (volume protocol : Str) → Params → M (Unit {0})
handle_replica k env volume protocol params =
    let kind = value params (lit "replication_type") in
    if is_empty kind
    then pure tt
    else if any (str_eq kind) replica_types
    then requested_replica k env volume protocol params
    else throw plain_error
