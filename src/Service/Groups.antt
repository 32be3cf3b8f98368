-- ===== src/Service/Groups.antt =====
-- Snapshots of volume groups: service/volumegroupcontroller.go. The second client that the code makes
-- of the same secrets leads to the same appliance.
pub mod Names
pub mod Sources
use infinibox_csi_driver.Prelude.{Option, none, some, List, [], ◌∷◌, ◌++◌, if◌then◌else◌}
use infinibox_csi_driver.Prelude.Int.{ℤ, pos}
use infinibox_csi_driver.Strings.{Str, lit, contains}
use infinibox_csi_driver.Strings.Decimal.{itoa, atoi}
use infinibox_csi_driver.Exec.{
  Answer, ok, err, Err, plain_error, Code, status_error, to_status, pure, throw, from_answer,
  or_fail, wrapping, ◌>>=◌, ◌>>◌,
}
use infinibox_csi_driver.Params.{Params, value}
use infinibox_csi_driver.VolumeId.{split_dollars, with_protocol}
use infinibox_csi_driver.Ibox.{
  ConsistencyGroup, GroupMember, CreateConsistencyGroupRequest, CreateSnapshotGroupRequest, Env,
}
use infinibox_csi_driver.Ibox.Client.{
  M, current_time, get_volume, get_consistency_group_by_name, get_consistency_group,
  get_members_by_cg_id, create_consistency_group, add_member_to_snapshot_group,
  create_snapshot_group, delete_consistency_group,
}
use infinibox_csi_driver.Cluster.{Cluster}
use infinibox_csi_driver.Service.Operations.{build_common_service}

-- csi.CreateVolumeGroupSnapshotRequest
pub record GroupSnapshotRequest : Type 0 where
  pub secrets : Params
  pub parameters : Params
  pub source_volume_ids : List Str

-- A csi.Snapshot of a group, and a csi.VolumeGroupSnapshot.
pub record MemberSnapshot : Type 0 where
  pub size_bytes : ℤ
  pub snapshot_id : Str
  pub source_volume_id : Str
  pub creation_time : ℤ
  pub group_snapshot_id : Str

pub record GroupSnapshot : Type 0 where
  pub group_snapshot_id : Str
  pub snapshots : List MemberSnapshot
  pub creation_time : ℤ

-- The number of a volume in createCG.
abbrev pub parsed_number : Option ℤ → Answer ℤ
parsed_number none = err (status_error Code.internal)
parsed_number (some n) = ok n

abbrev pub group_volume_number : List Str → Answer ℤ
group_volume_number (number ∷ protocol ∷ []) = parsed_number (atoi number)
group_volume_number _ = err plain_error

-- The last of the identifiers in which the digits occur; there is no `break` in the loop.
unfoldable pub last_with : (digits found : Str) → List Str → Str
last_with digits found [] = found
last_with digits found (id ∷ ids) = last_with digits (if contains id digits then id else found) ids

-- The protocol of the identifier that was found.
abbrev pub protocol_in : Code → List Str → Answer Str
protocol_in code (number ∷ protocol ∷ []) = ok protocol
protocol_in code _ = err (status_error code)

module _ (env : Env) where
  unfoldable pub group_volumes : List Str → (pool : ℤ) → M (ℤ × List ℤ)
  group_volumes [] pool = pure (pool, [])
  group_volumes (id ∷ ids) pool = do
    number ← from_answer (λ e. e) (group_volume_number (split_dollars id))
    volume ← or_fail (get_volume env number) (to_status Code.internal)
    rest ← group_volumes ids volume.pool_id
    pure (rest.0, number ∷ rest.1)

  unfoldable pub add_members : (group : ℤ) → List ℤ → M (Unit {0})
  add_members group [] = pure tt
  add_members group (volume ∷ volumes) = do
    or_fail (add_member_to_snapshot_group env volume group) (to_status Code.internal)
    add_members group volumes

  -- createCG: the pool is that of the last volume.
  unfoldable pub create_group : (name : Str) → List Str → M ConsistencyGroup
  create_group name ids = do
    volumes ← group_volumes ids (pos 0)
    group ←
        or_fail (create_consistency_group env (record { pool_id = volumes.0; name = name }))
          (to_status Code.internal)
    add_members group.id volumes.1
    pure group

  abbrev pub found_or_created :
      (name : Str) → List Str → Answer ConsistencyGroup → M ConsistencyGroup
  found_or_created name ids (ok group) = pure group
  found_or_created name ids (err e) =
      if e.is_not_found
      then wrapping (create_group name ids) (to_status Code.internal)
      else throw (to_status Code.internal e)

  -- The name of a snapshot group must not be taken.
  abbrev pub if_unused : Answer ConsistencyGroup → M (Unit {0})
  if_unused (ok group) = throw (status_error Code.invalid_argument)
  if_unused (err e) = if e.is_not_found then pure tt else throw (to_status Code.internal e)

  -- The loop over the members: `key` is the number that is looked for in the identifiers.
  module _ (key : GroupMember → ℤ) (code : Code) (name : Str) (created : ℤ) (ids : List Str) where
    abbrev pub member_snapshot : GroupMember → (volume : ℤ) (protocol : Str) → MemberSnapshot
    member_snapshot member volume protocol = record {
      size_bytes = member.size;
      snapshot_id = with_protocol (itoa volume) protocol;
      source_volume_id = last_with (itoa (key member)) [] ids;
      creation_time = created;
      group_snapshot_id = name;
    }

    unfoldable pub member_snapshots : List GroupMember → M (List MemberSnapshot)
    member_snapshots [] = pure []
    member_snapshots (member ∷ members) = do
      volume ← or_fail (get_volume env member.id) (to_status code)
      protocol ←
          from_answer (λ e. e)
            (protocol_in code (split_dollars (last_with (itoa (key member)) [] ids)))
      rest ← member_snapshots members
      pure (member_snapshot member volume.id protocol ∷ rest)

  abbrev pub snapshot_group_request : ConsistencyGroup → (name : Str) → CreateSnapshotGroupRequest
  snapshot_group_request group name = record { cg_id = group.id; snap_name = name }

  abbrev pub group_of_snapshots : ℤ → ℤ → List MemberSnapshot → GroupSnapshot
  group_of_snapshots group created snapshots = record {
    group_snapshot_id = itoa group;
    snapshots = snapshots;
    creation_time = created;
  }

  -- The source of a snapshot is looked for by the family of the member.
  abbrev pub describe_group : List Str → ConsistencyGroup → M GroupSnapshot
  describe_group ids group = do
    created ← current_time env
    members ← or_fail (get_members_by_cg_id env group.id) (to_status Code.internal)
    snapshots ← member_snapshots (λ m. m.family_id) Code.internal group.name created ids members
    pure (group_of_snapshots group.id created snapshots)

  abbrev pub snapshot_group_made : (name : Str) → List Str → ConsistencyGroup → M GroupSnapshot
  snapshot_group_made name ids group = do
    made ←
        or_fail (create_snapshot_group env (snapshot_group_request group name))
          (to_status Code.internal)
    describe_group ids made

  abbrev pub create_snapshots : (name : Str) → List Str → ConsistencyGroup → M GroupSnapshot
  create_snapshots name ids group = do
    get_consistency_group_by_name env name >>= if_unused
    snapshot_group_made name ids group

  abbrev pub group_snapshot_created : (parameters : Params) → List Str → M GroupSnapshot
  group_snapshot_created parameters ids = do
    group ←
        get_consistency_group_by_name env (value parameters (lit "infinidat.com/cgname"))
        >>= found_or_created (value parameters (lit "infinidat.com/cgname")) ids
    create_snapshots (value parameters (lit "csi.storage.k8s.io/volumegroupsnapshot/name")) ids
        group

  -- GetVolumeGroupSnapshot looks for the snapshot of a member by the member's own number.
  abbrev pub group_snapshot_read : (group : ℤ) → (snapshot_ids : List Str) → M GroupSnapshot
  group_snapshot_read group ids = do
    found ← or_fail (get_consistency_group env group) (to_status Code.not_found)
    created ← current_time env
    members ← or_fail (get_members_by_cg_id env group) (to_status Code.internal)
    snapshots ← member_snapshots (λ m. m.id) Code.invalid_argument found.name created ids members
    pure (group_of_snapshots group created snapshots)

-- CreateVolumeGroupSnapshot
unfoldable pub create_group_snapshot : Cluster → GroupSnapshotRequest → M GroupSnapshot
create_group_snapshot k req = do
  env ← from_answer (to_status Code.internal) (build_common_service k req.secrets)
  group_snapshot_created env req.parameters req.source_volume_ids

abbrev pub group_number : Option ℤ → Answer ℤ
group_number none = err (status_error Code.invalid_argument)
group_number (some n) = ok n

-- DeleteVolumeGroupSnapshot
unfoldable pub delete_group_snapshot : Cluster → (secrets : Params) → (id : Str) → M (Unit {0})
delete_group_snapshot k secrets id = do
  env ← from_answer (to_status Code.internal) (build_common_service k secrets)
  group ← from_answer (λ e. e) (group_number (atoi id))
  or_fail (delete_consistency_group env group) (to_status Code.internal)

-- GetVolumeGroupSnapshot
unfoldable pub get_group_snapshot :
    Cluster → (secrets : Params) → (id : Str) → (snapshot_ids : List Str) → M GroupSnapshot
get_group_snapshot k secrets id snapshot_ids = do
  env ← from_answer (to_status Code.internal) (build_common_service k secrets)
  group ← from_answer (λ e. e) (group_number (atoi id))
  group_snapshot_read env group snapshot_ids
