-- ===== src/Service/VolumeGroups.antt =====
-- The volume-group server of the CSI add-ons: service/csiaddons/volumegroup.go.
pub mod Unchanged
use infinibox_csi_driver.Prelude.{not, ◌&&◌, Option, none, some, List, [], ◌∷◌, any, if◌then◌else◌}
use infinibox_csi_driver.Prelude.Int.{ℤ, pos, ltb_ℤ}
use infinibox_csi_driver.Strings.{Str, lit, str_eq}
use infinibox_csi_driver.Strings.Decimal.{itoa, atoi}
use infinibox_csi_driver.Exec.{
  Answer, ok, err, Code, status_error, to_status, pure, throw, from_answer, or_fail, ◌>>=◌, ◌>>◌,
}
use infinibox_csi_driver.Params.{Params, value}
use infinibox_csi_driver.Prelude.{is_empty}
use infinibox_csi_driver.Ibox.{ConsistencyGroup, GroupMember, Volume, Env}
use infinibox_csi_driver.Ibox.Client.{
  M, get_volume, get_pool_by_name, get_consistency_group, get_members_by_cg_id,
  delete_consistency_group, create_consistency_group, add_member_to_cg, remove_member_from_cg,
}
use infinibox_csi_driver.Cluster.{Cluster}
use infinibox_csi_driver.Service.Operations.{build_common_service}

-- A csi.Volume of a group, and a volumegroup.VolumeGroup.
pub record GroupVolume : Type 0 where
  pub volume_id : Str
  pub capacity_bytes : ℤ

pub record VolumeGroup : Type 0 where
  pub volume_group_id : Str
  pub volumes : List GroupVolume

abbrev pub parsed_or : Code → Option ℤ → Answer ℤ
parsed_or code none = err (status_error code)
parsed_or code (some n) = ok n

abbrev pub number_or : Code → Str → Answer ℤ
number_or code text = parsed_or code (atoi text)

module _ (env : Env) where
  abbrev pub add_ungrouped : ConsistencyGroup → Volume → M (Unit {0})
  add_ungrouped group volume =
      if ltb_ℤ (pos 0) volume.cg_id
      then throw (status_error Code.invalid_argument)
      else or_fail (add_member_to_cg env volume.id group.id volume.name) (to_status Code.unknown)

  unfoldable pub add_requested : ConsistencyGroup → List Str → M (List GroupVolume)
  add_requested group [] = pure []
  add_requested group (id ∷ ids) = do
    number ← from_answer (λ e. e) (number_or Code.unknown id)
    volume ← or_fail (get_volume env number) (to_status Code.unknown)
    add_ungrouped group volume
    rest ← add_requested group ids
    pure (record { volume_id = id; capacity_bytes = volume.size } ∷ rest)

  abbrev pub create_in_named_pool : (name pool_name : Str) → List Str → M VolumeGroup
  create_in_named_pool name pool_name ids = do
    pool ← or_fail (get_pool_by_name env pool_name) (to_status Code.unknown)
    group ←
        or_fail (create_consistency_group env (record { pool_id = pool.id; name = name }))
          (to_status Code.unknown)
    volumes ← add_requested group ids
    pure (record { volume_group_id = itoa group.id; volumes = volumes })

  -- Every error of the read counts as a group that is gone.
  abbrev pub delete_if_found : Answer ConsistencyGroup → M (Unit {0})
  delete_if_found (err e) = pure tt
  delete_if_found (ok group) =
      or_fail (delete_consistency_group env group.id) (to_status Code.invalid_argument)

  unfoldable pub remove_all : (group : ℤ) → List GroupMember → M (Unit {0})
  remove_all group [] = pure tt
  remove_all group (member ∷ members) = do
    or_fail (remove_member_from_cg env group member.id) (to_status Code.unknown)
    remove_all group members

  unfoldable pub add_numbered : (group : ℤ) → List ℤ → M (Unit {0})
  add_numbered group [] = pure tt
  add_numbered group (n ∷ ns) = do
    volume ← or_fail (get_volume env n) (to_status Code.unknown)
    or_fail (add_member_to_cg env volume.id group volume.name) (to_status Code.unknown)
    add_numbered group ns

  unfoldable pub remove_numbered : (group : ℤ) → List ℤ → M (Unit {0})
  remove_numbered group [] = pure tt
  remove_numbered group (n ∷ ns) = do
    volume ← or_fail (get_volume env n) (to_status Code.unknown)
    or_fail (remove_member_from_cg env group volume.id) (to_status Code.unknown)
    remove_numbered group ns

abbrev pub put_first : Answer ℤ → Answer (List ℤ) → Answer (List ℤ)
put_first (err e) rest = err e
put_first (ok n) (err e) = err e
put_first (ok n) (ok ns) = ok (n ∷ ns)

-- The requested volumes that are no members yet.
unfoldable pub volumes_to_add : List GroupMember → List Str → Answer (List ℤ)
volumes_to_add members [] = ok []
volumes_to_add members (id ∷ ids) =
    let rest = volumes_to_add members ids in
    if any (λ (m : GroupMember). str_eq (itoa m.id) id) members
    then rest
    else put_first (number_or Code.unknown id) rest

-- The members that are not requested.
unfoldable pub volumes_to_remove : List Str → List GroupMember → List ℤ
volumes_to_remove ids [] = []
volumes_to_remove ids (m ∷ ms) =
    let rest = volumes_to_remove ids ms in
    if any (λ id. str_eq (itoa m.id) id) ids then rest else m.id ∷ rest

unfoldable pub volumes_of : List GroupMember → List GroupVolume
volumes_of [] = []
volumes_of (m ∷ ms) = record { volume_id = itoa m.id; capacity_bytes = m.size } ∷ volumes_of ms

-- getCGMembers, which gives no sizes.
unfoldable pub unsized : List GroupMember → List GroupVolume
unsized [] = []
unsized (m ∷ ms) = record { volume_id = itoa m.id; capacity_bytes = pos 0 } ∷ unsized ms

module _ (env : Env) (group_id : Str) where
  abbrev pub change_members : (group : ℤ) → List Str → List GroupMember → M VolumeGroup
  change_members group ids members = do
    added ← from_answer (λ e. e) (volumes_to_add members ids)
    add_numbered env group added
    remove_numbered env group (volumes_to_remove ids members)
    at_end ← or_fail (get_members_by_cg_id env group) (to_status Code.unknown)
    pure (record { volume_group_id = group_id; volumes = volumes_of at_end })

  abbrev pub empty_group : (group : ℤ) → List GroupMember → M VolumeGroup
  empty_group group members = do
    remove_all env group members
    pure (record { volume_group_id = group_id; volumes = [] })

  abbrev pub modify_group : List Str → ConsistencyGroup → M VolumeGroup
  modify_group ids group = do
    members ← or_fail (get_members_by_cg_id env group.id) (to_status Code.unknown)
    if is_empty ids && not (is_empty members)
        then empty_group group.id members
        else change_members group.id ids members

-- CreateVolumeGroup
unfoldable pub create_volume_group :
    Cluster → (secrets parameters : Params) → (name : Str) → List Str → M VolumeGroup
create_volume_group k secrets parameters name ids = do
  env ← from_answer (to_status Code.unauthenticated) (build_common_service k secrets)
  if is_empty (value parameters (lit "pool_name"))
      then throw (status_error Code.invalid_argument)
      else create_in_named_pool env name (value parameters (lit "pool_name")) ids

-- DeleteVolumeGroup
unfoldable pub delete_volume_group : Cluster → (secrets : Params) → (group_id : Str) → M (Unit {0})
delete_volume_group k secrets group_id = do
  env ← from_answer (to_status Code.unauthenticated) (build_common_service k secrets)
  group ← from_answer (λ e. e) (number_or Code.invalid_argument group_id)
  get_consistency_group env group >>= delete_if_found env

-- ModifyVolumeGroupMembership
unfoldable pub modify_membership :
    Cluster → (secrets : Params) → (group_id : Str) → List Str → M VolumeGroup
modify_membership k secrets group_id ids = do
  env ← from_answer (to_status Code.unauthenticated) (build_common_service k secrets)
  number ← from_answer (λ e. e) (number_or Code.invalid_argument group_id)
  group ← or_fail (get_consistency_group env number) (to_status Code.invalid_argument)
  modify_group env group_id ids group

-- The members are read only if the group has a count of them.
abbrev pub get_volumes : Env → (group : ℤ) → ConsistencyGroup → M VolumeGroup
get_volumes env group found =
    if ltb_ℤ (pos 0) found.members_count
    then (do
      members ← or_fail (get_members_by_cg_id env group) (to_status Code.unknown)
      pure (record { volume_group_id = itoa found.id; volumes = unsized members }))
    else pure (record { volume_group_id = itoa found.id; volumes = [] })

-- ControllerGetVolumeGroup
unfoldable pub get_volume_group : Cluster → (secrets : Params) → (group_id : Str) → M VolumeGroup
get_volume_group k secrets group_id = do
  env ← from_answer (to_status Code.unauthenticated) (build_common_service k secrets)
  number ← from_answer (λ e. e) (number_or Code.invalid_argument group_id)
  group ← or_fail (get_consistency_group env number) (to_status Code.unknown)
  get_volumes env number group
