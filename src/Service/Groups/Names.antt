-- ===== src/Service/Groups/Names.antt =====
-- What CreateVolumeGroupSnapshot checks before it makes a snapshot group.
use infinibox_csi_driver.Prelude.{◌≡◌, refl, arith, Bool, true, false, List, [], ◌∷◌, if◌then◌else◌}
use infinibox_csi_driver.Prelude.Int.{ℤ, pos}
use infinibox_csi_driver.Strings.{Str, lit}
use infinibox_csi_driver.Strings.Decimal.{itoa}
use infinibox_csi_driver.Exec.{
  Answer, ok, err, Err, Code, to_status, pure, throw, from_answer, wrapping, ◌>>=◌,
}
use infinibox_csi_driver.Params.{Params, value}
use infinibox_csi_driver.VolumeId.{split_dollars}
use infinibox_csi_driver.Ibox.{Call, ConsistencyGroup, GroupMember, Env, History}
use infinibox_csi_driver.Ibox.Client.{M}
use infinibox_csi_driver.Ibox.Safety.{Once, now, Always, keeps-bind, keeps-wrapping, keeps-answer}
use infinibox_csi_driver.Cluster.{Cluster}
use infinibox_csi_driver.Service.Operations.{build_common_service}
use infinibox_csi_driver.Service.Groups.{
  GroupSnapshotRequest, group_volume_number, group_volumes, add_members, create_group,
  found_or_created, if_unused, member_snapshots, describe_group, create_snapshots,
  create_group_snapshot, protocol_in, last_with, snapshot_group_request, snapshot_group_made,
}

module _ (env : Env) where
  -- The call looked the name up, and no group was found.
  abbrev pub NotTaken : Str → History → Call → Type 0
  NotTaken name h c =
      (e : Err) × (c ≡ Call.get_consistency_group_by_name name)
      × (env.get_consistency_group_by_name h name ≡ err e)
      × (e.is_not_found ≡ true)

  -- A snapshot group is made only after that.
  abbrev pub IsNameChecked : History → Call → Type 0
  IsNameChecked h (Call.create_snapshot_group r) = Once (NotTaken r.snap_name) h
  IsNameChecked h _ = Unit

  abbrev Kept : History → Type 0
  Kept h = Always IsNameChecked h

  answered-Kept :
      {A : Type 0} (wrap : Err → Err) (r : Answer A) (h : History)
      → Kept h
      → Kept (from_answer wrap r h).1
  answered-Kept wrap (ok a) h q = q
  answered-Kept wrap (err e) h q = q

  volumes-Kept :
      (ids : List Str) (pool : ℤ) (h : History) → Kept h → Kept (group_volumes env ids pool h).1
  unfolding group_volumes
  volumes-Kept [] pool h q = q
  volumes-Kept (id ∷ ids) pool h q =
      keeps-answer IsNameChecked (λ e. e) (group_volume_number (split_dollars id)) _ h q
        (λ n p.
          keeps-answer IsNameChecked (to_status Code.internal) (env.get_volume h n) _
            (Call.get_volume n ∷ h) (tt, q)
            (λ v p'.
              keeps-bind IsNameChecked (group_volumes env ids v.pool_id) _ (Call.get_volume n ∷ h)
                (volumes-Kept ids v.pool_id (Call.get_volume n ∷ h) (tt, q)) (λ r g k. k)))

  members-Kept :
      (group : ℤ) (volumes : List ℤ) (h : History)
      → Kept h
      → Kept (add_members env group volumes h).1
  unfolding add_members
  members-Kept group [] h q = q
  members-Kept group (v ∷ vs) h q =
      keeps-answer IsNameChecked (to_status Code.internal)
        (env.add_member_to_snapshot_group h v group) _
        (Call.add_member_to_snapshot_group v group ∷ h) (tt, q)
        (λ u p. members-Kept group vs (Call.add_member_to_snapshot_group v group ∷ h) (tt, q))

  group-Kept :
      (name : Str) (ids : List Str) (h : History) → Kept h → Kept (create_group env name ids h).1
  unfolding create_group
  group-Kept name ids h q =
      keeps-bind IsNameChecked (group_volumes env ids (pos 0)) _ h (volumes-Kept ids (pos 0) h q)
        (λ r g k.
          keeps-answer IsNameChecked (to_status Code.internal)
            (env.create_consistency_group g (record { pool_id = r.0; name = name })) _
            (Call.create_consistency_group (record { pool_id = r.0; name = name }) ∷ g) (tt, k)
            (λ group p.
              keeps-bind IsNameChecked (add_members env group.id r.1) _
                (Call.create_consistency_group (record { pool_id = r.0; name = name }) ∷ g)
                (members-Kept group.id r.1 _ (tt, k)) (λ u g' k'. k')))

  found-Kept :
      (name : Str) (ids : List Str) (r : Answer ConsistencyGroup) (h : History)
      → Kept h
      → Kept (found_or_created env name ids r h).1
  found-Kept name ids (ok group) h q = q
  found-Kept name ids (err e) h q = by_error e.is_not_found
    where
      by_error :
          (missing : Bool)
          → Kept
              ((if missing
                  then wrapping (create_group env name ids) (to_status Code.internal)
                  else throw (to_status Code.internal e))
                h).1
      by_error true =
          keeps-wrapping IsNameChecked (create_group env name ids) (to_status Code.internal) h
            (group-Kept name ids h q)
      by_error false = q

  module _ (key : GroupMember → ℤ) (code : Code) (name : Str) (created : ℤ) (ids : List Str) where
    snapshots-Kept :
        (members : List GroupMember) (h : History)
        → Kept h
        → Kept (member_snapshots env key code name created ids members h).1
    unfolding member_snapshots
    snapshots-Kept [] h q = q
    snapshots-Kept (m ∷ ms) h q =
        keeps-answer IsNameChecked (to_status code) (env.get_volume h m.id) _
          (Call.get_volume m.id ∷ h) (tt, q)
          (λ v p.
            keeps-answer IsNameChecked (λ e. e)
              (protocol_in code (split_dollars (last_with (itoa (key m)) [] ids))) _
              (Call.get_volume m.id ∷ h) (tt, q)
              (λ protocol p'.
                keeps-bind IsNameChecked (member_snapshots env key code name created ids ms) _
                  (Call.get_volume m.id ∷ h) (snapshots-Kept ms (Call.get_volume m.id ∷ h) (tt, q))
                  (λ r g k. k)))

  described-Kept :
      (ids : List Str) (group : ConsistencyGroup) (h : History)
      → Kept h
      → Kept (describe_group env ids group h).1
  described-Kept ids group h q =
      keeps-answer IsNameChecked (to_status Code.internal) (env.get_members_by_cg_id h group.id) _
        (Call.get_members_by_cg_id group.id ∷ h) (tt, q)
        (λ members p.
          keeps-bind IsNameChecked
            (member_snapshots env (λ m. m.family_id) Code.internal group.name (env.clock h) ids
              members)
            _ (Call.get_members_by_cg_id group.id ∷ h)
            (snapshots-Kept (λ m. m.family_id) Code.internal group.name (env.clock h) ids members _
              (tt, q))
            (λ r g k. k))

  abbrev pass : Err → Bool → M (Unit {0})
  pass e missing = if missing then pure tt else throw (to_status Code.internal e)

  created-Kept :
      (name : Str) (ids : List Str) (group : ConsistencyGroup) (h : History)
      → Kept h
      → Kept (create_snapshots env name ids group h).1
  created-Kept name ids group h q = looked_up (env.get_consistency_group_by_name h name) refl
    where
      looked : History
      looked = Call.get_consistency_group_by_name name ∷ h

      unused :
          (e : Err) (missing : Bool)
          → env.get_consistency_group_by_name h name ≡ err e
          → e.is_not_found ≡ missing
          → Kept ((pass e missing >>= λ u. snapshot_group_made env name ids group) looked).1
      unused e false p m = (tt, q)
      unused e true p m =
          keeps-answer IsNameChecked (to_status Code.internal)
            (env.create_snapshot_group looked (snapshot_group_request env group name)) _
            (Call.create_snapshot_group (snapshot_group_request env group name) ∷ looked)
            (now (e, refl, p, m), (tt, q))
            (λ made p'. described-Kept ids made _ (now (e, refl, p, m), (tt, q)))

      looked_up :
          (r : Answer ConsistencyGroup)
          → env.get_consistency_group_by_name h name ≡ r
          → Kept ((if_unused env r >>= λ u. snapshot_group_made env name ids group) looked).1
      looked_up (ok g) p = (tt, q)
      looked_up (err e) p = unused e e.is_not_found p refl

appliance_found :
    (k : Cluster) (secrets : Params) (found : Env)
    → build_common_service k secrets ≡ ok found
    → found ≡ k.appliance secrets
unfolding build_common_service
appliance_found k secrets found p = ground (arith, p)

-- For any cluster and any earlier calls that made none unchecked: however CreateVolumeGroupSnapshot
-- ends, a snapshot group is made only after its name was looked up on the same appliance, and no
-- consistency group of that name was found.
pub create_group_snapshot-IsNameChecked :
    (k : Cluster) (req : GroupSnapshotRequest) (h : History)
    → Always (IsNameChecked (k.appliance req.secrets)) h
    → Always (IsNameChecked (k.appliance req.secrets)) (create_group_snapshot k req h).1
unfolding create_group_snapshot build_common_service
create_group_snapshot-IsNameChecked k req h q =
    let env : Env = k.appliance req.secrets in
    let P : History → Call → Type 0 = IsNameChecked env in
    let cg : Str = value req.parameters (lit "infinidat.com/cgname") in
    keeps-answer P (to_status Code.internal) (build_common_service k req.secrets) _ h q (λ found p.
      rw (appliance_found k req.secrets found p) (
        keeps-bind P
          (found_or_created env cg req.source_volume_ids (env.get_consistency_group_by_name h cg)) _
          (Call.get_consistency_group_by_name cg ∷ h)
          (found-Kept env cg req.source_volume_ids (env.get_consistency_group_by_name h cg)
            (Call.get_consistency_group_by_name cg ∷ h) (tt, q))
          (λ group g k'.
            created-Kept env
              (value req.parameters (lit "csi.storage.k8s.io/volumegroupsnapshot/name"))
              req.source_volume_ids group g k')))
