-- ===== src/Examples/Groups.antt =====
-- Replicas and snapshots of volume groups in a small cluster.
use infinibox_csi_driver.Prelude.{if◌then◌else◌, ◌≡◌, ◌↔◌, refl, [], ◌∷◌}
use infinibox_csi_driver.Prelude.Int.{pos}
use infinibox_csi_driver.Strings.{lit, split, str_eq}
use infinibox_csi_driver.Strings.Decimal.{itoa}
use infinibox_csi_driver.Exec.{Code, ok, err, done, fail, status_error}
use infinibox_csi_driver.Params.{Params, protocol_fc}
use infinibox_csi_driver.Ibox.{ConsistencyGroup, Call, Link, Replica, GroupMember, Env}
use infinibox_csi_driver.Ibox.Safety.{Always}
use infinibox_csi_driver.Examples.Quiet.{gone, stocked, data_volume}
use infinibox_csi_driver.Service.Replicas.{verify_group, handle_replica}
use infinibox_csi_driver.Service.Replicas.Waiting.{IsFound, verify_group_iff}
use infinibox_csi_driver.Service.Replicas.Links.{IsLinkChecked, handle_replica-IsLinkChecked}
use infinibox_csi_driver.Service.Groups.{
  GroupSnapshotRequest, member_snapshots, create_group_snapshot,
}
use infinibox_csi_driver.Service.Groups.Names.{IsNameChecked, create_group_snapshot-IsNameChecked}
use infinibox_csi_driver.Service.Groups.Sources.{member_snapshots_wrong_source}
use infinibox_csi_driver.Service.Operations.{build_common_service}
use infinibox_csi_driver.Service.VolumeGroups.{change_members, volumes_of}
use infinibox_csi_driver.Service.VolumeGroups.Unchanged.{change_members_unchanged}
use infinibox_csi_driver.Service.Replication.{turn_around}
use infinibox_csi_driver.Service.Replication.Promotion.{deleted_there, turn_around_loses}
use infinibox_csi_driver.Cluster.{Cluster}
use infinibox_csi_driver.Examples.Clusters.{cluster, credentials, secretive}

abbrev remote_link : Link
remote_link = record {
  id = pos 51;
  name = lit "remote";
  remote_system_name = lit "remote";
  remote_link_id = pos 52;
  link_state = lit "UP";
}

abbrev linked : Env
linked = record stocked {
  get_links = λ _. ok (remote_link ∷ []);
  get_consistency_group_by_name =
      λ _ _. ok (record { id = pos 31; name = lit "group"; members_count = pos 1 });
}

verify_group_iff_example :
    ((verify_group linked (lit "group") []).0 ≡ done tt) ↔ IsFound linked 10 (lit "group") []
verify_group_iff_example = verify_group_iff linked (lit "group") []

abbrev replicated : Params
replicated =
    (lit "replication_type", lit "ASYNC")
    ∷ (lit "link_remote_system_name", lit "remote")
    ∷ (lit "local_ibox_credential_name", lit "ibox")
    ∷ (lit "local_ibox_credential_namespace", lit "infinidat")
    ∷ []

handle_replica-IsLinkChecked_example :
    Always
      (IsLinkChecked secretive linked (lit "data") protocol_fc replicated)
      (handle_replica secretive linked (lit "data") protocol_fc replicated []).1
handle_replica-IsLinkChecked_example =
    handle_replica-IsLinkChecked secretive linked (lit "data") protocol_fc replicated [] tt

abbrev grouped : GroupSnapshotRequest
grouped = record {
  secrets = credentials;
  parameters =
      (lit "infinidat.com/cgname", lit "group")
      ∷ (lit "csi.storage.k8s.io/volumegroupsnapshot/name", lit "snaps")
      ∷ [];
  source_volume_ids = lit "7$$fc" ∷ [];
}

abbrev volume_group : ConsistencyGroup
volume_group = record { id = pos 31; name = lit "group"; members_count = pos 1 }

-- Only the group of the volumes is known, and a snapshot of it can be made.
abbrev snapping : Env
snapping = record stocked {
  get_consistency_group_by_name =
      λ _ name. if str_eq name (lit "group") then ok volume_group else err gone;
  create_snapshot_group = λ _ _. ok volume_group;
  get_members_by_cg_id = λ _ _. ok [];
}

abbrev snapped : Cluster
snapped = record cluster { appliance = λ _. snapping }

create_group_snapshot-IsNameChecked_example :
    Always
      (IsNameChecked (snapped.appliance credentials))
      (create_group_snapshot snapped grouped []).1
create_group_snapshot-IsNameChecked_example =
    create_group_snapshot-IsNameChecked snapped grouped [] tt

abbrev member : GroupMember
member = record { id = pos 40; family_id = pos 7; size = pos 1073741824 }

member_snapshots_wrong_source_example :
    member_snapshots stocked
      (λ m. m.family_id)
      Code.internal
      (lit "snaps")
      (pos 1700000000)
      (lit "7$$fc" ∷ lit "17$$fc" ∷ [])
      (member ∷ [])
      []
    ≡ (
      done (
          record {
            size_bytes = pos 1073741824;
            snapshot_id = lit "7$$fc";
            source_volume_id = lit "17$$fc";
            creation_time = pos 1700000000;
            group_snapshot_id = lit "snaps";
          }
          ∷ []),
      Call.get_volume (pos 40) ∷ [],
    )
unfolding split itoa
member_snapshots_wrong_source_example =
    member_snapshots_wrong_source stocked (λ m. m.family_id) Code.internal (lit "snaps")
      (pos 1700000000) b'1' protocol_fc (lit "17") protocol_fc member data_volume [] refl refl

abbrev replica : Replica
replica = record {
  id = pos 61;
  role = lit "TARGET";
  state = lit "ACTIVE";
  link_id = pos 51;
  local_entity_id = pos 7;
  remote_entity_id = pos 8;
  local_pool_id = pos 3;
  remote_pool_id = pos 4;
  last_synchronized = pos 1700000000;
  sync_duration = pos 5;
}

-- A link whose own name is not the remote system's.
abbrev renamed_link : Link
renamed_link = record remote_link { name = lit "to-remote" }

abbrev mirrored : Env
mirrored = record stocked {
  get_link = λ _ _. ok renamed_link;
  get_replica_for_local_entity_name = λ _ _. ok replica;
  delete_replica = λ _ _. ok tt;
}

abbrev paired : Cluster
paired = record cluster {
  appliance = λ _. mirrored;
  get_secret_contains_name = λ _ _ _. ok credentials;
}

turn_around_loses_example :
    turn_around paired mirrored (renamed_link ∷ []) data_volume replica [] ≡ (
      fail (status_error Code.unknown),
      deleted_there paired renamed_link data_volume replica replica [],
    )
unfolding build_common_service str_eq
turn_around_loses_example =
    turn_around_loses paired mirrored mirrored (renamed_link ∷ []) data_volume replica replica
      renamed_link credentials [] refl refl refl refl refl refl (refl, tt)

abbrev populated : Env
populated = record stocked { get_members_by_cg_id = λ _ _. ok (member ∷ []) }

change_members_unchanged_example :
    change_members populated (lit "31") (pos 31) (lit "40" ∷ []) (member ∷ []) [] ≡ (
      done (record { volume_group_id = lit "31"; volumes = volumes_of (member ∷ []) }),
      Call.get_members_by_cg_id (pos 31) ∷ [],
    )
unfolding itoa str_eq
change_members_unchanged_example =
    change_members_unchanged populated (lit "31") (pos 31) (lit "40" ∷ []) (member ∷ [])
      (member ∷ []) [] (refl, tt) (refl, tt) refl
