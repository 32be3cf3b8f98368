-- ===== src/Examples/Handlers.antt =====
-- The handlers against small appliances.
use infinibox_csi_driver.Prelude.{◌≡◌, ◌≢◌, refl, arith, none, some, [], ◌∷◌}
use infinibox_csi_driver.Prelude.Int.{pos, ◌+ℤ◌}
use infinibox_csi_driver.Strings.{Str, lit, str_eq, split}
use infinibox_csi_driver.Strings.Decimal.{atoi, itoa}
use infinibox_csi_driver.SnapshotLock.{millis_per, validate_snapshot_lock}
use infinibox_csi_driver.Exec.{Outcome, ok, err, done, unfinished}
use infinibox_csi_driver.VolumeId.{VolumeConfig, with_protocol}
use infinibox_csi_driver.Capability.{Mode}
use infinibox_csi_driver.Ibox.{Call, Snapshot, Env}
use infinibox_csi_driver.Ibox.Safety.{Always}
use infinibox_csi_driver.Examples.Quiet.{gone, stocked, data_volume, worker, data_lun}
use infinibox_csi_driver.Volumes.Delete.{delete_chain}
use infinibox_csi_driver.Volumes.Delete.Safety.{IsChecked, delete_chain-IsChecked}
use infinibox_csi_driver.Volumes.Delete.Termination.{
  delete_chain_ends, delete_chain_children_unknown,
}
use infinibox_csi_driver.Volumes.Hosts.{host_cleanup, unpublish_volume}
use infinibox_csi_driver.Volumes.Hosts.Cleanup.{IsHostChecked, unpublish_volume-IsHostChecked}
use infinibox_csi_driver.Volumes.Response.{CreateRequest, from_snapshot}
use infinibox_csi_driver.Volumes.Clone.{clone}
use infinibox_csi_driver.Volumes.Clone.Safety.{IsCloneChecked, clone-IsCloneChecked}
use infinibox_csi_driver.Volumes.Snapshots.{CreateSnapshotRequest, CsiSnapshot, create_snapshot}
use infinibox_csi_driver.Ibox.Returned.{Returned}
use infinibox_csi_driver.Volumes.Snapshots.Handle.{IsReadable, create_snapshot_handle}
use infinibox_csi_driver.Params.{value, csi_created_host}
use infinibox_csi_driver.Volumes.Snapshots.Safety.{
  IsSnapshotChecked, create_snapshot-IsSnapshotChecked,
}
use infinibox_csi_driver.Fc.Publish.{PublishRequest, publish}
use infinibox_csi_driver.Fc.Publish.Safety.{IsRoomChecked, publish-IsRoomChecked}
use infinibox_csi_driver.Fc.Publish.Mapped.{IsFcContext, publish-IsPublished}
use infinibox_csi_driver.Iscsi.{iscsi_publish}
use infinibox_csi_driver.Iscsi.Safety.{iscsi_publish-IsRoomChecked}
use infinibox_csi_driver.Iscsi.Publish.{
  IsWithoutSecurity, IsWithSecurity, iscsi_publish-IsPublished,
}
use infinibox_csi_driver.Fc.Publish.Luns.{IsPublished}
use infinibox_csi_driver.Fc.Create.{fc_create_volume}
use infinibox_csi_driver.Fc.Create.Safety.{IsCreateChecked, fc_create_volume-IsCreateChecked}

-- Volumes can be deleted.
abbrev deletable : Env
deletable = record stocked { delete_metadata = λ _ _. ok tt; delete_volume = λ _ _. ok tt }

deletable_deletes :
    (delete_chain deletable 2 (pos 7) []).1
    ≡ Call.delete_volume (pos 7)
      ∷ Call.delete_metadata (pos 7)
      ∷ Call.get_volumes_by_parent_id (pos 7)
      ∷ Call.get_volume (pos 7)
      ∷ []
unfolding delete_chain str_eq
deletable_deletes = refl

delete_chain-IsChecked_example :
    Always (IsChecked deletable) (delete_chain deletable 2 (pos 7) []).1
delete_chain-IsChecked_example = delete_chain-IsChecked deletable 2 (pos 7) [] tt

-- Every volume of the appliance has no parent.
delete_chain_ends_example : (delete_chain stocked 1 (pos 7) []).0 ≢ unfinished
delete_chain_ends_example =
    delete_chain_ends stocked (λ i. 0) (λ h i v q n. absurd (n (cc))) 1 (pos 7) [] (omega arith)

abbrev forgetful : Env
forgetful = record stocked {
  get_volumes_by_parent_id = λ _ _. record { items = []; error = some gone };
  delete_metadata = λ _ _. ok tt;
  delete_volume = λ _ _. ok tt;
}

delete_chain_children_unknown_example : delete_chain forgetful 1 (pos 7) [] ≡ (
  done tt,
  Call.delete_volume (pos 7)
      ∷ Call.delete_metadata (pos 7)
      ∷ Call.get_volumes_by_parent_id (pos 7)
      ∷ Call.get_volume (pos 7)
      ∷ [],
)
delete_chain_children_unknown_example =
    delete_chain_children_unknown forgetful 0 (pos 7) data_volume gone [] refl (cc) refl refl refl
      refl

-- A host that the driver made and that has no LUNs left.
abbrev emptied : Env
emptied = record stocked {
  get_all_lun_by_host = λ _ _. record { items = []; error = none };
  get_metadata = λ _ _. ok (csi_created_host ∷ []);
  delete_host = λ _ _. ok tt;
}

emptied_deletes :
    (unpublish_volume emptied (some worker) (pos 7) []).1
    ≡ Call.delete_host (pos 11)
      ∷ Call.get_metadata (pos 11)
      ∷ Call.get_all_lun_by_host (pos 11)
      ∷ []
unfolding unpublish_volume host_cleanup str_eq
emptied_deletes = refl

unpublish_volume-IsHostChecked_example :
    Always (IsHostChecked emptied) (unpublish_volume emptied (some worker) (pos 7) []).1
unpublish_volume-IsHostChecked_example =
    unpublish_volume-IsHostChecked emptied (some worker) (pos 7) [] tt

abbrev request : CreateRequest
request = record {
  name = lit "data";
  parameters = (lit "pool_name", lit "fast") ∷ [];
  source = none;
}

clone-IsCloneChecked_example :
    Always
      (IsCloneChecked stocked request (pos 1073741824) (lit "fast"))
      (clone stocked request (from_snapshot (lit "7$$fc")) (pos 1073741824) (lit "fast") []).1
clone-IsCloneChecked_example =
    clone-IsCloneChecked stocked request (pos 1073741824) (lit "fast") (from_snapshot (lit "7$$fc"))
      [] tt

abbrev config : VolumeConfig
config = record { volume_id = pos 7; storage_type = lit "fc"; treeq_id = pos 0 }

abbrev backup_request : CreateSnapshotRequest
backup_request = record {
  name = lit "backup";
  source_volume_id = lit "7$$fc";
  parameters = (lit "lock_expires_at", lit "2 Hours") ∷ [];
}

abbrev unnamed : Env
unnamed = record stocked {
  get_volume_by_name = λ _ _. err gone;
  get_ntp_status = λ _. ok (pos 1700000000000 ∷ []);
}

create_snapshot-IsSnapshotChecked_example :
    Always
      (IsSnapshotChecked unnamed config backup_request)
      (create_snapshot unnamed config backup_request []).1
create_snapshot-IsSnapshotChecked_example =
    create_snapshot-IsSnapshotChecked unnamed config backup_request [] tt

abbrev publish_request : PublishRequest
publish_request = record {
  volume_id = lit "7$$fc";
  node_id = lit "worker$$1";
  volume_context = (lit "max_vols_per_host", lit "1") ∷ [];
  mode = some Mode.single_node_writer;
}

abbrev unmapped : Env
unmapped = record stocked { get_all_lun_by_host = λ _ _. record { items = []; error = none } }

publish-IsRoomChecked_example :
    Always (IsRoomChecked unmapped publish_request) (publish unmapped [] publish_request []).1
publish-IsRoomChecked_example = publish-IsRoomChecked unmapped publish_request [] [] tt

fc_create_volume-IsCreateChecked_example :
    Always
      (IsCreateChecked unnamed request (pos 1073741824))
      (fc_create_volume unnamed request (pos 1073741824) []).1
fc_create_volume-IsCreateChecked_example =
    fc_create_volume-IsCreateChecked unnamed request (pos 1073741824) [] tt

-- A snapshot can be made.
abbrev backup : Snapshot
backup = record { snapshot_id = pos 9; size = pos 1073741824 }

abbrev snapping : Env
snapping = record unnamed { create_snapshot_volume = λ _ _. ok backup }

-- It is returned as `9$$fc`.
abbrev made_handle : Outcome CsiSnapshot → Str
made_handle (done s) = s.snapshot_id
made_handle o = []

snapping_makes : made_handle (create_snapshot snapping config backup_request []).0 ≡ lit "9$$fc"
unfolding create_snapshot validate_snapshot_lock millis_per atoi itoa split str_eq ◌+ℤ◌ value
    with_protocol
snapping_makes = refl

create_snapshot_handle_example :
    Returned (IsReadable config) (create_snapshot snapping config backup_request []).0
create_snapshot_handle_example =
    create_snapshot_handle snapping config backup_request
      (
        (λ h name v q. absurd (cc (q))),
        λ h r s q. let e : s ≡ backup = cc (q) in rw e (omega arith),
      )
      (cc) (cc) (omega arith) []

publish-IsPublished_example :
    Returned
      (IsPublished stocked [] publish_request IsFcContext IsFcContext)
      (publish stocked [] publish_request []).0
publish-IsPublished_example = publish-IsPublished stocked [] publish_request []

iscsi_publish-IsPublished_example :
    Returned
      (IsPublished stocked [] publish_request IsWithoutSecurity IsWithSecurity)
      (iscsi_publish stocked [] publish_request []).0
iscsi_publish-IsPublished_example = iscsi_publish-IsPublished stocked [] publish_request []

-- The volume can be mapped.
abbrev mappable : Env
mappable = record unmapped { map_volume_to_host = λ _ _ _. ok data_lun }

iscsi_publish-IsRoomChecked_example :
    Always (IsRoomChecked mappable publish_request) (iscsi_publish mappable [] publish_request []).1
iscsi_publish-IsRoomChecked_example = iscsi_publish-IsRoomChecked mappable publish_request [] [] tt
