-- ===== src/Service/VolumeGroups/Unchanged.antt =====
-- ModifyVolumeGroupMembership when the request names the members that the group has.
use infinibox_csi_driver.Prelude.{◌≡◌, refl, true, List, [], ◌∷◌, any, All}
use infinibox_csi_driver.Strings.{Str, str_eq}
use infinibox_csi_driver.Strings.Decimal.{itoa}
use infinibox_csi_driver.Exec.{ok, done}
use infinibox_csi_driver.Prelude.Int.{ℤ}
use infinibox_csi_driver.Ibox.{Call, GroupMember, Env, History}
use infinibox_csi_driver.Service.VolumeGroups.{
  volumes_to_add, volumes_to_remove, volumes_of, add_numbered, remove_numbered, change_members,
}

-- Whether the text is the number of a member, and whether the member's number is requested.
abbrev pub IsMember : List GroupMember → Str → Type 0
IsMember members id = any (λ (m : GroupMember). str_eq (itoa m.id) id) members ≡ true

abbrev pub IsRequested : List Str → GroupMember → Type 0
IsRequested ids m = any (λ id. str_eq (itoa m.id) id) ids ≡ true

volumes_to_add_none :
    (members : List GroupMember) (ids : List Str)
    → All (IsMember members) ids
    → volumes_to_add members ids ≡ ok []
unfolding volumes_to_add
volumes_to_add_none members [] a = refl
volumes_to_add_none members (id ∷ ids) a = rw a.0 (volumes_to_add_none members ids a.1)

volumes_to_remove_none :
    (ids : List Str) (members : List GroupMember)
    → All (IsRequested ids) members
    → volumes_to_remove ids members ≡ []
unfolding volumes_to_remove
volumes_to_remove_none ids [] a = refl
volumes_to_remove_none ids (m ∷ ms) a = rw a.0 (volumes_to_remove_none ids ms a.1)

-- If every requested text is the number of a member, every member's number is requested, and the
-- members are read again at the end, then ModifyVolumeGroupMembership, once it has read the members,
-- makes no call but that reading, and answers what it read.
pub change_members_unchanged :
    (env : Env) (group_id : Str) (group : ℤ) (ids : List Str) (members at_end : List GroupMember)
    (h : History)
    → All (IsMember members) ids
    → All (IsRequested ids) members
    → env.get_members_by_cg_id h group ≡ ok at_end
    → change_members env group_id group ids members h ≡ (
      done (record { volume_group_id = group_id; volumes = volumes_of at_end }),
      Call.get_members_by_cg_id group ∷ h,
    )
unfolding add_numbered remove_numbered
change_members_unchanged env group_id group ids members at_end h named kept read =
    rw (volumes_to_add_none members ids named)
      (rw (volumes_to_remove_none ids members kept) (rw read refl))
