-- ===== src/Service/Groups/Sources.antt =====
-- Which source a snapshot of a group is reported with.
use infinibox_csi_driver.Prelude.{
  ℕ, ◌≡◌, refl, arith, Bool, true, false, List, [], ◌∷◌, ◌++◌, All, Bool-cases, inl, inr,
  if◌then◌else◌,
}
use infinibox_csi_driver.Strings.{Str, contains, is_prefix}
use infinibox_csi_driver.VolumeId.{with_protocol}
use infinibox_csi_driver.Prelude.Int.{ℤ}
use infinibox_csi_driver.Strings.Decimal.{itoa}
use infinibox_csi_driver.Exec.{Code, ok, done}
use infinibox_csi_driver.VolumeId.{split_dollars}
use infinibox_csi_driver.Ibox.{Call, Volume, GroupMember, Env, History}
use infinibox_csi_driver.Service.Groups.{last_with, member_snapshots}

-- Identifiers without the digits change nothing.
last_with_none :
    (digits found : Str) (ids : List Str)
    → All (λ i. contains i digits ≡ false) ids
    → last_with digits found ids ≡ found
unfolding last_with
last_with_none digits found [] a = refl
last_with_none digits found (i ∷ ids) a = rw a.0 (last_with_none digits found ids a.1)

-- The source is the last identifier in which the digits occur.
last_with_last :
    (digits found id : Str) (before after : List Str)
    → contains id digits ≡ true
    → All (λ i. contains i digits ≡ false) after
    → last_with digits found (before ++ id ∷ after) ≡ id
unfolding last_with
last_with_last digits found id [] after c a = chosen (contains id digits) c
  where
    chosen : (b : Bool) → b ≡ true → last_with digits (if b then id else found) after ≡ id
    chosen true q = last_with_none digits id after a
    chosen false q = absurd (cc q)
last_with_last digits found id (b ∷ before) after c a =
    last_with_last digits (if contains b digits then b else found) id before after c a

is_prefix-append : (s t : Str) → is_prefix s (s ++ t) ≡ true
unfolding is_prefix
is_prefix-append [] t = refl
is_prefix-append (c ∷ s) t = ground (arith, is_prefix-append s t)

contains-append : (s t : Str) → contains (s ++ t) s ≡ true
unfolding contains is_prefix
contains-append [] [] = refl
contains-append [] (c ∷ t) = refl
contains-append (c ∷ s) t = ground (arith, is_prefix-append s t)

contains-cons : (c : ℕ) (s digits : Str) → contains s digits ≡ true → contains (c ∷ s) digits ≡ true
unfolding contains
contains-cons c s digits q = elim (Bool-cases (is_prefix digits (c ∷ s))) [
  | inl on ↦ rw on refl
  | inr off ↦ rw off q
]

-- Whatever the volume and its number: if the identifiers of the request are that of the volume, and
-- behind it that of a volume whose number has one more digit in front, then the snapshot of the first
-- volume is reported as one of the other volume.
pub member_snapshots_wrong_source :
    (env : Env) (key : GroupMember → ℤ) (code : Code) (name : Str) (created : ℤ) (c : ℕ)
    (kind number protocol : Str) (member : GroupMember) (volume : Volume) (h : History)
    → env.get_volume h member.id ≡ ok volume
    → split_dollars (with_protocol (c ∷ itoa (key member)) kind) ≡ number ∷ protocol ∷ []
    → member_snapshots env key code name created
        (with_protocol (itoa (key member)) kind ∷ with_protocol (c ∷ itoa (key member)) kind ∷ [])
        (member ∷ [])
        h
      ≡ (
        done (
            record {
              size_bytes = member.size;
              snapshot_id = with_protocol (itoa volume.id) protocol;
              source_volume_id = with_protocol (c ∷ itoa (key member)) kind;
              creation_time = created;
              group_snapshot_id = name;
            }
            ∷ []),
        Call.get_volume member.id ∷ h,
      )
unfolding member_snapshots
member_snapshots_wrong_source env key code name created c kind number protocol member volume h found
      parts =
    let digits : Str = itoa (key member) in
    let wrong : last_with digits []
          (with_protocol digits kind ∷ with_protocol (c ∷ digits) kind ∷ [])
        ≡ with_protocol (c ∷ digits) kind =
      last_with_last digits [] (with_protocol (c ∷ digits) kind) (with_protocol digits kind ∷ []) []
        (contains-cons c (with_protocol digits kind) digits (contains-append digits _)) tt in
    rw found (rw wrong (rw parts refl))
