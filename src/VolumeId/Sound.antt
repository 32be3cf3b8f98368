-- ===== src/VolumeId/Sound.antt =====
-- What an accepted identifier looks like.
use infinibox_csi_driver.Prelude.{
  ◌≡◌, ◌≢◌, [], ◌∷◌, ◌++◌, arith, ◌⊎◌, inl, inr, List, Option, none, some, Bool-cases, sym,
}
use infinibox_csi_driver.Prelude.Int.{ℤ}
use infinibox_csi_driver.Strings.{Str, lit, str_eq, str_eq_iff}
use infinibox_csi_driver.Strings.Decimal.{atoi}
use infinibox_csi_driver.Strings.Join.{join, join-split}
use infinibox_csi_driver.Exec.{ok}
use infinibox_csi_driver.Params.{protocol_treeq}
use infinibox_csi_driver.VolumeId.{
  VolumeConfig, split_dollars, split_hash, with_protocol, treeq_config, volume_config,
  validate_volume_id, treeq_ids, plain_config,
}

-- The identifier spells the fields of the configuration, in one of the driver's two formats.
abbrev pub Spells : Str → VolumeConfig → Type 0
Spells id c =
    ((c.storage_type ≢ protocol_treeq) × (atoi id ≡ some c.volume_id))
    ⊎ ((fs : Str) × (tq : Str) × (c.storage_type ≡ protocol_treeq)
        × (id ≡ fs ++ (lit "#" ++ tq))
        × (atoi fs ≡ some c.volume_id)
        × (atoi tq ≡ some c.treeq_id))

abbrev pub Accepted : Str → VolumeConfig → Type 0
Accepted s c = (id : Str) × (s ≡ with_protocol id c.storage_type) × Spells id c

treeq_ids_sound :
    (v t : Option ℤ) (c : VolumeConfig)
    → treeq_ids v t ≡ ok c
    → (c.storage_type ≡ protocol_treeq) × (v ≡ some c.volume_id) × (t ≡ some c.treeq_id)
treeq_ids_sound (some v) (some t) c h = ground arith
treeq_ids_sound (some v) none c h = absurd (cc)
treeq_ids_sound none t c h = absurd (cc)

treeq_config_sound :
    (id : Str) (parts : List Str) (c : VolumeConfig)
    → join b'#' [] parts ≡ id
    → treeq_config parts ≡ ok c
    → (c.storage_type ≡ protocol_treeq) × Spells id c
treeq_config_sound id (v ∷ t ∷ []) c j h =
    let (k, a, b) = treeq_ids_sound (atoi v) (atoi t) c h in (k, inr (v, t, k, sym j, a, b))
treeq_config_sound id [] c j h = absurd (cc)
treeq_config_sound id (v ∷ []) c j h = absurd (cc)
treeq_config_sound id (v ∷ t ∷ u ∷ r) c j h = absurd (cc)

plain_config_sound :
    (kind : Str) (v : Option ℤ) (c : VolumeConfig)
    → plain_config kind v ≡ ok c
    → (c.storage_type ≡ kind) × (v ≡ some c.volume_id)
plain_config_sound kind (some v) c h = ground arith
plain_config_sound kind none c h = absurd (cc)

treeq_part_sound :
    (s id kind : Str) (c : VolumeConfig)
    → id ++ (lit "$$" ++ kind) ≡ s
    → kind ≡ protocol_treeq
    → treeq_config (split_hash id) ≡ ok c
    → Accepted s c
treeq_part_sound s id kind c j k h =
    let (e, sp) = treeq_config_sound id (split_hash id) c (join-split b'#' [] id) h in
    (id, rw e (rw (← k) (sym j)), sp)

plain_part_sound :
    (s id kind : Str) (c : VolumeConfig)
    → id ++ (lit "$$" ++ kind) ≡ s
    → kind ≢ protocol_treeq
    → plain_config kind (atoi id) ≡ ok c
    → Accepted s c
plain_part_sound s id kind c j k h =
    let (e, v) = plain_config_sound kind (atoi id) c h in (id, rw e (sym j), inl (rw e k, v))

two_parts_sound :
    (s id kind : Str) (c : VolumeConfig)
    → id ++ (lit "$$" ++ kind) ≡ s
    → volume_config (id ∷ kind ∷ []) ≡ ok c
    → Accepted s c
two_parts_sound s [] kind c j h = absurd (cc)
two_parts_sound s (a ∷ id) [] c j h = absurd (cc)
two_parts_sound s (a ∷ id) (b ∷ kind) c j h = elim (Bool-cases (str_eq (b ∷ kind) protocol_treeq)) [
  | inl t ↦
      treeq_part_sound s (a ∷ id) (b ∷ kind) c j ((str_eq_iff (b ∷ kind) protocol_treeq).0 t)
        (rw t at h)
  | inr f ↦
      plain_part_sound s (a ∷ id) (b ∷ kind) c j
        (λ e. absurd (ground (arith, str_eq_iff (b ∷ kind) protocol_treeq))) (rw f at h)
]

volume_config_sound :
    (s : Str) (parts : List Str) (c : VolumeConfig)
    → join b'$' (lit "$") parts ≡ s
    → volume_config parts ≡ ok c
    → Accepted s c
volume_config_sound s (id ∷ kind ∷ []) c j h = two_parts_sound s id kind c j h
volume_config_sound s [] c j h = absurd (cc)
volume_config_sound s (id ∷ []) c j h = absurd (cc)
volume_config_sound s (id ∷ kind ∷ t ∷ r) c j h = absurd (cc)

-- An identifier that ValidateVolumeID accepts is `<id>$$<protocol>` for the protocol returned, and
-- its id is the decimal volume id, or `<fs>#<treeq>` in decimals if the protocol is nfs_treeq.
pub validate_volume_id_sound :
    (s : Str) (c : VolumeConfig) → validate_volume_id s ≡ ok c → Accepted s c
unfolding validate_volume_id
validate_volume_id_sound [] c h = absurd (cc)
validate_volume_id_sound (a ∷ s) c h =
    volume_config_sound (a ∷ s) (split_dollars (a ∷ s)) c (join-split b'$' (lit "$") (a ∷ s)) h
