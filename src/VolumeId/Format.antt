-- ===== src/VolumeId/Format.antt =====
-- The identifiers that the driver hands out are read back.
use infinibox_csi_driver.Prelude.{◌≡◌, ◌≢◌, refl, [], ◌∷◌, ◌++◌, arith, false, is_empty, All-append}
use infinibox_csi_driver.Prelude.Int.{ℤ, pos, IsInt64}
use infinibox_csi_driver.Strings.{Str, lit, str_eq, str_eq_iff}
use infinibox_csi_driver.Strings.Split.{Lacks, split-sep, split-Lacks}
use infinibox_csi_driver.Strings.Decimal.{itoa}
use infinibox_csi_driver.Strings.RoundTrip.{atoi-itoa, Lacks-itoa, itoa-ne-nil}
use infinibox_csi_driver.Exec.{ok}
use infinibox_csi_driver.Params.{protocol_treeq}
use infinibox_csi_driver.VolumeId.{
  split_dollars, split_hash, with_protocol, treeq_handle, validate_volume_id,
}

abbrev dollar : Str
dollar = lit "$"

split-with_protocol :
    (id kind : Str)
    → Lacks b'$' id
    → Lacks b'$' kind
    → split_dollars (with_protocol id kind) ≡ id ∷ kind ∷ []
split-with_protocol id kind hi hk =
    rw (split-sep b'$' dollar id kind hi) (rw (split-Lacks b'$' dollar kind hk))

append-ne-nil : (s t : Str) → t ≢ [] → is_empty (s ++ t) ≡ false
append-ne-nil [] [] h = absurd (h refl)
append-ne-nil [] (c ∷ t) h = refl
append-ne-nil (c ∷ s) t h = refl

ne-nil : (s : Str) → s ≢ [] → is_empty s ≡ false
ne-nil s h = append-ne-nil [] s h

-- ValidateVolumeID reads back the identifier `<id>$$<protocol>` of any volume whose id is an int64,
-- for every protocol name that is not empty, is not nfs_treeq and holds no dollar sign.
pub validate_volume_id-with_protocol :
    (i : ℤ) (kind : Str)
    → IsInt64 i
    → kind ≢ []
    → kind ≢ protocol_treeq
    → Lacks b'$' kind
    → validate_volume_id (with_protocol (itoa i) kind)
      ≡ ok (record { volume_id = i; storage_type = kind; treeq_id = pos 0 })
unfolding validate_volume_id
validate_volume_id-with_protocol i kind range some_kind not_treeq lacks = ground (
  arith,
  split-with_protocol (itoa i) kind (Lacks-itoa b'$' i (omega arith)) lacks,
  append-ne-nil (itoa i) (lit "$$" ++ kind) (cc),
  ne-nil (itoa i) (itoa-ne-nil i),
  ne-nil kind some_kind,
  str_eq_iff kind protocol_treeq,
  atoi-itoa i range,
)

split-treeq_handle : (fs tq : ℤ) → split_hash (treeq_handle fs tq) ≡ itoa fs ∷ itoa tq ∷ []
split-treeq_handle fs tq =
    rw (split-sep b'#' [] (itoa fs) (itoa tq) (Lacks-itoa b'#' fs (omega arith)))
      (rw (split-Lacks b'#' [] (itoa tq) (Lacks-itoa b'#' tq (omega arith))))

Lacks-treeq_handle : (fs tq : ℤ) → Lacks b'$' (treeq_handle fs tq)
Lacks-treeq_handle fs tq =
    All-append _ (itoa fs) _ (Lacks-itoa b'$' fs (omega arith))
      (λ e. absurd (omega arith), Lacks-itoa b'$' tq (omega arith))

-- ValidateVolumeID reads back both ids of the identifier `<fs>#<treeq>$$nfs_treeq` of a treeq, if
-- they are int64.
pub validate_volume_id-treeq_handle :
    (fs tq : ℤ)
    → IsInt64 fs
    → IsInt64 tq
    → validate_volume_id (with_protocol (treeq_handle fs tq) protocol_treeq)
      ≡ ok (record { volume_id = fs; storage_type = protocol_treeq; treeq_id = tq })
unfolding validate_volume_id str_eq
validate_volume_id-treeq_handle fs tq hf ht = ground (
  arith,
  split-with_protocol (treeq_handle fs tq) protocol_treeq (Lacks-treeq_handle fs tq) (omega arith),
  append-ne-nil (treeq_handle fs tq) (lit "$$" ++ protocol_treeq) (cc),
  append-ne-nil (itoa fs) (lit "#" ++ itoa tq) (cc),
  split-treeq_handle fs tq,
  atoi-itoa fs hf,
  atoi-itoa tq ht,
)
