-- ===== src/Capability/Accepted.antt =====
-- Which capabilities are accepted, and how the two checks fit together.
use infinibox_csi_driver.Prelude.{
  ◌≡◌, ◌≢◌, ◌↔◌, ◌⊎◌, inl, inr, refl, arith, Bool, true, false, Option, none, some, List, [], ◌∷◌,
  All, any, ◌&&◌, ◌||◌, Bool-cases,
}
use mathlib.Core.Path.{subst}
use infinibox_csi_driver.Strings.{Str, lit, str_eq_iff}
use infinibox_csi_driver.Params.{fs_type_ext3, fs_type_ext4, fs_type_xfs}
use infinibox_csi_driver.Exec.{ok}
use infinibox_csi_driver.Capability.{
  Mode, Access, Capability, supported_mode, supported_fs_type, is_block, is_mount, passes, has_mode,
  check_capabilities, validate_capabilities, is_valid_access_mode,
}

abbrev pub IsSupportedMode : Mode → Type 0
IsSupportedMode m =
    (m ≡ Mode.multi_node_reader_only)
    ⊎ (m ≡ Mode.single_node_writer)
    ⊎ (m ≡ Mode.multi_node_multi_writer)

abbrev pub IsFsType : Str → Type 0
IsFsType t = (t ≡ []) ⊎ (t ≡ lit "ext3") ⊎ (t ≡ lit "ext4") ⊎ (t ≡ lit "xfs")

-- What a mode has to satisfy beside a block device, a mount or neither.
abbrev pub Fits : Mode → Access → Type 0
Fits m Access.block = IsSupportedMode m
Fits m (Access.mount t) = IsSupportedMode m × IsFsType t
Fits m Access.unset = Unit

abbrev pub IsSupported : Capability → Type 0
IsSupported c = (m : Mode) × (c.access_mode ≡ some m) × Fits m c.access

abbrev pub IsNoBlock : Capability → Type 0
IsNoBlock c = c.access ≢ Access.block

abbrev pub IsNoMount : Capability → Type 0
IsNoMount c = (t : Str) → c.access ≢ Access.mount t

supported_mode_iff : (m : Mode) → (supported_mode m ≡ true) ↔ IsSupportedMode m
supported_mode_iff Mode.unknown = ground arith
supported_mode_iff _ = ground arith

supported_fs_type_iff : (t : Str) → (supported_fs_type t ≡ true) ↔ IsFsType t
supported_fs_type_iff [] = ground arith
supported_fs_type_iff (c ∷ t) = ground (
  arith,
  str_eq_iff (c ∷ t) fs_type_ext3,
  str_eq_iff (c ∷ t) fs_type_ext4,
  str_eq_iff (c ∷ t) fs_type_xfs,
)

passes_iff : (m : Mode) (a : Access) → (passes m a ≡ true) ↔ Fits m a
passes_iff m Access.block = supported_mode_iff m
passes_iff m (Access.mount t) = ground (arith, supported_mode_iff m, supported_fs_type_iff t)
passes_iff m Access.unset = ((λ h. tt), (λ h. refl))

has_mode_iff :
    (o : Option Mode) (a : Access) → (has_mode o a ≡ true) ↔ ((m : Mode) × (o ≡ some m) × Fits m a)
has_mode_iff none a = ground arith
has_mode_iff (some m) a = (
  (λ h. (m, refl, (passes_iff m a).0 h)),
  (λ (n, e, f). let p : n ≡ m = cc in (passes_iff m a).1 (subst (λ k. Fits k a) p f)),
)

abbrev some_block : List Capability → Bool
some_block = any (λ c. is_block c.access)

abbrev some_mount : List Capability → Bool
some_mount = any (λ c. is_mount c.access)

check_capabilities_iff :
    (blocks files : Bool) (cs : List Capability)
    → (check_capabilities blocks files cs ≡ ok tt)
      ↔ (All IsSupported cs × (((blocks || some_block cs) && (files || some_mount cs)) ≡ false))
unfolding check_capabilities
check_capabilities_iff blocks files [] = ground arith
check_capabilities_iff blocks files (c ∷ cs) = ground (
  arith,
  has_mode_iff c.access_mode c.access,
  check_capabilities_iff (blocks || is_block c.access) (files || is_mount c.access) cs,
)

some_block_iff : (cs : List Capability) → (some_block cs ≡ false) ↔ All IsNoBlock cs
some_block_iff [] = ground arith
some_block_iff (c ∷ cs) = ground (arith, some_block_iff cs)

no_mount_iff : (a : Access) → (is_mount a ≡ false) ↔ ((t : Str) → a ≢ Access.mount t)
no_mount_iff Access.block = ((λ h t e. cc), (λ h. refl))
no_mount_iff Access.unset = ((λ h t e. cc), (λ h. refl))
no_mount_iff (Access.mount t) = ((λ h u e. cc), (λ h. absurd (h t refl)))

some_mount_iff : (cs : List Capability) → (some_mount cs ≡ false) ↔ All IsNoMount cs
some_mount_iff [] = ground arith
some_mount_iff (c ∷ cs) = (
  (λ h. ((no_mount_iff c.access).0 (ground arith), (some_mount_iff cs).0 (ground arith))),
  (λ (n, ns). ground (arith, (no_mount_iff c.access).1 n, (some_mount_iff cs).1 ns)),
)

-- What a request's capabilities have to satisfy.
abbrev pub AreValid : Option (List Capability) → Type 0
AreValid none = ⊥
AreValid (some []) = ⊥
AreValid (some (c ∷ cs)) =
    All IsSupported (c ∷ cs) × (All IsNoBlock (c ∷ cs) ⊎ All IsNoMount (c ∷ cs))

-- validateCapabilities accepts exactly the requests with at least one capability, in which every
-- capability has an access mode, every block or mount capability has one of the three supported
-- modes and a mount the empty or a supported file system type, and which do not mix block and mount.
pub validate_capabilities_iff :
    (caps : Option (List Capability)) → (validate_capabilities caps ≡ ok tt) ↔ AreValid caps
unfolding validate_capabilities
validate_capabilities_iff none = ground arith
validate_capabilities_iff (some []) = ground arith
validate_capabilities_iff (some (c ∷ cs)) = (
  (λ h.
      let (a, f) = (check_capabilities_iff false false (c ∷ cs)).0 h in
      (
        a,
        elim (Bool-cases (some_block (c ∷ cs))) [
          | inl b ↦ inr ((some_mount_iff (c ∷ cs)).0 (rw b at f))
          | inr n ↦ inl ((some_block_iff (c ∷ cs)).0 n)
        ],
      )),
  (λ (a, f). (check_capabilities_iff false false (c ∷ cs)).1 (
    a,
    elim f [
      | inl b ↦ rw ((some_block_iff (c ∷ cs)).1 b) refl
      | inr m ↦ rw ((some_mount_iff (c ∷ cs)).1 m) (ground arith)
    ],
  )),
)

abbrev pub IsWriter : Mode → Type 0
IsWriter m =
    (m ≡ Mode.single_node_writer)
    ⊎ (m ≡ Mode.multi_node_single_writer)
    ⊎ (m ≡ Mode.multi_node_multi_writer)

abbrev pub IsReader : Mode → Type 0
IsReader m = (m ≡ Mode.single_node_reader_only) ⊎ (m ≡ Mode.multi_node_reader_only)

-- IsValidAccessMode grants exactly the reader modes, and the writer modes on a volume that is not
-- write protected.
pub is_valid_access_mode_iff :
    (protected : Bool) (m : Mode)
    → (is_valid_access_mode protected (some m) ≡ ok true)
      ↔ (IsReader m ⊎ (IsWriter m × (protected ≡ false)))
unfolding is_valid_access_mode
is_valid_access_mode_iff protected Mode.unknown = ground arith
is_valid_access_mode_iff protected _ = ground arith

granted :
    (o : Option Mode) (a : Access)
    → a ≢ Access.unset
    → (m : Mode) × (o ≡ some m) × Fits m a
    → is_valid_access_mode false o ≡ ok true
unfolding is_valid_access_mode
granted o Access.block used (m, e, f) = ground arith
granted o (Access.mount t) used (m, e, f) = ground arith
granted o Access.unset used h = absurd (used refl)

-- A block or mount capability that validateCapabilities accepts is granted by IsValidAccessMode on
-- every volume that is not write protected.
pub supported_is_granted :
    (c : Capability)
    → c.access ≢ Access.unset
    → validate_capabilities (some (c ∷ [])) ≡ ok tt
    → is_valid_access_mode false c.access_mode ≡ ok true
supported_is_granted c used h =
    granted c.access_mode c.access used ((validate_capabilities_iff (some (c ∷ []))).0 h).0.0
