-- ===== src/Capability.antt =====
-- Access modes: validateCapabilities of service/controller.go and AccessMode of
-- helper/accessmodes.go.
pub mod Accepted
use infinibox_csi_driver.Prelude.{
  ℕ, Bool, true, false, Option, none, some, List, [], ◌∷◌, ◌&&◌, ◌||◌, any, is_empty, if◌then◌else◌,
}
use infinibox_csi_driver.Strings.{Str, lit, str_eq, contains}
use infinibox_csi_driver.Exec.{Answer, ok, err, Code, plain_error, status_error}
use infinibox_csi_driver.Params.{
  Params, value, nfs_export_permissions, fs_type_ext3, fs_type_ext4, fs_type_xfs,
}

-- csi.VolumeCapability_AccessMode_Mode
pub data Mode : Type 0 where
  unknown single_node_writer single_node_reader_only multi_node_reader_only : Mode
  multi_node_single_writer multi_node_multi_writer : Mode
  single_node_single_writer single_node_multi_writer : Mode
  -- a number that the enum does not name
  unnamed : ℕ → Mode

-- The `oneof` of a capability: block, a mount with its file system type, or nothing.
pub data Access : Type 0 where
  block unset : Access
  mount : Str → Access

pub record Capability : Type 0 where
  pub access_mode : Option Mode
  pub access : Access

-- The modes that both switches of validateCapabilities accept.
abbrev pub supported_mode : Mode → Bool
supported_mode Mode.multi_node_reader_only = true
supported_mode Mode.single_node_writer = true
supported_mode Mode.multi_node_multi_writer = true
supported_mode _ = false

abbrev pub supported_fs_type : Str → Bool
supported_fs_type t = is_empty t || any (str_eq t) (fs_type_ext3 ∷ fs_type_ext4 ∷ fs_type_xfs ∷ [])

abbrev pub is_block : Access → Bool
is_block Access.block = true
is_block _ = false

abbrev pub is_mount : Access → Bool
is_mount (Access.mount t) = true
is_mount _ = false

-- The body of the loop, once the access mode is there: whether the capability passes.
abbrev pub passes : Mode → Access → Bool
passes mode Access.block = supported_mode mode
passes mode (Access.mount t) = supported_mode mode && supported_fs_type t
passes mode Access.unset = true

abbrev pub has_mode : Option Mode → Access → Bool
has_mode none access = false
has_mode (some mode) access = passes mode access

-- The loop with its flags isBlock and isFile, and the test behind it.
check_capabilities : Bool → Bool → List Capability → Answer (Unit {0})
check_capabilities blocks files [] = if blocks && files then err plain_error else ok tt
check_capabilities blocks files (c ∷ cs) =
    let rest = check_capabilities (blocks || is_block c.access) (files || is_mount c.access) cs in
    if has_mode c.access_mode c.access then rest else err plain_error

-- validateCapabilities; `none` is a nil slice. The summary that it also returns is only logged.
unfoldable pub validate_capabilities : Option (List Capability) → Answer (Unit {0})
unfolding check_capabilities
validate_capabilities none = err plain_error
validate_capabilities (some []) = err (status_error Code.invalid_argument)
validate_capabilities (some (c ∷ cs)) = check_capabilities false false (c ∷ cs)

-- The switch of IsValidAccessMode and IsValidAccessModeNfs: `read_only` is the volume's write
-- protection, or the export's.
abbrev pub access_allowed : Mode → (read_only : Bool) → Answer Bool
access_allowed Mode.single_node_writer read_only = if read_only then err plain_error else ok true
access_allowed Mode.multi_node_single_writer read_only =
    if read_only then err plain_error else ok true
access_allowed Mode.multi_node_multi_writer read_only =
    if read_only then err plain_error else ok true
access_allowed Mode.single_node_reader_only read_only = ok true
access_allowed Mode.multi_node_reader_only read_only = ok true
access_allowed _ read_only = err plain_error

-- `GetAccessMode().GetMode()`: an absent mode reads as UNKNOWN.
abbrev pub mode_of : Option Mode → Mode
mode_of none = Mode.unknown
mode_of (some m) = m

-- IsValidAccessMode
unfoldable pub is_valid_access_mode : (write_protected : Bool) → Option Mode → Answer Bool
is_valid_access_mode write_protected mode = access_allowed (mode_of mode) write_protected

-- IsValidAccessModeNfs: the export is read-only if its permissions contain `'access':'RO'`.
unfoldable pub is_valid_access_mode_nfs : Params → Option Mode → Answer Bool
unfolding value contains
is_valid_access_mode_nfs context mode =
    access_allowed (mode_of mode)
      (contains (value context nfs_export_permissions) (lit "'access':'RO'"))
