-- ===== src/Nfs/Permissions.antt =====
-- Export permissions of a StorageClass: storage/nfs/nfspermissions.go, and GetNetworkSpaceIP of
-- storage/common/common.go.
use infinibox_csi_driver.Prelude.{
  ℕ, zero, suc, Bool, true, false, not, Option, none, some, List, [], ◌∷◌, ◌==◌, ◌&&◌, ◌||◌, length,
  is_empty, if◌then◌else◌,
}
use infinibox_csi_driver.Strings.{Str, lit, str_eq, parse_bool}
use infinibox_csi_driver.Exec.{
  Answer, ok, err, plain_error, wrap_error, pure, throw, crash, or_fail, ◌>>=◌,
}
use infinibox_csi_driver.Params.{Params, value, nfs_export_permissions, uid, gid, unix_permissions}
use infinibox_csi_driver.Ibox.{Json, text, flag, other, Env, History}
use infinibox_csi_driver.Ibox.Client.{M, get_network_space_by_name}

abbrev pub JsonObject : Type 0
JsonObject = List (Str × Json)

-- What the file controllers call of other packages: strings.ToUpper, json.Unmarshal into a slice of
-- maps, path.Join, net.ParseIP, and rand.Intn, whose answer is some index below its argument.
pub record Library : Type 0 where
  pub to_upper : Str → Str
  pub unmarshal : Str → Answer (List JsonObject)
  pub join : Str → Str → Str
  pub parse_ip : Str → Str
  pub pick : History → ℕ → ℕ

-- strings.ReplaceAll(s, "'", "\"")
unfoldable pub with_double_quotes : Str → Str
with_double_quotes [] = []
with_double_quotes (c ∷ s) =
    let rest = with_double_quotes s in if c == 39 then 34 ∷ rest else c ∷ rest

-- A value of no_root_squash that is a text becomes a flag; one that is no Boolean reads as true.
abbrev flag_of : Option Bool → Json
flag_of none = flag true
flag_of (some b) = flag b

abbrev pub squash_value : Json → Json
squash_value (text s) = flag_of (parse_bool s)
squash_value (flag b) = flag b
squash_value other = other

abbrev pub no_root_squash_key : Str
no_root_squash_key = lit "no_root_squash"

unfoldable pub with_flag : JsonObject → JsonObject
with_flag [] = []
with_flag ((k, v) ∷ o) =
    let rest = with_flag o in (k, if str_eq k no_root_squash_key then squash_value v else v) ∷ rest

unfoldable pub with_flags : List JsonObject → List JsonObject
unfolding with_flag
with_flags [] = []
with_flags (o ∷ os) = with_flag o ∷ with_flags os

abbrev decoded : Answer (List JsonObject) → Answer (List JsonObject)
decoded (err e) = err (wrap_error e)
decoded (ok os) = ok (with_flags os)

-- getPermissionMaps
unfoldable pub permission_maps : Library → Str → Answer (List JsonObject)
permission_maps lib s = decoded (lib.unmarshal (with_double_quotes s))

unfoldable pub field : JsonObject → Str → Option Json
field [] key = none
field ((k, v) ∷ o) key = let rest = field o key in if str_eq k key then some v else rest

abbrev pub is_false : Option Json → Bool
is_false (some (flag b)) = not b
is_false _ = false

abbrev pub squashes_root : List JsonObject → Bool
squashes_root [] = false
squashes_root (o ∷ os) = is_false (field o no_root_squash_key)

abbrev pub sets_owner : Params → Bool
sets_owner params =
    not (is_empty (value params uid))
    || (not (is_empty (value params gid)) || not (is_empty (value params unix_permissions)))

abbrev pub owner_allowed : Params → Answer (List JsonObject) → Answer (Unit {0})
owner_allowed params (err e) = err e
owner_allowed params (ok maps) =
    if sets_owner params && squashes_root maps then err plain_error else ok tt

-- ValidateNFSExportPermissions: an owner or a mode needs no_root_squash in the first rule.
unfoldable pub validate_export_permissions : Library → Params → Answer (Unit {0})
validate_export_permissions lib params =
    let permissions = value params nfs_export_permissions in
    if is_empty permissions then ok tt else owner_allowed params (permission_maps lib permissions)

-- strings.Trim(s, " ")
unfoldable pub drop_spaces : Str → Str
drop_spaces [] = []
drop_spaces (c ∷ s) = let rest = drop_spaces s in if c == 32 then rest else c ∷ s

unfoldable pub drop_last_spaces : Str → Str
drop_last_spaces [] = []
drop_last_spaces (c ∷ s) =
    let rest = drop_last_spaces s in if c == 32 && is_empty rest then [] else c ∷ rest

unfoldable pub trim_spaces : Str → Str
unfolding drop_spaces drop_last_spaces
trim_spaces s = drop_last_spaces (drop_spaces s)

-- The portal with the index; rand.Intn stays below the length.
unfoldable pub portal_at : List Str → ℕ → M Str
portal_at [] i = crash
portal_at (p ∷ ps) zero = pure p
portal_at (p ∷ ps) (suc i) = portal_at ps i

abbrev pub portal_of : Library → List Str → M Str
portal_of lib [] = throw plain_error
portal_of lib (p ∷ ps) = λ h. portal_at (p ∷ ps) (lib.pick h (length (p ∷ ps))) h

-- GetNetworkSpaceIP
unfoldable pub network_space_ip : Env → Library → Str → M Str
unfolding portal_at
network_space_ip env lib name = do
  space ← or_fail (get_network_space_by_name env name) (λ e. e)
  portal_of lib space.portals
