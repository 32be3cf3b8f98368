-- ===== src/Exports.antt =====
-- Export rules of file systems: AddNodeInExport, DeleteExportRule and DeleteNodeFromExport of
-- api/nfsapiclient.go.
pub mod Effect
pub mod Twice
use infinibox_csi_driver.Prelude.{
  ℕ, zero, suc, ◌≡◌, Bool, true, false, Option, none, some, List, [], ◌∷◌, ◌++◌, ◌&&◌, ◌||◌, not,
  is_empty, ltb, length, if◌then◌else◌,
}
use infinibox_csi_driver.Prelude.Int.{ℤ}
use infinibox_csi_driver.Strings.{Str, lit, str_eq, contains, split}
use infinibox_csi_driver.Exec.{
  Answer, ok, err, wrap_error, pure, crash, or_fail, wrapping, ◌>>=◌, ◌>>◌,
}
use infinibox_csi_driver.Ibox.{Permission, Export, Listing, Env}
use infinibox_csi_driver.Ibox.Client.{
  M, get_export_by_id, get_exports_by_file_system_id, update_export_permissions, list_or_fail,
}

-- bytes.Compare(a, b) <= 0
unfoldable pub bytes_le : Str → Str → Bool
bytes_le [] b = true
bytes_le (x ∷ a) [] = false
bytes_le (x ∷ a) (y ∷ b) =
    let rest = bytes_le a b in if ltb x y then true else if ltb y x then false else rest

abbrev in_range : (parse_ip : Str → Str) → List Str → Str → Bool
in_range parse_ip (low ∷ high ∷ r) ip =
    bytes_le (parse_ip low) (parse_ip ip) && bytes_le (parse_ip ip) (parse_ip high)
in_range parse_ip _ ip = false

-- compareClientIP: `parse_ip` is net.ParseIP, the 16 bytes of an address or none.
unfoldable pub covers_ip : (parse_ip : Str → Str) → (client ip : Str) → Bool
unfolding contains
covers_ip parse_ip client ip =
    if contains client (lit "-")
    then in_range parse_ip (split b'-' [] client) ip
    else str_eq client ip

abbrev pub everyone : Str
everyone = lit "*"

-- A rule that grants the address already: its own, or the rule for everyone.
abbrev pub grants : (parse_ip : Str → Str) → Str → Permission → Bool
grants parse_ip ip p = covers_ip parse_ip p.client ip || str_eq p.client everyone

unfoldable pub granted : (parse_ip : Str → Str) → Str → List Permission → Bool
granted parse_ip ip [] = false
granted parse_ip ip (p ∷ ps) = let rest = granted parse_ip ip ps in grants parse_ip ip p || rest

-- removeIndex moves the later elements of the array down; seen through the old slice, the last one
-- stands twice.
abbrev pub last_again : Permission → List Permission → List Permission
last_again p [] = p ∷ []
last_again p (q ∷ ps) = q ∷ last_again q ps

-- The last match counts: one in the rest of the list, or else the head.
abbrev pub last_removed :
    Bool
    → Permission
    → (removed : List Permission) → Option (List Permission)
    → Option (List Permission)
last_removed matches p removed (some qs) = some (p ∷ qs)
last_removed matches p removed none = if matches then some removed else none

-- The rules of the answered export after the removal of the last rule for everyone that is not
-- itself the address's.
unfoldable pub without_everyone :
    (parse_ip : Str → Str) → Str → List Permission → Option (List Permission)
without_everyone parse_ip ip [] = none
without_everyone parse_ip ip (p ∷ ps) =
    last_removed (not (covers_ip parse_ip p.client ip) && str_eq p.client everyone) p
      (last_again p ps) (without_everyone parse_ip ip ps)

abbrev or_same : List Permission → Option (List Permission) → List Permission
or_same ps none = ps
or_same ps (some qs) = qs

module _ (env : Env) (parse_ip : Str → Str) where
  abbrev pub add_rule : (access : Str) (no_root_squash : Bool) (ip : Str) → Answer Export → M Export
  add_rule access no_root_squash ip (err e) = crash
  add_rule access no_root_squash ip (ok export) =
      if granted parse_ip ip export.permissions
      then pure (record export {
        permissions = or_same export.permissions (without_everyone parse_ip ip export.permissions);
      })
      else or_fail
          (update_export_permissions env export.id (
            export.permissions
            ++ (record { access = access; no_root_squash = no_root_squash; client = ip } ∷ [])))
          wrap_error

-- AddNodeInExport; the error path dereferences the export that was not found.
unfoldable pub add_node :
    Env → (parse_ip : Str → Str) → ℤ → (access : Str) (no_root_squash : Bool) (ip : Str) → M Export
add_node env parse_ip id access no_root_squash ip =
    get_export_by_id env id >>= add_rule env parse_ip access no_root_squash ip

abbrev pub default_rule : Permission
default_rule = record { access = lit "RW"; no_root_squash = true; client = everyone }

-- The rules without the last one of the client, if it has one.
unfoldable pub without_client : Str → List Permission → Option (List Permission)
unfolding str_eq
without_client ip [] = none
without_client ip (p ∷ ps) = last_removed (str_eq p.client ip) p ps (without_client ip ps)

-- An export without rules is opened to everyone.
abbrev pub or_default : List Permission → List Permission
or_default [] = default_rule ∷ []
or_default (p ∷ ps) = p ∷ ps

abbrev pub remove_rule : Env → ℤ → Option (List Permission) → M (Option Export)
remove_rule env id none = pure none
remove_rule env id (some ps) = do
  export ← or_fail (update_export_permissions env id (or_default ps)) wrap_error
  pure (some export)

-- DeleteNodeFromExport; `none` is the nil response when the address has no rule.
unfoldable pub delete_node : Env → Export → (ip : Str) → M (Option Export)
unfolding without_client
delete_node env export ip = remove_rule env export.id (without_client ip export.permissions)

-- What DeleteNodeFromExport leaves in the array that the caller's loop still reads: removeIndex
-- moves the later rules down, and the default rule takes the place of a single one.
unfoldable pub shifted : Str → List Permission → Option (List Permission)
unfolding str_eq
shifted ip [] = none
shifted ip (p ∷ ps) = last_removed (str_eq p.client ip) p (last_again p ps) (shifted ip ps)

abbrev pub array_left :
    List Permission → (removed shift : Option (List Permission)) → List Permission
array_left ps (some []) s = default_rule ∷ []
array_left ps r s = or_same ps s

abbrev pub rule_at : ℕ → List Permission → Option Permission
rule_at i [] = none
rule_at zero (p ∷ ps) = some p
rule_at (suc i) (p ∷ ps) = rule_at i ps

abbrev pub client_is : Str → Option Permission → Bool
client_is ip none = false
client_is ip (some p) = str_eq p.client ip

-- The loop over the rules of one export: `left` rules to go, at index `i` of the array as it is now.
unfoldable pub delete_rules : Env → ℤ → Str → (left i : ℕ) → List Permission → M (Unit {0})
unfolding without_client shifted
delete_rules env id ip zero i ps = pure tt
delete_rules env id ip (suc left) i ps =
    let kept = delete_rules env id ip left (suc i) ps in
    let next =
      delete_rules env id ip left (suc i) (array_left ps (without_client ip ps) (shifted ip ps)) in
    if client_is ip (rule_at i ps)
    then wrapping (remove_rule env id (without_client ip ps)) wrap_error >> next
    else kept

abbrev pub delete_each : Env → Str → List Export → M (Unit {0})
unfolding delete_rules
delete_each env ip [] = pure tt
delete_each env ip (e ∷ es) =
    delete_rules env e.id ip (length e.permissions) 0 e.permissions >> delete_each env ip es

-- DeleteExportRule
unfoldable pub delete_export_rule : Env → ℤ → Str → M (Unit {0})
delete_export_rule env filesystem ip =
    list_or_fail (get_exports_by_file_system_id env filesystem) wrap_error >>= delete_each env ip
