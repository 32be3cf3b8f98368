-- ===== src/Treeqs/Create.antt =====
-- New treeqs: IsTreeqAlreadyExist, checkTreeqName and CreateTreeqVolume of
-- storage/treeq/treeqservice.go. The mutex around the choice of a file system is left out.
use infinibox_csi_driver.Prelude.{
  Bool, true, false, Option, none, some, List, [], ◌∷◌, ◌++◌, ◌^◌, ◌-◌, is_empty, if◌then◌else◌,
}
use infinibox_csi_driver.Prelude.Int.{ℤ, pos, int_eq, ◌+ℤ◌}
use infinibox_csi_driver.Strings.{Str, lit, split}
use infinibox_csi_driver.Strings.Decimal.{itoa}
use infinibox_csi_driver.Exec.{
  Answer, ok, err, Err, plain_error, pure, throw, or_fail, attempt, ◌>>=◌, ◌>>◌,
}
use infinibox_csi_driver.Params.{Params, value, pool_name, network_space, max_filesystem_size}
use infinibox_csi_driver.Ibox.{FileSystem, Treeq, Export, Listing, CreateTreeqRequest, Env}
use infinibox_csi_driver.Ibox.Client.{
  M, list_or_fail, get_pool_by_name, get_file_systems_by_pool, get_treeq_by_name,
  get_exports_by_file_system_id, create_treeq, delete_treeq, update_file_system,
}
use infinibox_csi_driver.FileSystems.{same_error, delete_complete}
use infinibox_csi_driver.Nfs.Permissions.{Library, network_space_ip, trim_spaces}
use infinibox_csi_driver.Nfs.Create.{ExportFlags, make_file_system, export_and_metadata}
use infinibox_csi_driver.Treeqs.{Action, update_treeq_count, convert_to_byte}
use infinibox_csi_driver.Treeqs.Choice.{Chosen, first_path, expected_file_system}

abbrev pub treeq_context : Library → (filesystem treeq : ℤ) (ip path sub : Str) → Params
treeq_context lib filesystem treeq ip path sub =
    (lit "ID", itoa filesystem)
    ∷ (lit "TREEQID", itoa treeq)
    ∷ (lit "ipAddress", ip)
    ∷ (lit "volumePath", lib.join path sub)
    ∷ []

abbrev pub path_or_empty : Option Str → Str
path_or_empty none = []
path_or_empty (some p) = p

module _ (env : Env) (lib : Library) (name space : Str) where
  -- checkTreeqName asks about the file systems at once; they are listed here in the order in which
  -- the answers arrive. The first treeq decides, and errors are logged.
  abbrev pub or_next : M (Option Treeq) → Answer Treeq → M (Option Treeq)
  or_next rest (ok t) = rest >>= λ _. pure (some t)
  or_next rest (err e) = rest

  unfoldable pub check_treeq_name : List FileSystem → M (Option Treeq)
  check_treeq_name [] = pure none
  check_treeq_name (fs ∷ more) =
      let rest = check_treeq_name more in get_treeq_by_name env fs.id name >>= or_next rest

  -- After an existing treeq is found. When the network space fails, the error of the exports is
  -- returned in its place, and that may be nil.
  abbrev pub addressed : Treeq → Listing Export → Answer Str → M Params
  addressed t exports (err e) = elim exports.error [ none ↦ pure [] | some x ↦ throw x ]
  addressed t exports (ok ip) = elim exports.error [
    | none ↦ pure (
        treeq_context lib t.filesystem_id t.id ip (path_or_empty (first_path exports.items)) t.path)
    | some x ↦ throw x
  ]

  abbrev pub context_of : Option Treeq → M Params
  context_of none = pure []
  context_of (some t) = do
    exports ← get_exports_by_file_system_id env t.filesystem_id
    attempt (network_space_ip env lib space) >>= addressed t exports

-- IsTreeqAlreadyExist: an empty context says that there is none. `arrival` is the order of the
-- answers.
unfoldable pub is_treeq_already_exist :
    Env
    → Library
    → (arrival : List FileSystem → List FileSystem) → (pool space name prefix : Str) → M Params
is_treeq_already_exist env lib arrival pool space name prefix = do
  p ← or_fail (get_pool_by_name env pool) same_error
  systems ← list_or_fail (get_file_systems_by_pool env p.id prefix) (λ e. plain_error)
  found ← check_treeq_name env lib name space (arrival systems)
  context_of env lib name space found

-- An unreadable size is logged, and counts as 0.
abbrev pub or_zero : Answer ℤ → ℤ
or_zero (ok n) = n
or_zero (err e) = pos 0

unfoldable pub maximum_size : (gib_first : Bool) → Params → ℤ
maximum_size gib_first params =
    let size = value params max_filesystem_size in
    if is_empty size then pos (2 ^ 63 - 1) else or_zero (convert_to_byte gib_first size)

-- Where the treeq goes: the file system, its size and count of treeqs if it was there before, and
-- the export's path.
pub record Place : Type 0 where
  pub filesystem : ℤ
  pub existing : Option ℤ
  pub treeq_count : ℤ
  pub path : Str

abbrev pub no_flags : ExportFlags
no_flags = record { privileged_port = false; snapdir_visible = false }

abbrev pub second_part : List Str → Option Str
second_part (a ∷ b ∷ r) = some b
second_part _ = none

abbrev pub is_new : Place → Bool
is_new p = elim p.existing [ none ↦ true | some n ↦ false ]

module _ (env : Env) (lib : Library) (params : Params) (capacity : ℤ) (name prefix : Str) where
  abbrev pub place_in : (ip : Str) → Chosen → Place
  place_in ip c = record {
    filesystem = c.file_system.id;
    existing = some c.file_system.size;
    treeq_count = c.treeq_count;
    path = elim c.export_path [ none ↦ lit "/" ++ name | some p ↦ p ];
  }

  -- A new file system is named after the second part of the volume's name.
  abbrev pub new_place : Err → Option Str → M Place
  new_place e none = throw e
  new_place e (some part) = do
    let system = prefix ++ part
    id ← make_file_system env lib params capacity system
    export_and_metadata env lib params no_flags (lit "/" ++ system) id
    pure
        (record { filesystem = id; existing = none; treeq_count = pos 0; path = lit "/" ++ system })

  abbrev pub place_for : (ip : Str) → Answer Chosen → M Place
  place_for ip (ok c) = pure (place_in ip c)
  place_for ip (err e) =
      if e.is_not_found then new_place e (second_part (split b'-' [] name)) else throw e

  -- The treeq is not made: a new file system is deleted again.
  abbrev pub undo_place : Place → M (Unit {0})
  undo_place p =
      if is_new p then (attempt (delete_complete env p.filesystem) >>= λ _. pure tt) else pure tt

  -- The count is not stored: the treeq is deleted again if the file system is new.
  abbrev pub undo_treeq : Place → (treeq : ℤ) → M (Unit {0})
  undo_treeq p treeq =
      if is_new p
      then (if int_eq p.filesystem (pos 0)
          then pure tt
          else (delete_treeq env p.filesystem treeq >>= λ _. pure tt))
      else pure tt

  -- The file system does not grow: the treeq is counted out again.
  abbrev pub undo_count : Place → M (Unit {0})
  undo_count p =
      if int_eq p.filesystem (pos 0)
      then pure tt
      else (attempt (update_treeq_count env p.filesystem Action.decrement (pos 0)) >>= λ _. pure tt)

  abbrev pub resized : Place → Answer (Unit {0}) → M (Unit {0})
  resized p (ok u) = pure tt
  resized p (err e) = undo_count p >>= λ _. throw plain_error

  -- A file system that was there before grows by the capacity.
  abbrev pub grow_place : Place → Option ℤ → M (Unit {0})
  grow_place p none = pure tt
  grow_place p (some size) = update_file_system env p.filesystem (size +ℤ capacity) >>= resized p

  abbrev pub counted : (ip : Str) → Place → Treeq → Answer ℤ → M Params
  counted ip p t (err e) = undo_treeq p t.id >>= λ _. throw plain_error
  counted ip p t (ok n) = do
    grow_place p p.existing
    pure (treeq_context lib p.filesystem t.id ip p.path t.path)

  abbrev pub made : (ip : Str) → Place → Answer Treeq → M Params
  made ip p (err e) = undo_place p >>= λ _. throw plain_error
  made ip p (ok t) =
      attempt (update_treeq_count env p.filesystem Action.keep (p.treeq_count +ℤ pos 1))
      >>= counted ip p t

  abbrev pub treeq_request : CreateTreeqRequest
  treeq_request = record { path = lib.join (lit "/") name; name = name; hard_capacity = capacity }

  abbrev pub make_treeq : (ip : Str) → Place → M Params
  make_treeq ip p = create_treeq env p.filesystem treeq_request >>= made ip p

-- CreateTreeqVolume
unfoldable pub create_treeq_volume :
    Env → Library → (gib_first : Bool) → Params → (capacity : ℤ) (name prefix : Str) → M Params
create_treeq_volume env lib gib_first params capacity name prefix = do
  ip ← network_space_ip env lib (trim_spaces (value params network_space))
  pool ← or_fail (get_pool_by_name env (value params pool_name)) same_error
  chosen ←
      attempt (expected_file_system env params pool.id capacity (maximum_size gib_first params))
  place ← place_for env lib params capacity name prefix ip chosen
  make_treeq env lib params capacity name prefix ip place
