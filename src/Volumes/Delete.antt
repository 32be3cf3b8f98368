-- ===== src/Volumes/Delete.antt =====
-- DeleteVolume of storage/common/deletevolume.go.
pub mod Safety
pub mod Termination
use infinibox_csi_driver.Prelude.{
  ℕ, zero, suc, Bool, true, false, List, [], ◌∷◌, any, is_empty, if◌then◌else◌,
}
use infinibox_csi_driver.Prelude.Int.{ℤ, pos, int_eq}
use infinibox_csi_driver.Strings.{Str, str_eq}
use infinibox_csi_driver.Exec.{
  Answer, ok, err, Err, Code, wrap_error, status_error, pure, throw, out_of_fuel, or_fail, wrapping,
  ◌>>=◌, ◌>>◌,
}
use infinibox_csi_driver.Params.{locked_state, to_be_deleted}
use infinibox_csi_driver.Ibox.{Volume, Listing, Env}
use infinibox_csi_driver.Ibox.Client.{
  M, get_volume, get_volumes_by_parent_id, delete_volume, put_metadata, get_metadata,
  delete_metadata,
}

-- `errors.Is(err, iboxapi.ErrNotFound)` means that the volume is gone already.
abbrev pub unless_not_found : Err → M (Unit {0})
unless_not_found e = if e.is_not_found then pure tt else throw (wrap_error e)

module _ (env : Env) (delete : ℤ → M (Unit {0})) where
  -- The parent goes too if an earlier deletion left its mark on it.
  abbrev pub delete_marked_parent : ℤ → M (Unit {0})
  delete_marked_parent parent = do
    keys ← or_fail (get_metadata env parent) wrap_error
    if any (str_eq to_be_deleted) keys then wrapping (delete parent) wrap_error else pure tt

  abbrev pub delete_childless : Volume → M (Unit {0})
  delete_childless vol = do
    or_fail (delete_metadata env vol.id) wrap_error
    or_fail (delete_volume env vol.id) wrap_error
    if int_eq vol.parent_id (pos 0) then pure tt else delete_marked_parent vol.parent_id

  -- An error of the query for children is logged, and the items read before it are used.
  abbrev pub delete_unlocked : Volume → M (Unit {0})
  delete_unlocked vol = do
    children ← get_volumes_by_parent_id env vol.id
    if is_empty children.items
        then delete_childless vol
        else or_fail (put_metadata env vol.id (to_be_deleted ∷ [])) wrap_error

  abbrev pub delete_found : Answer Volume → M (Unit {0})
  delete_found (err e) = unless_not_found e
  delete_found (ok vol) =
      if str_eq vol.lock_state locked_state
      then throw (status_error Code.aborted)
      else delete_unlocked vol

-- The fuel bounds the chain of parents that one call deletes.
unfoldable pub delete_chain : Env → ℕ → ℤ → M (Unit {0})
delete_chain env zero id = out_of_fuel
delete_chain env (suc fuel) id = get_volume env id >>= delete_found env (delete_chain env fuel)
