-- ===== src/Nfs/Marks.antt =====
-- Deletion of a file system that has children: it is kept for later, and nothing marks it.
use infinibox_csi_driver.Prelude.{
  ℕ, suc, ◌≡◌, refl, Bool, false, Option, none, some, List, [], ◌∷◌, ◌++◌, ◌∙◌, ◌||◌, All, any,
}
use infinibox_csi_driver.Prelude.Int.{ℤ, int_eq}
use infinibox_csi_driver.Strings.{Str, str_eq}
use infinibox_csi_driver.Exec.{Answer, Err, ok, err, internally, from_answer}
use infinibox_csi_driver.Params.{locked_state, to_be_deleted}
use infinibox_csi_driver.Ibox.{Call, FileSystem, Listing, Env, History}
use infinibox_csi_driver.Ibox.Client.{M}
use infinibox_csi_driver.FileSystems.{delete_listed, delete_ancestors}
use infinibox_csi_driver.Nfs.Operations.{delete_nfs_volume}

-- Whether the call changes the metadata of the object.
abbrev pub changes_metadata : ℤ → Call → Bool
changes_metadata id (Call.put_metadata j keys) = int_eq j id
changes_metadata id (Call.put_treeq_count j count) = int_eq j id
changes_metadata id (Call.delete_metadata j) = int_eq j id
changes_metadata id (Call.delete_file_system j) = int_eq j id
changes_metadata id (Call.delete_volume j) = int_eq j id
changes_metadata id (Call.delete_host j) = int_eq j id
changes_metadata id c = false

module _ (env : Env) (id : ℤ) where
  -- What the appliance documents of its metadata: a put adds its keys to those of the object, and no
  -- other call than those above changes them.
  abbrev pub AddsKeys : Type 0
  AddsKeys =
      (h : History) (old new : List Str)
      → env.get_metadata h id ≡ ok old
      → (keys : List Str) × (env.get_metadata (Call.put_metadata id new ∷ h) id ≡ ok keys)
        × ((key : Str) → any (str_eq key) keys ≡ (any (str_eq key) new || any (str_eq key) old))

  abbrev pub KeepsMetadata : Type 0
  KeepsMetadata =
      (h : History) (c : Call)
      → changes_metadata id c ≡ false
      → env.get_metadata (c ∷ h) id ≡ env.get_metadata h id

  -- The object's metadata can be read, and has no mark of a deletion.
  abbrev pub IsUnmarked : History → Type 0
  IsUnmarked h =
      (keys : List Str) × (env.get_metadata h id ≡ ok keys)
      × (any (str_eq to_be_deleted) keys ≡ false)

  kept_between :
      KeepsMetadata
      → (between h : History) → All (λ c. changes_metadata id c ≡ false) between
      → env.get_metadata (between ++ h) id ≡ env.get_metadata h id
  kept_between keeps [] h a = refl
  kept_between keeps (c ∷ cs) h a = keeps (cs ++ h) c a.0 ∙ kept_between keeps cs h a.1

  IsUnmarked-put :
      AddsKeys → (h : History) → IsUnmarked h → IsUnmarked (Call.put_metadata id [] ∷ h)
  IsUnmarked-put adds h (old, read, unmarked) =
      let (keys, put, same) = adds h old [] read in (keys, put, same to_be_deleted ∙ unmarked)

  -- Whatever the appliance lists as children, an unmarked file system stays.
  unmarked_stays :
      (delete_parent : ℤ → M (Unit {0})) (h : History) (items : List FileSystem) (e : Option Err)
      → env.get_file_systems_by_parent_id h id ≡ record { items = items; error = e }
      → (delete_listed env delete_parent id false h).1 ≡ Call.get_file_systems_by_parent_id id ∷ h
  unmarked_stays delete_parent h [] none q = rw q refl
  unmarked_stays delete_parent h (fs ∷ more) none q = rw q refl
  unmarked_stays delete_parent h items (some e) q = rw q refl

  ancestor_stays :
      (fuel : ℕ) (h : History)
      → IsUnmarked h
      → (delete_ancestors env (suc fuel) id h).1
        ≡ Call.get_file_systems_by_parent_id id ∷ Call.get_metadata id ∷ h
  unfolding delete_ancestors
  ancestor_stays fuel h (keys, read, unmarked) =
      let asked : History = Call.get_metadata id ∷ h in
      let children : Listing FileSystem = env.get_file_systems_by_parent_id asked id in
      rw read (
        rw unmarked
          (unmarked_stays (delete_ancestors env fuel) asked children.items children.error refl))

  abbrev kept : History → History
  kept h =
      Call.put_metadata id []
      ∷ Call.get_file_systems_by_parent_id id
      ∷ Call.get_file_system_by_id id
      ∷ h

  nfs_kept :
      (fuel : ℕ) (h : History) (fs child : FileSystem) (children : List FileSystem)
      → env.get_file_system_by_id h id ≡ ok fs
      → str_eq fs.lock_state locked_state ≡ false
      → env.get_file_systems_by_parent_id (Call.get_file_system_by_id id ∷ h) id
        ≡ record { items = child ∷ children; error = none }
      → (delete_nfs_volume env fuel id h).1 ≡ kept h
  unfolding delete_nfs_volume
  nfs_kept fuel h fs child children f u c =
      let answer =
        env.put_metadata (Call.get_file_systems_by_parent_id id ∷ Call.get_file_system_by_id id ∷ h)
          id [] in
      rw f (rw u (rw c (or_fail_history answer (kept h))))
    where
      or_fail_history : (r : Answer (Unit {0})) (g : History) → (from_answer internally r g).1 ≡ g
      or_fail_history (ok v) g = refl
      or_fail_history (err e) g = refl

  -- If the appliance's metadata behaves as documented, an unlocked file system without a mark has
  -- children, and DeleteNFSVolume is called for it, then, after any later calls that do not change its
  -- metadata, the deletion of ancestors that comes to it (when its children are gone, say) only reads
  -- its metadata and its children and never deletes it: DeleteNFSVolume left no mark.
  pub delete_nfs_volume_unmarked :
      AddsKeys
      → KeepsMetadata
      → (fuel again : ℕ) (h between : History) (fs child : FileSystem) (children : List FileSystem)
      → IsUnmarked h
      → env.get_file_system_by_id h id ≡ ok fs
      → str_eq fs.lock_state locked_state ≡ false
      → env.get_file_systems_by_parent_id (Call.get_file_system_by_id id ∷ h) id
        ≡ record { items = child ∷ children; error = none }
      → All (λ c. changes_metadata id c ≡ false) between
      → let later = between ++ (delete_nfs_volume env fuel id h).1 in
        (delete_ancestors env (suc again) id later).1
        ≡ Call.get_file_systems_by_parent_id id ∷ Call.get_metadata id ∷ later
  delete_nfs_volume_unmarked adds keeps fuel again h between fs child children
        (keys, read, none_yet) f u c untouched =
      let first : History = Call.get_file_system_by_id id ∷ h in
      let second : History = Call.get_file_systems_by_parent_id id ∷ first in
      let unmarked : IsUnmarked second = (
        keys,
        keeps first (Call.get_file_systems_by_parent_id id) refl
            ∙ keeps h (Call.get_file_system_by_id id) refl
            ∙ read,
        none_yet,
      ) in
      let (after, put, none_then) = IsUnmarked-put adds second unmarked in
      rw (nfs_kept fuel h fs child children f u c) (
        ancestor_stays again (between ++ kept h)
          (after, kept_between keeps between (kept h) untouched ∙ put, none_then))
