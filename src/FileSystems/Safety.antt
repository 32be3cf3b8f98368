-- ===== src/FileSystems/Safety.antt =====
-- Which file systems DeleteParentFileSystem deletes.
use infinibox_csi_driver.Prelude.{
  ℕ, zero, suc, ◌≡◌, refl, Bool, true, false, none, List, [], ◌∷◌, any, Bool-cases, inl, inr,
}
use infinibox_csi_driver.Prelude.Int.{ℤ, pos, int_eq}
use infinibox_csi_driver.Strings.{Str, str_eq}
use infinibox_csi_driver.Exec.{Answer, ok, err}
use infinibox_csi_driver.Params.{to_be_deleted}
use infinibox_csi_driver.Ibox.{Call, FileSystem, Listing, Env, History}
use infinibox_csi_driver.Ibox.Client.{M}
use infinibox_csi_driver.Ibox.Safety.{Once, now, before, Always, keeps-bind, keeps-listing}
use infinibox_csi_driver.FileSystems.Complete.{delete_complete_keeps}
use infinibox_csi_driver.FileSystems.{
  same_error, delete_complete, delete_ready, delete_marked, delete_known, delete_ancestors,
}

module _ (env : Env) where
  -- The call read the metadata of file system `j`, and found the mark of an earlier deletion.
  abbrev pub ReadMark : ℤ → History → Call → Type 0
  ReadMark j h c =
      (keys : List Str) × (c ≡ Call.get_metadata j)
      × (env.get_metadata h j ≡ ok keys)
      × (any (str_eq to_be_deleted) keys ≡ true)

  -- The call listed the children of file system `j` without error, and there is none.
  abbrev pub ReadNoChildren : ℤ → History → Call → Type 0
  ReadNoChildren j h c =
      (c ≡ Call.get_file_systems_by_parent_id j)
      × ((env.get_file_systems_by_parent_id h j).items ≡ [])
      × ((env.get_file_systems_by_parent_id h j).error ≡ none)

  -- Both calls came before, as far as the history goes.
  abbrev pub MayDelete : ℤ → History → Type 0
  MayDelete j h = Once (ReadMark j) h × Once (ReadNoChildren j) h

  abbrev pub IsMarkChecked : History → Call → Type 0
  IsMarkChecked h (Call.delete_file_system j) = MayDelete j h
  IsMarkChecked h _ = Unit

  later : {j : ℤ} {h : History} {c : Call} → MayDelete j h → MayDelete j (c ∷ h)
  later (m, n) = (before m, before n)

  complete_keeps :
      (j : ℤ) (h : History)
      → MayDelete j h
      → Always IsMarkChecked h
      → Always IsMarkChecked (delete_complete env j h).1
  complete_keeps j =
      delete_complete_keeps env j IsMarkChecked (MayDelete j) (λ h c m. later m) (λ h. tt)
        (λ h i. tt) (λ h. tt) (λ h m. m)

  module _ (delete_parent : ℤ → M (Unit {0}))
      (keeps : (i : ℤ) (h : History)
        → Always IsMarkChecked h
        → Always IsMarkChecked (delete_parent i h).1) where
    ready_keeps :
        (j : ℤ) (r : Answer FileSystem) (h : History)
        → MayDelete j h
        → Always IsMarkChecked h
        → Always IsMarkChecked (delete_ready env delete_parent j r h).1
    ready_keeps j (err e) h m a = a
    ready_keeps j (ok fs) h m a =
        keeps-bind IsMarkChecked (delete_complete env j) _ h (complete_keeps j h m a) (λ u h' a'.
          elim (Bool-cases (int_eq fs.parent_id (pos 0))) [
            | inl root ↦ rw root a'
            | inr child ↦ rw child (keeps fs.parent_id h' a')
          ])

    marked_keeps :
        (j : ℤ) (children : List FileSystem) (marked : Bool) (h : History)
        → (children ≡ [] → marked ≡ true → MayDelete j h)
        → Always IsMarkChecked h
        → Always IsMarkChecked (delete_marked env delete_parent j children marked h).1
    marked_keeps j [] true h m a =
        ready_keeps j (env.get_file_system_by_id h j) (Call.get_file_system_by_id j ∷ h)
          (later (m refl refl)) (tt, a)
    marked_keeps j [] false h m a = a
    marked_keeps j (c ∷ cs) marked h m a = a

    known_keeps :
        (j : ℤ) (h : History)
        → Always IsMarkChecked h
        → (r : Answer (List Str)) → env.get_metadata h j ≡ r
        → Always IsMarkChecked (delete_known env delete_parent j r (Call.get_metadata j ∷ h)).1
    known_keeps j h a (err e) q = (tt, a)
    known_keeps j h a (ok keys) q =
        let read : History = Call.get_metadata j ∷ h in
        let children : Listing FileSystem = env.get_file_systems_by_parent_id read j in
        let listed : History = Call.get_file_systems_by_parent_id j ∷ read in
        let marked : Bool = any (str_eq to_be_deleted) keys in
        keeps-listing IsMarkChecked same_error children.items children.error
          (λ cs. delete_marked env delete_parent j cs marked) listed (tt, (tt, a))
          (λ e.
            marked_keeps j children.items marked listed
              (λ none_found mark. (before (now (keys, refl, q, mark)), now (refl, none_found, e)))
              (tt, (tt, a)))

  -- For any appliance and any earlier calls, in whatever way DeleteParentFileSystem ends, every file
  -- system that it deletes (the given one or a parent) had the mark of an earlier deletion when its
  -- metadata was read, and a query for its children had succeeded and found none.
  pub delete_ancestors-IsMarkChecked :
      (fuel : ℕ) (i : ℤ) (h : History)
      → Always IsMarkChecked h
      → Always IsMarkChecked (delete_ancestors env fuel i h).1
  unfolding delete_ancestors
  delete_ancestors-IsMarkChecked zero i h a = a
  delete_ancestors-IsMarkChecked (suc fuel) i h a =
      known_keeps (delete_ancestors env fuel) (delete_ancestors-IsMarkChecked fuel) i h a
        (env.get_metadata h i) refl
