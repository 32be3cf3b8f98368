-- ===== src/FileSystems/Termination.antt =====
-- DeleteParentFileSystem ends.
use infinibox_csi_driver.Prelude.{
  ℕ, zero, suc, ◌<◌, ◌≡◌, ◌≢◌, refl, arith, Bool, true, false, Option, none, some, List, [], ◌∷◌,
  any, Bool-cases, inl, inr,
}
use infinibox_csi_driver.Prelude.Int.{ℤ, pos, int_eq, int_eq_iff}
use infinibox_csi_driver.Strings.{Str, lit, str_eq, contains}
use infinibox_csi_driver.Exec.{Answer, ok, err, Err}
use infinibox_csi_driver.Params.{to_be_deleted}
use infinibox_csi_driver.Ibox.{Call, FileSystem, Export, Listing, Env, History}
use infinibox_csi_driver.Ibox.Client.{M, get_file_systems_by_parent_id, list_or_fail}
use infinibox_csi_driver.Ibox.Ending.{Ends, Ends-bind, Ends-answer}
use infinibox_csi_driver.FileSystems.{
  same_error, after_export, delete_exports, listed_exports, metadata_deleted, delete_complete,
  delete_ready, delete_marked, delete_known, delete_ancestors,
}

module _ (env : Env) where
  -- File systems have ranks that fall from one to its parent.
  abbrev pub IsRank : (ℤ → ℕ) → Type 0
  IsRank rank =
      (h : History) (i : ℤ) (fs : FileSystem)
      → env.get_file_system_by_id h i ≡ ok fs
      → fs.parent_id ≢ pos 0
      → rank fs.parent_id < rank i

  export-Ends :
      (rest : M (Unit {0})) (h : History)
      → Ends (rest h).0
      → (r : Answer (Unit {0})) → Ends (after_export env r rest h).0
  export-Ends rest h e (ok u) = e
  export-Ends rest h e (err x) = elim (Bool-cases x.is_not_found) [
    | inl gone ↦ rw gone tt
    | inr other ↦ rw other e
  ]

  listed-Ends :
      (items : List Export) (o : Option Err) (h : History) → Ends (listed_exports env items o h).0
  listed-Ends items none h = tt
  listed-Ends items (some e) h = elim (Bool-cases (contains e.text (lit "EXPORT_NOT_FOUND"))) [
    | inl none_found ↦ rw none_found tt
    | inr failed ↦ rw failed tt
  ]

  metadata-Ends : (r : Answer (Unit {0})) (h : History) → Ends (metadata_deleted env r h).0
  metadata-Ends (ok u) h = tt
  metadata-Ends (err e) h =
      elim (Bool-cases (contains e.text (lit "METADATA_IS_NOT_SUPPORTED_FOR_ENTITY"))) [
        | inl unsupported ↦ rw unsupported tt
        | inr failed ↦ rw failed tt
      ]

  listing-Ends :
      (id : ℤ) (h : History)
      → Ends (list_or_fail (get_file_systems_by_parent_id env id) same_error h).0
  listing-Ends id h = ground arith

  exports-Ends : (es : List Export) (h : History) → Ends (delete_exports env es h).0
  exports-Ends [] h = tt
  exports-Ends (e ∷ es) h =
      export-Ends (delete_exports env es) (Call.delete_export e.id ∷ h)
        (exports-Ends es (Call.delete_export e.id ∷ h)) (env.delete_export h e.id)

  complete-Ends : (id : ℤ) (h : History) → Ends (delete_complete env id h).0
  unfolding delete_complete
  complete-Ends id h =
      let listing : Listing Export = env.get_exports_by_file_system_id h id in
      Ends-bind (listed_exports env listing.items listing.error) _
        (Call.get_exports_by_file_system_id id ∷ h)
        (listed-Ends listing.items listing.error (Call.get_exports_by_file_system_id id ∷ h))
        (λ es h1. Ends-bind (delete_exports env es) _ h1 (exports-Ends es h1) (λ u h2.
          Ends-bind (metadata_deleted env (env.delete_metadata h2 id)) _
            (Call.delete_metadata id ∷ h2)
            (metadata-Ends (env.delete_metadata h2 id) (Call.delete_metadata id ∷ h2))
            (λ v h3.
              Ends-answer same_error (env.delete_file_system h3 id)
                (Call.delete_file_system id ∷ h3))))

  ready-Ends :
      (delete : ℤ → M (Unit {0})) (id : ℤ) (r : Answer FileSystem) (h : History)
      → ((fs : FileSystem)
          → r ≡ ok fs
          → fs.parent_id ≢ pos 0
          → (k : History) → Ends (delete fs.parent_id k).0)
      → Ends (delete_ready env delete id r h).0
  ready-Ends delete id (err e) h ends = tt
  ready-Ends delete id (ok fs) h ends =
      Ends-bind (delete_complete env id) _ h (complete-Ends id h) (λ u k.
        elim (Bool-cases (int_eq fs.parent_id (pos 0))) [
          | inl root ↦ rw root tt
          | inr child ↦ rw child (
              ends fs refl (λ e. absurd (ground (arith, child, int_eq_iff fs.parent_id (pos 0), e)))
                k)
        ])

  marked-Ends :
      (delete : ℤ → M (Unit {0})) (id : ℤ) (children : List FileSystem) (marked : Bool)
      (h : History)
      → ((fs : FileSystem)
          → env.get_file_system_by_id h id ≡ ok fs
          → fs.parent_id ≢ pos 0
          → (k : History) → Ends (delete fs.parent_id k).0)
      → Ends (delete_marked env delete id children marked h).0
  marked-Ends delete id [] true h ends =
      ready-Ends delete id (env.get_file_system_by_id h id) (Call.get_file_system_by_id id ∷ h) ends
  marked-Ends delete id [] false h ends = tt
  marked-Ends delete id (c ∷ cs) marked h ends = tt

  known-Ends :
      (delete : ℤ → M (Unit {0})) (id : ℤ) (r : Answer (List Str)) (h : History)
      → ((k : History) (fs : FileSystem)
          → env.get_file_system_by_id k id ≡ ok fs
          → fs.parent_id ≢ pos 0
          → (j : History) → Ends (delete fs.parent_id j).0)
      → Ends (delete_known env delete id r h).0
  known-Ends delete id (err e) h ends = tt
  known-Ends delete id (ok keys) h ends =
      Ends-bind (list_or_fail (get_file_systems_by_parent_id env id) same_error) _ h
        (listing-Ends id h)
        (λ children k. marked-Ends delete id children (any (str_eq to_be_deleted) keys) k (ends k))

  -- If no file system is its own ancestor, DeleteParentFileSystem ends: a chain of parents of rank
  -- `rank i` needs at most `rank i + 1` nested calls.
  pub delete_ancestors-Ends :
      (rank : ℤ → ℕ)
      → IsRank rank
      → (fuel : ℕ) (i : ℤ) (h : History) → rank i < fuel
      → Ends (delete_ancestors env fuel i h).0
  unfolding delete_ancestors
  delete_ancestors-Ends rank falls zero i h enough = absurd (omega arith)
  delete_ancestors-Ends rank falls (suc fuel) i h enough =
      known-Ends (delete_ancestors env fuel) i (env.get_metadata h i) (Call.get_metadata i ∷ h)
        (λ k fs q n j.
          delete_ancestors-Ends rank falls fuel fs.parent_id j (omega (arith, falls k i fs q n)))
