-- ===== src/FileSystems/Complete.antt =====
-- What DeleteFileSystemComplete keeps, whatever allows the deletion.
use infinibox_csi_driver.Prelude.{Option, none, some, List, [], ◌∷◌, Bool-cases, inl, inr}
use infinibox_csi_driver.Prelude.Int.{ℤ}
use infinibox_csi_driver.Strings.{lit, contains}
use infinibox_csi_driver.Exec.{Answer, ok, err, Err, or_fail}
use infinibox_csi_driver.Ibox.{Call, Export, Listing, Env, History}
use infinibox_csi_driver.Ibox.Client.{M, delete_file_system}
use infinibox_csi_driver.Ibox.Safety.{Always, keeps-or_fail, through-bind}
use infinibox_csi_driver.FileSystems.{
  same_error, after_export, delete_exports, listed_exports, metadata_deleted, delete_complete,
}

module _ (env : Env) (j : ℤ) (P : History → Call → Type 0) (May : History → Type 0)
    (later : (h : History) (c : Call) → May h → May (c ∷ h))
    (exports : (h : History) → P h (Call.get_exports_by_file_system_id j))
    (export : (h : History) (i : ℤ) → P h (Call.delete_export i))
    (metadata : (h : History) → P h (Call.delete_metadata j))
    (system : (h : History) → May h → P h (Call.delete_file_system j)) where
  -- What holds until the file system is deleted.
  abbrev Ready : History → Type 0
  Ready h = May h × Always P h

  Ready-Always : (h : History) → Ready h → Always P h
  Ready-Always h r = r.1

  export-Ready :
      (rest : M (Unit {0})) (h : History)
      → Ready h
      → Ready (rest h).1
      → (r : Answer (Unit {0})) → Ready (after_export env r rest h).1
  export-Ready rest h stop next (ok u) = next
  export-Ready rest h stop next (err x) = elim (Bool-cases x.is_not_found) [
    | inl gone ↦ rw gone stop
    | inr other ↦ rw other next
  ]

  exports-Ready : (es : List Export) (h : History) → Ready h → Ready (delete_exports env es h).1
  exports-Ready [] h r = r
  exports-Ready (e ∷ es) h (m, a) =
      let deleted : History = Call.delete_export e.id ∷ h in
      let kept : Ready deleted = (later h (Call.delete_export e.id) m, (export h e.id, a)) in
      export-Ready (delete_exports env es) deleted kept (exports-Ready es deleted kept)
        (env.delete_export h e.id)

  listed-Ready :
      (items : List Export) (o : Option Err) (h : History)
      → Ready h
      → Ready (listed_exports env items o h).1
  listed-Ready items none h r = r
  listed-Ready items (some e) h r = elim (Bool-cases (contains e.text (lit "EXPORT_NOT_FOUND"))) [
    | inl none_found ↦ rw none_found r
    | inr failed ↦ rw failed r
  ]

  metadata-Ready :
      (r : Answer (Unit {0})) (h : History) → Ready h → Ready (metadata_deleted env r h).1
  metadata-Ready (ok u) h r = r
  metadata-Ready (err e) h r =
      elim (Bool-cases (contains e.text (lit "METADATA_IS_NOT_SUPPORTED_FOR_ENTITY"))) [
        | inl unsupported ↦ rw unsupported r
        | inr failed ↦ rw failed r
      ]

  system_keeps :
      (h : History) → Ready h → Always P (or_fail (delete_file_system env j) same_error h).1
  system_keeps h (m, a) = keeps-or_fail P (delete_file_system env j) same_error h (system h m, a)

  pub delete_complete_keeps :
      (h : History) → May h → Always P h → Always P (delete_complete env j h).1
  unfolding delete_complete
  delete_complete_keeps h m a =
      let listing : Listing Export = env.get_exports_by_file_system_id h j in
      let listed : History = Call.get_exports_by_file_system_id j ∷ h in
      through-bind (Ready) (Always P) (listed_exports env listing.items listing.error) _ listed
        (listed-Ready listing.items listing.error listed
          (later h (Call.get_exports_by_file_system_id j) m, (exports h, a)))
        Ready-Always
        (λ es h1 r1.
          through-bind (Ready) (Always P) (delete_exports env es) _ h1 (exports-Ready es h1 r1)
            Ready-Always
            (λ u h2 (m2, a2).
              through-bind (Ready) (Always P) (metadata_deleted env (env.delete_metadata h2 j)) _
                (Call.delete_metadata j ∷ h2)
                (metadata-Ready (env.delete_metadata h2 j) (Call.delete_metadata j ∷ h2)
                  (later h2 (Call.delete_metadata j) m2, (metadata h2, a2)))
                Ready-Always (λ v h3 r3. system_keeps h3 r3)))
