-- ===== src/Volumes/Delete/Safety.antt =====
-- Which volumes DeleteVolume deletes.
use infinibox_csi_driver.Prelude.{
  ℕ, zero, suc, ◌≡◌, ◌≢◌, refl, arith, [], ◌∷◌, Bool-cases, list-cases, inl, inr,
}
use infinibox_csi_driver.Prelude.Int.{ℤ}
use infinibox_csi_driver.Strings.{str_eq, str_eq_iff}
use infinibox_csi_driver.Exec.{Answer, ok, err}
use infinibox_csi_driver.Params.{locked_state}
use infinibox_csi_driver.Ibox.{Call, Volume, Env, History}
use infinibox_csi_driver.Ibox.Client.{M}
use infinibox_csi_driver.Ibox.Safety.{Once, now, before, Always}
use infinibox_csi_driver.Volumes.Delete.{
  delete_marked_parent, delete_childless, delete_unlocked, delete_found, delete_chain,
}

module _ (env : Env) where
  -- The call read volume `j`, and it was not locked.
  abbrev pub ReadUnlocked : ℤ → History → Call → Type 0
  ReadUnlocked j h c =
      (i : ℤ) × (v : Volume) × (c ≡ Call.get_volume i)
      × (env.get_volume h i ≡ ok v)
      × (v.id ≡ j)
      × (v.lock_state ≢ locked_state)

  -- The call asked for the children of volume `j`, and none was found.
  abbrev pub ReadChildless : ℤ → History → Call → Type 0
  ReadChildless j h c =
      (c ≡ Call.get_volumes_by_parent_id j) × ((env.get_volumes_by_parent_id h j).items ≡ [])

  -- A volume is deleted only after it was read unlocked and without children.
  abbrev pub IsChecked : History → Call → Type 0
  IsChecked h (Call.delete_volume j) = Once (ReadUnlocked j) h × Once (ReadChildless j) h
  IsChecked h _ = Unit

  module _ (delete : ℤ → M (Unit {0}))
      (keeps : (i : ℤ) (h : History) → Always IsChecked h → Always IsChecked (delete i h).1) where
    keeps_parent :
        (p : ℤ) (h : History)
        → Always IsChecked h
        → Always IsChecked (delete_marked_parent env delete p h).1
    keeps_parent p h a = ground (arith, keeps p (Call.get_metadata p ∷ h))

    keeps_childless :
        (v : Volume) (h : History)
        → Once (ReadUnlocked v.id) h
        → Once (ReadChildless v.id) h
        → Always IsChecked h
        → Always IsChecked (delete_childless env delete v h).1
    keeps_childless v h u n a =
        let unmarked : History = Call.delete_metadata v.id ∷ h in
        let deleted : History = Call.delete_volume v.id ∷ unmarked in
        let kept : Always IsChecked deleted = ((before u, before n), (tt, a)) in
        ground (arith, keeps_parent v.parent_id deleted kept)

    keeps_unlocked :
        (v : Volume) (h : History)
        → Once (ReadUnlocked v.id) h
        → Always IsChecked h
        → Always IsChecked (delete_unlocked env delete v h).1
    keeps_unlocked v h u a =
        let listed : History = Call.get_volumes_by_parent_id v.id ∷ h in
        elim (list-cases (env.get_volumes_by_parent_id h v.id).items) [
          | inl none_found ↦
              ground (arith, keeps_childless v listed (before u) (now (refl, none_found)) (tt, a))
          | inr some_found ↦ ground arith
        ]

    keeps_found :
        (i : ℤ) (h : History)
        → Always IsChecked h
        → Always IsChecked (delete_found env delete (env.get_volume h i) (Call.get_volume i ∷ h)).1
    keeps_found i h a = answered (env.get_volume h i) refl
      where
        read : History
        read = Call.get_volume i ∷ h

        answered :
            (r : Answer Volume)
            → env.get_volume h i ≡ r
            → Always IsChecked (delete_found env delete r read).1
        answered (err e) q = ground arith
        answered (ok v) q = elim (Bool-cases (str_eq v.lock_state locked_state)) [
          | inl locked ↦ rw locked (tt, a)
          | inr unlocked ↦ rw unlocked (
              keeps_unlocked v read
                (now (
                  i,
                  v,
                  refl,
                  q,
                  refl,
                  λ e. absurd (ground (arith, str_eq_iff v.lock_state locked_state)),
                ))
                (tt, a))
        ]

  -- For any appliance and any earlier calls, in whatever way DeleteVolume ends, every volume that it
  -- deletes (the given one or a parent) was read before, by a call that answered it unlocked, and the
  -- query for its children had returned none.
  pub delete_chain-IsChecked :
      (fuel : ℕ) (i : ℤ) (h : History)
      → Always IsChecked h
      → Always IsChecked (delete_chain env fuel i h).1
  unfolding delete_chain
  delete_chain-IsChecked zero i h a = a
  delete_chain-IsChecked (suc fuel) i h a =
      keeps_found (delete_chain env fuel) (delete_chain-IsChecked fuel) i h a
