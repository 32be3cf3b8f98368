-- ===== src/Volumes/Delete/Termination.antt =====
-- DeleteVolume ends, and what it does to a volume whose children are not known.
use infinibox_csi_driver.Prelude.{
  ℕ, zero, suc, ◌<◌, ◌≡◌, ◌≢◌, refl, arith, Bool, true, false, [], ◌∷◌, some, Bool-cases, inl, inr,
}
use infinibox_csi_driver.Prelude.Int.{ℤ, pos, int_eq, int_eq_iff}
use infinibox_csi_driver.Strings.{str_eq_iff}
use infinibox_csi_driver.Exec.{Answer, ok, err, Err, done, unfinished}
use infinibox_csi_driver.Params.{locked_state}
use infinibox_csi_driver.Ibox.{Call, Volume, Env, History}
use infinibox_csi_driver.Ibox.Client.{M}
use infinibox_csi_driver.Volumes.Delete.{
  delete_marked_parent, delete_childless, delete_unlocked, delete_found, delete_chain,
}

not-false-true : {b : Bool} → b ≡ false → b ≢ true
not-false-true p q = cc

module _ (env : Env) where
  -- Volumes have ranks that fall from a volume to its parent: there is no cycle of parents.
  abbrev pub IsRank : (ℤ → ℕ) → Type 0
  IsRank rank =
      (h : History) (i : ℤ) (v : Volume)
      → env.get_volume h i ≡ ok v
      → v.parent_id ≢ pos 0
      → rank v.parent_id < rank i

  module _ (delete : ℤ → M (Unit {0})) (v : Volume)
      (ends : v.parent_id ≢ pos 0 → (h : History) → (delete v.parent_id h).0 ≢ unfinished) where
    parent_ends :
        (h : History)
        → v.parent_id ≢ pos 0
        → (delete_marked_parent env delete v.parent_id h).0 ≢ unfinished
    parent_ends h n = ground (arith, ends n (Call.get_metadata v.parent_id ∷ h))

    childless_ends : (h : History) → (delete_childless env delete v h).0 ≢ unfinished
    childless_ends h = elim (Bool-cases (int_eq v.parent_id (pos 0))) [
      | inl root ↦ rw root (ground arith)
      | inr child ↦
          let n : v.parent_id ≢ pos 0 =
            λ e. not-false-true child ((int_eq_iff v.parent_id (pos 0)).1 e) in
          let p = parent_ends (Call.delete_volume v.id ∷ Call.delete_metadata v.id ∷ h) n in
          rw child (ground (arith, p))
    ]

    unlocked_ends : (h : History) → (delete_unlocked env delete v h).0 ≢ unfinished
    unlocked_ends h = ground (arith, childless_ends (Call.get_volumes_by_parent_id v.id ∷ h))

    found_ends : (h : History) → (delete_found env delete (ok v) h).0 ≢ unfinished
    found_ends h = ground (arith, unlocked_ends h)

  answer_ends :
      (delete : ℤ → M (Unit {0})) (h : History) (r : Answer Volume)
      → ((v : Volume)
          → r ≡ ok v
          → v.parent_id ≢ pos 0
          → (k : History) → (delete v.parent_id k).0 ≢ unfinished)
      → (delete_found env delete r h).0 ≢ unfinished
  answer_ends delete h (err e) ends = ground arith
  answer_ends delete h (ok v) ends = found_ends delete v (ends v refl) h

  -- If no volume is its own ancestor, DeleteVolume ends: a chain of parents of rank `rank i` needs
  -- at most `rank i + 1` nested calls.
  pub delete_chain_ends :
      (rank : ℤ → ℕ)
      → IsRank rank
      → (fuel : ℕ) (i : ℤ) (h : History) → rank i < fuel
      → (delete_chain env fuel i h).0 ≢ unfinished
  unfolding delete_chain
  delete_chain_ends rank falls zero i h enough = absurd (omega arith)
  delete_chain_ends rank falls (suc fuel) i h enough =
      answer_ends (delete_chain env fuel) (Call.get_volume i ∷ h) (env.get_volume h i) (λ v q n k.
        delete_chain_ends rank falls fuel v.parent_id k (omega (arith, falls h i v q n)))

  -- If an unlocked volume without parent is read, the query for its children fails before it returned
  -- any, and the calls that delete it succeed, then DeleteVolume deletes it all the same: the error
  -- is dropped and the caller is told that the deletion succeeded.
  pub delete_chain_children_unknown :
      (fuel : ℕ) (i : ℤ) (v : Volume) (e : Err) (h : History)
      → env.get_volume h i ≡ ok v
      → v.lock_state ≢ locked_state
      → v.parent_id ≡ pos 0
      → env.get_volumes_by_parent_id (Call.get_volume i ∷ h) v.id
        ≡ record { items = []; error = some e }
      → env.delete_metadata (Call.get_volumes_by_parent_id v.id ∷ Call.get_volume i ∷ h) v.id
        ≡ ok tt
      → env.delete_volume
          (Call.delete_metadata v.id ∷ Call.get_volumes_by_parent_id v.id ∷ Call.get_volume i ∷ h)
          v.id
        ≡ ok tt
      → delete_chain env (suc fuel) i h ≡ (
        done tt,
        Call.delete_volume v.id
            ∷ Call.delete_metadata v.id
            ∷ Call.get_volumes_by_parent_id v.id
            ∷ Call.get_volume i
            ∷ h,
      )
  unfolding delete_chain
  delete_chain_children_unknown fuel i v e h read unlocked root children unmark delete =
      ground (arith, str_eq_iff v.lock_state locked_state)
