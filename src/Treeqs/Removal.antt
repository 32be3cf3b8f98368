-- ===== src/Treeqs/Removal.antt =====
-- Which treeqs and file systems DeleteTreeqVolume deletes.
use infinibox_csi_driver.Prelude.{
  ◌≡◌, refl, arith, none, ◌∷◌, length, ◌∙◌, Option-cases, Bool-cases, inl, inr,
}
use infinibox_csi_driver.Prelude.Int.{ℤ, pos, int_eq, int_eq_iff, ltb_ℤ, ◌≤ℤ◌, ◌-ℤ◌}
use infinibox_csi_driver.Exec.{Answer, ok, err, done, pure, from_answer, throw, attempt, ◌>>=◌}
use infinibox_csi_driver.Ibox.{Call, Treeq, Listing, Env, History}
use infinibox_csi_driver.Ibox.Safety.{
  Once, now, before, Always, keeps-bind, keeps-answer, keeps-listing, keeps-result, keeps-attempt,
}
use infinibox_csi_driver.FileSystems.{same_error}
use infinibox_csi_driver.FileSystems.Complete.{delete_complete_keeps}
use infinibox_csi_driver.Treeqs.{
  Action, adjusted, count_treeqs, store_count, update_treeq_count, treeq_deleted, delete_unused,
  delete_read, delete_treeq_volume,
}

module _ (env : Env) (filesystem treeq : ℤ) where
  -- The call read the treeq, and it holds no data.
  abbrev pub ReadUnused : History → Call → Type 0
  ReadUnused h c =
      (t : Treeq) × (c ≡ Call.get_treeq filesystem treeq)
      × (env.get_treeq h filesystem treeq ≡ ok t)
      × (t.used_capacity ≤ℤ pos 0)

  -- The call listed the file system's treeqs without error, and one less than their number is zero.
  abbrev pub ReadLast : History → Call → Type 0
  ReadLast h c =
      (c ≡ Call.get_treeqs_by_file_system filesystem)
      × ((env.get_treeqs_by_file_system h filesystem).error ≡ none)
      × (pos (length (env.get_treeqs_by_file_system h filesystem).items) -ℤ pos 1 ≡ pos 0)

  -- The call deleted the treeq.
  abbrev pub Deleted : History → Call → Type 0
  Deleted h c =
      (c ≡ Call.delete_treeq filesystem treeq) × (env.delete_treeq h filesystem treeq ≡ ok tt)

  abbrev pub IsRemovalChecked : History → Call → Type 0
  IsRemovalChecked h (Call.delete_treeq j t) = (j ≡ filesystem) × (t ≡ treeq) × Once ReadUnused h
  IsRemovalChecked h (Call.delete_file_system j) =
      (j ≡ filesystem) × Once ReadUnused h × Once ReadLast h × Once Deleted h
  IsRemovalChecked h _ = Unit

  abbrev MayRemove : History → Type 0
  MayRemove h = Once ReadUnused h × Once ReadLast h × Once Deleted h

  store_keeps :
      (n : ℤ) (h : History)
      → Always IsRemovalChecked h
      → Always IsRemovalChecked (store_count env filesystem n h).1
  store_keeps n h a =
      keeps-answer IsRemovalChecked same_error (env.put_treeq_count h filesystem n) _
        (Call.put_treeq_count filesystem n ∷ h) (tt, a) (λ u _. (tt, a))

  recount_keeps :
      (action : Action) (h : History)
      → Always IsRemovalChecked h
      → Always IsRemovalChecked (update_treeq_count env filesystem action (pos 0) h).1
  unfolding update_treeq_count
  recount_keeps action h a =
      let treeqs : Listing Treeq = env.get_treeqs_by_file_system h filesystem in
      let listed : History = Call.get_treeqs_by_file_system filesystem ∷ h in
      keeps-bind IsRemovalChecked (count_treeqs env filesystem) _ h
        (keeps-listing IsRemovalChecked same_error treeqs.items treeqs.error
          (λ ts. pure (pos (length ts))) listed (tt, a) (λ e. (tt, a)))
        (λ n. store_keeps (adjusted action n))

  deleted_keeps :
      (count : ℤ) (h : History)
      → Once ReadUnused h
      → (count ≡ pos 0 → Once ReadLast h)
      → Always IsRemovalChecked h
      → (r : Answer (Unit {0})) → env.delete_treeq h filesystem treeq ≡ r
      → Always IsRemovalChecked
          (treeq_deleted env filesystem treeq count r (Call.delete_treeq filesystem treeq ∷ h)).1
  deleted_keeps count h u l a (err e) q =
      let tried : History = Call.delete_treeq filesystem treeq ∷ h in
      keeps-bind IsRemovalChecked
        (attempt (update_treeq_count env filesystem Action.increment (pos 0))) (λ r. throw e) tried
        (keeps-attempt IsRemovalChecked (update_treeq_count env filesystem Action.increment (pos 0))
          tried (recount_keeps Action.increment tried ((refl, refl, u), a)))
        (λ r h' a'. a')
  deleted_keeps count h u l a (ok v) q = elim (Bool-cases (int_eq count (pos 0))) [
    | inl last ↦
        let gone : History = Call.delete_treeq filesystem treeq ∷ h in
        let counted : Once ReadLast h = l ((int_eq_iff count (pos 0)).0 last) in
        rw last (
          delete_complete_keeps env filesystem IsRemovalChecked MayRemove
            (λ k c (x, y, z). (before x, before y, before z)) (λ k. tt) (λ k i. tt) (λ k. tt)
            (λ k (x, y, z). (refl, x, y, z)) gone (before u, before counted, now (refl, q))
            ((refl, refl, u), a))
    | inr more ↦ rw more ((refl, refl, u), a)
  ]

  abbrev recounted : History → History
  recounted h = (update_treeq_count env filesystem Action.decrement (pos 0) h).1

  abbrev listed : History → History
  listed h = Call.get_treeqs_by_file_system filesystem ∷ h

  abbrev one_less : History → ℤ
  one_less h = pos (length (env.get_treeqs_by_file_system h filesystem).items) -ℤ pos 1

  stored-Once :
      (Q : History → Call → Type 0) (n : ℤ) (h : History) (r : Answer (Unit {0}))
      → Once Q h
      → Once Q ((from_answer same_error r >>= (λ u. pure n)) h).1
  stored-Once Q n h (ok u) q = q
  stored-Once Q n h (err e) q = q

  stored_value :
      (n : ℤ) (h : History) (r : Answer (Unit {0})) (count : ℤ)
      → ((from_answer same_error r >>= (λ u. pure n)) h).0 ≡ done count
      → n ≡ count
  stored_value n h (ok u) count e = cc
  stored_value n h (err x) count e = absurd (cc)

  recounted-Once :
      (h : History)
      → Once ReadUnused h
      → Once ReadUnused (update_treeq_count env filesystem Action.decrement (pos 0) h).1
  unfolding update_treeq_count
  recounted-Once h u = elim (Option-cases (env.get_treeqs_by_file_system h filesystem).error) [
    | inl none_failed ↦ rw none_failed (
        stored-Once ReadUnused (one_less h)
          (Call.put_treeq_count filesystem (one_less h) ∷ listed h)
          (env.put_treeq_count (listed h) filesystem (one_less h)) (before (before u)))
    | inr (e, failed) ↦ rw failed (before u)
  ]

  recounted_last :
      (h : History) (count : ℤ)
      → (update_treeq_count env filesystem Action.decrement (pos 0) h).0 ≡ done count
      → count ≡ pos 0
      → Once ReadLast (update_treeq_count env filesystem Action.decrement (pos 0) h).1
  unfolding update_treeq_count
  recounted_last h count r zero =
      elim (Option-cases (env.get_treeqs_by_file_system h filesystem).error) [
        | inl none_failed ↦
            let stored : History = Call.put_treeq_count filesystem (one_less h) ∷ listed h in
            let answer : Answer (Unit {0}) =
              env.put_treeq_count (listed h) filesystem (one_less h) in
            let n : one_less h ≡ count =
              stored_value (one_less h) stored answer count (rw none_failed at r) in
            rw none_failed (
              stored-Once ReadLast (one_less h) stored answer
                (before (now (refl, none_failed, n ∙ zero))))
        | inr (e, failed) ↦ absurd (ground (arith, failed, r))
      ]

  unused_keeps :
      (h : History)
      → Once ReadUnused h
      → Always IsRemovalChecked h
      → Always IsRemovalChecked (delete_unused env filesystem treeq h).1
  unfolding update_treeq_count
  unused_keeps h u a =
      keeps-result IsRemovalChecked (update_treeq_count env filesystem Action.decrement (pos 0)) _ h
        (recount_keeps Action.decrement h a)
        (λ count r.
          deleted_keeps count (recounted h) (recounted-Once h u)
            (λ zero. recounted_last h count r zero) (recount_keeps Action.decrement h a)
            (env.delete_treeq (recounted h) filesystem treeq) refl)

  read_keeps :
      (h : History)
      → Always IsRemovalChecked h
      → (r : Answer Treeq) → env.get_treeq h filesystem treeq ≡ r
      → Always IsRemovalChecked
          (delete_read env filesystem treeq r (Call.get_treeq filesystem treeq ∷ h)).1
  read_keeps h a (err e) q = (tt, a)
  read_keeps h a (ok t) q = elim (Bool-cases (ltb_ℤ (pos 0) t.used_capacity)) [
    | inl used ↦ rw used (tt, a)
    | inr unused ↦ rw unused (
        unused_keeps (Call.get_treeq filesystem treeq ∷ h)
          (now (t, refl, q, ground (arith, unused))) (tt, a))
  ]

  -- For any appliance and any earlier calls that keep to this, in whatever way DeleteTreeqVolume ends,
  -- the only treeq it deletes is the given one of the given file system, after that treeq was read
  -- without data in it; and the only file system it deletes is the given one, after that, after the
  -- treeqs of it were counted and one less is zero, and after the treeq was deleted.
  pub delete_treeq_volume-IsRemovalChecked :
      (h : History)
      → Always IsRemovalChecked h
      → Always IsRemovalChecked (delete_treeq_volume env filesystem treeq h).1
  unfolding delete_treeq_volume
  delete_treeq_volume-IsRemovalChecked h a = read_keeps h a (env.get_treeq h filesystem treeq) refl
