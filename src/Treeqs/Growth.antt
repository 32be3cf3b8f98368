-- ===== src/Treeqs/Growth.antt =====
-- When UpdateTreeqVolume makes a file system larger.
use infinibox_csi_driver.Prelude.{◌≡◌, refl, arith, Bool, List, ◌∷◌, none, Bool-cases, inl, inr}
use infinibox_csi_driver.Prelude.Int.{ℤ, pos, ltb_ℤ, ◌<ℤ◌, ◌+ℤ◌, ◌-ℤ◌}
use infinibox_csi_driver.Strings.{Str}
use infinibox_csi_driver.Exec.{Answer, ok, err}
use infinibox_csi_driver.Ibox.{Call, FileSystem, Treeq, Listing, Env, History}
use infinibox_csi_driver.Ibox.Client.{update_treeq}
use infinibox_csi_driver.Ibox.Safety.{
  Once, now, before, Always, keeps-answer, keeps-or_fail, keeps-listing,
}
use infinibox_csi_driver.FileSystems.{same_error}
use infinibox_csi_driver.Treeqs.{
  total_capacity, grown_size, allowed_size, resize_treeq, resize_in, resize_read,
  update_treeq_volume,
}

module _ (env : Env) (gib_first : Bool) (filesystem treeq capacity : ℤ) (maximum : Str) where
  -- The three reads, and what they answered.
  abbrev pub ReadSystem : FileSystem → History → Call → Type 0
  ReadSystem fs h c =
      (c ≡ Call.get_file_system_by_id filesystem) × (env.get_file_system_by_id h filesystem ≡ ok fs)

  abbrev pub ReadTreeq : Treeq → History → Call → Type 0
  ReadTreeq t h c =
      (c ≡ Call.get_treeq filesystem treeq) × (env.get_treeq h filesystem treeq ≡ ok t)

  abbrev pub ReadTreeqs : List Treeq → History → Call → Type 0
  ReadTreeqs ts h c =
      (c ≡ Call.get_treeqs_by_file_system filesystem)
      × ((env.get_treeqs_by_file_system h filesystem).items ≡ ts)
      × ((env.get_treeqs_by_file_system h filesystem).error ≡ none)

  -- The treeqs would not fit into the file system, and this is the size it needs and may have.
  abbrev pub IsNeeded : ℤ → FileSystem → Treeq → List Treeq → Type 0
  IsNeeded size fs t ts =
      (fs.size <ℤ total_capacity (pos 0) ts +ℤ (capacity -ℤ t.hard_capacity))
      × (size ≡ grown_size fs.size (total_capacity (pos 0) ts) (capacity -ℤ t.hard_capacity))
      × (allowed_size gib_first maximum size ≡ ok tt)

  abbrev pub IsGrowthChecked : History → Call → Type 0
  IsGrowthChecked h (Call.update_file_system j size) =
      (fs : FileSystem) × (t : Treeq) × (ts : List Treeq) × Once (ReadSystem fs) h
      × Once (ReadTreeq t) h
      × Once (ReadTreeqs ts) h
      × IsNeeded size fs t ts
      × (j ≡ filesystem)
  IsGrowthChecked h (Call.update_treeq j t size) =
      (j ≡ filesystem) × (t ≡ treeq) × (size ≡ capacity)
  IsGrowthChecked h _ = Unit

  treeq_keeps :
      (h : History)
      → Always IsGrowthChecked h
      → Always IsGrowthChecked (resize_treeq env gib_first filesystem treeq capacity maximum h).1
  treeq_keeps h a =
      keeps-or_fail IsGrowthChecked (update_treeq env filesystem treeq capacity) same_error h
        ((refl, refl, refl), a)

  in_keeps :
      (fs : FileSystem) (t : Treeq) (ts : List Treeq) (h : History)
      → Once (ReadSystem fs) h
      → Once (ReadTreeq t) h
      → Once (ReadTreeqs ts) h
      → Always IsGrowthChecked h
      → Always IsGrowthChecked
          (resize_in env gib_first filesystem treeq capacity maximum fs t ts h).1
  in_keeps fs t ts h rs rt rts a =
      let total : ℤ = total_capacity (pos 0) ts in
      let need : ℤ = capacity -ℤ t.hard_capacity in
      let size : ℤ = grown_size fs.size total need in
      elim (Bool-cases (ltb_ℤ fs.size (total +ℤ need))) [
        | inl short ↦ rw short (
            keeps-answer IsGrowthChecked same_error (allowed_size gib_first maximum size) _ h a
              (λ u allowed.
                let grown : History = Call.update_file_system filesystem size ∷ h in
                let kept : Always IsGrowthChecked grown =
                  ((fs, t, ts, rs, rt, rts, (ground (arith, short), refl, allowed), refl), a) in
                keeps-answer IsGrowthChecked same_error (env.update_file_system h filesystem size) _
                  grown kept (λ v _. treeq_keeps grown kept)))
        | inr enough ↦ rw enough (treeq_keeps h a)
      ]

  read_keeps :
      (fs : FileSystem) (h : History)
      → Once (ReadSystem fs) h
      → Always IsGrowthChecked h
      → (r : Answer Treeq) → env.get_treeq h filesystem treeq ≡ r
      → Always IsGrowthChecked
          (resize_read env gib_first filesystem treeq capacity maximum fs r
            (Call.get_treeq filesystem treeq ∷ h)).1
  read_keeps fs h rs a (err e) q = ground (arith, a)
  read_keeps fs h rs a (ok t) q =
      let read : History = Call.get_treeq filesystem treeq ∷ h in
      let treeqs : Listing Treeq = env.get_treeqs_by_file_system read filesystem in
      let listed : History = Call.get_treeqs_by_file_system filesystem ∷ read in
      keeps-listing IsGrowthChecked same_error treeqs.items treeqs.error
        (resize_in env gib_first filesystem treeq capacity maximum fs t) listed (tt, (tt, a))
        (λ e.
          in_keeps fs t treeqs.items listed (before (before rs)) (before (now (refl, q)))
            (now (refl, refl, e)) (tt, (tt, a)))

  -- For any appliance and any earlier calls, in whatever way UpdateTreeqVolume ends, it gives the
  -- treeq the requested capacity and no other, and it changes the size of the file system only after
  -- the file system, the treeq and all its treeqs were read, if they would not fit with the new
  -- capacity, and then to the size that follows from what was read, which the maximum of the storage
  -- class allows.
  pub update_treeq_volume-IsGrowthChecked :
      (h : History)
      → Always IsGrowthChecked h
      → Always IsGrowthChecked
          (update_treeq_volume env gib_first filesystem treeq capacity maximum h).1
  unfolding update_treeq_volume
  update_treeq_volume-IsGrowthChecked h a =
      let read : History = Call.get_file_system_by_id filesystem ∷ h in
      keeps-answer IsGrowthChecked same_error (env.get_file_system_by_id h filesystem) _ read
        (tt, a)
        (λ fs q.
          read_keeps fs read (now (refl, q)) (tt, a) (env.get_treeq read filesystem treeq) refl)
