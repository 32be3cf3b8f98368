-- ===== src/Volumes/Hosts/Cleanup.antt =====
-- Which hosts the driver deletes, and which it creates.
use infinibox_csi_driver.Prelude.{
  ◌≡◌, refl, arith, true, Option, none, some, List, [], ◌∷◌, any, is_empty, Bool-cases, list-cases,
  inl, inr,
}
use infinibox_csi_driver.Prelude.Int.{ℤ}
use infinibox_csi_driver.Strings.{Str, str_eq}
use infinibox_csi_driver.Exec.{Answer, ok, err, Code, to_status, wrapping}
use infinibox_csi_driver.Params.{csi_created_host}
use infinibox_csi_driver.Ibox.{Call, Host, Env, History}
use infinibox_csi_driver.Ibox.Client.{M, delete_host}
use infinibox_csi_driver.Ibox.Safety.{Once, now, before, Always, keeps-bind, keeps-wrapping}
use infinibox_csi_driver.Volumes.Hosts.{
  deleted_host, cleaned, without_luns, unmap_volume, host_cleanup, unpublish_volume,
}

module _ (env : Env) where
  -- The call read the metadata of host `j`, and found the driver's mark.
  abbrev pub ReadMarked : ℤ → History → Call → Type 0
  ReadMarked j h c =
      (c ≡ Call.get_metadata j)
      × (keys : List Str) × (env.get_metadata h j ≡ ok keys)
      × (any (str_eq csi_created_host) keys ≡ true)

  -- The call asked for the LUNs of host `j`, and none was found.
  abbrev pub ReadNoLuns : ℤ → History → Call → Type 0
  ReadNoLuns j h c = (c ≡ Call.get_all_lun_by_host j) × ((env.get_all_lun_by_host h j).items ≡ [])

  -- A host is deleted only after its metadata showed that the driver created it, and a query for its
  -- LUNs found none.
  abbrev pub IsHostChecked : History → Call → Type 0
  IsHostChecked h (Call.delete_host j) = Once (ReadMarked j) h × Once (ReadNoLuns j) h
  IsHostChecked h _ = Unit

  deleted_keeps :
      (r : Answer (Unit {0})) (h : History)
      → Always IsHostChecked h
      → Always IsHostChecked (deleted_host env r h).1
  deleted_keeps (ok u) h a = a
  deleted_keeps (err e) h a = ground (arith, a)

  cleanup_checked :
      (j : ℤ) (h : History)
      → Once (ReadNoLuns j) h
      → Always IsHostChecked h
      → Always IsHostChecked (host_cleanup env j h).1
  unfolding host_cleanup
  cleanup_checked j h n a = answered (env.get_metadata h j) refl
    where
      read : History
      read = Call.get_metadata j ∷ h

      answered :
          (r : Answer (List Str))
          → env.get_metadata h j ≡ r
          → Always IsHostChecked (cleaned env j r read).1
      answered (err e) q = (tt, a)
      answered (ok keys) q = elim (Bool-cases (any (str_eq csi_created_host) keys)) [
        | inl marked ↦
            let mark : Once (ReadMarked j) read = now (refl, keys, q, marked) in
            rw marked (
              keeps-bind IsHostChecked (delete_host env j) (deleted_host env) read
                ((mark, before n), (tt, a)) deleted_keeps)
        | inr unmarked ↦ rw unmarked (tt, a)
      ]

  unmap_keeps :
      (host volume : ℤ) (h : History)
      → Always IsHostChecked h
      → Always IsHostChecked (unmap_volume env host volume h).1
  unfolding unmap_volume
  unmap_keeps host volume h a = ground arith

  without_luns_keeps :
      (j : ℤ) (h : History) → Always IsHostChecked h → Always IsHostChecked (without_luns env j h).1
  unfolding host_cleanup
  without_luns_keeps j h a =
      let listed : History = Call.get_all_lun_by_host j ∷ h in
      elim (list-cases (env.get_all_lun_by_host h j).items) [
        | inl none_found ↦ ground (arith, cleanup_checked j listed (now (refl, none_found)) (tt, a))
        | inr some_found ↦ ground arith
      ]

  -- For any appliance and any earlier calls, in whatever way CommonUnpublishVolume ends, a host that
  -- it deletes carried the driver's mark, and the query for its LUNs had returned none.
  pub unpublish_volume-IsHostChecked :
      (host : Option Host) (volume : ℤ) (h : History)
      → Always IsHostChecked h
      → Always IsHostChecked (unpublish_volume env host volume h).1
  unfolding unpublish_volume
  unpublish_volume-IsHostChecked none volume h a = a
  unpublish_volume-IsHostChecked (some host) volume h a = elim (Bool-cases (is_empty host.luns)) [
    | inl e ↦ rw e (without_luns_keeps host.id h a)
    | inr e ↦
        let unmap : M (Unit {0}) =
          wrapping (unmap_volume env host.id volume) (to_status Code.internal) in
        rw e (
          keeps-bind IsHostChecked unmap (λ u. without_luns env host.id) h
            (keeps-wrapping IsHostChecked (unmap_volume env host.id volume)
              (to_status Code.internal) h (unmap_keeps host.id volume h a))
            (λ u. without_luns_keeps host.id))
  ]
