-- ===== src/Service/Replicas/Waiting.antt =====
-- The wait for a consistency group.
use infinibox_csi_driver.Prelude.{ℕ, zero, suc, ◌<◌, ◌≡◌, ◌↔◌, refl, arith, ◌∷◌}
use infinibox_csi_driver.Strings.{Str}
use infinibox_csi_driver.Exec.{Answer, ok, err, done}
use infinibox_csi_driver.Ibox.{Call, ConsistencyGroup, Env, History}
use infinibox_csi_driver.Service.Replicas.{found_group, verify_group}

-- The history after `n` lookups more.
abbrev pub after_lookups : ℕ → Str → History → History
after_lookups zero name h = h
after_lookups (suc n) name h = after_lookups n name (Call.get_consistency_group_by_name name ∷ h)

-- One of the lookups from number `n` on, below the bound, finds the group.
abbrev pub IsFound : Env → (bound : ℕ) → Str → History → Type 0
IsFound env bound name h =
    (n : ℕ) × (n < bound)
    × (group : ConsistencyGroup) × (env.get_consistency_group_by_name (after_lookups n name h) name
        ≡ ok group)

module _ (env : Env) (name : Str) where
  IsFound-sound :
      (tries : ℕ) (h : History) (r : Answer ConsistencyGroup)
      → env.get_consistency_group_by_name h name ≡ r
      → (found_group env tries name r (Call.get_consistency_group_by_name name ∷ h)).0 ≡ done tt
      → IsFound env (suc tries) name h
  unfolding found_group
  IsFound-sound tries h (ok u) q e = (0, omega arith, u, q)
  IsFound-sound zero h (err x) q e = absurd (cc e)
  IsFound-sound (suc tries) h (err x) q e =
      let later : History = Call.get_consistency_group_by_name name ∷ h in
      let (n, below, group, found) =
        IsFound-sound tries later (env.get_consistency_group_by_name later name) refl e in
      (suc n, omega arith, group, found)

  IsFound-complete :
      (tries : ℕ) (h : History) (r : Answer ConsistencyGroup)
      → env.get_consistency_group_by_name h name ≡ r
      → (n : ℕ) (group : ConsistencyGroup) → n < suc tries
      → env.get_consistency_group_by_name (after_lookups n name h) name ≡ ok group
      → (found_group env tries name r (Call.get_consistency_group_by_name name ∷ h)).0 ≡ done tt
  unfolding found_group
  IsFound-complete tries h (ok u) q n group below found = refl
  IsFound-complete tries h (err x) q zero group below found = absurd (cc (q, found))
  IsFound-complete zero h (err x) q (suc n) group below found = absurd (omega arith)
  IsFound-complete (suc tries) h (err x) q (suc n) group below found =
      let later : History = Call.get_consistency_group_by_name name ∷ h in
      IsFound-complete tries later (env.get_consistency_group_by_name later name) refl n group
        (omega arith) found

  -- For any appliance and any earlier calls, the wait for a consistency group succeeds exactly if one of
  -- the first ten lookups finds it, each of which sees the lookups before it.
  pub verify_group_iff :
      (h : History) → ((verify_group env name h).0 ≡ done tt) ↔ IsFound env 10 name h
  unfolding verify_group
  verify_group_iff h = (
    IsFound-sound 9 h (env.get_consistency_group_by_name h name) refl,
    λ (n, below, group, found).
        IsFound-complete 9 h (env.get_consistency_group_by_name h name) refl n group below found,
  )
