-- ===== src/Treeqs/Choice/Room.antt =====
-- The chosen file system has room.
use infinibox_csi_driver.Prelude.{
  ◌≡◌, refl, arith, Option, none, List, [], ◌∷◌, length, ◌⊎◌, inl, inr, Bool-cases,
}
use infinibox_csi_driver.Prelude.Int.{ℤ, pos, ltb_ℤ, ◌<ℤ◌, ◌+ℤ◌}
use infinibox_csi_driver.Exec.{ok, Outcome, done, fail, panic, unfinished, plain_error}
use infinibox_csi_driver.Strings.{Str}
use infinibox_csi_driver.Params.{Params}
use infinibox_csi_driver.Ibox.{Call, FileSystem, Treeq, Listing, Env, History}
use infinibox_csi_driver.Ibox.Client.{list_or_fail, get_exports_by_file_system_id}
use infinibox_csi_driver.Ibox.Returned.{Returned, Returned-bind, Returned-answer, Returned-listing}
use infinibox_csi_driver.FileSystems.{same_error}
use infinibox_csi_driver.Treeqs.Choice.{
  Chosen, first_path, treeq_limit, prefix_of, with_path, if_room, choose, expected_file_system,
}

-- One of the list.
abbrev pub IsOneOf : FileSystem → List FileSystem → Type 0
IsOneOf fs [] = ⊥
IsOneOf fs (g ∷ gs) = (fs ≡ g) ⊎ IsOneOf fs gs

module _ (env : Env) (capacity maximum : ℤ) where
  -- At some time the treeqs of the chosen file system were listed, and the count that is remembered
  -- is their number, which is below the limit; with the capacity, the file system stays below the
  -- maximum.
  abbrev pub HasRoom : (limit : ℤ) → Chosen → Type 0
  HasRoom limit c =
      (c.file_system.size +ℤ capacity <ℤ maximum)
      × (c.treeq_count <ℤ limit)
      × (k : History) × ((env.get_treeqs_by_file_system k c.file_system.id).error ≡ none)
      × (c.treeq_count ≡ pos (length (env.get_treeqs_by_file_system k c.file_system.id).items))

  abbrev pub IsGoodChoice : (limit : ℤ) → List FileSystem → Chosen → Type 0
  IsGoodChoice limit systems c = IsOneOf c.file_system systems × HasRoom limit c

  path-IsGoodChoice :
      (limit : ℤ) (systems : List FileSystem) (fs : FileSystem) (count : ℤ) (h : History)
      → ((path : Option Str)
          → IsGoodChoice limit systems
              (record { file_system = fs; treeq_count = count; export_path = path }))
      → Returned (IsGoodChoice limit systems) (with_path env capacity maximum limit fs count h).0
  path-IsGoodChoice limit systems fs count h good =
      Returned-bind (IsGoodChoice limit systems)
        (list_or_fail (get_exports_by_file_system_id env fs.id) same_error) _ h
        (λ es k. good (first_path es))

  weaker :
      (limit : ℤ) (g : FileSystem) (systems : List FileSystem) (o : Outcome Chosen)
      → Returned (IsGoodChoice limit systems) o
      → Returned (IsGoodChoice limit (g ∷ systems)) o
  weaker limit g systems (done c) (one, room) = (inr one, room)
  weaker limit g systems (fail e) r = tt
  weaker limit g systems panic r = tt
  weaker limit g systems unfinished r = tt

  choose-IsGoodChoice :
      (limit : ℤ) (systems : List FileSystem) (h : History)
      → Returned (IsGoodChoice limit systems) (choose env capacity maximum limit systems h).0
  choose-IsGoodChoice limit [] h = tt
  choose-IsGoodChoice limit (fs ∷ more) h =
      elim (Bool-cases (ltb_ℤ (fs.size +ℤ capacity) maximum)) [
        | inl space ↦
            let treeqs : Listing Treeq = env.get_treeqs_by_file_system h fs.id in
            let listed : History = Call.get_treeqs_by_file_system fs.id ∷ h in
            let count : ℤ = pos (length treeqs.items) in
            rw space (
              Returned-listing (IsGoodChoice limit (fs ∷ more)) (λ e. plain_error) treeqs.items
                treeqs.error
                (if_room env capacity maximum limit fs (choose env capacity maximum limit more))
                listed
                (λ e. elim (Bool-cases (ltb_ℤ count limit)) [
                  | inl room ↦ rw room (
                      path-IsGoodChoice limit (fs ∷ more) fs count listed (λ path.
                        (inl refl, (ground (arith, space), ground (arith, room), h, e, refl))))
                  | inr full ↦ rw full (
                      weaker limit fs more (choose env capacity maximum limit more listed).0
                        (choose-IsGoodChoice limit more listed))
                ]))
        | inr none_left ↦ rw none_left (
            weaker limit fs more (choose env capacity maximum limit more h).0
              (choose-IsGoodChoice limit more h))
      ]

  -- The choice is good for the limit that the appliance answers after the calls `h`, or the storage
  -- class's in its place, and for the file systems that the pool lists after that.
  abbrev pub IsExpected : Params → (pool : ℤ) → History → Chosen → Type 0
  IsExpected params pool h c =
      (allowed : ℤ) × (limit : ℤ) × (env.get_max_treeq_per_fs h ≡ ok allowed)
      × (treeq_limit params allowed ≡ ok limit)
      × IsGoodChoice limit
          (env.get_file_systems_by_pool (Call.get_max_treeq_per_fs ∷ h) pool
            (prefix_of params)).items
          c

  expected :
      (params : Params) (pool allowed limit : ℤ) (h : History) (o : Outcome Chosen)
      → env.get_max_treeq_per_fs h ≡ ok allowed
      → treeq_limit params allowed ≡ ok limit
      → Returned
          (IsGoodChoice limit
            (env.get_file_systems_by_pool
              (Call.get_max_treeq_per_fs ∷ h)
              pool
              (prefix_of params)).items)
          o
      → Returned (IsExpected params pool h) o
  expected params pool allowed limit h (done c) p q r = (allowed, limit, p, q, r)
  expected params pool allowed limit h (fail e) p q r = tt
  expected params pool allowed limit h panic p q r = tt
  expected params pool allowed limit h unfinished p q r = tt

  -- For any appliance and any earlier calls, a file system that getExpectedFileSystemID returns is
  -- one that the pool listed; its size and the new treeq's capacity (in 64 bits) are below the
  -- maximum, and the number of its treeqs when they were listed is the count that is remembered and
  -- is below the limit, which is what treeq_limit makes of the limit that the appliance answered.
  pub expected_file_system-IsExpected :
      (params : Params) (pool : ℤ) (h : History)
      → Returned
          (IsExpected params pool h)
          (expected_file_system env params pool capacity maximum h).0
  unfolding expected_file_system
  expected_file_system-IsExpected params pool h = elim (Bool-cases (ltb_ℤ maximum capacity)) [
    | inl large ↦ rw large tt
    | inr fits ↦
        let asked : History = Call.get_max_treeq_per_fs ∷ h in
        let systems : Listing FileSystem =
          env.get_file_systems_by_pool asked pool (prefix_of params) in
        rw fits (
          Returned-answer (IsExpected params pool h) same_error (env.get_max_treeq_per_fs h) _ asked
            (λ allowed p.
              Returned-answer (IsExpected params pool h) same_error (treeq_limit params allowed) _
                asked
                (λ limit q.
                  Returned-listing (IsExpected params pool h) (λ e. plain_error) systems.items
                    systems.error (choose env capacity maximum limit)
                    (Call.get_file_systems_by_pool pool (prefix_of params) ∷ asked)
                    (λ e.
                      expected params pool allowed limit h
                        (choose env capacity maximum limit systems.items
                          (Call.get_file_systems_by_pool pool (prefix_of params) ∷ asked)).0
                        p q
                        (choose-IsGoodChoice limit systems.items
                          (Call.get_file_systems_by_pool pool (prefix_of params) ∷ asked))))))
  ]
