-- ===== src/Locks/Held.antt =====
-- Which volumes are locked.
use infinibox_csi_driver.Prelude.{
  ◌≡◌, refl, sym, Bool, false, not, ◌&&◌, ◌||◌, List, [], ◌∷◌, Bool-cases, inl, inr,
}
use infinibox_csi_driver.Strings.{Str, str_eq, str_eq_iff}
use infinibox_csi_driver.Locks.{StringSet, Request, try_acquire_volume, locks_after}

-- Somebody asked for the volume, and nobody released it since.
unfoldable pub held : Str → List Request → Bool
held y [] = false
held y (Request.try_acquire x ∷ rs) = str_eq x y || held y rs
held y (Request.release x ∷ rs) = not (str_eq x y) && held y rs

module _ (set : StringSet) where
  has-try_acquire_volume :
      (x y : Str) (locks : set.Names)
      → set.has (try_acquire_volume set x locks).1 y ≡ (str_eq x y || set.has locks y)
  has-try_acquire_volume x y locks = elim (Bool-cases (set.has locks x)) [
    | inr free ↦ rw free (set.has-insert locks x y)
    | inl taken ↦ rw taken (elim (Bool-cases (str_eq x y)) [
      | inr other ↦ rw other refl
      | inl same ↦ rw same (rw (sym ((str_eq_iff x y).0 same)) taken)
    ])
  ]

  has-locks_after : (y : Str) (rs : List Request) → set.has (locks_after set rs) y ≡ held y rs
  unfolding locks_after held
  has-locks_after y [] = set.has-new y
  has-locks_after y (Request.try_acquire x ∷ rs) =
      rw (has-try_acquire_volume x y (locks_after set rs)) (rw (has-locks_after y rs) refl)
  has-locks_after y (Request.release x ∷ rs) =
      rw (set.has-delete (locks_after set rs) x y) (rw (has-locks_after y rs) refl)

  -- For any set with the documented behaviour and any requests from any callers before it, TryAcquire
  -- succeeds exactly if nobody asked for the volume or it was released after that, and then, and also
  -- if it fails, the volume is locked and each other volume is locked if it was before.
  pub try_acquire_volume_exclusive :
      (x : Str) (rs : List Request)
      → ((try_acquire_volume set x (locks_after set rs)).0 ≡ not (held x rs))
        × ((y : Str)
            → set.has (try_acquire_volume set x (locks_after set rs)).1 y
              ≡ (str_eq x y || held y rs))
  try_acquire_volume_exclusive x rs = (
    answer,
    λ y. rw (has-try_acquire_volume x y (locks_after set rs)) (rw (has-locks_after y rs) refl),
  )
    where
      answer : (try_acquire_volume set x (locks_after set rs)).0 ≡ not (held x rs)
      answer = rw (sym (has-locks_after x rs)) (elim (Bool-cases (set.has (locks_after set rs) x)) [
        | inl taken ↦ rw taken refl
        | inr free ↦ rw free refl
      ])
