-- ===== src/Locks.antt =====
-- The locks on volumes: helper/volumelock.go. The mutex makes each operation one step. The set of
-- names is a third-party type, a parameter here.
pub mod Held
use infinibox_csi_driver.Prelude.{
  ◌≡◌, Bool, true, false, not, ◌&&◌, ◌||◌, List, [], ◌∷◌, if◌then◌else◌,
}
use infinibox_csi_driver.Strings.{Str, str_eq}

-- What the locks call of sets.Set[string], with its documented behaviour.
pub record StringSet : Type 1 where
  pub Names : Type 0
  pub new : Names
  pub has : Names → Str → Bool
  pub insert : Names → Str → Names
  pub delete : Names → Str → Names
  pub has-new : (y : Str) → has new y ≡ false
  pub has-insert : (s : Names) (x y : Str) → has (insert s x) y ≡ (str_eq x y || has s y)
  pub has-delete : (s : Names) (x y : Str) → has (delete s x) y ≡ (not (str_eq x y) && has s y)

pub data Request : Type 0 where
  try_acquire : Str → Request
  release : Str → Request

module _ (set : StringSet) where
  abbrev pub try_acquire_volume : Str → set.Names → Bool × set.Names
  try_acquire_volume volume locks =
      if set.has locks volume then (false, locks) else (true, set.insert locks volume)

  abbrev pub release_volume : Str → set.Names → set.Names
  release_volume volume locks = set.delete locks volume

  -- The locks after some requests, the latest first, in whatever order the callers made them.
  unfoldable pub locks_after : List Request → set.Names
  locks_after [] = set.new
  locks_after (Request.try_acquire x ∷ rs) = (try_acquire_volume x (locks_after rs)).1
  locks_after (Request.release x ∷ rs) = release_volume x (locks_after rs)
