-- ===== src/Params.antt =====
-- Go's `map[string]string` as an association list, and the keys of common/types.go.
mod Keys
pub use Keys.*
use infinibox_csi_driver.Prelude.{
  ◌≡◌, refl, Bool, Option, none, some, List, [], ◌∷◌, arith, if◌then◌else◌,
}
use infinibox_csi_driver.Strings.{Str, str_eq, str_eq_iff}

abbrev pub Params : Type 0
Params = List (Str × Str)

-- `value, ok := m[key]`
unfoldable pub lookup : Params → Str → Option Str
unfolding str_eq
lookup [] key = none
lookup ((k, v) ∷ m) key = if str_eq k key then some v else lookup m key

abbrev or_empty : Option Str → Str
or_empty none = []
or_empty (some v) = v

-- `m[key]`: a missing key reads as the empty string.
unfoldable pub value : Params → Str → Str
unfolding lookup
value m key = or_empty (lookup m key)

-- `m[key] = v`
unfoldable pub put : Params → Str → Str → Params
unfolding str_eq
put [] key v = (key, v) ∷ []
put ((k, w) ∷ m) key v = if str_eq k key then (key, v) ∷ m else (k, w) ∷ put m key v

pub lookup-put :
    (m : Params) (key v k : Str)
    → lookup (put m key v) k ≡ (if str_eq key k then some v else lookup m k)
unfolding lookup put
lookup-put [] key v k = refl
lookup-put ((j, w) ∷ m) key v k =
    ground (arith, str_eq_iff j key, str_eq_iff key k, str_eq_iff j k, lookup-put m key v k)

pub value-put :
    (m : Params) (key v k : Str) → value (put m key v) k ≡ (if str_eq key k then v else value m k)
unfolding value
value-put m key v k = rw (lookup-put m key v k) (ground arith)
