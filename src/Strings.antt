-- ===== src/Strings.antt =====
-- Go strings as lists of bytes, and what the driver uses of packages `strings` and `strconv`.
pub mod Split
pub mod Decimal
pub mod RoundTrip
pub mod Join
use Prim.Native.Char.{code}
use infinibox_csi_driver.Prelude.{
  ℕ, zero, suc, String, ◌≡◌, ◌↔◌, refl, ap, Bool, true, false, Option, none, some, List, [], ◌∷◌,
  ◌++◌, ◌&&◌, ◌||◌, arith, ◌==◌, ==_iff, if◌then◌else◌, any, length,
}

abbrev pub Str : Type 0
Str = List ℕ

-- The bytes of a literal.
abbrev pub lit : String → Str
lit String.[] = []
lit (String.◌∷◌ c s) = code c ∷ lit s

unfoldable pub str_eq : Str → Str → Bool
str_eq [] [] = true
str_eq (a ∷ s) (b ∷ t) = a == b && str_eq s t
str_eq _ _ = false

pub str_eq_iff : (s t : Str) → (str_eq s t ≡ true) ↔ (s ≡ t)
unfolding str_eq
str_eq_iff [] [] = ground arith
str_eq_iff [] (b ∷ t) = ground arith
str_eq_iff (a ∷ s) [] = ground arith
str_eq_iff (a ∷ s) (b ∷ t) = ground (arith, str_eq_iff s t)

pub str_eq_refl : (s : Str) → str_eq s s ≡ true
str_eq_refl s = (str_eq_iff s s).1 refl

-- strings.HasPrefix
unfoldable pub is_prefix : Str → Str → Bool
is_prefix [] s = true
is_prefix (a ∷ p) [] = false
is_prefix (a ∷ p) (b ∷ s) = a == b && is_prefix p s

-- strings.Contains
unfoldable pub contains : Str → Str → Bool
unfolding is_prefix
contains [] sub = is_prefix sub []
contains (c ∷ s) sub = is_prefix sub (c ∷ s) || contains s sub

-- strings.Split for a separator that is not empty: `d` is its first byte and `ds` the others. The
-- number counts the bytes of a separator just found that are still to be passed over.
unfoldable pub split_from : ℕ → Str → ℕ → Str → Str → List Str
unfolding is_prefix
split_from d ds skip [] cur = cur ∷ []
split_from d ds (suc k) (c ∷ s) cur = split_from d ds k s cur
split_from d ds zero (c ∷ s) cur = elim (is_prefix (d ∷ ds) (c ∷ s)) [
  | true ↦ cur ∷ split_from d ds (length ds) s []
  | false ↦ split_from d ds zero s (cur ++ c ∷ [])
]

unfoldable pub split : ℕ → Str → Str → List Str
unfolding split_from
split d ds s = split_from d ds 0 s []

-- strconv.ParseBool
unfoldable pub parse_bool : Str → Option Bool
unfolding str_eq
parse_bool s =
    if any (str_eq s) (lit "1" ∷ lit "t" ∷ lit "T" ∷ lit "TRUE" ∷ lit "true" ∷ lit "True" ∷ [])
    then some true
    else if any (str_eq s)
        (lit "0" ∷ lit "f" ∷ lit "F" ∷ lit "FALSE" ∷ lit "false" ∷ lit "False" ∷ [])
    then some false
    else none
