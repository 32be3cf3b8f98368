-- ===== src/Volumes/Response/Copy.antt =====
-- What CopyRequestParameters leaves in a volume's context.
use infinibox_csi_driver.Prelude.{
  ◌≡◌, refl, ap, ◌∙◌, Option, none, some, [], ◌∷◌, Bool-cases, inl, inr,
}
use infinibox_csi_driver.Strings.{Str, str_eq, str_eq_iff}
use infinibox_csi_driver.Params.{Params, lookup, put, lookup-put}
use infinibox_csi_driver.Volumes.Response.{copy_parameters}

-- No key stands twice, as in a Go map.
abbrev pub IsMap : Params → Type 0
IsMap [] = Unit
IsMap ((k, v) ∷ ps) = (lookup ps k ≡ none) × IsMap ps

-- An entry counts if its value is not empty.
abbrev pub or_old : Option Str → Option Str → Option Str
or_old none old = old
or_old (some []) old = old
or_old (some (c ∷ v)) old = some (c ∷ v)

-- CopyRequestParameters gives every key the value that the parameters have for it, unless that is
-- empty or missing: then the key keeps what it had. The parameters have no key twice.
pub lookup-copy_parameters :
    (ps out : Params) (k : Str)
    → IsMap ps
    → lookup (copy_parameters ps out) k ≡ or_old (lookup ps k) (lookup out k)
unfolding copy_parameters lookup
lookup-copy_parameters [] out k m = refl
lookup-copy_parameters ((j, []) ∷ ps) out k (fresh, m) = elim (Bool-cases (str_eq j k)) [
  | inl same ↦
      let jk : j ≡ k = (str_eq_iff j k).0 same in
      let absent : lookup ps k ≡ none = cc in
      rw same (lookup-copy_parameters ps out k m ∙ ap (λ o. or_old o (lookup out k)) absent)
  | inr other ↦ rw other (lookup-copy_parameters ps out k m)
]
lookup-copy_parameters ((j, c ∷ v) ∷ ps) out k (fresh, m) =
    let rest = lookup-copy_parameters ps (put out j (c ∷ v)) k m in
    elim (Bool-cases (str_eq j k)) [
      | inl same ↦
          let jk : j ≡ k = (str_eq_iff j k).0 same in
          let absent : lookup ps k ≡ none = cc in
          let stored : lookup (put out j (c ∷ v)) k ≡ some (c ∷ v) =
            rw (lookup-put out j (c ∷ v) k) (rw same refl) in
          rw same (rest ∙ (ap (λ o. or_old o (lookup (put out j (c ∷ v)) k)) absent ∙ stored))
      | inr other ↦
          let kept : lookup (put out j (c ∷ v)) k ≡ lookup out k =
            rw (lookup-put out j (c ∷ v) k) (rw other refl) in
          rw other (rest ∙ ap (or_old (lookup ps k)) kept)
    ]
