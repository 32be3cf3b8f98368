-- ===== src/Service/Classes/Accepted.antt =====
-- Which StorageClass parameters are accepted.
use infinibox_csi_driver.Prelude.{
  ◌≡◌, ◌↔◌, refl, arith, Bool, true, Option, none, some, List, [], ◌∷◌, All,
}
use infinibox_csi_driver.Strings.{Str}
use infinibox_csi_driver.Exec.{ok}
use infinibox_csi_driver.Params.{Params, lookup}
use infinibox_csi_driver.Service.Classes.{
  matches_required, matches_optional, required_match, optional_match, validate_parameters,
}

module _ (matches : Str → Str → Bool) (params : Params) where
  -- The parameter is there, and matches.
  abbrev pub IsGiven : Str × Str → Type 0
  IsGiven (key, pattern) = (v : Str) × (lookup params key ≡ some v) × (matches pattern v ≡ true)

  -- The parameter matches if it is there.
  abbrev pub MayBeGiven : Str × Str → Type 0
  MayBeGiven (key, pattern) = (v : Str) → lookup params key ≡ some v → matches pattern v ≡ true

  required_one :
      (pattern : Str) (o : Option Str)
      → (matches_required matches pattern o ≡ true)
        ↔ ((v : Str) × (o ≡ some v) × (matches pattern v ≡ true))
  required_one pattern none = ((λ q. absurd (cc q)), λ (v, e, m). cc)
  required_one pattern (some v) = ((λ q. (v, refl, q)), λ (w, e, m). cc)

  optional_one :
      (pattern : Str) (o : Option Str)
      → (matches_optional matches pattern o ≡ true)
        ↔ ((v : Str) → o ≡ some v → matches pattern v ≡ true)
  optional_one pattern none = ((λ q v e. cc), λ f. refl)
  optional_one pattern (some v) = ((λ q w e. cc), λ f. f v refl)

  required-All :
      (ps : List (Str × Str)) → (required_match matches ps params ≡ true) ↔ All IsGiven ps
  unfolding required_match
  required-All [] = ((λ q. tt), λ a. refl)
  required-All ((key, pattern) ∷ ps) =
      let one = required_one pattern (lookup params key) in
      let more = required-All ps in
      (
        (λ q. (one.0 (ground (arith, q)), more.0 (ground (arith, q)))),
        λ a. ground (arith, one.1 a.0, more.1 a.1),
      )

  optional-All :
      (ps : List (Str × Str)) → (optional_match matches ps params ≡ true) ↔ All MayBeGiven ps
  unfolding optional_match
  optional-All [] = ((λ q. tt), λ a. refl)
  optional-All ((key, pattern) ∷ ps) =
      let one = optional_one pattern (lookup params key) in
      let more = optional-All ps in
      (
        (λ q. (one.0 (ground (arith, q)), more.0 (ground (arith, q)))),
        λ a. ground (arith, one.1 a.0, more.1 a.1),
      )

  -- For any matcher and any tables, ValidateRequiredOptionalSCParameters accepts the parameters exactly
  -- if each required one is there and matches its pattern, and each optional one that is there does.
  pub validate_parameters_iff :
      (required optional : List (Str × Str))
      → (validate_parameters matches required optional params ≡ ok tt)
        ↔ (All IsGiven required × All MayBeGiven optional)
  unfolding validate_parameters
  validate_parameters_iff required optional =
      let r = required-All required in
      let o = optional-All optional in
      (
        (λ q. (r.0 (ground (arith, q)), o.0 (ground (arith, q)))),
        λ a. ground (arith, r.1 a.0, o.1 a.1),
      )
