-- ===== src/Service/Secrets/Required.antt =====
-- The secret parameters that a StorageClass must have, and the annotations of a claim.
use infinibox_csi_driver.Prelude.{
  ◌≡◌, ◌↔◌, refl, arith, false, List, [], ◌∷◌, All, is_empty, if◌then◌else◌,
}
use infinibox_csi_driver.Strings.{Str, str_eq}
use infinibox_csi_driver.Exec.{ok}
use infinibox_csi_driver.Params.{
  Params, value, value-put, pool_name, network_space, annotation_network_space,
  annotation_pool_name, annotation_volume_metadata,
}
use infinibox_csi_driver.Service.Secrets.{has_parameters, put_if_given, annotated}

-- For any StorageClass and any list of parameters, the check accepts exactly if each parameter in the
-- list has a value that is not empty.
pub has_parameters_iff :
    (class : Params) (ps : List Str)
    → (has_parameters class ps ≡ ok tt) ↔ All (λ p. is_empty (value class p) ≡ false) ps
unfolding has_parameters
has_parameters_iff class [] = ((λ q. tt), λ a. refl)
has_parameters_iff class (p ∷ ps) =
    let more = has_parameters_iff class ps in
    ((λ q. (ground (arith, q), more.0 (ground (arith, q)))), λ a. ground (arith, more.1 a.1, a.0))

-- A value of the claim, or else that of the StorageClass.
abbrev pub or_class : (annotation class : Str) → Str
or_class annotation class = if is_empty annotation then class else annotation

value-put_if_given :
    (m : Params) (key v k : Str)
    → value (put_if_given m key v) k ≡ (if str_eq key k then or_class v (value m k) else value m k)
value-put_if_given m key [] k = ground arith
value-put_if_given m key (c ∷ s) k = value-put m key (c ∷ s) k

-- For any annotations and parameters: the pool and the network space are those of the claim where it
-- names one, and any parameter that is not one of these two nor of the three annotations is unchanged.
pub annotated_values :
    (annotations params : Params) (key : Str)
    → str_eq annotation_network_space key ≡ false
    → str_eq annotation_pool_name key ≡ false
    → str_eq annotation_volume_metadata key ≡ false
    → str_eq pool_name key ≡ false
    → str_eq network_space key ≡ false
    → (value (annotated annotations params) pool_name
        ≡ or_class (value annotations annotation_pool_name) (value params pool_name))
      × (value (annotated annotations params) network_space
          ≡ or_class (value annotations annotation_network_space) (value params network_space))
      × (value (annotated annotations params) key ≡ value params key)
unfolding annotated str_eq
annotated_values annotations params key a b c d e = (
  simp (value-put_if_given, value-put),
  simp (value-put_if_given, value-put),
  simp (value-put_if_given, value-put, a, b, c, d, e),
)
