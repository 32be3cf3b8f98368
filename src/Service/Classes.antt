-- ===== src/Service/Classes.antt =====
-- StorageClass parameters: validateCommonStorageClassParameters (service/controller.go),
-- ValidateProtocolToNetworkSpace and ValidateRequiredOptionalSCParameters
-- (storage/common/validation.go).
pub mod Accepted
use infinibox_csi_driver.Prelude.{
  ℕ, ◌+◌, ◌*◌, ◌-◌, ◌^◌, Bool, true, false, not, Option, none, some, List, [], ◌∷◌, ◌||◌, ◌&&◌, ltb,
  leb, is_empty, if◌then◌else◌,
}
use infinibox_csi_driver.Prelude.Int.{ℤ, negsuc, ltb_ℤ}
use infinibox_csi_driver.Strings.{Str, str_eq, split, parse_bool}
use infinibox_csi_driver.Strings.Decimal.{atoi}
use infinibox_csi_driver.Exec.{
  Answer, ok, err, Err, plain_error, wrap_error, pure, throw, from_answer, or_fail, ◌>>=◌, ◌>>◌,
}
use infinibox_csi_driver.Params.{
  Params, lookup, value, pool_name, network_space, protocol_fc, protocol_nfs, protocol_treeq,
  protocol_iscsi, protocol_nvme, nas_service, iscsi_service, san_service, gid, uid,
  unix_permissions, max_vols_per_host, provision_type, thick_provision, thin_provision, ssd_enabled,
}
use infinibox_csi_driver.Ibox.{NetworkSpace, Env}
use infinibox_csi_driver.Ibox.Client.{M, get_pool_by_name, get_network_space_by_name}

abbrev same_error : Err → Err
same_error e = e

-- protoToServiceMap; a missing key reads as the empty string.
abbrev pub service_of : Str → Str
service_of protocol =
    if str_eq protocol protocol_nfs
    then nas_service
    else if str_eq protocol protocol_treeq
    then nas_service
    else if str_eq protocol protocol_iscsi
    then iscsi_service
    else if str_eq protocol protocol_nvme
    then san_service
    else []

module _ (env : Env) where
  -- Each name must be a network space.
  unfoldable pub spaces_exist : List Str → M (Unit {0})
  spaces_exist [] = pure tt
  spaces_exist (n ∷ ns) =
      or_fail (get_network_space_by_name env n) wrap_error >>= λ _. spaces_exist ns

  abbrev pub supports : (protocol : Str) → NetworkSpace → M (Unit {0})
  supports protocol space =
      if is_empty space.service
      then throw plain_error
      else if str_eq space.service (service_of protocol)
      then pure tt
      else throw plain_error

  unfoldable pub spaces_support : (protocol : Str) → List Str → M (Unit {0})
  spaces_support protocol [] = pure tt
  spaces_support protocol (n ∷ ns) =
      (or_fail (get_network_space_by_name env n) same_error >>= supports protocol)
      >> spaces_support protocol ns

  -- ValidateProtocolToNetworkSpace
  unfoldable pub validate_protocol_to_network_space : (protocol : Str) → List Str → M (Unit {0})
  validate_protocol_to_network_space protocol [] = throw plain_error
  validate_protocol_to_network_space protocol (n ∷ ns) = spaces_support protocol (n ∷ ns)

-- `if v != "" { if !test(v) { return error } }`
abbrev pub if_given : (Str → Bool) → Str → Bool
if_given test v = is_empty v || test v

abbrev pub from_minus_one : Option ℤ → Bool
from_minus_one none = false
from_minus_one (some n) = not (ltb_ℤ n (negsuc 0))

-- `n, err := strconv.Atoi(v); err != nil || n < -1` is an error.
unfoldable pub at_least_minus_one : Str → Bool
at_least_minus_one v = from_minus_one (atoi v)

-- strconv.ParseUint(v, 8, 32): whether it succeeds. The digits are read from the left.
unfoldable pub octal_from : (acc : ℕ) → Str → Bool
octal_from acc [] = ltb acc (2 ^ 32)
octal_from acc (c ∷ s) =
    let rest = octal_from (acc * 8 + (c - b'0')) s in leb b'0' c && leb c b'7' && rest

unfoldable pub is_octal : Str → Bool
unfolding octal_from
is_octal [] = false
is_octal (c ∷ s) = octal_from 0 (c ∷ s)

abbrev pub is_some {ℓ} : {A : Type ℓ} → Option A → Bool
is_some none = false
is_some (some a) = true

-- The optional parameters of every protocol.
unfoldable pub well_formed : (to_upper : Str → Str) → Params → Bool
well_formed to_upper params =
    if_given at_least_minus_one (value params gid)
    && (if_given at_least_minus_one (value params uid)
        && (if_given is_octal (value params unix_permissions)
            && (if_given at_least_minus_one (value params max_vols_per_host)
                && (if_given
                      (λ v.
                        str_eq (to_upper v) thick_provision || str_eq (to_upper v) thin_provision)
                      (value params provision_type)
                    && if_given (λ v. is_some (parse_bool v)) (value params ssd_enabled)))))

abbrev pub check_spaces : Env → Params → (protocol : Str) → M (Unit {0})
check_spaces env params protocol = if str_eq protocol protocol_fc then pure tt else (do
  let names = split b',' [] (value params network_space)
  spaces_exist env names
  validate_protocol_to_network_space env protocol names)

-- validateCommonStorageClassParameters
unfoldable pub validate_common_parameters :
    Env → (to_upper : Str → Str) → Params → (protocol : Str) → M (Unit {0})
validate_common_parameters env to_upper params protocol = do
  or_fail (get_pool_by_name env (value params pool_name)) wrap_error
  check_spaces env params protocol
  if well_formed to_upper params then pure tt else throw plain_error

-- ValidateRequiredOptionalSCParameters: a required parameter must be there and match; an optional
-- one must match if it is there. The pairs are a parameter and its pattern.
abbrev pub matches_required : (matches : Str → Str → Bool) → (pattern : Str) → Option Str → Bool
matches_required matches pattern none = false
matches_required matches pattern (some v) = matches pattern v

abbrev pub matches_optional : (matches : Str → Str → Bool) → (pattern : Str) → Option Str → Bool
matches_optional matches pattern none = true
matches_optional matches pattern (some v) = matches pattern v

unfoldable pub required_match : (matches : Str → Str → Bool) → List (Str × Str) → Params → Bool
required_match matches [] params = true
required_match matches ((key, pattern) ∷ ps) params =
    matches_required matches pattern (lookup params key) && required_match matches ps params

unfoldable pub optional_match : (matches : Str → Str → Bool) → List (Str × Str) → Params → Bool
optional_match matches [] params = true
optional_match matches ((key, pattern) ∷ ps) params =
    matches_optional matches pattern (lookup params key) && optional_match matches ps params

unfoldable pub validate_parameters :
    (matches : Str → Str → Bool) (required optional : List (Str × Str)) → Params → Answer (Unit {0})
validate_parameters matches required optional params =
    if required_match matches required params && optional_match matches optional params
    then ok tt
    else err plain_error
