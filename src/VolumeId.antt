-- ===== src/VolumeId.antt =====
-- Volume and node identifiers: ValidateVolumeID and DetermineHostName of storage/common/common.go,
-- validateNodeID of service/controller.go, and the strings that the driver hands out.
pub mod Format
pub mod Sound
use infinibox_csi_driver.Prelude.{
  Bool, Option, none, some, List, [], ◌∷◌, ◌++◌, is_empty, if◌then◌else◌,
}
use infinibox_csi_driver.Prelude.Int.{ℤ, pos}
use infinibox_csi_driver.Strings.{Str, lit, str_eq, split}
use infinibox_csi_driver.Strings.Decimal.{itoa, atoi}
use infinibox_csi_driver.Exec.{Answer, ok, err, Code, plain_error, status_error}
use infinibox_csi_driver.Params.{protocol_treeq}

-- api.VolumeProtocolConfig: the fields that ValidateVolumeID sets.
pub record VolumeConfig : Type 0 where
  pub volume_id : ℤ
  pub storage_type : Str
  pub treeq_id : ℤ

-- strings.Split(s, "$$"), strings.Split(s, "#") and strings.Split(s, ".")
abbrev pub split_dollars : Str → List Str
split_dollars = split b'$' (lit "$")

abbrev pub split_hash : Str → List Str
split_hash = split b'#' []

abbrev pub split_dots : Str → List Str
split_dots = split b'.' []

-- The identifiers that CreateVolume returns: `<id>$$<protocol>`, with `<fs>#<treeq>` for a treeq.
abbrev pub with_protocol : Str → Str → Str
with_protocol id kind = id ++ (lit "$$" ++ kind)

abbrev pub treeq_handle : ℤ → ℤ → Str
treeq_handle fs tq = itoa fs ++ (lit "#" ++ itoa tq)

abbrev pub treeq_ids : Option ℤ → Option ℤ → Answer VolumeConfig
treeq_ids (some v) (some t) =
    ok (record { volume_id = v; storage_type = protocol_treeq; treeq_id = t })
treeq_ids (some v) none = err plain_error
treeq_ids none _ = err plain_error

abbrev pub treeq_config : List Str → Answer VolumeConfig
treeq_config (v ∷ t ∷ []) = treeq_ids (atoi v) (atoi t)
treeq_config _ = err plain_error

abbrev pub plain_config : Str → Option ℤ → Answer VolumeConfig
plain_config kind (some v) = ok (record { volume_id = v; storage_type = kind; treeq_id = pos 0 })
plain_config kind none = err plain_error

abbrev pub volume_config : List Str → Answer VolumeConfig
volume_config (id ∷ kind ∷ []) =
    if is_empty id
    then err plain_error
    else if is_empty kind
    then err plain_error
    else if str_eq kind protocol_treeq
    then treeq_config (split_hash id)
    else plain_config kind (atoi id)
volume_config _ = err plain_error

unfoldable pub validate_volume_id : Str → Answer VolumeConfig
validate_volume_id s = if is_empty s then err plain_error else volume_config (split_dollars s)

abbrev node_id_check : List Str → Answer (Unit {0})
node_id_check (name ∷ id ∷ []) = ok tt
node_id_check _ = err (status_error Code.not_found)

-- validateNodeID
unfoldable pub validate_node_id : Str → Answer (Unit {0})
validate_node_id s =
    if is_empty s then err (status_error Code.invalid_argument) else node_id_check (split_dollars s)

-- The first element of a split; a split is never empty.
abbrev pub first_part : List Str → Str
first_part [] = []
first_part (a ∷ r) = a

abbrev host_name : Str → List Str → Answer Str
host_name remove_domain (name ∷ id ∷ []) =
    ok (if str_eq remove_domain (lit "true") then first_part (split_dots name) else name)
host_name remove_domain _ = err plain_error

-- DetermineHostName; `remove_domain` is the environment variable REMOVE_DOMAIN_NAME.
unfoldable pub determine_host_name : Str → Str → Answer Str
determine_host_name remove_domain s =
    if is_empty s then err plain_error else host_name remove_domain (split_dollars s)
