-- ===== src/Service/Protocol.antt =====
-- The storage protocol of a request: getNodeProtocol, DetermineProtocol, isFC, isISCSI, isNVME and
-- determineStorageProtocol of service/controller.go.
pub mod Order
pub mod Spaces
use infinibox_csi_driver.Prelude.{
  Bool, true, false, not, Option, none, some, List, [], ◌∷◌, ◌||◌, ◌&&◌, is_empty, if◌then◌else◌,
}
use infinibox_csi_driver.Strings.{Str, lit, str_eq, contains, split}
use infinibox_csi_driver.Exec.{
  Answer, ok, err, Err, Code, plain_error, to_status, wrap_error, pure, throw, or_fail, wrapping,
  ◌>>=◌, ◌>>◌,
}
use infinibox_csi_driver.Params.{
  Params, value, put, storage_protocol, network_space, protocol_nfs, protocol_treeq, protocol_nvme,
  protocol_fc, protocol_iscsi, protocol_auto, preferred_auto_order, use_chap,
  nfs_export_permissions, secret_iscsi_network_space, secret_iscsi_use_chap,
  secret_nvme_network_space, secret_nfs_network_space, secret_nfs_export_permissions,
}
use infinibox_csi_driver.VolumeId.{split_dollars, split_dots, first_part}
use infinibox_csi_driver.Ibox.Client.{M}
use infinibox_csi_driver.Cluster.{
  Cluster, Node, Output, build_client, get_nodes, running_pod, exec_in_pod,
}
use infinibox_csi_driver.Service.Secrets.{get_protocol_secret}

abbrev pub same_error : Err → Err
same_error e = e

-- The label of the first node with one of the names.
unfoldable pub protocol_of_node : (short full : Str) → List Node → Str
protocol_of_node short full [] = []
protocol_of_node short full (n ∷ ns) =
    let rest = protocol_of_node short full ns in
    if str_eq short n.name || str_eq full n.name then n.node_protocol else rest

-- getNodeProtocol
unfoldable pub get_node_protocol : Cluster → (node_id : Str) → M Str
get_node_protocol k node_id = do
  let full = first_part (split_dollars node_id)
  or_fail (build_client k) same_error
  nodes ← or_fail (get_nodes k) same_error
  if is_empty nodes
      then throw plain_error
      else pure (protocol_of_node (first_part (split_dots full)) full nodes)

-- A command that fails or writes to standard error speaks against its protocol.
abbrev pub enabled_by : (Str → Bool) → Answer Output → Bool
enabled_by test (err e) = false
enabled_by test (ok o) = is_empty o.error_out && test o.out

abbrev pub probe : Cluster → (pod command : Str) → (Str → Bool) → M Bool
probe k pod command test = do
  answer ← exec_in_pod k pod k.pod_namespace command
  pure (enabled_by test answer)

-- What the three commands found.
abbrev pub is_enabled : (fc nvme iscsi : Bool) → Str → Bool
is_enabled fc nvme iscsi p =
    if str_eq p protocol_fc
    then fc
    else if str_eq p protocol_iscsi
    then iscsi
    else if str_eq p protocol_nvme
    then nvme
    else false

-- The first protocol in the order that is enabled, or Fibre Channel.
unfoldable pub first_enabled : (Str → Bool) → List Str → Str
first_enabled enabled [] = protocol_fc
first_enabled enabled (p ∷ ps) =
    let rest = first_enabled enabled ps in if enabled p then p else rest

unfoldable pub preferred_order : Params → List Str
preferred_order secret =
    let order = value secret preferred_auto_order in
    if is_empty order
    then protocol_fc ∷ protocol_nvme ∷ protocol_iscsi ∷ []
    else split b',' [] order

abbrev pub probed_protocol : Cluster → (secret : Params) → (pod : Str) → M Str
unfolding contains
probed_protocol k secret pod = do
  fc ←
      probe k pod (lit "cat /sys/class/fc_host/ho*/port_state") (λ out. contains out (lit "Online"))
  nvme ← probe k pod (lit "nvme list") (λ out. not (is_empty out))
  iscsi ← probe k pod (lit "pgrep iscsid") (λ out. not (is_empty (k.trim_space out)))
  pure (first_enabled (is_enabled fc nvme iscsi) (preferred_order secret))

abbrev pub protocol_by_pod : Cluster → Option Params → M Str
protocol_by_pod k none = throw plain_error
protocol_by_pod k (some secret) = do
  or_fail (build_client k) wrap_error
  pod ←
      if is_empty k.pod_namespace
      then throw plain_error
      else or_fail (running_pod k k.pod_namespace) wrap_error
  probed_protocol k secret pod

-- DetermineProtocol
unfoldable pub determine_protocol : Cluster → M Str
determine_protocol k = wrapping (get_protocol_secret k) wrap_error >>= protocol_by_pod k

-- The checks at the end of determineStorageProtocol.
abbrev pub checked_protocol : (protocol space : Str) → Params → M (Str × Params)
checked_protocol protocol space params =
    if is_empty protocol
    then throw plain_error
    else if not (str_eq protocol protocol_fc) && is_empty space
    then throw plain_error
    else pure (protocol, params)

-- The switch on the protocol that the secret names. `space` is the variable networkSpace, which was
-- read from the StorageClass.
abbrev pub protocol_in_secret :
    Cluster → (secret params : Params) → (space protocol : Str) → M (Str × Params)
protocol_in_secret k secret params space protocol =
    if str_eq protocol protocol_auto
    then (wrapping (determine_protocol k) (to_status Code.internal) >>= λ found.
        checked_protocol found space params)
    else if is_empty protocol
    then checked_protocol protocol_fc space params
    else if str_eq protocol protocol_iscsi
    then checked_protocol protocol space (
        put (put params use_chap (value secret secret_iscsi_use_chap)) network_space
          (value secret secret_iscsi_network_space))
    else if str_eq protocol protocol_nvme
    then checked_protocol protocol (value secret secret_nvme_network_space) params
    else if str_eq protocol protocol_nfs || str_eq protocol protocol_treeq
    then checked_protocol protocol (value secret secret_nfs_network_space)
        (put params nfs_export_permissions (value secret secret_nfs_export_permissions))
    else checked_protocol protocol space params

abbrev pub protocol_from : Cluster → Params → Option Params → M (Str × Params)
protocol_from k params none = checked_protocol [] (value params network_space) params
protocol_from k params (some secret) =
    protocol_in_secret k secret params (value params network_space) (value secret storage_protocol)

-- determineStorageProtocol: the protocol, and the parameters as it leaves them.
unfoldable pub determine_storage_protocol : Cluster → Params → M (Str × Params)
determine_storage_protocol k params =
    let protocol = value params storage_protocol in
    if is_empty protocol
    then (wrapping (get_protocol_secret k) (to_status Code.invalid_argument)
        >>= protocol_from k params)
    else checked_protocol protocol (value params network_space) params
