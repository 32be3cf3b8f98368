-- ===== src/Params/Keys.antt =====
-- The string constants of common/types.go that the modelled code uses.
use infinibox_csi_driver.Strings.{Str, lit}

abbrev pub protocol_nfs : Str
protocol_nfs = lit "nfs"

abbrev pub protocol_treeq : Str
protocol_treeq = lit "nfs_treeq"

abbrev pub protocol_iscsi : Str
protocol_iscsi = lit "iscsi"

abbrev pub protocol_fc : Str
protocol_fc = lit "fc"

abbrev pub protocol_nvme : Str
protocol_nvme = lit "nvme"

abbrev pub protocol_auto : Str
protocol_auto = lit "auto"

abbrev pub fs_type_ext3 : Str
fs_type_ext3 = lit "ext3"

abbrev pub fs_type_ext4 : Str
fs_type_ext4 = lit "ext4"

abbrev pub fs_type_xfs : Str
fs_type_xfs = lit "xfs"

abbrev pub nfs_export_permissions : Str
nfs_export_permissions = lit "nfs_export_permissions"

abbrev pub uid : Str
uid = lit "uid"

abbrev pub gid : Str
gid = lit "gid"

abbrev pub unix_permissions : Str
unix_permissions = lit "unix_permissions"

abbrev pub round_up_requested_size : Str
round_up_requested_size = lit "round_up_requested_size"

abbrev pub ssd_enabled : Str
ssd_enabled = lit "ssd_enabled"

abbrev pub provision_type : Str
provision_type = lit "provision_type"

abbrev pub pool_name : Str
pool_name = lit "pool_name"

abbrev pub network_space : Str
network_space = lit "network_space"

abbrev pub storage_protocol : Str
storage_protocol = lit "storage_protocol"

abbrev pub fs_prefix : Str
fs_prefix = lit "fs_prefix"

abbrev pub fs_prefix_default : Str
fs_prefix_default = lit "csit_"

abbrev pub max_vols_per_host : Str
max_vols_per_host = lit "max_vols_per_host"

abbrev pub thin_provision : Str
thin_provision = lit "THIN"

abbrev pub thick_provision : Str
thick_provision = lit "THICK"

abbrev pub max_treeqs_per_filesystem : Str
max_treeqs_per_filesystem = lit "max_treeqs_per_filesystem"

abbrev pub max_filesystem_size : Str
max_filesystem_size = lit "max_filesystem_size"

abbrev pub lock_expires_at_parameter : Str
lock_expires_at_parameter = lit "lock_expires_at"

abbrev pub locked_state : Str
locked_state = lit "LOCKED"

abbrev pub csi_created_host : Str
csi_created_host = lit "csi-created-host"

abbrev pub to_be_deleted : Str
to_be_deleted = lit "host.k8s.to_be_deleted"

abbrev pub feature_promote_snapshot : Str
feature_promote_snapshot = lit "promote_snapshot"

abbrev pub credential_hostname : Str
credential_hostname = lit "hostname"

abbrev pub credential_username : Str
credential_username = lit "username"

abbrev pub credential_password : Str
credential_password = lit "password"

abbrev pub pv_name_key : Str
pv_name_key = lit "host.k8s.pvname"

abbrev pub created_by_key : Str
created_by_key = lit "host.created_by"

abbrev pub lun_publish_context : Str
lun_publish_context = lit "lun"

abbrev pub host_id_publish_context : Str
host_id_publish_context = lit "hostID"

abbrev pub host_ports_publish_context : Str
host_ports_publish_context = lit "hostPorts"

abbrev pub nas_service : Str
nas_service = lit "NAS_SERVICE"

abbrev pub iscsi_service : Str
iscsi_service = lit "ISCSI_SERVICE"

abbrev pub san_service : Str
san_service = lit "SAN_SERVICE"

-- The keys of a volume's context (GetCSIResponse of storage/common/common.go).
abbrev pub id_key : Str
id_key = lit "ID"

abbrev pub name_key : Str
name_key = lit "Name"

abbrev pub storage_pool_id_key : Str
storage_pool_id_key = lit "StoragePoolID"

abbrev pub storage_pool_name_key : Str
storage_pool_name_key = lit "StoragePoolName"

abbrev pub creation_time_key : Str
creation_time_key = lit "CreationTime"

abbrev pub target_wwns_key : Str
target_wwns_key = lit "targetWWNs"

-- SecurityMethodPublishContext of storage/iscsi
abbrev pub security_method_publish_context : Str
security_method_publish_context = lit "securityMethod"

abbrev pub use_chap : Str
use_chap = lit "useCHAP"

abbrev pub preferred_auto_order : Str
preferred_auto_order = lit "preferred_auto_order"

abbrev pub service_name : Str
service_name = lit "infinibox-csi-driver"

abbrev pub max_filesystems : Str
max_filesystems = lit "max_filesystems"

abbrev pub annotation_pool_name : Str
annotation_pool_name = lit "infinidat.com/pool_name"

abbrev pub annotation_network_space : Str
annotation_network_space = lit "infinidat.com/network_space"

abbrev pub annotation_ibox_secret : Str
annotation_ibox_secret = lit "infinidat.com/ibox_secret"

abbrev pub annotation_volume_metadata : Str
annotation_volume_metadata = lit "infinidat.com/volume_metadata"

abbrev pub provisioner_secret_name : Str
provisioner_secret_name = lit "csi.storage.k8s.io/provisioner-secret-name"

abbrev pub provisioner_secret_namespace : Str
provisioner_secret_namespace = lit "csi.storage.k8s.io/provisioner-secret-namespace"

abbrev pub controller_publish_secret_name : Str
controller_publish_secret_name = lit "csi.storage.k8s.io/controller-publish-secret-name"

abbrev pub controller_publish_secret_namespace : Str
controller_publish_secret_namespace = lit "csi.storage.k8s.io/controller-publish-secret-namespace"

abbrev pub node_stage_secret_name : Str
node_stage_secret_name = lit "csi.storage.k8s.io/node-stage-secret-name"

abbrev pub node_stage_secret_namespace : Str
node_stage_secret_namespace = lit "csi.storage.k8s.io/node-stage-secret-namespace"

abbrev pub node_publish_secret_name : Str
node_publish_secret_name = lit "csi.storage.k8s.io/node-publish-secret-name"

abbrev pub node_publish_secret_namespace : Str
node_publish_secret_namespace = lit "csi.storage.k8s.io/node-publish-secret-namespace"

abbrev pub controller_expand_secret_name : Str
controller_expand_secret_name = lit "csi.storage.k8s.io/controller-expand-secret-name"

abbrev pub controller_expand_secret_namespace : Str
controller_expand_secret_namespace = lit "csi.storage.k8s.io/controller-expand-secret-namespace"

abbrev pub node_expand_secret_name : Str
node_expand_secret_name = lit "csi.storage.k8s.io/node-expand-secret-name"

abbrev pub node_expand_secret_namespace : Str
node_expand_secret_namespace = lit "csi.storage.k8s.io/node-expand-secret-namespace"

abbrev pub pvc_name_key : Str
pvc_name_key = lit "csi.storage.k8s.io/pvc/name"

abbrev pub pvc_namespace_key : Str
pvc_namespace_key = lit "csi.storage.k8s.io/pvc/namespace"

-- The keys of the protocol secret (service/protocolsecret.go).

abbrev pub secret_iscsi_network_space : Str
secret_iscsi_network_space = lit "iscsi.network_space"

abbrev pub secret_iscsi_use_chap : Str
secret_iscsi_use_chap = lit "iscsi.useCHAP"

abbrev pub secret_nvme_network_space : Str
secret_nvme_network_space = lit "nvme.network_space"

abbrev pub secret_nfs_network_space : Str
secret_nfs_network_space = lit "nfs.network_space"

abbrev pub secret_nfs_export_permissions : Str
secret_nfs_export_permissions = lit "nfs.nfs_export_permissions"
