-- ===== src/Service/Protocol/Spaces.antt =====
-- The network space of a volume whose protocol comes from the protocol secret.
use infinibox_csi_driver.Prelude.{ℕ, ◌≡◌, refl, some, [], ◌∷◌}
use infinibox_csi_driver.Strings.{Str, str_eq}
use infinibox_csi_driver.Exec.{done, fail, plain_error}
use infinibox_csi_driver.Params.{
  Params, value, storage_protocol, network_space, protocol_iscsi, protocol_nvme,
  secret_nvme_network_space,
}
use infinibox_csi_driver.Ibox.{History}
use infinibox_csi_driver.Cluster.{Cluster}
use infinibox_csi_driver.Service.Secrets.{get_protocol_secret}
use infinibox_csi_driver.Service.Protocol.{determine_storage_protocol}

-- If a StorageClass names neither a protocol nor a network space, and the protocol secret is read and
-- says iscsi, then the request fails, whatever network space the secret gives for iSCSI.
pub determine_storage_protocol_iscsi :
    (k : Cluster) (params secret : Params) (h h' : History)
    → value params storage_protocol ≡ []
    → value params network_space ≡ []
    → get_protocol_secret k h ≡ (done (some secret), h')
    → value secret storage_protocol ≡ protocol_iscsi
    → determine_storage_protocol k params h ≡ (fail plain_error, h')
unfolding determine_storage_protocol str_eq
determine_storage_protocol_iscsi k params secret h h' p n s q = rw p (rw s (rw q (rw n refl)))

-- If a StorageClass names neither, and the secret says nvme with a network space, then the protocol
-- is NVMe, and the parameters still have no network space.
pub determine_storage_protocol_nvme :
    (k : Cluster) (params secret : Params) (h h' : History) (c : ℕ) (space : Str)
    → value params storage_protocol ≡ []
    → value params network_space ≡ []
    → get_protocol_secret k h ≡ (done (some secret), h')
    → value secret storage_protocol ≡ protocol_nvme
    → value secret secret_nvme_network_space ≡ c ∷ space
    → determine_storage_protocol k params h ≡ (done (protocol_nvme, params), h')
unfolding determine_storage_protocol str_eq
determine_storage_protocol_nvme k params secret h h' c space p n s q v =
    rw p (rw s (rw q (rw v refl)))
