-- ===== src/Lib.antt =====
-- Infinidat's CSI driver: the controller's decisions as functions, with the theorems that make them
-- correct.
--
-- The driver answers the gRPC calls of Kubernetes (service/), chooses the controller of a storage
-- protocol (storage/fc, storage/iscsi, storage/nvme, storage/nfs, storage/treeq), which shares the
-- code of storage/common, and every controller calls the appliance through iboxapi.Client.
--
--   Prelude, Strings    shared notation and lemmas; Go's byte strings, strings.Split, strings.Contains,
--                       strconv.Itoa, strconv.Atoi and strconv.ParseBool by their documentation
--   Exec                the result of a Go function: a value, an error or a panic, with the calls made;
--                       errors as in common/errorf.go and storage/common/common.go
--   Ibox                iboxapi: the structs, the calls (`Call`), the appliance (`Env`), the calls as
--                       actions (Ibox/Client), and properties of histories of calls (Ibox/Safety)
--   Params              StorageClass parameters (map[string]string) and the keys of common/types.go
--   VolumeId            ValidateVolumeID and DetermineHostName (storage/common/common.go), and
--                       validateNodeID (service/controller.go)
--   Capacity            RoundUp (helper/roundup.go), determineCapacity and the capacity of
--                       ControllerExpandVolume (service/controller.go), DetermineSSDValue
--   SnapshotLock        ValidateSnapshotLockingParameter (storage/common/snapshot.go)
--   Capability          validateCapabilities (service/controller.go), helper/accessmodes.go
--   Volumes/Delete      DeleteVolume (storage/common/deletevolume.go)
--   Volumes/Hosts       ValidateHost, MapVolumeTohost, UnmapVolumeFromHost and HostCleanup
--                       (storage/common/common.go), CommonUnpublishVolume (unpublishvolume.go)
--   Volumes/Response    GetCSIResponse, getStoragePoolNameFromID and CopyRequestParameters
--   Volumes/Clone       CreateVolumeFromVolumeContent and featureEnabled (storage/common/snapshot.go)
--   Volumes/Snapshots   CommonCreateSnapshot (storage/common/createsnapshot.go)
--   Fc                  storage/fc/fccontroller.go: publish, create, delete, expand, snapshot
--   Iscsi               ControllerPublishVolume (storage/iscsi/iscsicontroller.go), and in Iscsi/Create
--                       CreateVolume there and in storage/nvme/nvmecontroller.go
--   Nvme                ControllerPublishVolume and ControllerExpandVolume
--                       (storage/nvme/nvmecontroller.go)
--   Nfs                 storage/nfs/nfscontroller.go: Nfs/Create creates file systems and exports,
--                       Nfs/Operations has the other operations, Nfs/Permissions
--                       storage/nfs/nfspermissions.go and GetNetworkSpaceIP
--   Exports             AddNodeInExport, DeleteExportRule, DeleteNodeFromExport, removeIndex and
--                       compareClientIP (api/nfsapiclient.go); net.ParseIP is a parameter
--   FileSystems         DeleteFileSystemComplete and DeleteParentFileSystem (api/nfsapiclient.go)
--   Treeqs              UpdateTreeqCnt, DeleteTreeqVolume, UpdateTreeqVolume, convertToByte and (in
--                       Treeqs/Choice) getExpectedFileSystemID (storage/treeq/treeqservice.go);
--                       Treeqs/Create has IsTreeqAlreadyExist and CreateTreeqVolume, and
--                       Treeqs/Controller storage/treeq/treeqcontroller.go
--   Locks               TryAcquire and Release (helper/volumelock.go); sets.Set is a parameter
--   Cluster             the Kubernetes client (api/clientgo/goclient.go), the environment variables and
--                       the appliances that secrets lead to, as a parameter
--   Service             service/controller.go: Service/Operations is storage/storageservice.go, the
--                       interface that the service has to every controller; Secrets, Protocol and
--                       Classes are the checks of a request, Create, Delete, Publish and Rest the
--                       handlers, Replicas service/screplica.go, Listing service/listvolumes.go,
--                       Snapshots service/listsnapshots.go, Groups
--                       service/volumegroupcontroller.go, Replication
--                       service/csiaddons/replication.go, and VolumeGroups
--                       service/csiaddons/volumegroup.go
--   Controllers         the five controllers as values of that interface, with the tables of their
--                       ValidateStorageClass; Controllers/Numbers and Controllers/Files are about
--                       the identifiers of what they create
--   Examples            the theorems at concrete inputs
--
-- Environment. The appliance is a parameter: each call is answered by any function of the calls made
-- before, so that a theorem about every appliance covers failures, stale answers and changes made by
-- other clients between two calls. A handler returns its outcome and the history of its calls, the
-- latest first. A safety property says what had been asked and answered before a call that changes
-- the appliance. Paged queries return the items read before an error beside the error.
--
-- Composition. A handler of the service finds an appliance by the request's secrets, and a controller
-- by the protocol of the identifier or of the StorageClass. The handlers take any cluster and any
-- controllers, or those of Controllers. Calls to every appliance stand in one history, and each
-- appliance answers from all of it.
--
-- Numbers and bounds. Go's int and int64 are integers with their 64-bit wrap-around written out
-- where the code adds or multiplies without a test; identifiers and sizes that are only compared
-- are plain integers. The chains of parents that DeleteVolume and DeleteParentFileSystem follow are
-- recursions on fuel; for DeleteVolume, enough of it is given as soon as no volume is its own
-- ancestor.
--
-- Not modelled: logging (with the query for the system's serial number that only feeds it), sleeps,
-- counters, the mutexes around publishing and treeqs, the texts that wrapped errors add, and the HTTP
-- layer. Matching of regular expressions, decoding of JSON, parsing of URLs, strings.ToUpper,
-- rand.Intn, the order of loops over maps and the order in which concurrent answers arrive are
-- parameters. The identity server of the add-ons (service/csiaddons), the operators, and the node
-- side with its mounts and devices are left out.
pub mod Prelude
pub mod Strings
pub mod Exec
pub mod Ibox
pub mod Params
pub mod Cluster
pub mod VolumeId
pub mod Capacity
pub mod SnapshotLock
pub mod Capability
pub mod Volumes
pub mod Fc
pub mod Iscsi
pub mod Exports
pub mod FileSystems
pub mod Treeqs
pub mod Nfs
pub mod Nvme
pub mod Locks
pub mod Service
pub mod Controllers
pub mod Examples
