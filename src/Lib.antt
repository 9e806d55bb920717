-- ===== src/Lib.antt =====
-- nasty-csi is a CSI driver: Kubernetes calls its controller to create, publish and delete volumes,
-- and the controller calls a NASty storage server (nasty-go's client) that keeps each volume as a
-- subvolume with properties. This library models the controller's core logic, in pkg/driver, and
-- the retries of pkg/retry.
--
-- Parts, and the files that model them:
--   * Common: shared names; Int is Go's int64 with its wrap-around, Text its string operations, Dict
--     and Props its maps (mergeProperties, copyProperties and propertiesContain of
--     pkg/driver/volume_identity.go), Result its status errors, Act code that calls the server.
--   * Api: the operations of the storage client that the driver uses, as a record of functions on an
--     unknown server state, without any law; Api/Memory is a small server for the tests.
--   * Volume: subvolumes, volume IDs and VolumeMetadata of pkg/driver/controller.go; Volume/Key the
--     property names.
--   * Capacity: representableCapacity, planExpansion and normalizeCreateCapacity of
--     pkg/driver/controller.go; the theorems are in Capacity/Rounding, Expansion and Creation.
--   * Registry and Publish: pkg/driver/node_registry.go, ControllerPublishVolume and
--     ControllerUnpublishVolume of pkg/driver/controller.go. A mutex makes each method one step.
--   * Names: pkg/driver/template.go. text/template and SHA-256 are the parameters `Libraries`.
--   * Identity: pkg/driver/volume_identity.go. Identity decides whose a volume is, Identity/Persist
--     writes the decision to the server and rolls back, Identity/Clones selects existing volumes
--     and classifies clones; Identity/Clones/Carried and Copied say in terms of the properties
--     what it compares.
--   * Retry: pkg/retry/retry.go. The loop is a recursion on the attempts that remain, so it needs no
--     fuel; context, timer, call and float64 are parameters, and the log of calls and waits is
--     returned beside the result. Retry/Errors has the predicates on errors.
--   * Delete: DeleteVolume of pkg/driver/controller.go with pkg/driver/delete_ownership.go (Ownership),
--     share_cleanup.go (Shares) and the deletions of controller_nfs.go, controller_smb.go,
--     controller_iscsi.go and controller_nvmeof.go (Protocols). It uses Volume, Api and Retry.
--   * Listing: the lookups of a volume, listManagedVolumes and ListVolumes of pkg/driver/controller.go;
--     a client that follows the tokens has fuel for one page more than there are volumes, which is
--     enough as every page holds one.
--   * Expand: ControllerExpandVolume of pkg/driver/controller.go with the expansions of the four
--     protocols' files. It uses Listing, Capacity and Api.
--   * Create: CreateVolume of pkg/driver/controller.go, from the request to the response. Create has
--     the requests, the parameter `Provider` (what the driver calls besides Api) and the settings;
--     Steps what the protocols share (createVolumeError, getOrCreateSubvolume, the commit of the
--     identity and its rollback); Params the validation of the StorageClass parameters of
--     controller_nfs.go, controller_smb.go, controller_iscsi.go and controller_nvmeof.go; Nfs, Smb and
--     Block with Exports their create paths; Clone the clones of volumes and, from
--     controller_snapshot_clone.go, of snapshots; Adopt checkAndAdoptVolume with the four adoptions;
--     Request the handler itself. Served says what a response promises, in terms of what the
--     server answered (Api/Backed), Served/* proves it path by path; Grown is about the capacity of
--     clones and Subsystems about selectNVMeSubsystem.
--     It uses Identity, Capacity, Capabilities, Names and Listing.
--   * Snapshot: the snapshot IDs of pkg/driver/controller_snapshot.go. Snapshots: its handlers
--     CreateSnapshot and DeleteSnapshot; Snapshots/Listing: ListSnapshots and ControllerGetSnapshot of
--     controller_snapshot_list.go, with the sort as an insertion sort.
--   * Lifecycle: the locks per volume of pkg/driver/node_lifecycle.go as a step relation of any number
--     of goroutines. A step is a critical section of the mutex, an operation on the channel of an
--     entry or a choice of the select; the entries are shared objects on a heap.
--     Lifecycle/Refinement relates them to one abstract lock per volume.
--   * Info: ControllerGetVolume, the health of a volume, ValidateVolumeCapabilities and GetCapacity of
--     pkg/driver/controller.go, with the checks in controller_iscsi.go and controller_smb.go.
--   * Mount: the mount tables of pkg/mount/mountinfo.go and mount_refs_linux.go, from the lines that
--     bufio.Scanner gives (`Table`); Mount/Paths has the absolute paths of path/filepath, Mount/Refs
--     bindMountRefs, Mount/Escapes the two decoders of escaped paths and the kernel's encoding.
--   * Capabilities: access modes and block filesystems of pkg/driver/controller.go.
--
-- Errors are the gRPC codes; the texts of messages, the logs and the metrics are not modelled. A Go
-- map is a list of entries with one entry per key where that matters. A nil map of properties reads
-- like an empty one. The random source of a UUID is an argument: one `Fresh`, or one for each call
-- (`uuids`) where a handler may make several. Common/Returns reasons about what a step of a handler
-- returns when it returns without an error. The handlers have no loops but those on lists, so they
-- need no fuel and always answer.
--
-- Not modelled: the logs, the wait of three seconds after the creation of an NVMe-oF subsystem, the
-- node service but for its locks, the calls of mount(8), cmdexec, the metrics and the dashboard: they
-- call the operating system, Kubernetes or Prometheus.
pub mod Common
pub mod Volume
pub mod Api
pub mod Capacity
pub mod Registry
pub mod Publish
pub mod Names
pub mod Identity
pub mod Retry
pub mod Delete
pub mod Create
pub mod Snapshot
pub mod Snapshots
pub mod Capabilities
pub mod Lifecycle
pub mod Listing
pub mod Expand
pub mod Mount
pub mod Info
