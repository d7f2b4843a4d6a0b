-- ===== src/Daemon/Driver/Types.antt =====
-- The data of internal/daemon/driver.go, the parts of the Kubernetes objects that it reads, and the
-- interfaces that the driver is built on.
use thunder_device_plugin.Base.{ℕ, Option, List, Str, Fault, Call, Assoc}

-- One allocated device of a claim's status.
pub record AllocationResult : Type 0 where
  pub request : Str
  pub driver : Str
  pub pool : Str
  pub device : Str
  pub share_id : Option Str

pub record ConsumerReference : Type 0 where
  pub api_group : Str
  pub resource : Str
  pub name : Str
  pub uid : Str

-- The parts of a resource.k8s.io ResourceClaim that the driver reads. `allocation` is
-- status.allocation.devices.results, `none` while the claim is not allocated.
pub record ResourceClaim : Type 0 where
  pub uid : Str
  pub namespace : Str
  pub name : Str
  pub allocation : Option (List AllocationResult)
  pub reserved_for : List ConsumerReference

-- A device attribute: its string value, if it has one.
pub record Device : Type 0 where
  pub name : Str
  pub attributes : Assoc Str (Option Str)

pub record ResourceSlice : Type 0 where
  pub pool_name : Str
  pub devices : List Device

-- kubeletplugin.Device and kubeletplugin.NamespacedObject.
pub record PreparedDevice : Type 0 where
  pub requests : List Str
  pub pool_name : Str
  pub device_name : Str
  pub share_id : Option Str
  pub cdi_device_ids : List Str

pub record NamespacedObject : Type 0 where
  pub uid : Str
  pub namespace : Str
  pub name : Str

pub record ResourceConsumer : Type 0 where
  pub api_group : Str
  pub resource : Str
  pub namespace : Str
  pub name : Str
  pub uid : Str

pub record AllocatedDevice : Type 0 where
  pub request_name : Str
  pub pool_name : Str
  pub device_name : Str
  pub share_id : Option Str

pub record Allocation : Type 0 where
  pub claim_uid : Str
  pub claim_namespace : Str
  pub claim_name : Str
  pub devices : List AllocatedDevice
  pub request_name : Str
  pub pool_name : Str
  pub device_name : Str
  pub share_id : Option Str
  pub consumer : ResourceConsumer
  pub node_name : Str
  pub zone : Str
  pub gpu_type : Str
  pub gpu_count : ℕ

-- Times are in nanoseconds; 0 is Go's zero time.
pub record ThunderClient : Type 0 where
  pub claim_uid : Str
  pub claim_namespace : Str
  pub claim_name : Str
  pub gpu_type : Str
  pub gpu_count : ℕ
  pub zone : Str
  pub node_name : Str
  pub request_name : Str
  pub pool_name : Str
  pub device_name : Str
  pub share_id : Option Str
  pub consumer : ResourceConsumer
  pub cdi_name : Str
  pub enrollment_token_id : Str
  pub guest_namespace : Str
  pub guest_secret : Str
  pub created_at : ℕ
  pub updated_at : ℕ

pub record GuestArtifacts : Type 0 where
  pub namespace : Str
  pub secret_name : Str

-- The token's ID and the token; when it expires is not read by the driver.
pub record TokenIssuer (W : Type 0) : Type 0 where
  pub mint : Allocation → Call W Fault (Str × Str)
  pub revoke : Str → W → Option Fault × W
  pub revoke_client : Str → W → Option Fault × W

-- A missing client is the fault `not_found`, Go's ErrNotFound.
pub record ThunderClientStore (W : Type 0) : Type 0 where
  pub get : Str → Call W Fault ThunderClient
  pub upsert : ThunderClient → W → Option Fault × W
  pub delete : Str → W → Option Fault × W

-- `client_install_command` is what CDIInstallCommand finds: the field of a FileCDIDeviceStore, and
-- nothing for another store.
pub record CdiDeviceStore (W : Type 0) : Type 0 where
  pub create : Allocation → Str → Call W Fault Str
  pub remove : Str → W → Option Fault × W
  pub staged_client_id : Str → W → Str × W
  pub client_install_command : Option Str

pub record GuestConfigStore (W : Type 0) : Type 0 where
  pub create : Allocation → Str → Str → Call W Fault GuestArtifacts
  pub remove : GuestArtifacts → W → Option Fault × W

-- The Kubernetes API as the driver uses it: the ResourceSlices of a driver.
pub record Kube (W : Type 0) : Type 0 where
  pub list_resource_slices : Str → Call W Fault (List ResourceSlice)

-- A nil field is `none`.
pub record Driver (W : Type 0) : Type 0 where
  pub driver_name : Str
  pub node_name : Str
  pub kube : Option (Kube W)
  pub tokens : Option (TokenIssuer W)
  pub clients : Option (ThunderClientStore W)
  pub cdi : Option (CdiDeviceStore W)
  pub guest : Option (GuestConfigStore W)

-- The four stores of a driver that passed its validation.
pub record Stores (W : Type 0) : Type 0 where
  pub tokens : TokenIssuer W
  pub clients : ThunderClientStore W
  pub cdi : CdiDeviceStore W
  pub guest : GuestConfigStore W

pub data DriverError : Type 0 where
  -- "kubernetes client is required" and the like
  kube_required tokens_required clients_required cdi_required guest_required : DriverError
  not_allocated : DriverError
  -- "list ResourceSlices", "allocated device %s/%s was not found in ResourceSlices"
  list_slices_failed : Fault → DriverError
  device_not_found missing_attributes : Str → Str → DriverError
  -- "claim mixes Thunder pools", "claim has no allocation result for driver %s"
  mixed_pools no_result : DriverError
  load_failed mint_failed guest_failed cdi_failed upsert_failed : Fault → DriverError
  revoke_client_failed revoke_token_failed cdi_remove_failed : Str → Fault → DriverError
  guest_remove_failed delete_failed : Fault → DriverError
