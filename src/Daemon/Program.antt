-- ===== src/Daemon/Program.antt =====
-- The DRA driver with the daemon's own stores (internal/daemon/driver.go, store.go): ThunderTokenIssuer,
-- KubernetesThunderClientStore, FileCDIDeviceStore and KubernetesGuestConfigStore. The calls that
-- they make on Thunder, on Kubernetes and on the node are parameters.
use thunder_device_plugin.Base.{
  ℕ, ◌≡◌, ◌⊎◌, false, Option, none, some, List, ◌∷◌, Str, Assoc, Outcome, ok, err, Fault, is_blank,
  not_found,
}
use thunder_device_plugin.Daemon.Driver.{Allocation, Stores}
use thunder_device_plugin.Daemon.Driver.Accounts.{without}
use thunder_device_plugin.Daemon.Driver.Issuer.{
  ThunderSdk, CreateClientEnrollmentRequest, ClientEnrollment, as_token_issuer,
}
use thunder_device_plugin.Daemon.Clients.Object.{Clock, ClientObject}
use thunder_device_plugin.Daemon.Clients.Store.{ClientApi, as_client_store}
use thunder_device_plugin.Daemon.Clients.Laws.{ApiLaws}
use thunder_device_plugin.Daemon.Hook.Files.{Files}
use thunder_device_plugin.Daemon.Hook.Exchange.{Codec}
use thunder_device_plugin.Daemon.Cdi.Hooks.{FileCdiDeviceStore}
use thunder_device_plugin.Daemon.Cdi.Device.{Marshal, as_cdi_store}
use thunder_device_plugin.Daemon.Guest.Store.{Secret, SecretApi, as_guest_store}
pub mod Live
pub mod Kept
mod Tests

-- What the stores call, and what they are set up with.
pub record Outside (W : Type 0) : Type 0 where
  pub sdk : ThunderSdk W
  pub api : ClientApi W
  pub files : Files W
  pub secrets : SecretApi W
  pub times : Clock
  pub zone_id : Str
  pub namespace : Str
  pub cdi : FileCdiDeviceStore
  pub marshal : Marshal
  pub codec : Codec
  pub flags : Allocation → Assoc Str Str
  pub digest : Str → Str

-- The daemon's stores.
unfoldable pub driver_stores : {W : Type 0} → Outside W → Stores W
driver_stores o = record {
  tokens = as_token_issuer (record { client = some o.sdk; zone_id = o.zone_id });
  clients = as_client_store o.times (record { client = some o.api; namespace = o.namespace });
  cdi = as_cdi_store o.files o.cdi o.marshal o.codec o.flags;
  guest = as_guest_store (some o.secrets) o.digest;
}

-- What is documented of the calls: an observer of the enrollment tokens that are live at Thunder. The
-- SDK's two calls on enrollments move them, and nothing else does. An enrollment that is created has
-- a new ID that is not blank; one that is refused makes none; a token that Thunder revoked, or does
-- not know, is not live.
pub record OutsideLaws {W : Type 0} (o : Outside W) (live : W → List Str)
    (objects : Str → Str → W → Option ClientObject) : Type 0 where
  pub api_laws : ApiLaws o.api objects
  pub get_alone :
      (namespace name namespace' name' : Str) (w : W)
      → objects namespace' name' (o.api.get namespace name w).1 ≡ objects namespace' name' w
  pub created :
      (request : CreateClientEnrollmentRequest) (w : W) (e : ClientEnrollment)
      → (o.sdk.create_client_enrollment request w).0 ≡ ok e
      → (live (o.sdk.create_client_enrollment request w).1 ≡ e.enrollment_token_id ∷ live w)
        × (without e.enrollment_token_id (live w) ≡ live w)
        × (is_blank e.enrollment_token_id ≡ false)
  pub refused :
      (request : CreateClientEnrollmentRequest) (w : W) (fault : Fault)
      → (o.sdk.create_client_enrollment request w).0 ≡ err fault
      → live (o.sdk.create_client_enrollment request w).1 ≡ live w
  pub unenrolled :
      (id : Str) (w : W)
      → ((o.sdk.unenroll_client id w).0 ≡ none) ⊎ ((o.sdk.unenroll_client id w).0 ≡ some not_found)
      → live (o.sdk.unenroll_client id w).1 ≡ without id (live w)
  pub by_client : (id : Str) (w : W) → live (o.sdk.revoke_client id w).1 ≡ live w
  pub by_get : (namespace name : Str) (w : W) → live (o.api.get namespace name w).1 ≡ live w
  pub by_create : (object : ClientObject) (w : W) → live (o.api.create object w).1 ≡ live w
  pub by_update : (object : ClientObject) (w : W) → live (o.api.update object w).1 ≡ live w
  pub by_delete : (namespace name : Str) (w : W) → live (o.api.delete namespace name w).1 ≡ live w
  pub by_now : (w : W) → live (o.api.now w).1 ≡ live w
  pub by_read_file : (path : Str) (w : W) → live (o.files.read_file path w).1 ≡ live w
  pub by_close : (path : Str) (w : W) → live (o.files.close_file path w).1 ≡ live w
  pub by_rename : (from to : Str) (w : W) → live (o.files.rename from to w).1 ≡ live w
  pub by_remove : (path : Str) (w : W) → live (o.files.remove path w).1 ≡ live w
  pub by_remove_all : (path : Str) (w : W) → live (o.files.remove_all path w).1 ≡ live w
  pub by_mkdir : (path : Str) (w : W) → live (o.files.mkdir_all path w).1 ≡ live w
  pub by_write_file :
      (path content : Str) (w : W) → live (o.files.write_file path content w).1 ≡ live w
  pub by_open_lock : (path : Str) (w : W) → live (o.files.open_lock path w).1 ≡ live w
  pub by_lock : (path : Str) (w : W) → live (o.files.lock path w).1 ≡ live w
  pub by_unlock : (path : Str) (w : W) → live (o.files.unlock path w).1 ≡ live w
  pub by_get_secret :
      (namespace name : Str) (w : W) → live (o.secrets.get namespace name w).1 ≡ live w
  pub by_create_secret : (secret : Secret) (w : W) → live (o.secrets.create secret w).1 ≡ live w
  pub by_update_secret : (secret : Secret) (w : W) → live (o.secrets.update secret w).1 ≡ live w
  pub by_delete_secret :
      (namespace name : Str) (w : W) → live (o.secrets.delete namespace name w).1 ≡ live w
