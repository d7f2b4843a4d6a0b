-- ===== src/Daemon/Program/Tests.antt =====
-- The driver with the daemon's own stores, on a cluster where Thunder issues one token at a time and
-- the API keeps one ThunderClient.
use thunder_device_plugin.Base.{
  ℕ, ◌≡◌, ◌⊎◌, refl, ap, sym, Bool, true, false, not, Option, none, some, List, [], ◌∷◌, Str, codes,
  Outcome, ok, err, Fault, not_found, other, ◌==◌, text_eq, is_blank, Bool-cases, inl, inr,
  if◌then◌else◌,
}
use thunder_device_plugin.Daemon.Driver.{
  Allocation, ThunderClient, NamespacedObject, PreparedDevice, DriverError, devices_for,
  thunder_client_from_allocation,
}
use thunder_device_plugin.Daemon.Driver.Claims.{prepare_allocation, unprepare_claim}
use thunder_device_plugin.Daemon.Driver.Accounts.{Accounts, without}
use thunder_device_plugin.Daemon.Driver.Issuer.{
  ThunderSdk, ClientEnrollment, CreateClientEnrollmentRequest, revoke, known,
}
use thunder_device_plugin.Daemon.Driver.Tokens.{Accounted, prepare_allocation-Accounted}
use thunder_device_plugin.Daemon.Driver.Release.{unprepare_claim_revokes}
use thunder_device_plugin.Daemon.Driver.Lifecycle.{prepare_allocation_again}
use thunder_device_plugin.Daemon.Clients.Object.{ClientObject}
use thunder_device_plugin.Daemon.Clients.Tests as Clients
use thunder_device_plugin.Daemon.Cdi.Tests.{s, allocation}
use thunder_device_plugin.Daemon.Program.{Outside, OutsideLaws, driver_stores}
use thunder_device_plugin.Daemon.Program.Kept.{driver_stores-Accounts}

-- Is the token live, and the object that is there.
abbrev World : Type 0
World = Bool × Option ClientObject

abbrev token_id : Str
token_id = codes "t1"

abbrev live : World → List Str
live (true, object) = token_id ∷ []
live (false, object) = []

abbrev enrollment : ClientEnrollment
enrollment = record { enrollment_token_id = token_id; enrollment_token = codes "secret" }

abbrev enroll : CreateClientEnrollmentRequest → World → Outcome Fault ClientEnrollment × World
enroll request (true, object) = (err (other []), (true, object))
enroll request (false, object) = (ok enrollment, (true, object))

abbrev unenroll : Str → World → Option Fault × World
unenroll id (true, object) = (none, (not (token_id == id), object))
unenroll id (false, object) = (none, (false, object))

abbrev outside : Outside World
outside = record {
  sdk = record {
    create_client_enrollment = enroll;
    revoke_client = λ id w. (none, w);
    unenroll_client = unenroll;
  };
  api = record {
    get = λ namespace name w.
        let (found, object) = Clients.api.get namespace name w.1 in (found, (w.0, object));
    create =
        λ object w. let (failed, next) = Clients.api.create object w.1 in (failed, (w.0, next));
    update =
        λ object w. let (failed, next) = Clients.api.update object w.1 in (failed, (w.0, next));
    delete = λ namespace name w.
        let (failed, next) = Clients.api.delete namespace name w.1 in (failed, (w.0, next));
    now = λ w. (7000000123, w);
  };
  files = record {
    read_file = λ path w. (err not_found, w);
    open_file = λ path w. (none, w);
    create_temp = λ dir w. (ok dir, w);
    write_to = λ path content w. (none, w);
    copy_to = λ source temp w. (none, w);
    close_file = λ path w. (none, w);
    chmod = λ path mode w. (none, w);
    rename = λ from to w. (none, w);
    remove = λ path w. (none, w);
    remove_all = λ path w. (none, w);
    mkdir_all = λ path w. (none, w);
    write_file = λ path content w. (none, w);
    open_lock = λ path w. (none, w);
    lock = λ path w. (none, w);
    unlock = λ path w. (none, w);
  };
  secrets = record {
    get = λ namespace name w. (err not_found, w);
    create = λ secret w. (none, w);
    update = λ secret w. (none, w);
    delete = λ namespace name w. (none, w);
  };
  times = Clients.clock;
  zone_id = [];
  namespace = codes "ts";
  cdi = s;
  marshal = λ spec. ok [];
  codec = record {
    encode_hostname = λ text. ok text;
    decode_response = λ text. err [];
    decode_base64 = λ text. ok text;
    decode_claims = λ text. err [];
    encode_config = λ config. ok [];
    decode_config = λ text. err [];
  };
  flags = λ a. [];
  digest = λ text. [];
}

enrolled :
    (request : CreateClientEnrollmentRequest) (w : World) (e : ClientEnrollment)
    → (enroll request w).0 ≡ ok e
    → (live (enroll request w).1 ≡ e.enrollment_token_id ∷ live w)
      × (without e.enrollment_token_id (live w) ≡ live w)
      × (is_blank e.enrollment_token_id ≡ false)
unfolding without codes thunder_device_plugin.Base.trim_space
enrolled request (true, object) e h = cc
enrolled request (false, object) e h =
    let same : enrollment ≡ e = cc in
    (ap (λ x. x.enrollment_token_id ∷ []) same, refl, rw (sym same) refl)

refused :
    (request : CreateClientEnrollmentRequest) (w : World) (fault : Fault)
    → (enroll request w).0 ≡ err fault
    → live (enroll request w).1 ≡ live w
refused request (true, object) fault h = refl
refused request (false, object) fault h = cc

kept_live :
    (gone : Bool) (object : Option ClientObject)
    → live (not gone, object) ≡ (if not gone then token_id ∷ [] else [])
kept_live true object = refl
kept_live false object = refl

unenrolled : (id : Str) (w : World) → live (unenroll id w).1 ≡ without id (live w)
unfolding without
unenrolled id (false, object) = refl
unenrolled id (true, object) = kept_live (token_id == id) object

other_part :
    (token : Bool) (object object' : Option ClientObject)
    → live (token, object) ≡ live (token, object')
other_part true object object' = refl
other_part false object object' = refl

laws : OutsideLaws outside live (λ namespace name w. Clients.at namespace name w.1)
laws = record {
  api_laws = record {
    get_ok = λ namespace name w. Clients.laws.get_ok namespace name w.1;
    get_missing = λ namespace name w. Clients.laws.get_missing namespace name w.1;
    get_named = λ namespace name w. Clients.laws.get_named namespace name w.1;
    get_keeps = λ namespace name w. Clients.laws.get_keeps namespace name w.1;
    create_ok = λ object w. Clients.laws.create_ok object w.1;
    update_ok = λ object w. Clients.laws.update_ok object w.1;
    update_released = λ object w. Clients.laws.update_released object w.1;
    update_missing = λ object w. Clients.laws.update_missing object w.1;
    delete_ok = λ namespace name w. Clients.laws.delete_ok namespace name w.1;
    delete_missing = λ namespace name w. Clients.laws.delete_missing namespace name w.1;
  };
  get_alone = λ namespace name namespace' name' w. refl;
  created = enrolled;
  refused = refused;
  unenrolled = λ id w answered. unenrolled id w;
  by_client = λ id w. refl;
  by_get = λ namespace name w. other_part w.0 _ _;
  by_create = λ object w. other_part w.0 _ _;
  by_update = λ object w. other_part w.0 _ _;
  by_delete = λ namespace name w. other_part w.0 _ _;
  by_now = λ w. refl;
  by_read_file = λ path w. refl;
  by_close = λ path w. refl;
  by_rename = λ from to w. refl;
  by_remove = λ path w. refl;
  by_remove_all = λ path w. refl;
  by_mkdir = λ path w. refl;
  by_write_file = λ path content w. refl;
  by_open_lock = λ path w. refl;
  by_lock = λ path w. refl;
  by_unlock = λ path w. refl;
  by_get_secret = λ namespace name w. refl;
  by_create_secret = λ secret w. refl;
  by_update_secret = λ secret w. refl;
  by_delete_secret = λ namespace name w. refl;
}

abbrev accounts : Accounts outside.api.now (driver_stores outside)
accounts = driver_stores-Accounts laws

answers : (id : Str) (w : World) → (unenroll id w).0 ≡ none
answers id (true, object) = refl
answers id (false, object) = refl

revoke_answers : (id : Str) (w : World) → ((driver_stores outside).tokens.revoke id w).0 ≡ none
unfolding driver_stores revoke known
revoke_answers id w = elim (Bool-cases (is_blank id)) [
  | inl blank ↦ rw blank refl
  | inr shown ↦ rw (shown, answers id w) refl
]

abbrev before : World
before = (false, none)

abbrev first_answer : Outcome DriverError (List PreparedDevice) × World
first_answer =
    prepare_allocation outside.api.now (driver_stores outside) allocation.claim_uid allocation
      before

abbrev after : World
after = first_answer.1

abbrev given : List PreparedDevice
given = devices_for (codes "thundercompute.com/gpu=claim-u1") allocation

prepared_well : first_answer.0 ≡ ok given
unfolding prepare_allocation driver_stores thunder_device_plugin.Daemon.Clients.Store.get
    thunder_device_plugin.Daemon.Driver.Claims.prepare_new
    thunder_device_plugin.Daemon.Driver.Issuer.mint
    thunder_device_plugin.Daemon.Driver.Claims.create_guest
    thunder_device_plugin.Daemon.Guest.Store.create thunder_device_plugin.Base.trim_space codes
    thunder_device_plugin.Daemon.Driver.Claims.create_device
    thunder_device_plugin.Daemon.Cdi.Device.create
    thunder_device_plugin.Daemon.Driver.Claims.record_client
    thunder_device_plugin.Daemon.Clients.Store.upsert thunder_client_from_allocation
    thunder_device_plugin.Daemon.Cdi.Hooks.resolved_kind
    thunder_device_plugin.Daemon.Clients.Object.thunder_client_name
    thunder_device_plugin.Base.replace_char thunder_device_plugin.Base.to_lower
prepared_well = refl

prepared_once : first_answer ≡ (ok given, after)
prepared_once = ap (λ answer. (answer, after)) prepared_well

abbrev claim : NamespacedObject
claim = record { uid = codes "u1"; namespace = codes "default"; name = codes "claim" }

abbrev read : Outcome Fault ThunderClient → ThunderClient
read (ok c) = c
read (err fault) =
    thunder_client_from_allocation allocation 0 [] [] (record { namespace = []; secret_name = [] })

abbrev client : ThunderClient
client = read ((driver_stores outside).clients.get claim.uid after).0

read_back : ((driver_stores outside).clients.get claim.uid after).0 ≡ ok client
unfolding prepare_allocation driver_stores thunder_device_plugin.Daemon.Clients.Store.get
    thunder_device_plugin.Daemon.Driver.Claims.prepare_new
    thunder_device_plugin.Daemon.Driver.Issuer.mint
    thunder_device_plugin.Daemon.Driver.Claims.create_guest
    thunder_device_plugin.Daemon.Guest.Store.create thunder_device_plugin.Base.trim_space codes
    thunder_device_plugin.Daemon.Driver.Claims.create_device
    thunder_device_plugin.Daemon.Cdi.Device.create
    thunder_device_plugin.Daemon.Driver.Claims.record_client
    thunder_device_plugin.Daemon.Clients.Store.upsert thunder_client_from_allocation
    thunder_device_plugin.Daemon.Cdi.Hooks.resolved_kind
    thunder_device_plugin.Daemon.Clients.Object.thunder_client_name
    thunder_device_plugin.Base.replace_char thunder_device_plugin.Base.to_lower
    thunder_device_plugin.Base.str_eq
    thunder_device_plugin.Daemon.Clients.Object.thunder_client_object
read_back = refl

shown : is_blank client.enrollment_token_id ≡ false
unfolding prepare_allocation driver_stores thunder_device_plugin.Daemon.Clients.Store.get
    thunder_device_plugin.Daemon.Driver.Claims.prepare_new
    thunder_device_plugin.Daemon.Driver.Issuer.mint
    thunder_device_plugin.Daemon.Driver.Claims.create_guest
    thunder_device_plugin.Daemon.Guest.Store.create thunder_device_plugin.Base.trim_space codes
    thunder_device_plugin.Daemon.Driver.Claims.create_device
    thunder_device_plugin.Daemon.Cdi.Device.create
    thunder_device_plugin.Daemon.Driver.Claims.record_client
    thunder_device_plugin.Daemon.Clients.Store.upsert thunder_client_from_allocation
    thunder_device_plugin.Daemon.Cdi.Hooks.resolved_kind
    thunder_device_plugin.Daemon.Clients.Object.thunder_client_name
    thunder_device_plugin.Base.replace_char thunder_device_plugin.Base.to_lower
    thunder_device_plugin.Base.str_eq
    thunder_device_plugin.Daemon.Clients.Object.thunder_client_object
    thunder_device_plugin.Daemon.Clients.Object.thunder_client_from_object
    thunder_device_plugin.Base.lookup thunder_device_plugin.Base.insert
shown = refl

unprepared_well : (unprepare_claim (driver_stores outside) claim after).0 ≡ none
unfolding prepare_allocation driver_stores thunder_device_plugin.Daemon.Clients.Store.get
    thunder_device_plugin.Daemon.Driver.Claims.prepare_new
    thunder_device_plugin.Daemon.Driver.Issuer.mint
    thunder_device_plugin.Daemon.Driver.Claims.create_guest
    thunder_device_plugin.Daemon.Guest.Store.create thunder_device_plugin.Base.trim_space codes
    thunder_device_plugin.Daemon.Driver.Claims.create_device
    thunder_device_plugin.Daemon.Cdi.Device.create
    thunder_device_plugin.Daemon.Driver.Claims.record_client
    thunder_device_plugin.Daemon.Clients.Store.upsert thunder_client_from_allocation
    thunder_device_plugin.Daemon.Cdi.Hooks.resolved_kind
    thunder_device_plugin.Daemon.Clients.Object.thunder_client_name
    thunder_device_plugin.Base.replace_char thunder_device_plugin.Base.to_lower
    thunder_device_plugin.Base.str_eq
    thunder_device_plugin.Daemon.Clients.Object.thunder_client_object
    thunder_device_plugin.Daemon.Clients.Object.thunder_client_from_object
    thunder_device_plugin.Base.lookup thunder_device_plugin.Base.insert unprepare_claim
    thunder_device_plugin.Daemon.Driver.Claims.release_client
    thunder_device_plugin.Daemon.Driver.Claims.release_token
    thunder_device_plugin.Daemon.Driver.Claims.release_device
    thunder_device_plugin.Daemon.Driver.Claims.release_guest
    thunder_device_plugin.Daemon.Driver.Claims.delete_client
    thunder_device_plugin.Daemon.Cdi.Device.staged_client_id
    thunder_device_plugin.Daemon.Cdi.Device.remove revoke
    thunder_device_plugin.Daemon.Guest.Store.remove
    thunder_device_plugin.Daemon.Clients.Store.delete
    thunder_device_plugin.Daemon.Hook.Files.lock_state_dir
    thunder_device_plugin.Daemon.Driver.Claims.recorded_artifacts
    thunder_device_plugin.Base.first_non_empty
    thunder_device_plugin.Daemon.Guest.Store.thunder_guest_setup_secret_name
unprepared_well = refl

prepare_allocation-Accounted_example : Accounted accounts allocation (accounts.live before) (
    prepare_allocation outside.api.now
      (driver_stores outside)
      allocation.claim_uid
      allocation
      before)
prepare_allocation-Accounted_example =
    prepare_allocation-Accounted accounts revoke_answers allocation before

unprepare_claim_revokes_example :
    accounts.live (unprepare_claim (driver_stores outside) claim after).1
    ≡ without client.enrollment_token_id (accounts.live after)
unprepare_claim_revokes_example =
    unprepare_claim_revokes accounts claim after client read_back shown unprepared_well

prepare_allocation_again_example :
    prepare_allocation outside.api.now (driver_stores outside) allocation.claim_uid allocation after
    ≡ (ok given, ((driver_stores outside).clients.get allocation.claim_uid after).1)
prepare_allocation_again_example =
    prepare_allocation_again accounts revoke_answers allocation before after given client
      prepared_once read_back
