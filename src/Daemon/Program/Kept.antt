-- ===== src/Daemon/Program/Kept.antt =====
-- The daemon's stores against what the driver relies on: minting, revoking, recording and reading.
use thunder_device_plugin.Base.{
  ◌≡◌, ◌⊎◌, inl, inr, refl, sym, ap, ◌∙◌, false, not, ◌||◌, Option, none, some, List, [], ◌∷◌, Str,
  codes, Outcome, ok, err, Fault, not_found, arith, Outcome-cases, Option-cases, Bool-cases,
  Option-branch, if-branch, is_not_found, is_blank, is_nil, if◌then◌else◌, conflict, already_exists,
  gone, other, trim_space, lookup, insert, str_eq,
}
use thunder_device_plugin.Base.FileNames.{append_shown}
use thunder_device_plugin.Daemon.Driver.{Allocation, ThunderClient}
use thunder_device_plugin.Daemon.Driver.Accounts.{Accounts, without}
use thunder_device_plugin.Daemon.Driver.Issuer.{
  ThunderTokenIssuer, CreateClientEnrollmentRequest, mint, revoke, revoke_client, known,
}
use thunder_device_plugin.Daemon.Clients.Object.{
  Clock, ClientObject, thunder_client_name, thunder_client_object, thunder_client_from_object,
}
use thunder_device_plugin.Daemon.Clients.Store.{
  KubernetesThunderClientStore, cleanup_finalizer, with_finalizer, stamped, store_namespace, write,
  read_clock, get, upsert,
}
use thunder_device_plugin.Daemon.Clients.Recorded.{with_finalizer_held}
use thunder_device_plugin.Daemon.Cdi.Hooks.{resolved_kind}
use thunder_device_plugin.Daemon.Cdi.Device.{create, qualified, cdi_device_name, unless_failed}
use thunder_device_plugin.Daemon.Program.{Outside, OutsideLaws, driver_stores}
use thunder_device_plugin.Daemon.Program.Live.{
  live-get, live-upsert, live-delete, live-create_device, live-remove_device, live-staged,
  live-create_guest, live-remove_guest,
}

blank_nil : (s : Str) → is_blank s ≡ false → is_nil s ≡ false
unfolding trim_space
blank_nil [] h = cc
blank_nil (c ∷ s) h = refl

known-none :
    (answer : Option Fault) → known answer ≡ none → (answer ≡ none) ⊎ (answer ≡ some not_found)
unfolding known
known-none none h = inl refl
known-none (some not_found) h = inr refl
known-none (some conflict) h = cc
known-none (some already_exists) h = cc
known-none (some gone) h = cc
known-none (some (other text)) h = cc

-- The client that an object holds.
abbrev read_object : Clock → Option ClientObject → Option ThunderClient
read_object times none = none
read_object times (some object) = some (thunder_client_from_object times object)

module _ {W : Type 0} {o : Outside W} {live : W → List Str}
    {objects : Str → Str → W → Option ClientObject} (laws : OutsideLaws o live objects) where
  abbrev issuer : ThunderTokenIssuer W
  issuer = record { client = some o.sdk; zone_id = o.zone_id }

  abbrev store : KubernetesThunderClientStore W
  store = record { client = some o.api; namespace = o.namespace }

  abbrev recorded : Str → W → Option ThunderClient
  recorded uid w =
      read_object o.times (objects (store_namespace o.times store) (thunder_client_name uid) w)

  mint_kept :
      (a : Allocation) (w : W) (id token : Str)
      → (mint issuer a w).0 ≡ ok (id, token)
      → (live (mint issuer a w).1 ≡ id ∷ live w)
        × (without id (live w) ≡ live w)
        × (is_blank id ≡ false)
        × (is_nil id ≡ false)
  unfolding mint
  mint_kept a w id token h =
      let request : CreateClientEnrollmentRequest = record {
        zone_id = if is_nil (trim_space o.zone_id) then a.zone else trim_space o.zone_id;
        gpu_type = a.gpu_type;
        gpu_count = a.gpu_count;
      } in
      elim (Outcome-cases (o.sdk.create_client_enrollment request w).0) [
        | inl (e, made) ↦
            let (now, fresh, shown) = laws.created request w e made in
            let same : e.enrollment_token_id ≡ id = cc (rw made at h) in
            (
              now ∙ ap (λ x. x ∷ live w) same,
              rw (sym same) fresh,
              rw (sym same) shown,
              blank_nil id (rw (sym same) shown),
            )
        | inr (fault, failed) ↦ absurd (ground (arith, rw failed at h))
      ]

  mint_refused :
      (a : Allocation) (w : W) (fault : Fault)
      → (mint issuer a w).0 ≡ err fault
      → live (mint issuer a w).1 ≡ live w
  unfolding mint
  mint_refused a w fault h =
      let request : CreateClientEnrollmentRequest = record {
        zone_id = if is_nil (trim_space o.zone_id) then a.zone else trim_space o.zone_id;
        gpu_type = a.gpu_type;
        gpu_count = a.gpu_count;
      } in
      elim (Outcome-cases (o.sdk.create_client_enrollment request w).0) [
        | inl (e, made) ↦ absurd (ground (arith, rw made at h))
        | inr (fault', failed) ↦ laws.refused request w fault' failed
      ]

  revoke_kept :
      (id : Str) (w : W)
      → is_blank id ≡ false
      → (revoke issuer id w).0 ≡ none
      → live (revoke issuer id w).1 ≡ without id (live w)
  unfolding revoke
  revoke_kept id w shown h =
      let answered : known (o.sdk.unenroll_client id w).0 ≡ none = rw (shown, revoke) at h in
      rw (shown, revoke) (laws.unenrolled id w (known-none _ answered))

  live-revoke_client : (id : Str) (w : W) → live (revoke_client issuer id w).1 ≡ live w
  unfolding revoke_client
  live-revoke_client id w =
      if-branch (λ (r : Option Fault × W). live r.1 ≡ live w) (is_blank id) _ _ (λ blank. refl)
        (λ shown. laws.by_client id w)

  get_kept :
      (uid : Str) (w : W) (c : ThunderClient)
      → (get o.times store uid w).0 ≡ ok c
      → recorded uid w ≡ some c
  unfolding get
  get_kept uid w c h =
      let namespace = store_namespace o.times store in
      elim (Outcome-cases (o.api.get namespace (thunder_client_name uid) w).0) [
        | inl (object, found) ↦
            let there = laws.api_laws.get_ok namespace (thunder_client_name uid) w object found in
            let same : thunder_client_from_object o.times object ≡ c = cc (rw found at h) in
            ap (read_object o.times) there ∙ ap some same
        | inr (fault, failed) ↦ absurd (ground (arith, rw failed at h))
      ]

  get_alone : (uid uid' : Str) (w : W) → recorded uid' (get o.times store uid w).1 ≡ recorded uid' w
  unfolding get
  get_alone uid uid' w = ap (read_object o.times) (laws.get_alone _ _ _ _ w)

  write_stored :
      (object : ClientObject) (w : W)
      → (write o.api object w).0 ≡ none
      → (stored : ClientObject) × (objects object.namespace object.name (write o.api object w).1
          ≡ some stored)
        × (stored.status ≡ object.status)
  unfolding write
  write_stored object w h =
      let w₁ = (o.api.get object.namespace object.name w).1 in
      elim (Outcome-cases (o.api.get object.namespace object.name w).0) [
        | inl (found, there) ↦
            let next = record object {
              finalizers = with_finalizer found.finalizers;
              resource_version = found.resource_version;
            } in
            let held = with_finalizer_held found.finalizers in
            let (version, stored) =
              laws.api_laws.update_ok next w₁ (rw (there, write) at h) held.1 in
            (record next { resource_version = version }, rw (there, write) stored, refl)
        | inr (fault, failed) ↦ elim (Bool-cases (is_not_found fault)) [
          | inl missing ↦
              let next = record object { finalizers = cleanup_finalizer ∷ [] } in
              let (version, stored) =
                laws.api_laws.create_ok next w₁ (rw (failed, missing, write) at h) in
              (record next { resource_version = version }, rw (failed, missing, write) stored, refl)
          | inr real ↦ absurd (ground (arith, rw (failed, real, write) at h))
        ]
      ]

  -- The token and the CDI device of a client stand in its object, whatever else it has.
  status_kept :
      (client : ThunderClient) (namespace : Str) (object : ClientObject)
      → object.status ≡ (thunder_client_object o.times client namespace).status
      → let c = thunder_client_from_object o.times object in
        (c.enrollment_token_id ≡ client.enrollment_token_id) × (c.cdi_name ≡ client.cdi_name)
  unfolding thunder_client_from_object thunder_client_object lookup insert str_eq codes
  status_kept client namespace object same =
      elim (Bool-cases (not (is_nil client.consumer.name) || not (is_nil client.consumer.uid))) [
        | inl named ↦ elim (Option-cases client.share_id) [
          | inl unshared ↦ rw (same, named, unshared) (refl, refl)
          | inr (share, shared) ↦ rw (same, named, shared) (refl, refl)
        ]
        | inr nobody ↦ elim (Option-cases client.share_id) [
          | inl unshared ↦ rw (same, nobody, unshared) (refl, refl)
          | inr (share, shared) ↦ rw (same, nobody, shared) (refl, refl)
        ]
      ]

  upsert_kept :
      (c : ThunderClient) (w : W)
      → (upsert o.times store c w).0 ≡ none
      → (c' : ThunderClient) × (recorded c.claim_uid (upsert o.times store c w).1 ≡ some c')
        × (c'.enrollment_token_id ≡ c.enrollment_token_id)
        × (c'.cdi_name ≡ c.cdi_name)
  unfolding upsert thunder_client_object stamped
  upsert_kept c w h =
      let ((created, updated), w') = read_clock o.api c w in
      let c' = stamped c created updated in
      let namespace = store_namespace o.times store in
      let (object, stored, same) = write_stored (thunder_client_object o.times c' namespace) w' h in
      (
        thunder_client_from_object o.times object,
        ap (read_object o.times) stored,
        (status_kept c' namespace object same).0,
        (status_kept c' namespace object same).1,
      )

  Named : Outcome Fault Str × W → Type 0
  Named (ok name, w) = is_nil name ≡ false
  Named (err fault, w) = Unit

  unless_failed-Named :
      (dir name : Str) (r : Option Fault × W)
      → is_nil name ≡ false
      → Named (unless_failed o.files o.cdi dir name r)
  unfolding unless_failed Named
  unless_failed-Named dir name (none, w) shown = shown
  unless_failed-Named dir name (some fault, w) shown = tt

  create-Named :
      (a : Allocation) (token : Str) (w : W)
      → Named (create o.files o.cdi o.marshal (o.flags a) a token w)
  unfolding create Named qualified
  create-Named a token w =
      let shown = append_shown (resolved_kind o.cdi) b'=' (cdi_device_name a.claim_uid) in
      if-branch Named (is_blank o.cdi.client_install_command) _ _ (λ unset. tt)
        (λ command.
          if-branch Named (is_blank token) _ _ (λ blank. tt)
            (λ given.
              Option-branch Named (o.files.mkdir_all _ w).0 _ _
                (λ done. unless_failed-Named _ _ _ shown) (λ fault failed. tt)))

  Named-ok :
      (r : Outcome Fault Str × W) (name : Str) → r.0 ≡ ok name → Named r → is_nil name ≡ false
  unfolding Named
  Named-ok (ok name', w) name h shown = (let same : name' ≡ name = cc h in rw (sym same) shown)
  Named-ok (err fault, w) name h shown = cc

  -- Where the calls on Thunder, Kubernetes and the node keep their laws, the daemon's own stores keep
  -- the laws that the driver relies on.
  pub driver_stores-Accounts : Accounts o.api.now (driver_stores o)
  unfolding driver_stores
  driver_stores-Accounts = record {
    live = live;
    recorded = recorded;
    mint_ok = mint_kept;
    mint_err = mint_refused;
    revoke_ok = revoke_kept;
    live-revoke_client = live-revoke_client;
    live-get = live-get laws;
    live-upsert = live-upsert laws;
    live-delete = live-delete laws;
    live-create_device = live-create_device laws;
    live-remove_device = live-remove_device laws;
    live-staged = live-staged laws;
    live-create_guest = live-create_guest laws;
    live-remove_guest = live-remove_guest laws;
    live-clock = laws.by_now;
    get_ok = get_kept;
    recorded-get = get_alone;
    upsert_ok = upsert_kept;
    create_named = λ a token w name h. Named-ok _ name h (create-Named a token w);
  }
