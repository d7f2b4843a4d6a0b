-- ===== src/Daemon/Driver/Claims.antt =====
-- prepareOne and unprepareOne, and the two calls of the kubelet over a list of claims. `clock` is
-- time.Now.
use thunder_device_plugin.Base.{
  ℕ, not, ◌&&◌, Option, none, some, List, [], ◌∷◌, Str, Outcome, ok, err, Fault, is_not_found, Call,
  text_eq, is_nil, is_blank, first_non_empty, Assoc, insert, if◌then◌else◌,
}
use thunder_device_plugin.Daemon.Driver.Types.{
  ResourceClaim, PreparedDevice, NamespacedObject, Allocation, ThunderClient, GuestArtifacts,
  CdiDeviceStore, Driver, Stores, DriverError, load_failed, mint_failed, guest_failed, cdi_failed,
  upsert_failed, revoke_client_failed, revoke_token_failed, cdi_remove_failed, guest_remove_failed,
  delete_failed,
}
use thunder_device_plugin.Daemon.Driver.Defs.{
  devices_for, thunder_client_from_allocation, validate_stores_only, validate, decode_allocation,
}

-- CDIInstallCommand.
unfoldable pub cdi_install_command : {W : Type 0} → CdiDeviceStore W → Str
cdi_install_command cdi = elim cdi.client_install_command [ none ↦ [] | some command ↦ command ]

-- What Clients.Get found: prepareOne returns the devices of a client that is complete, fails on an
-- error other than ErrNotFound, and prepares the claim otherwise.
pub data Existing : Type 0 where
  prepared : Str → Existing
  unreadable : Fault → Existing
  unprepared : Existing

unfoldable pub classify : Outcome Fault ThunderClient → Existing
classify (ok client) =
    if not (is_nil client.enrollment_token_id) && not (is_nil client.cdi_name)
    then prepared client.cdi_name
    else unprepared
classify (err fault) = if is_not_found fault then unprepared else unreadable fault

-- The artifacts that the record names, in the first namespace that is known.
unfoldable pub recorded_artifacts : NamespacedObject → ThunderClient → GuestArtifacts
recorded_artifacts claim client = record {
  namespace =
      first_non_empty (client.guest_namespace ∷ client.claim_namespace ∷ claim.namespace ∷ []);
  secret_name = client.guest_secret;
}

module _ {W : Type 0} (s : Stores W) where
  -- The error paths of prepareOne: what was acquired is given back, errors ignored.
  unfoldable pub revoke_token : Str → W → W
  revoke_token token_id w = (s.tokens.revoke token_id w).1

  unfoldable pub remove_guest : GuestArtifacts → W → W
  remove_guest artifacts w = (s.guest.remove artifacts w).1

  unfoldable pub remove_cdi : Str → W → W
  remove_cdi cdi_name w = (s.cdi.remove cdi_name w).1

  -- unprepareOne from the client's removal on: the CDI device, the guest artifacts, the record.
  unfoldable pub delete_client : Str → W → Option DriverError × W
  delete_client uid w =
      let (failed, w₁) = s.clients.delete uid w in
      (
        elim failed [
          | none ↦ none
          | some fault ↦ if is_not_found fault then none else some (delete_failed fault)
        ],
        w₁,
      )

  unfoldable pub release_guest : NamespacedObject → ThunderClient → W → Option DriverError × W
  release_guest claim client w =
      let (failed, w₁) = s.guest.remove (recorded_artifacts claim client) w in
      elim failed [
        | some fault ↦ (some (guest_remove_failed fault), w₁)
        | none ↦ delete_client claim.uid w₁
      ]

  unfoldable pub release_device : NamespacedObject → ThunderClient → W → Option DriverError × W
  release_device claim client w =
      if is_blank client.cdi_name
      then release_guest claim client w
      else (let (failed, w₁) = s.cdi.remove client.cdi_name w in
          elim failed [
            | some fault ↦ (some (cdi_remove_failed client.cdi_name fault), w₁)
            | none ↦ release_guest claim client w₁
          ])

  unfoldable pub release_token : NamespacedObject → ThunderClient → W → Option DriverError × W
  release_token claim client w =
      if is_blank client.enrollment_token_id
      then release_device claim client w
      else (let (failed, w₁) = s.tokens.revoke client.enrollment_token_id w in
          elim failed [
            | some fault ↦ (some (revoke_token_failed client.enrollment_token_id fault), w₁)
            | none ↦ release_device claim client w₁
          ])

  -- The ID of the Thunder client that a container of this claim enrolled, "" if none did.
  unfoldable pub staged_client : ThunderClient → W → Str × W
  staged_client client w =
      if is_blank client.cdi_name then ([], w) else s.cdi.staged_client_id client.cdi_name w

  unfoldable pub release_client : NamespacedObject → ThunderClient → W → Option DriverError × W
  unfolding staged_client
  release_client claim client w =
      let (client_id, w₁) = staged_client client w in
      if is_nil client_id
      then release_token claim client w₁
      else (let (failed, w₂) = s.tokens.revoke_client client_id w₁ in
          elim failed [
            | some fault ↦ (some (revoke_client_failed client_id fault), w₂)
            | none ↦ release_token claim client w₂
          ])

  -- unprepareOne on validated stores.
  unfoldable pub unprepare_claim : NamespacedObject → W → Option DriverError × W
  unprepare_claim claim w =
      let (existing, w₁) = s.clients.get claim.uid w in
      elim existing [
        | err fault ↦ (if is_not_found fault then none else some (load_failed fault), w₁)
        | ok client ↦ release_client claim client w₁
      ]

module _ {W : Type 0} (clock : W → ℕ × W) (s : Stores W) where
  -- prepareOne once the CDI device is created: write the ThunderClient.
  unfoldable pub record_client :
      Allocation → Str → GuestArtifacts → Str → Call W DriverError (List PreparedDevice)
  unfolding revoke_token remove_guest remove_cdi
  record_client a token_id artifacts cdi_name w =
      let (now, w₁) = clock w in
      let client = thunder_client_from_allocation a now cdi_name token_id artifacts in
      let (failed, w₂) = s.clients.upsert client w₁ in
      elim failed [
        | none ↦ (ok (devices_for cdi_name a), w₂)
        | some fault ↦ (
          err (upsert_failed fault),
          revoke_token s token_id (remove_guest s artifacts (remove_cdi s cdi_name w₂)),
        )
      ]

  -- prepareOne once the guest artifacts are created: the CDI device.
  unfoldable pub create_device :
      Allocation → Str → Str → GuestArtifacts → Call W DriverError (List PreparedDevice)
  unfolding revoke_token remove_guest
  create_device a token_id token artifacts w =
      let (created, w₁) = s.cdi.create a token w in
      elim created [
        | ok cdi_name ↦ record_client a token_id artifacts cdi_name w₁
        | err fault ↦
            (err (cdi_failed fault), revoke_token s token_id (remove_guest s artifacts w₁))
      ]

  -- prepareOne once the token is minted: the guest artifacts.
  unfoldable pub create_guest : Allocation → Str → Str → Call W DriverError (List PreparedDevice)
  unfolding revoke_token
  create_guest a token_id token w =
      let (created, w₁) = s.guest.create a token (cdi_install_command s.cdi) w in
      elim created [
        | ok artifacts ↦ create_device a token_id token artifacts w₁
        | err fault ↦ (err (guest_failed fault), revoke_token s token_id w₁)
      ]

  -- prepareOne for a claim with no complete ThunderClient.
  unfoldable pub prepare_new : Allocation → Call W DriverError (List PreparedDevice)
  prepare_new a w =
      let (minted, w₁) = s.tokens.mint a w in
      elim minted [
        | err fault ↦ (err (mint_failed fault), w₁)
        | ok (token_id, token) ↦ create_guest a token_id token w₁
      ]

  -- prepareOne once the allocation is decoded.
  unfoldable pub prepare_allocation : Str → Allocation → Call W DriverError (List PreparedDevice)
  unfolding classify
  prepare_allocation uid a w =
      let (existing, w₁) = s.clients.get uid w in
      elim (classify existing) [
        | prepared cdi_name ↦ (ok (devices_for cdi_name a), w₁)
        | unreadable fault ↦ (err (load_failed fault), w₁)
        | unprepared ↦ prepare_new a w₁
      ]

module _ {W : Type 0} (clock : W → ℕ × W) (d : Driver W) where
  unfoldable pub prepare_one : ResourceClaim → Call W DriverError (List PreparedDevice)
  prepare_one claim w = elim (validate d) [
    | err e ↦ (err e, w)
    | ok (kube, stores) ↦
        let (decoded, w₁) = decode_allocation d kube claim w in
        elim decoded [ err e ↦ (err e, w₁) | ok a ↦ prepare_allocation clock stores claim.uid a w₁ ]
  ]

  -- The loop of PrepareResourceClaims: one entry for each claim.
  prepare_from :
      Assoc Str (Outcome DriverError (List PreparedDevice))
      → List ResourceClaim
      → W
      → Assoc Str (Outcome DriverError (List PreparedDevice)) × W
  unfolding prepare_one
  prepare_from results [] w = (results, w)
  prepare_from results (claim ∷ claims) w =
      let (result, w₁) = prepare_one claim w in
      prepare_from (insert claim.uid result results) claims w₁

  unfoldable pub prepare_resource_claims :
      List ResourceClaim → W → Assoc Str (Outcome DriverError (List PreparedDevice)) × W
  unfolding prepare_from
  prepare_resource_claims = prepare_from []

module _ {W : Type 0} (d : Driver W) where
  unfoldable pub unprepare_one : NamespacedObject → W → Option DriverError × W
  unprepare_one claim w = elim (validate_stores_only d) [
    | err e ↦ (some e, w)
    | ok stores ↦ unprepare_claim stores claim w
  ]

  -- The loop of UnprepareResourceClaims.
  unprepare_from :
      Assoc Str (Option DriverError)
      → List NamespacedObject
      → W
      → Assoc Str (Option DriverError) × W
  unfolding unprepare_one
  unprepare_from results [] w = (results, w)
  unprepare_from results (claim ∷ claims) w =
      let (result, w₁) = unprepare_one claim w in
      unprepare_from (insert claim.uid result results) claims w₁

  unfoldable pub unprepare_resource_claims :
      List NamespacedObject → W → Assoc Str (Option DriverError) × W
  unfolding unprepare_from
  unprepare_resource_claims = unprepare_from []
