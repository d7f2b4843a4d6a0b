-- ===== src/Daemon/Clients/Store.antt =====
-- KubernetesThunderClientStore: Get, Upsert, Delete.
use thunder_device_plugin.Base.{
  ℕ, Bool, false, not, ◌||◌, Option, none, some, List, [], ◌∷◌, ◌++◌, Str, codes, ok, err, Fault,
  other, not_found, is_not_found, Call, text_eq, ◌==◌, is_blank, trim_space, length, keep, eqb,
  if◌then◌else◌,
}
use thunder_device_plugin.Daemon.Driver.{ThunderClient, ThunderClientStore}
use thunder_device_plugin.Daemon.Clients.Object.{
  Clock, ClientObject, thunder_client_name, thunder_client_object, thunder_client_from_object,
}

-- The dynamic client for ThunderClients, and time.Now in nanoseconds.
pub record ClientApi (W : Type 0) : Type 0 where
  pub get : Str → Str → Call W Fault ClientObject
  pub create : ClientObject → W → Option Fault × W
  pub update : ClientObject → W → Option Fault × W
  pub delete : Str → Str → W → Option Fault × W
  pub now : W → ℕ × W

-- A nil client is `none`.
pub record KubernetesThunderClientStore (W : Type 0) : Type 0 where
  pub client : Option (ClientApi W)
  pub namespace : Str

abbrev pub cleanup_finalizer : Str
cleanup_finalizer = codes "thundercompute.com/client-cleanup"

-- "dynamic client is required"
abbrev client_required : Fault
client_required = other (codes "dynamic client is required")

unfoldable pub has_finalizer : List Str → Bool
has_finalizer [] = false
has_finalizer (f ∷ fs) = f == cleanup_finalizer || has_finalizer fs

unfoldable pub with_finalizer : List Str → List Str
unfolding has_finalizer
with_finalizer finalizers =
    if has_finalizer finalizers then finalizers else finalizers ++ cleanup_finalizer ∷ []

unfoldable pub drop_finalizer : List Str → List Str
drop_finalizer finalizers = keep (λ f. not (f == cleanup_finalizer)) finalizers

-- The client with the two times of this write.
unfoldable pub stamped : ThunderClient → ℕ → ℕ → ThunderClient
stamped client created updated = record client {
  created_at = if eqb client.created_at 0 then created else client.created_at;
  updated_at = updated;
}

module _ {W : Type 0} (api : ClientApi W) where
  -- Upsert from the read of the current object on.
  unfoldable pub write : ClientObject → W → Option Fault × W
  unfolding with_finalizer
  write object w =
      let (current, w₁) = api.get object.namespace object.name w in
      elim current [
        | err fault ↦
            if is_not_found fault
            then api.create (record object { finalizers = cleanup_finalizer ∷ [] }) w₁
            else (some fault, w₁)
        | ok found ↦
            api.update
              (record object {
                finalizers = with_finalizer found.finalizers;
                resource_version = found.resource_version;
              })
              w₁
      ]

  -- The time at which a client that has none was created, and the time of the update.
  unfoldable pub read_clock : ThunderClient → W → (ℕ × ℕ) × W
  read_clock client w =
      let (created, w₁) = api.now w in
      let (updated, w₂) = api.now w₁ in
      let (only, w₁') = api.now w in
      if eqb client.created_at 0 then ((created, updated), w₂) else ((0, only), w₁')

  -- Delete once the finalizer is released.
  unfoldable pub delete_object : Str → Str → W → Option Fault × W
  delete_object namespace name w =
      let (failed, w') = api.delete namespace name w in
      (
        elim failed [ none ↦ none | some fault ↦ if is_not_found fault then none else some fault ],
        w',
      )

  -- Delete on the object that is there; the error of the release is given as the API gave it.
  unfoldable pub release_and_delete : Str → Str → ClientObject → W → Option Fault × W
  unfolding delete_object drop_finalizer
  release_and_delete namespace name current w =
      let kept = drop_finalizer current.finalizers in
      let (failed, w') = api.update (record current { finalizers = kept }) w in
      let rest = delete_object namespace name w' in
      if eqb (length kept) (length current.finalizers)
      then delete_object namespace name w
      else elim failed [
        | none ↦ rest
        | some fault ↦ if is_not_found fault then rest else (some fault, w')
      ]

module _ {W : Type 0} (clock : Clock) (s : KubernetesThunderClientStore W) where
  unfoldable pub store_namespace : Str
  store_namespace = if is_blank s.namespace then codes "thunder-system" else trim_space s.namespace

  unfoldable pub get : Str → Call W Fault ThunderClient
  unfolding store_namespace
  get claim_uid w = elim s.client [
    | none ↦ (err client_required, w)
    | some api ↦
        let (found, w') = api.get store_namespace (thunder_client_name claim_uid) w in
        (
          elim found [
            | ok object ↦ ok (thunder_client_from_object clock object)
            | err fault ↦ err (if is_not_found fault then not_found else fault)
          ],
          w',
        )
  ]

  unfoldable pub upsert : ThunderClient → W → Option Fault × W
  unfolding write read_clock stamped store_namespace
  upsert client w = elim s.client [
    | none ↦ (some client_required, w)
    | some api ↦
        let ((created, updated), w') = read_clock api client w in
        write api (thunder_client_object clock (stamped client created updated) store_namespace) w'
  ]

  unfoldable pub delete : Str → W → Option Fault × W
  unfolding release_and_delete store_namespace
  delete claim_uid w = elim s.client [
    | none ↦ (some client_required, w)
    | some api ↦
        let name = thunder_client_name claim_uid in
        let (found, w') = api.get store_namespace name w in
        elim found [
          | err fault ↦ (some (if is_not_found fault then not_found else fault), w')
          | ok current ↦ release_and_delete api store_namespace name current w'
        ]
  ]

  -- The store as the driver takes it.
  abbrev pub as_client_store : ThunderClientStore W
  as_client_store = record { get = get; upsert = upsert; delete = delete }
