-- ===== src/Daemon/Clients/Recorded.antt =====
-- KubernetesThunderClientStore.Upsert on the objects of the API.
use thunder_device_plugin.Base.{
  ℕ, ◌≡◌, refl, sym, true, false, Option, none, some, List, [], ◌∷◌, ◌++◌, Str, Fault, is_not_found,
  Outcome-branch, if-branch, arith, text_eq, str_eq_iff, is_nil,
}
use thunder_device_plugin.Daemon.Driver.{ThunderClient}
use thunder_device_plugin.Daemon.Clients.Object.{
  Clock, ClientObject, thunder_client_name, thunder_client_object, thunder_client_from_object,
}
use thunder_device_plugin.Daemon.Clients.RoundTrip.{
  IsStorable, whole_seconds, in_seconds, object_in_seconds,
}
use thunder_device_plugin.Daemon.Clients.Store.{
  ClientApi, KubernetesThunderClientStore, cleanup_finalizer, has_finalizer, with_finalizer,
  stamped, store_namespace, write, read_clock, upsert,
}
use thunder_device_plugin.Daemon.Clients.Laws.{ApiLaws}

has_finalizer-append :
    (finalizers : List Str)
    → (has_finalizer (finalizers ++ cleanup_finalizer ∷ []) ≡ true)
      × (is_nil (finalizers ++ cleanup_finalizer ∷ []) ≡ false)
unfolding has_finalizer
has_finalizer-append [] = ground (arith, str_eq_iff cleanup_finalizer cleanup_finalizer)
has_finalizer-append (f ∷ fs) = ground (arith, has_finalizer-append fs)

held_shown : (finalizers : List Str) → has_finalizer finalizers ≡ true → is_nil finalizers ≡ false
unfolding has_finalizer
held_shown [] h = cc
held_shown (f ∷ fs) h = refl

pub with_finalizer_held :
    (finalizers : List Str)
    → (has_finalizer (with_finalizer finalizers) ≡ true)
      × (is_nil (with_finalizer finalizers) ≡ false)
unfolding with_finalizer
with_finalizer_held finalizers =
    ground (arith, has_finalizer-append finalizers, held_shown finalizers)

-- An object that holds the finalizer of the daemon and the client.
pub record Holds (clock : Clock) (client : ThunderClient) (object : ClientObject) : Type 0 where
  pub held : has_finalizer object.finalizers ≡ true
  pub reads_back : thunder_client_from_object clock object ≡ client

module _ {W : Type 0} (clock : Clock)
    (parse-format : (t : ℕ) → clock.parse (clock.format t) ≡ whole_seconds t)
    (format_shown : (t : ℕ) → is_nil (clock.format t) ≡ false) {api : ClientApi W}
    {objects : Str → Str → W → Option ClientObject} (laws : ApiLaws api objects) where
  -- A write that succeeded left the client in its object.
  Recorded : ThunderClient → Str → Option Fault × W → Type 0
  Recorded client namespace (none, w) =
      (object : ClientObject) × (objects namespace (thunder_client_name client.claim_uid) w
        ≡ some object)
      × Holds clock client object
  Recorded client namespace (some fault, w) = Unit

  Recorded-intro :
      (client : ThunderClient) (object : ClientObject) (r : Option Fault × W)
      → object.name ≡ thunder_client_name client.claim_uid
      → Holds clock client object
      → (r.0 ≡ none
          → (version : Str) × (objects object.namespace object.name r.1
              ≡ some (record object { resource_version = version })))
      → Recorded client object.namespace r
  unfolding Recorded thunder_client_from_object
  Recorded-intro client object (none, w) named holds stored =
      let (version, there) = stored refl in
      (
        record object { resource_version = version },
        rw (sym named) there,
        record { held = holds.held; reads_back = holds.reads_back },
      )
  Recorded-intro client object (some fault, w) named holds stored = tt

  write-Recorded :
      (client : ThunderClient) (object : ClientObject) (w : W)
      → object.name ≡ thunder_client_name client.claim_uid
      → thunder_client_from_object clock object ≡ client
      → Recorded client object.namespace (write api object w)
  unfolding write Recorded thunder_client_from_object
  write-Recorded client object w named same =
      let (current, w₁) = api.get object.namespace object.name w in
      Outcome-branch (Recorded client object.namespace) current _ _
        (λ found there.
          let finalizers = with_finalizer_held found.finalizers in
          let next = record object {
            finalizers = with_finalizer found.finalizers;
            resource_version = found.resource_version;
          } in
          Recorded-intro client next (api.update next w₁) named
            (record { held = finalizers.0; reads_back = same })
            (λ done. laws.update_ok next w₁ done finalizers.1))
        (λ fault failed.
          if-branch (Recorded client object.namespace) (is_not_found fault) _ _
            (λ missing.
              let next = record object { finalizers = cleanup_finalizer ∷ [] } in
              Recorded-intro client next (api.create next w₁) named
                (record { held = (has_finalizer-append []).0; reads_back = same })
                (laws.create_ok next w₁))
            (λ real. tt))

  -- The client of the object is the client that is written.
  stamped-reads_back :
      (client : ThunderClient) (created updated : ℕ) (namespace : Str)
      → IsStorable client
      → thunder_client_from_object clock
          (thunder_client_object clock (stamped client created updated) namespace)
        ≡ in_seconds (stamped client created updated)
  unfolding stamped
  stamped-reads_back client created updated namespace storable =
      object_in_seconds clock parse-format format_shown (stamped client created updated) namespace
        (record { has_share = storable.has_share; has_consumer = storable.has_consumer })

  upsert-Recorded :
      (s : KubernetesThunderClientStore W) (client : ThunderClient) (w : W)
      → s.client ≡ some api
      → IsStorable client
      → let ((created, updated), w') = read_clock api client w in
        Recorded
          (in_seconds (stamped client created updated))
          (store_namespace clock s)
          (upsert clock s client w)
  unfolding upsert thunder_client_object stamped in_seconds
  upsert-Recorded s client w connected storable =
      let ((created, updated), w') = read_clock api client w in
      let client' = stamped client created updated in
      rw connected (
        write-Recorded (in_seconds client')
          (thunder_client_object clock client' (store_namespace clock s)) w' refl
          (stamped-reads_back client created updated (store_namespace clock s) storable))

  Recorded-none :
      (client : ThunderClient) (namespace : Str) (r : Option Fault × W)
      → r.0 ≡ none
      → Recorded client namespace r
      → (object : ClientObject) × (objects namespace (thunder_client_name client.claim_uid) r.1
          ≡ some object)
        × Holds clock client object
  unfolding Recorded
  Recorded-none client namespace (none, w) done recorded = recorded
  Recorded-none client namespace (some fault, w) done recorded = cc

  -- Where the API keeps its laws, times are printed and read back to the second, and the store can
  -- keep the client, an Upsert that succeeds leaves an object under the name of the claim that holds
  -- the daemon's finalizer and reads back as the client, stamped with the times of the write, cut to
  -- whole seconds.
  pub upsert_recorded :
      (s : KubernetesThunderClientStore W) (client : ThunderClient) (w : W)
      → s.client ≡ some api
      → IsStorable client
      → (upsert clock s client w).0 ≡ none
      → let ((created, updated), w') = read_clock api client w in
        (object : ClientObject) × (objects
            (store_namespace clock s)
            (thunder_client_name client.claim_uid)
            (upsert clock s client w).1
          ≡ some object)
        × Holds clock (in_seconds (stamped client created updated)) object
  unfolding stamped in_seconds
  upsert_recorded s client w connected storable done =
      let ((created, updated), w') = read_clock api client w in
      Recorded-none (in_seconds (stamped client created updated)) (store_namespace clock s)
        (upsert clock s client w) done (upsert-Recorded s client w connected storable)
