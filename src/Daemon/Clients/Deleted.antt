-- ===== src/Daemon/Clients/Deleted.antt =====
-- KubernetesThunderClientStore.Delete on the objects of the API.
use thunder_device_plugin.Base.{
  ◌≡◌, refl, sym, ap, ◌∙◌, inl, inr, true, Option, none, some, List, [], ◌∷◌, Str, Fault, not_found,
  is_not_found, Outcome-branch, Option-branch, if-branch, arith, text_eq, is_nil, length, eqb,
}
use thunder_device_plugin.Daemon.Clients.Object.{Clock, ClientObject, thunder_client_name}
use thunder_device_plugin.Daemon.Clients.Store.{
  ClientApi, KubernetesThunderClientStore, drop_finalizer, store_namespace, delete_object,
  release_and_delete, delete,
}
use thunder_device_plugin.Daemon.Clients.Laws.{ApiLaws}

-- Nobody but the daemon holds the object, if there is one.
abbrev pub Unheld : Option ClientObject → Type 0
Unheld none = Unit
Unheld (some object) = is_nil (drop_finalizer object.finalizers) ≡ true

-- Nobody holds the object, if there is one.
Free : Option ClientObject → Type 0
Free none = Unit
Free (some object) = is_nil object.finalizers ≡ true

Free-some :
    (found : Option ClientObject) (object : ClientObject)
    → Free found
    → found ≡ some object
    → is_nil object.finalizers ≡ true
unfolding Free
Free-some none object free there = cc
Free-some (some object') object free there = ground arith

not_found_fault : (fault : Fault) → is_not_found fault ≡ true → fault ≡ not_found
not_found_fault not_found h = refl
not_found_fault _ h = cc

-- Nothing to drop in a list that loses everything and nothing.
nothing_dropped :
    (finalizers : List Str)
    → is_nil (drop_finalizer finalizers) ≡ true
    → eqb (length (drop_finalizer finalizers)) (length finalizers) ≡ true
    → is_nil finalizers ≡ true
unfolding drop_finalizer
nothing_dropped [] gone same = refl
nothing_dropped (f ∷ fs) gone same = ground arith

module _ {W : Type 0} {api : ClientApi W} {objects : Str → Str → W → Option ClientObject}
    (laws : ApiLaws api objects) where
  -- A call that succeeded left no object.
  Gone : Str → Str → Option Fault × W → Type 0
  Gone namespace name (none, w) = objects namespace name w ≡ none
  Gone namespace name (some fault, w) = Unit

  Gone-none :
      (namespace name : Str) (r : Option Fault × W)
      → r.0 ≡ none
      → Gone namespace name r
      → objects namespace name r.1 ≡ none
  unfolding Gone
  Gone-none namespace name (none, w) done gone = gone
  Gone-none namespace name (some fault, w) done gone = cc

  delete_object-Gone :
      (namespace name : Str) (w : W)
      → Free (objects namespace name w)
      → Gone namespace name (delete_object api namespace name w)
  unfolding delete_object Gone
  delete_object-Gone namespace name w free =
      let w' = (api.delete namespace name w).1 in
      let AfterDelete : Option Fault → Type 0 = λ r. Gone namespace name (r, w') in
      Option-branch AfterDelete (api.delete namespace name w).0 _ _
        (λ done.
          laws.delete_ok namespace name w done
            (λ object. Free-some (objects namespace name w) object free))
        (λ fault failed.
          if-branch AfterDelete (is_not_found fault) _ _
            (λ missing.
              laws.delete_missing namespace name w
                (failed ∙ ap some (not_found_fault fault missing)))
            (λ real. tt))

  -- What is there after the update that released the finalizer.
  released-Free :
      (current : ClientObject) (w : W)
      → is_nil (drop_finalizer current.finalizers) ≡ true
      → let (failed, w') =
          api.update (record current { finalizers = drop_finalizer current.finalizers }) w in
        failed ≡ none → Free (objects current.namespace current.name w')
  unfolding Free
  released-Free current w only done =
      let next = record current { finalizers = drop_finalizer current.finalizers } in
      elim (laws.update_released next w done only) [
        | inl gone ↦ rw gone tt
        | inr (version, there) ↦ rw there only
      ]

  release_and_delete-Gone :
      (current : ClientObject) (w : W)
      → objects current.namespace current.name w ≡ some current
      → is_nil (drop_finalizer current.finalizers) ≡ true
      → Gone current.namespace current.name
          (release_and_delete api current.namespace current.name current w)
  unfolding release_and_delete Gone Free
  release_and_delete-Gone current w there only =
      let kept = drop_finalizer current.finalizers in
      let next = record current { finalizers = kept } in
      let w' = (api.update next w).1 in
      let AfterRelease = Gone current.namespace current.name in
      if-branch AfterRelease (eqb (length kept) (length current.finalizers)) _ _
        (λ unheld.
          delete_object-Gone current.namespace current.name w
            (rw there (nothing_dropped current.finalizers only unheld)))
        (λ held.
          Option-branch AfterRelease (api.update next w).0 _ _
            (λ done.
              delete_object-Gone current.namespace current.name w'
                (released-Free current w only done))
            (λ fault failed.
              if-branch AfterRelease (is_not_found fault) _ _
                (λ missing. delete_object-Gone current.namespace current.name w' (
                  rw (laws.update_missing next w (failed ∙ ap some (not_found_fault fault missing)))
                    tt))
                (λ real. tt)))

  released-Gone :
      (namespace name : Str) (current : ClientObject) (w : W)
      → current.namespace ≡ namespace
      → current.name ≡ name
      → objects namespace name w ≡ some current
      → is_nil (drop_finalizer current.finalizers) ≡ true
      → Gone namespace name (release_and_delete api namespace name current w)
  released-Gone namespace name current w same_namespace same_name there only =
      rw (sym same_namespace, sym same_name)
        (release_and_delete-Gone current w (rw (sym same_namespace, sym same_name) at there) only)

  delete-Gone :
      (clock : Clock) (s : KubernetesThunderClientStore W) (claim_uid : Str) (w : W)
      → s.client ≡ some api
      → Unheld (objects (store_namespace clock s) (thunder_client_name claim_uid) w)
      → Gone (store_namespace clock s) (thunder_client_name claim_uid) (delete clock s claim_uid w)
  unfolding delete Gone
  delete-Gone clock s claim_uid w connected unheld =
      let namespace = store_namespace clock s in
      let name = thunder_client_name claim_uid in
      let w' = (api.get namespace name w).1 in
      rw connected (
        Outcome-branch (Gone namespace name) (api.get namespace name w).0 _ _
          (λ current found.
            let there = laws.get_ok namespace name w current found in
            let (same_namespace, same_name) = laws.get_named namespace name w current found in
            released-Gone namespace name current w' same_namespace same_name
              (laws.get_keeps namespace name w ∙ there) (rw there at unheld))
          (λ fault failed. tt))

  -- Where the API keeps its laws and no finalizer but the daemon's holds the object, a Delete that
  -- succeeds leaves no ThunderClient for the claim.
  pub delete_forgets :
      (clock : Clock) (s : KubernetesThunderClientStore W) (claim_uid : Str) (w : W)
      → s.client ≡ some api
      → Unheld (objects (store_namespace clock s) (thunder_client_name claim_uid) w)
      → (delete clock s claim_uid w).0 ≡ none
      → objects
          (store_namespace clock s)
          (thunder_client_name claim_uid)
          (delete clock s claim_uid w).1
        ≡ none
  delete_forgets clock s claim_uid w connected unheld done =
      Gone-none (store_namespace clock s) (thunder_client_name claim_uid)
        (delete clock s claim_uid w) done (delete-Gone clock s claim_uid w connected unheld)
