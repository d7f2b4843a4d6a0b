-- ===== src/Daemon/Clients/Laws.antt =====
-- The calls of the Kubernetes API that the store makes: an observer of the objects that are there,
-- and what each call that succeeds says of them.
use thunder_device_plugin.Base.{
  ◌≡◌, ◌⊎◌, false, true, Option, none, some, Str, ok, err, not_found, is_nil,
}
use thunder_device_plugin.Daemon.Clients.Object.{ClientObject}
use thunder_device_plugin.Daemon.Clients.Store.{ClientApi}

-- An object is found by its namespace and name. A write gives it a new resource version. An object
-- with finalizers outlives its deletion; one without goes with it, or, when it was being deleted
-- already, with the update that drops the last finalizer.
pub record ApiLaws {W : Type 0} (api : ClientApi W) (objects : Str → Str → W → Option ClientObject)
    : Type 0 where
  pub get_ok :
      (namespace name : Str) (w : W) (object : ClientObject)
      → (api.get namespace name w).0 ≡ ok object
      → objects namespace name w ≡ some object
  pub get_missing :
      (namespace name : Str) (w : W)
      → (api.get namespace name w).0 ≡ err not_found
      → objects namespace name w ≡ none
  pub get_named :
      (namespace name : Str) (w : W) (object : ClientObject)
      → (api.get namespace name w).0 ≡ ok object
      → (object.namespace ≡ namespace) × (object.name ≡ name)
  pub get_keeps :
      (namespace name : Str) (w : W)
      → objects namespace name (api.get namespace name w).1 ≡ objects namespace name w
  pub create_ok :
      (object : ClientObject) (w : W)
      → (api.create object w).0 ≡ none
      → (version : Str) × (objects object.namespace object.name (api.create object w).1
          ≡ some (record object { resource_version = version }))
  pub update_ok :
      (object : ClientObject) (w : W)
      → (api.update object w).0 ≡ none
      → is_nil object.finalizers ≡ false
      → (version : Str) × (objects object.namespace object.name (api.update object w).1
          ≡ some (record object { resource_version = version }))
  pub update_released :
      (object : ClientObject) (w : W)
      → (api.update object w).0 ≡ none
      → is_nil object.finalizers ≡ true
      → (objects object.namespace object.name (api.update object w).1 ≡ none)
        ⊎ ((version : Str) × (objects object.namespace object.name (api.update object w).1
              ≡ some (record object { resource_version = version })))
  pub update_missing :
      (object : ClientObject) (w : W)
      → (api.update object w).0 ≡ some not_found
      → objects object.namespace object.name (api.update object w).1 ≡ none
  pub delete_ok :
      (namespace name : Str) (w : W)
      → (api.delete namespace name w).0 ≡ none
      → ((object : ClientObject)
          → objects namespace name w ≡ some object
          → is_nil object.finalizers ≡ true)
      → objects namespace name (api.delete namespace name w).1 ≡ none
  pub delete_missing :
      (namespace name : Str) (w : W)
      → (api.delete namespace name w).0 ≡ some not_found
      → objects namespace name (api.delete namespace name w).1 ≡ none
