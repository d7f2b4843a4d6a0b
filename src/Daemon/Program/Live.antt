-- ===== src/Daemon/Program/Live.antt =====
-- The daemon's stores on the enrollment tokens: what each operation of the stores leaves alone.
use thunder_device_plugin.Base.{
  ◌≡◌, refl, ◌∙◌, Option, none, some, List, [], ◌∷◌, ◌++◌, Str, codes, Fault, Outcome-branch,
  Option-branch, if-branch, is_not_found, is_blank, is_nil, trim_space, eqb, length,
}
use thunder_device_plugin.Daemon.Driver.{Allocation, ThunderClient, GuestArtifacts}
use thunder_device_plugin.Daemon.Clients.Object.{
  ClientObject, thunder_client_name, thunder_client_object,
}
use thunder_device_plugin.Daemon.Clients.Store.{
  KubernetesThunderClientStore, stamped, get, upsert, delete, write, read_clock, delete_object,
  release_and_delete, store_namespace, drop_finalizer,
}
use thunder_device_plugin.Daemon.Hook.Files.{lock_file, lock_path, lock_state_dir}
use thunder_device_plugin.Daemon.Cdi.Hooks.{device_state_dir, resolved_spec_dir}
use thunder_device_plugin.Daemon.Cdi.Device.{
  CdiSpec, create, write_spec, unless_failed, remove, remove_files, staged_client_id, spec_path,
  cdi_device_name, device_token_path, cdi_device_name_from_qualified_name,
}
use thunder_device_plugin.Daemon.Guest.Store.{Secret, upsert_secret, delete_secret}
use thunder_device_plugin.Daemon.Guest.Store as Guest
use thunder_device_plugin.Daemon.Hook.Stage.{config_file}
use thunder_device_plugin.Base.Paths.{join_paths}
use thunder_device_plugin.Daemon.Program.{Outside, OutsideLaws}

module _ {W : Type 0} {o : Outside W} {live : W → List Str}
    {objects : Str → Str → W → Option ClientObject} (laws : OutsideLaws o live objects) where
  -- The call has left the live tokens alone.
  Keeps : {A : Type 0} → W → A × W → Type 0
  Keeps w r = live r.1 ≡ live w

  live-write : (object : ClientObject) (w : W) → Keeps w (write o.api object w)
  unfolding write Keeps
  live-write object w =
      let (current, w₁) = o.api.get object.namespace object.name w in
      let same = laws.by_get object.namespace object.name w in
      Outcome-branch (Keeps w) current _ _ (λ found there. laws.by_update _ w₁ ∙ same)
        (λ fault failed.
          if-branch (Keeps w) (is_not_found fault) _ _ (λ missing. laws.by_create _ w₁ ∙ same)
            (λ real. same))

  live-read_clock : (client : ThunderClient) (w : W) → Keeps w (read_clock o.api client w)
  unfolding read_clock Keeps
  live-read_clock client w =
      if-branch (Keeps w) (eqb client.created_at 0) _ _
        (λ fresh. laws.by_now (o.api.now w).1 ∙ laws.by_now w) (λ old. laws.by_now w)

  abbrev store : KubernetesThunderClientStore W
  store = record { client = some o.api; namespace = o.namespace }

  pub live-get : (uid : Str) (w : W) → live (get o.times store uid w).1 ≡ live w
  unfolding get
  live-get uid w = laws.by_get _ _ w

  pub live-upsert :
      (client : ThunderClient) (w : W) → live (upsert o.times store client w).1 ≡ live w
  unfolding upsert Keeps
  live-upsert client w =
      let ((created, updated), w') = read_clock o.api client w in
      let client' = stamped client created updated in
      live-write (thunder_client_object o.times client' (store_namespace o.times store)) w'
      ∙ live-read_clock client w

  live-delete_object :
      (namespace name : Str) (w : W) → Keeps w (delete_object o.api namespace name w)
  unfolding delete_object Keeps
  live-delete_object namespace name w = laws.by_delete namespace name w

  live-release_and_delete :
      (namespace name : Str) (current : ClientObject) (w : W)
      → Keeps w (release_and_delete o.api namespace name current w)
  unfolding release_and_delete Keeps
  live-release_and_delete namespace name current w =
      let kept = drop_finalizer current.finalizers in
      let (failed, w') = o.api.update (record current { finalizers = kept }) w in
      let same = laws.by_update (record current { finalizers = kept }) w in
      if-branch (Keeps w) (eqb (length kept) (length current.finalizers)) _ _
        (λ free. live-delete_object namespace name w)
        (λ held.
          Option-branch (Keeps w) failed _ _ (λ done. live-delete_object namespace name w' ∙ same)
            (λ fault refused.
              if-branch (Keeps w) (is_not_found fault) _ _
                (λ gone. live-delete_object namespace name w' ∙ same) (λ real. same)))

  pub live-delete : (uid : Str) (w : W) → live (delete o.times store uid w).1 ≡ live w
  unfolding delete Keeps
  live-delete uid w =
      let name = thunder_client_name uid in
      let (found, w') = o.api.get (store_namespace o.times store) name w in
      let same = laws.by_get (store_namespace o.times store) name w in
      Outcome-branch (Keeps w) found _ _
        (λ current there.
          live-release_and_delete (store_namespace o.times store) name current w' ∙ same)
        (λ fault failed. same)

  live-write_spec :
      (spec : CdiSpec) (path : Str) (w : W)
      → Keeps w (write_spec o.files o.cdi o.marshal spec path w)
  unfolding write_spec Keeps
  live-write_spec spec path w =
      Outcome-branch (Keeps w) (o.marshal spec) _ _
        (λ encoded marshaled.
          let temp = path ++ codes ".tmp" in
          let made = o.files.mkdir_all (resolved_spec_dir o.cdi) w in
          let stored = o.files.write_file temp (encoded ++ 10 ∷ []) made.1 in
          let renamed = o.files.rename temp path stored.1 in
          let first = laws.by_mkdir (resolved_spec_dir o.cdi) w in
          let second = laws.by_write_file temp (encoded ++ 10 ∷ []) made.1 ∙ first in
          let third = laws.by_rename temp path stored.1 ∙ second in
          Option-branch (Keeps w) made.0 _ _
            (λ done.
              Option-branch (Keeps w) stored.0 _ _
                (λ done'.
                  Option-branch (Keeps w) renamed.0 _ _ (λ done''. third)
                    (λ fault failed. laws.by_remove temp renamed.1 ∙ third))
                (λ fault failed. second))
            (λ fault failed. first))
        (λ fault failed. refl)

  live-unless_failed :
      (dir name : Str) (before : W) (r : Option Fault × W)
      → Keeps before r
      → Keeps before (unless_failed o.files o.cdi dir name r)
  unfolding unless_failed Keeps
  live-unless_failed dir name before (none, w) same = same
  live-unless_failed dir name before (some fault, w) same = laws.by_remove_all dir w ∙ same

  pub live-create_device :
      (a : Allocation) (token : Str) (w : W)
      → live (create o.files o.cdi o.marshal (o.flags a) a token w).1 ≡ live w
  unfolding create Keeps
  live-create_device a token w =
      let dir = device_state_dir o.cdi (cdi_device_name a.claim_uid) in
      let path = device_token_path o.cdi (cdi_device_name a.claim_uid) in
      let made = o.files.mkdir_all dir w in
      let staged = o.files.write_file path (token ++ 10 ∷ []) made.1 in
      let first = laws.by_mkdir dir w in
      let second = laws.by_write_file path (token ++ 10 ∷ []) made.1 ∙ first in
      if-branch (Keeps w) (is_blank o.cdi.client_install_command) _ _ (λ unset. refl)
        (λ command.
          if-branch (Keeps w) (is_blank token) _ _ (λ blank. refl)
            (λ shown.
              Option-branch (Keeps w) made.0 _ _
                (λ done. live-unless_failed dir _ w _ (
                  Option-branch (Keeps w) staged.0 _ _
                    (λ done'. live-write_spec _ _ staged.1 ∙ second) (λ fault failed. second)))
                (λ fault failed. first)))

  pub live-staged :
      (name : Str) (w : W) → live (staged_client_id o.files o.cdi o.codec name w).1 ≡ live w
  unfolding staged_client_id Keeps
  live-staged name w =
      let path =
        join_paths
          (device_state_dir o.cdi (cdi_device_name_from_qualified_name name) ∷ config_file ∷ []) in
      let same = laws.by_read_file path w in
      if-branch (Keeps w) (is_blank name) _ _ (λ blank. refl)
        (λ shown.
          Outcome-branch (Keeps w) (o.files.read_file path w).0 _ _
            (λ content there.
              Outcome-branch (Keeps w) (o.codec.decode_config content) _ _ (λ config decoded. same)
                (λ e failed. same))
            (λ fault failed. same))

  live-lock_file : (path : Str) (w : W) → Keeps w (lock_file o.files path w)
  unfolding lock_file Keeps
  live-lock_file path w =
      let opened = o.files.open_lock path w in
      let locked = o.files.lock path opened.1 in
      let first = laws.by_open_lock path w in
      let second = laws.by_lock path opened.1 ∙ first in
      Option-branch (Keeps w) opened.0 _ _
        (λ done.
          Option-branch (Keeps w) locked.0 _ _ (λ done'. second)
            (λ fault failed. laws.by_close path locked.1 ∙ second))
        (λ fault failed. first)

  live-lock_state_dir : (dir : Str) (w : W) → Keeps w (lock_state_dir o.files dir w)
  unfolding lock_state_dir Keeps
  live-lock_state_dir dir w =
      let made = o.files.mkdir_all dir w in
      let first = laws.by_mkdir dir w in
      Option-branch (Keeps w) made.0 _ _
        (λ done. live-lock_file (lock_path o.files dir) made.1 ∙ first) (λ fault failed. first)

  live-remove_files : (name dir : Str) (w : W) → Keeps w (remove_files o.files o.cdi name dir w)
  unfolding remove_files Keeps
  live-remove_files name dir w =
      let kept = o.files.remove (spec_path o.cdi name) w in
      let first = laws.by_remove (spec_path o.cdi name) w in
      let second = laws.by_remove_all dir kept.1 ∙ first in
      Option-branch (Keeps w) kept.0 _ _ (λ done. second)
        (λ fault failed.
          if-branch (Keeps w) (is_not_found fault) _ _ (λ gone. second) (λ real. first))

  pub live-remove_device : (name : Str) (w : W) → live (remove o.files o.cdi name w).1 ≡ live w
  unfolding remove Keeps
  live-remove_device name w =
      let dir = device_state_dir o.cdi (cdi_device_name_from_qualified_name name) in
      let locked = lock_state_dir o.files dir w in
      let removed = remove_files o.files o.cdi name dir locked.1 in
      let same = live-remove_files name dir locked.1 ∙ live-lock_state_dir dir w in
      if-branch (Keeps w) (is_blank name) _ _ (λ blank. refl)
        (λ shown.
          Option-branch (Keeps w) locked.0 _ _
            (λ held. laws.by_unlock (lock_path o.files dir) removed.1 ∙ same) (λ fault free. same))

  live-upsert_secret : (secret : Secret) (w : W) → Keeps w (upsert_secret o.secrets secret w)
  unfolding upsert_secret Keeps
  live-upsert_secret secret w =
      let (current, w') = o.secrets.get secret.namespace secret.name w in
      let same = laws.by_get_secret secret.namespace secret.name w in
      Outcome-branch (Keeps w) current _ _ (λ found there. laws.by_update_secret _ w' ∙ same)
        (λ fault failed.
          if-branch (Keeps w) (is_not_found fault) _ _
            (λ missing. laws.by_create_secret secret w' ∙ same) (λ real. same))

  pub live-create_guest :
      (a : Allocation) (token command : Str) (w : W)
      → live (Guest.create (some o.secrets) o.digest a token command w).1 ≡ live w
  unfolding Guest.create Keeps
  live-create_guest a token command w =
      let made = upsert_secret o.secrets _ w in
      let same = live-upsert_secret _ w in
      if-branch (Keeps w) (is_blank a.claim_namespace) _ _ (λ blank. refl)
        (λ shown.
          if-branch (Keeps w) (is_blank token) _ _ (λ blank. refl)
            (λ shown'. Option-branch (Keeps w) made.0 _ _ (λ done. same) (λ fault failed. same)))

  live-delete_secret :
      (namespace given : Str) (w : W) → Keeps w (delete_secret o.secrets namespace given w)
  unfolding delete_secret Keeps
  live-delete_secret namespace given w =
      let name = trim_space given in
      let deleted = o.secrets.delete namespace name w in
      let same = laws.by_delete_secret namespace name w in
      if-branch (Keeps w) (is_nil name) _ _ (λ blank. refl)
        (λ shown.
          Option-branch (Keeps w) deleted.0 _ _ (λ done. same)
            (λ fault failed.
              if-branch (Keeps w) (is_not_found fault) _ _ (λ gone. same) (λ real. same)))

  pub live-remove_guest :
      (g : GuestArtifacts) (w : W) → live (Guest.remove (some o.secrets) o.digest g w).1 ≡ live w
  unfolding Guest.remove Keeps
  live-remove_guest g w =
      let namespace = trim_space g.namespace in
      if-branch (Keeps w) (is_nil namespace) _ _ (λ blank. refl)
        (λ shown. live-delete_secret namespace g.secret_name w)
