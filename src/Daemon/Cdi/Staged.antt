-- ===== src/Daemon/Cdi/Staged.antt =====
-- FileCDIDeviceStore.Create: the files that it writes.
use thunder_device_plugin.Base.{
  ◌≡◌, refl, sym, subst, ◌∙◌, Option, none, some, [], ◌∷◌, ◌++◌, Str, codes, Assoc, Outcome, ok,
  err, Fault, Option-branch, Outcome-branch, if-branch, text_eq, is_blank,
}
use thunder_device_plugin.Daemon.Driver.{Allocation}
use thunder_device_plugin.Daemon.Hook.Files.{Files, FileLaws}
use thunder_device_plugin.Daemon.Hook.Stage.{token_path}
use thunder_device_plugin.Daemon.Cdi.Hooks.{FileCdiDeviceStore, device_state_dir, resolved_spec_dir}
use thunder_device_plugin.Daemon.Cdi.Parsed.{told}
use thunder_device_plugin.Daemon.Cdi.SpecNames.{spec_apart, temp_apart}
use thunder_device_plugin.Daemon.Cdi.Device.{
  CdiSpec, Marshal, cdi_device_name, spec_path, device_token_path, qualified, spec_of, write_spec,
  unless_failed, create,
}

module _ {W : Type 0} {files : Files W} {contents : Str → W → Option Str}
    (laws : FileLaws files contents) (s : FileCdiDeviceStore) (marshal : Marshal) (spec : CdiSpec)
    (name device_name : Str) where
  -- A write that succeeded left the specification, and the token as it was.
  Written : Option Str → Option Fault × W → Type 0
  Written staged (none, w) =
      (contents (device_token_path s device_name) w ≡ staged)
      × ((encoded : Str) × (marshal spec ≡ ok encoded)
          × (contents (spec_path s name) w ≡ some (encoded ++ 10 ∷ [])))
  Written staged (some fault, w) = Unit

  write_spec-Written :
      (w : W)
      → Written
          (contents (device_token_path s device_name) w)
          (write_spec files s marshal spec (spec_path s name) w)
  unfolding write_spec Written
  write_spec-Written w =
      let token = device_token_path s device_name in
      let path = spec_path s name in
      let temp = path ++ codes ".tmp" in
      let After : Option Fault × W → Type 0 = Written (contents token w) in
      Outcome-branch After (marshal spec) _ _
        (λ encoded same.
          let content = encoded ++ 10 ∷ [] in
          let made = files.mkdir_all (resolved_spec_dir s) w in
          let written = files.write_file temp content made.1 in
          let moved = files.rename temp path written.1 in
          Option-branch After made.0 _ _
            (λ made_ok.
              Option-branch After written.0 _ _
                (λ written_ok.
                  Option-branch After moved.0 _ _
                    (λ moved_ok. (
                      laws.rename_keeps temp path token written.1 (temp_apart s name device_name)
                            (spec_apart s name device_name)
                          ∙ laws.write_keeps temp content token made.1
                              (temp_apart s name device_name)
                          ∙ laws.mkdir_keeps (resolved_spec_dir s) token w,
                      (
                        encoded,
                        same,
                        laws.renamed temp path written.1 moved_ok
                            ∙ laws.stored temp content made.1 written_ok,
                      ),
                    ))
                    (λ fault failed. tt))
                (λ fault failed. tt))
            (λ fault failed. tt))
        (λ fault failed. tt)

  -- The device was made and its token staged.
  Made : Str → Outcome Fault Str × W → Type 0
  Made token (ok given, w) =
      (given ≡ name)
      × (contents (device_token_path s device_name) w ≡ some (token ++ 10 ∷ []))
      × ((encoded : Str) × (marshal spec ≡ ok encoded)
          × (contents (spec_path s name) w ≡ some (encoded ++ 10 ∷ [])))
  Made token (err fault, w) = Unit

  unless_failed-Made :
      (token dir : Str) (r : Option Fault × W)
      → Written (some (token ++ 10 ∷ [])) r
      → Made token (unless_failed files s dir name r)
  unfolding unless_failed Made Written
  unless_failed-Made token dir (none, w) (staged, written) = (refl, staged, written)
  unless_failed-Made token dir (some fault, w) written = tt

  write_spec-staged :
      (token : Str) (w : W)
      → (files.write_file (device_token_path s device_name) (token ++ 10 ∷ []) w).0 ≡ none
      → let w' = (files.write_file (device_token_path s device_name) (token ++ 10 ∷ []) w).1 in
        Written (some (token ++ 10 ∷ [])) (write_spec files s marshal spec (spec_path s name) w')
  write_spec-staged token w done =
      let path = device_token_path s device_name in
      let w' = (files.write_file path (token ++ 10 ∷ []) w).1 in
      subst (λ staged. Written staged (write_spec files s marshal spec (spec_path s name) w'))
        (laws.stored path (token ++ 10 ∷ []) w done) (write_spec-Written w')

  Made-ok :
      (token given : Str) (r : Outcome Fault Str × W)
      → r.0 ≡ ok given
      → Made token r
      → (given ≡ name)
        × (contents (device_token_path s device_name) r.1 ≡ some (token ++ 10 ∷ []))
        × ((encoded : Str) × (marshal spec ≡ ok encoded)
            × (contents (spec_path s name) r.1 ≡ some (encoded ++ 10 ∷ [])))
  unfolding Made
  Made-ok token given (ok given', w) same (called, staged, written) =
      let same' : given' ≡ given = cc in (sym same' ∙ called, staged, written)
  Made-ok token given (err fault, w) same made = absurd (cc)

module _ {W : Type 0} {files : Files W} {contents : Str → W → Option Str}
    (laws : FileLaws files contents) (s : FileCdiDeviceStore) (marshal : Marshal)
    (flags : Assoc Str Str) (allocation : Allocation) (token : Str) where
  create-Made :
      (w : W)
      → Made laws s marshal
          (spec_of s flags allocation token)
          (qualified s allocation)
          (cdi_device_name allocation.claim_uid)
          token
          (create files s marshal flags allocation token w)
  unfolding create Made Written
  create-Made w =
      let device_name = cdi_device_name allocation.claim_uid in
      let name = qualified s allocation in
      let dir = device_state_dir s device_name in
      let spec = spec_of s flags allocation token in
      let After : Outcome Fault Str × W → Type 0 =
        Made laws s marshal spec name device_name token in
      let w₁ = (files.mkdir_all dir w).1 in
      let staged = files.write_file (device_token_path s device_name) (token ++ 10 ∷ []) w₁ in
      if-branch After (is_blank s.client_install_command) _ _ (λ blank. tt)
        (λ install.
          if-branch After (is_blank token) _ _ (λ blank. tt)
            (λ shown.
              Option-branch After (files.mkdir_all dir w).0 _ _
                (λ made. unless_failed-Made laws s marshal spec name device_name token dir _ (
                  Option-branch
                    (Written laws s marshal spec name device_name (some (token ++ 10 ∷ [])))
                    staged.0 _ _
                    (λ done. write_spec-staged laws s marshal spec name device_name token w₁ done)
                    (λ fault failed. tt)))
                (λ fault failed. tt)))

  -- Where the file system keeps its laws, a Create that succeeds gives the qualified name of the device
  -- and leaves the token, with a newline, where the hook with the options of the device reads it, and the
  -- encoded specification, with a newline, at the path of the name.
  pub create_stages :
      (given : Str) (w : W)
      → (create files s marshal flags allocation token w).0 ≡ ok given
      → let (answer, w') = create files s marshal flags allocation token w in
        (given ≡ qualified s allocation)
        × (contents (token_path (told s allocation (cdi_device_name allocation.claim_uid))) w'
            ≡ some (token ++ 10 ∷ []))
        × ((encoded : Str) × (marshal (spec_of s flags allocation token) ≡ ok encoded)
            × (contents (spec_path s (qualified s allocation)) w' ≡ some (encoded ++ 10 ∷ [])))
  unfolding token_path device_token_path
  create_stages given w done =
      Made-ok laws s marshal (spec_of s flags allocation token) (qualified s allocation)
        (cdi_device_name allocation.claim_uid) token given
        (create files s marshal flags allocation token w) done (create-Made w)
