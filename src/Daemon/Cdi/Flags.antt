-- ===== src/Daemon/Cdi/Flags.antt =====
-- ParseCDIHookArgs on each flag, with its value behind it.
use thunder_device_plugin.Base.{◌≡◌, refl, sym, List, [], ◌∷◌, Str, codes, cut, text_eq, str_eq}
use thunder_device_plugin.Daemon.Cdi.Options.{CdiHookOptions, set_flag, read_flags}

-- `--state-dir`
pub state_dir_read :
    (dir : Str) (args : List Str) (opts : CdiHookOptions)
    → read_flags (codes "--state-dir" ∷ dir ∷ args) opts
      ≡ read_flags args (record opts { state_dir = dir })
unfolding read_flags set_flag cut codes str_eq
state_dir_read dir [] opts = refl
state_dir_read dir (arg ∷ args) opts = refl

-- `--artifact-base-url`
pub artifact_base_url_read :
    (value : Str) (args : List Str) (opts : CdiHookOptions)
    → read_flags (codes "--artifact-base-url" ∷ value ∷ args) opts
      ≡ read_flags args (record opts { artifact_base_url = value })
unfolding read_flags set_flag cut codes str_eq
artifact_base_url_read value [] opts = refl
artifact_base_url_read value (arg ∷ args) opts = refl

-- `--ca-bundle`
pub ca_bundle_path_read :
    (value : Str) (args : List Str) (opts : CdiHookOptions)
    → read_flags (codes "--ca-bundle" ∷ value ∷ args) opts
      ≡ read_flags args (record opts { ca_bundle_path = value })
unfolding read_flags set_flag cut codes str_eq
ca_bundle_path_read value [] opts = refl
ca_bundle_path_read value (arg ∷ args) opts = refl

-- `--cache-dir`
pub cache_dir_read :
    (value : Str) (args : List Str) (opts : CdiHookOptions)
    → read_flags (codes "--cache-dir" ∷ value ∷ args) opts
      ≡ read_flags args (record opts { cache_dir = value })
unfolding read_flags set_flag cut codes str_eq
cache_dir_read value [] opts = refl
cache_dir_read value (arg ∷ args) opts = refl

-- `--central-url`
pub central_url_read :
    (value : Str) (args : List Str) (opts : CdiHookOptions)
    → read_flags (codes "--central-url" ∷ value ∷ args) opts
      ≡ read_flags args (record opts { central_url = value })
unfolding read_flags set_flag cut codes str_eq
central_url_read value [] opts = refl
central_url_read value (arg ∷ args) opts = refl

-- `--client-name`
pub client_name_read :
    (value : Str) (args : List Str) (opts : CdiHookOptions)
    → read_flags (codes "--client-name" ∷ value ∷ args) opts
      ≡ read_flags args (record opts { client_name = value })
unfolding read_flags set_flag cut codes str_eq
client_name_read value [] opts = refl
client_name_read value (arg ∷ args) opts = refl

-- `--install-url`
pub install_url_read :
    (value : Str) (args : List Str) (opts : CdiHookOptions)
    → read_flags (codes "--install-url" ∷ value ∷ args) opts
      ≡ read_flags args (record opts { install_url = value })
unfolding read_flags set_flag cut codes str_eq
install_url_read value [] opts = refl
install_url_read value (arg ∷ args) opts = refl

-- `--libthunder-sha256`
pub libthunder_sha256_read :
    (value : Str) (args : List Str) (opts : CdiHookOptions)
    → read_flags (codes "--libthunder-sha256" ∷ value ∷ args) opts
      ≡ read_flags args (record opts { libthunder_sha256 = value })
unfolding read_flags set_flag cut codes str_eq
libthunder_sha256_read value [] opts = refl
libthunder_sha256_read value (arg ∷ args) opts = refl

-- `--libthunder-url`
pub libthunder_url_read :
    (value : Str) (args : List Str) (opts : CdiHookOptions)
    → read_flags (codes "--libthunder-url" ∷ value ∷ args) opts
      ≡ read_flags args (record opts { libthunder_url = value })
unfolding read_flags set_flag cut codes str_eq
libthunder_url_read value [] opts = refl
libthunder_url_read value (arg ∷ args) opts = refl

-- `--telemetry-url`
pub telemetry_url_read :
    (value : Str) (args : List Str) (opts : CdiHookOptions)
    → read_flags (codes "--telemetry-url" ∷ value ∷ args) opts
      ≡ read_flags args (record opts { telemetry_url = value })
unfolding read_flags set_flag cut codes str_eq
telemetry_url_read value [] opts = refl
telemetry_url_read value (arg ∷ args) opts = refl

-- An option that is empty stays as it is when it is set to the empty text.
pub artifact_base_url_unset :
    (opts : CdiHookOptions)
    → opts.artifact_base_url ≡ []
    → record opts { artifact_base_url = [] } ≡ opts
artifact_base_url_unset opts h = rw (sym h) refl

pub ca_bundle_path_unset :
    (opts : CdiHookOptions) → opts.ca_bundle_path ≡ [] → record opts { ca_bundle_path = [] } ≡ opts
ca_bundle_path_unset opts h = rw (sym h) refl

pub cache_dir_unset :
    (opts : CdiHookOptions) → opts.cache_dir ≡ [] → record opts { cache_dir = [] } ≡ opts
cache_dir_unset opts h = rw (sym h) refl

pub central_url_unset :
    (opts : CdiHookOptions) → opts.central_url ≡ [] → record opts { central_url = [] } ≡ opts
central_url_unset opts h = rw (sym h) refl

pub client_name_unset :
    (opts : CdiHookOptions) → opts.client_name ≡ [] → record opts { client_name = [] } ≡ opts
client_name_unset opts h = rw (sym h) refl

pub install_url_unset :
    (opts : CdiHookOptions) → opts.install_url ≡ [] → record opts { install_url = [] } ≡ opts
install_url_unset opts h = rw (sym h) refl

pub libthunder_sha256_unset :
    (opts : CdiHookOptions)
    → opts.libthunder_sha256 ≡ []
    → record opts { libthunder_sha256 = [] } ≡ opts
libthunder_sha256_unset opts h = rw (sym h) refl

pub libthunder_url_unset :
    (opts : CdiHookOptions) → opts.libthunder_url ≡ [] → record opts { libthunder_url = [] } ≡ opts
libthunder_url_unset opts h = rw (sym h) refl

pub telemetry_url_unset :
    (opts : CdiHookOptions) → opts.telemetry_url ≡ [] → record opts { telemetry_url = [] } ≡ opts
telemetry_url_unset opts h = rw (sym h) refl
