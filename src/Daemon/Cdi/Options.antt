-- ===== src/Daemon/Cdi/Options.antt =====
-- CDIHookOptions and ParseCDIHookArgs: the flags that the CDI specification gives the hook.
use thunder_device_plugin.Base.{
  none, some, List, [], ◌∷◌, Str, codes, Outcome, ok, err, cut, ◌==◌, text_eq, is_blank,
  if◌then◌else◌,
}

pub record CdiHookOptions : Type 0 where
  pub state_dir : Str
  pub central_url : Str
  pub telemetry_url : Str
  pub install_url : Str
  pub artifact_base_url : Str
  pub libthunder_url : Str
  pub libthunder_sha256 : Str
  pub cache_dir : Str
  pub ca_bundle_path : Str
  pub client_name : Str

-- The zero value.
abbrev pub no_options : CdiHookOptions
no_options = record {
  state_dir = [];
  central_url = [];
  telemetry_url = [];
  install_url = [];
  artifact_base_url = [];
  libthunder_url = [];
  libthunder_sha256 = [];
  cache_dir = [];
  ca_bundle_path = [];
  client_name = [];
}

pub data ArgsError : Type 0 where
  value_required : Str → ArgsError
  unknown_flag : Str → ArgsError
  state_dir_required : ArgsError

-- The switch on the name of a flag.
unfoldable pub set_flag : Str → Str → CdiHookOptions → Outcome ArgsError CdiHookOptions
set_flag name value opts =
    if name == codes "--state-dir"
    then ok (record opts { state_dir = value })
    else if name == codes "--central-url"
    then ok (record opts { central_url = value })
    else if name == codes "--telemetry-url"
    then ok (record opts { telemetry_url = value })
    else if name == codes "--install-url"
    then ok (record opts { install_url = value })
    else if name == codes "--artifact-base-url"
    then ok (record opts { artifact_base_url = value })
    else if name == codes "--libthunder-url"
    then ok (record opts { libthunder_url = value })
    else if name == codes "--libthunder-sha256"
    then ok (record opts { libthunder_sha256 = value })
    else if name == codes "--cache-dir"
    then ok (record opts { cache_dir = value })
    else if name == codes "--ca-bundle"
    then ok (record opts { ca_bundle_path = value })
    else if name == codes "--client-name"
    then ok (record opts { client_name = value })
    else err (unknown_flag name)

-- The loop over the arguments: `--flag=value`, or `--flag value`.
unfoldable pub read_flags : List Str → CdiHookOptions → Outcome ArgsError CdiHookOptions
unfolding set_flag
read_flags [] opts = ok opts
read_flags (arg ∷ []) opts = elim (cut b'=' arg) [
  | some (name, value) ↦ set_flag name value opts
  | none ↦ err (value_required arg)
]
read_flags (arg ∷ next ∷ args) opts = elim (cut b'=' arg) [
  | some (name, value) ↦ elim (set_flag name value opts) [
    | ok opts' ↦ read_flags (next ∷ args) opts'
    | err e ↦ err e
  ]
  | none ↦ elim (set_flag arg next opts) [ ok opts' ↦ read_flags args opts' | err e ↦ err e ]
]

unfoldable pub parse_cdi_hook_args : List Str → Outcome ArgsError CdiHookOptions
unfolding read_flags
parse_cdi_hook_args args = elim (read_flags args no_options) [
  | err e ↦ err e
  | ok opts ↦ if is_blank opts.state_dir then err state_dir_required else ok opts
]
