-- ===== src/Daemon/Cdi/Parsed.antt =====
-- ParseCDIHookArgs on the arguments that FileCDIDeviceStore gives the hook.
use thunder_device_plugin.Base.{
  ◌≡◌, refl, ◌∙◌, inl, inr, false, List, [], ◌∷◌, Str, codes, Assoc, ok, drop, text_eq, keep,
  is_blank, Bool-cases, if◌then◌else◌,
}
use mathlib.Core.List.{Permᴰ}
use thunder_device_plugin.Daemon.Driver.{Allocation}
use thunder_device_plugin.Daemon.Cdi.Options.{
  CdiHookOptions, no_options, read_flags, parse_cdi_hook_args,
}
use thunder_device_plugin.Daemon.Cdi.Hooks.{
  FileCdiDeviceStore, from_pairs, runtime_hook, hooks, hook_flags, thunder_client_name,
  device_state_dir,
}
use thunder_device_plugin.Daemon.Cdi.Flags.{
  state_dir_read, artifact_base_url_read, ca_bundle_path_read, cache_dir_read, central_url_read,
  client_name_read, install_url_read, libthunder_sha256_read, libthunder_url_read,
  telemetry_url_read, artifact_base_url_unset, ca_bundle_path_unset, cache_dir_unset,
  central_url_unset, client_name_unset, install_url_unset, libthunder_sha256_unset,
  libthunder_url_unset, telemetry_url_unset,
}
use thunder_device_plugin.Daemon.Cdi.Sorted.{Pair}
use thunder_device_plugin.Daemon.Cdi.Ordered.{given, sorted_flags, sort_arg_pairs-flags}

-- A value as the hook sees it: one that is blank is not passed.
abbrev pub unless_blank : Str → Str
unless_blank value = if is_blank value then [] else value

-- What the store tells the hook of a device.
abbrev pub told : FileCdiDeviceStore → Allocation → Str → CdiHookOptions
told s allocation device_name = record {
  state_dir = device_state_dir s device_name;
  central_url = unless_blank s.central_url;
  telemetry_url = unless_blank s.telemetry_url;
  install_url = unless_blank s.install_url;
  artifact_base_url = unless_blank s.artifact_base_url;
  libthunder_url = unless_blank s.libthunder_url;
  libthunder_sha256 = unless_blank s.libthunder_sha256;
  cache_dir = unless_blank s.cache_dir;
  ca_bundle_path = unless_blank s.ca_bundle_path;
  client_name = unless_blank (thunder_client_name allocation);
}

-- One flag of the store's, given or not.
module _ (flag : Str) (field : CdiHookOptions → Str) (set : Str → CdiHookOptions → CdiHookOptions)
    (reads : (value : Str) (args : List Str) (opts : CdiHookOptions)
      → read_flags (flag ∷ value ∷ args) opts ≡ read_flags args (set value opts))
    (unset : (opts : CdiHookOptions) → field opts ≡ [] → set [] opts ≡ opts) where
  read_flags_next :
      (value : Str) (pairs : List Pair) (opts : CdiHookOptions)
      → field opts ≡ []
      → read_flags (from_pairs (keep given ((flag, value) ∷ pairs))) opts
        ≡ read_flags (from_pairs (keep given pairs)) (set (unless_blank value) opts)
  unfolding from_pairs
  read_flags_next value pairs opts empty = elim (Bool-cases (is_blank value)) [
    | inl blank ↦ rw (blank, unset opts empty) refl
    | inr shown ↦ rw shown (reads value (from_pairs (keep given pairs)) opts)
  ]

parse_cdi_hook_args_read :
    (args : List Str) (opts : CdiHookOptions)
    → read_flags args no_options ≡ ok opts
    → is_blank opts.state_dir ≡ false
    → parse_cdi_hook_args args ≡ ok opts
unfolding parse_cdi_hook_args
parse_cdi_hook_args_read args opts read shown = rw (read, shown, parse_cdi_hook_args) refl

module _ (s : FileCdiDeviceStore) (allocation : Allocation) where
  read_flags-sorted_flags :
      (dir : Str)
      → read_flags
          (from_pairs (keep given (sorted_flags s allocation)))
          (record no_options { state_dir = dir })
        ≡ ok (record (told s allocation []) { state_dir = dir })
  unfolding read_flags from_pairs
  read_flags-sorted_flags dir =
      let flags = sorted_flags s allocation in
      let o₀ = record no_options { state_dir = dir } in
      let o₁ = record o₀ { artifact_base_url = unless_blank s.artifact_base_url } in
      let o₂ = record o₁ { ca_bundle_path = unless_blank s.ca_bundle_path } in
      let o₃ = record o₂ { cache_dir = unless_blank s.cache_dir } in
      let o₄ = record o₃ { central_url = unless_blank s.central_url } in
      let o₅ = record o₄ { client_name = unless_blank (thunder_client_name allocation) } in
      let o₆ = record o₅ { install_url = unless_blank s.install_url } in
      let o₇ = record o₆ { libthunder_sha256 = unless_blank s.libthunder_sha256 } in
      let o₈ = record o₇ { libthunder_url = unless_blank s.libthunder_url } in
      read_flags_next (codes "--artifact-base-url") (λ o. o.artifact_base_url)
        (λ value o. record o { artifact_base_url = value }) artifact_base_url_read
        artifact_base_url_unset s.artifact_base_url (drop 1 flags) o₀ refl
      ∙ read_flags_next (codes "--ca-bundle") (λ o. o.ca_bundle_path)
          (λ value o. record o { ca_bundle_path = value }) ca_bundle_path_read ca_bundle_path_unset
          s.ca_bundle_path (drop 2 flags) o₁ refl
      ∙ read_flags_next (codes "--cache-dir") (λ o. o.cache_dir)
          (λ value o. record o { cache_dir = value }) cache_dir_read cache_dir_unset s.cache_dir
          (drop 3 flags) o₂ refl
      ∙ read_flags_next (codes "--central-url") (λ o. o.central_url)
          (λ value o. record o { central_url = value }) central_url_read central_url_unset
          s.central_url (drop 4 flags) o₃ refl
      ∙ read_flags_next (codes "--client-name") (λ o. o.client_name)
          (λ value o. record o { client_name = value }) client_name_read client_name_unset
          (thunder_client_name allocation) (drop 5 flags) o₄ refl
      ∙ read_flags_next (codes "--install-url") (λ o. o.install_url)
          (λ value o. record o { install_url = value }) install_url_read install_url_unset
          s.install_url (drop 6 flags) o₅ refl
      ∙ read_flags_next (codes "--libthunder-sha256") (λ o. o.libthunder_sha256)
          (λ value o. record o { libthunder_sha256 = value }) libthunder_sha256_read
          libthunder_sha256_unset s.libthunder_sha256 (drop 7 flags) o₆ refl
      ∙ read_flags_next (codes "--libthunder-url") (λ o. o.libthunder_url)
          (λ value o. record o { libthunder_url = value }) libthunder_url_read libthunder_url_unset
          s.libthunder_url (drop 8 flags) o₇ refl
      ∙ read_flags_next (codes "--telemetry-url") (λ o. o.telemetry_url)
          (λ value o. record o { telemetry_url = value }) telemetry_url_read telemetry_url_unset
          s.telemetry_url (drop 9 flags) o₈ refl

  -- Where the hook is not disabled and the state directory of the device is not blank, in whatever order
  -- the map of flags is read, the device has one hook, and ParseCDIHookArgs reads from its arguments
  -- the state directory and every option of the store, verbatim, and "" for the blank ones.
  pub parse_cdi_hook_args-hooks :
      (flags : Assoc Str Str) (device_name : Str)
      → Permᴰ flags (hook_flags s allocation)
      → is_blank s.hook_path ≡ false
      → is_blank (device_state_dir s device_name) ≡ false
      → (hooks s flags device_name ≡ runtime_hook s flags device_name ∷ [])
        × (parse_cdi_hook_args (drop 2 (runtime_hook s flags device_name).args)
            ≡ ok (told s allocation device_name))
  unfolding hooks runtime_hook parse_cdi_hook_args
  parse_cdi_hook_args-hooks flags device_name π enabled shown =
      let dir = device_state_dir s device_name in
      let args = from_pairs (keep given (sorted_flags s allocation)) in
      let told_flags = state_dir_read dir args no_options ∙ read_flags-sorted_flags dir in
      (
        rw enabled refl,
        rw (sort_arg_pairs-flags s allocation flags π) (
            parse_cdi_hook_args_read (codes "--state-dir" ∷ dir ∷ args)
              (told s allocation device_name) told_flags shown),
      )
