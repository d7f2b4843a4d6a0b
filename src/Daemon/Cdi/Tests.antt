-- ===== src/Daemon/Cdi/Tests.antt =====
-- The hook of a store that has some of the options, with its flags in two orders.
use thunder_device_plugin.Base.{
  ℕ, ◌≡◌, refl, Bool, false, Option, none, List, [], ◌∷◌, Str, codes, Assoc, Outcome, ok, drop,
  str_eq, str_lt, trim_space,
}
use mathlib.Core.List.{Permᴰ}
use thunder_device_plugin.Daemon.Driver.{Allocation, no_consumer}
use thunder_device_plugin.Daemon.Cdi.Options.{CdiHookOptions, no_options, parse_cdi_hook_args}
use thunder_device_plugin.Daemon.Cdi.Hooks.{
  FileCdiDeviceStore, CdiHook, hooks, runtime_hook, hook_flags,
}
use thunder_device_plugin.Daemon.Cdi.Ordered.{hooks_order_free}
use thunder_device_plugin.Daemon.Cdi.Parsed.{parse_cdi_hook_args-hooks}

abbrev pub s : FileCdiDeviceStore
s = record {
  spec_dir = [];
  state_dir = [];
  kind = [];
  lib_cuda_path = [];
  lib_nvml_path = [];
  nv_smi_path = [];
  client_install_command = codes "install";
  hook_path = codes "/plugins/bin/thunder-cdi-hook";
  cache_dir = codes "/cache";
  central_url = codes "https://t?a=b";
  telemetry_url = [];
  install_url = codes " ";
  artifact_base_url = [];
  libthunder_url = [];
  libthunder_sha256 = [];
  ca_bundle_path = [];
}

abbrev pub allocation : Allocation
allocation = record {
  claim_uid = codes "u1";
  claim_namespace = codes "default";
  claim_name = codes "claim";
  devices = [];
  request_name = [];
  pool_name = [];
  device_name = [];
  share_id = none;
  consumer = no_consumer;
  node_name = [];
  zone = [];
  gpu_type = [];
  gpu_count = 1;
}

-- The flags with the first two swapped.
abbrev swapped : Assoc Str Str
swapped =
    (codes "--telemetry-url", [])
    ∷ (codes "--central-url", codes "https://t?a=b")
    ∷ drop 2 (hook_flags s allocation)

swapped-flags : Permᴰ swapped (hook_flags s allocation)
unfolding hook_flags
swapped-flags = Permᴰ.swap refl refl

hook_arguments :
    (runtime_hook s swapped (codes "claim-u1")).args
    ≡ codes "/plugins/bin/thunder-cdi-hook"
      ∷ codes "cdi-hook"
      ∷ codes "--state-dir"
      ∷ codes "/var/run/cdi/thunder/claim-u1"
      ∷ codes "--cache-dir"
      ∷ codes "/cache"
      ∷ codes "--central-url"
      ∷ codes "https://t?a=b"
      ∷ codes "--client-name"
      ∷ codes "claim"
      ∷ []
unfolding runtime_hook codes trim_space thunder_device_plugin.Base.Paths.join_paths hook_flags
    str_lt
hook_arguments = refl

hooks_order_free_example :
    hooks s swapped (codes "claim-u1") ≡ hooks s (hook_flags s allocation) (codes "claim-u1")
hooks_order_free_example = hooks_order_free s allocation swapped (codes "claim-u1") swapped-flags

abbrev told_options : CdiHookOptions
told_options = record no_options {
  state_dir = codes "/var/run/cdi/thunder/claim-u1";
  central_url = codes "https://t?a=b";
  cache_dir = codes "/cache";
  client_name = codes "claim";
}

parse_cdi_hook_args-hooks_example :
    (hooks s swapped (codes "claim-u1") ≡ runtime_hook s swapped (codes "claim-u1") ∷ [])
    × (parse_cdi_hook_args (drop 2 (runtime_hook s swapped (codes "claim-u1")).args)
        ≡ ok told_options)
unfolding trim_space codes thunder_device_plugin.Daemon.Cdi.Hooks.device_state_dir
    thunder_device_plugin.Base.Paths.join_paths
    thunder_device_plugin.Daemon.Cdi.Hooks.thunder_client_name
parse_cdi_hook_args-hooks_example =
    parse_cdi_hook_args-hooks s allocation swapped (codes "claim-u1") swapped-flags refl refl
