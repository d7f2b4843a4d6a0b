-- ===== src/Daemon/Cdi/Hooks.antt =====
-- FileCDIDeviceStore: its paths, and the arguments of the createRuntime hook.
use thunder_device_plugin.Base.{
  ℕ, List, [], ◌∷◌, ◌++◌, Str, codes, Assoc, text_eq, is_blank, is_nil, trim_space, str_lt,
  if◌then◌else◌,
}
use thunder_device_plugin.Base.Paths.{join_paths}
use thunder_device_plugin.Daemon.Driver.{Allocation}

pub record FileCdiDeviceStore : Type 0 where
  pub spec_dir : Str
  pub state_dir : Str
  pub kind : Str
  pub lib_cuda_path : Str
  pub lib_nvml_path : Str
  pub nv_smi_path : Str
  pub client_install_command : Str
  pub hook_path : Str
  pub cache_dir : Str
  pub central_url : Str
  pub telemetry_url : Str
  pub install_url : Str
  pub artifact_base_url : Str
  pub libthunder_url : Str
  pub libthunder_sha256 : Str
  pub ca_bundle_path : Str

-- The text that is given, trimmed, or the default where it is blank.
unfoldable pub or_default : Str → Str → Str
or_default default given = if is_blank given then default else trim_space given

-- thunderClientName: the pod's name, or the claim's.
unfoldable pub thunder_client_name : Allocation → Str
thunder_client_name allocation =
    let name = trim_space allocation.consumer.name in
    if is_nil name then trim_space allocation.claim_name else name

-- One pair among sorted ones: sort.Slice by the flag.
unfoldable pub insert_pair : Str × Str → List (Str × Str) → List (Str × Str)
insert_pair pair [] = pair ∷ []
insert_pair pair (p ∷ pairs) =
    let behind = insert_pair pair pairs in
    if str_lt p.0 pair.0 then p ∷ behind else pair ∷ p ∷ pairs

unfoldable pub sort_pairs : List (Str × Str) → List (Str × Str)
unfolding insert_pair
sort_pairs [] = []
sort_pairs (pair ∷ pairs) = insert_pair pair (sort_pairs pairs)

-- A flat list of arguments as pairs and back; a last argument without a partner is left as it is.
unfoldable pub to_pairs : List Str → List (Str × Str)
to_pairs [] = []
to_pairs (flag ∷ []) = []
to_pairs (flag ∷ value ∷ args) = (flag, value) ∷ to_pairs args

unfoldable pub from_pairs : List (Str × Str) → List Str
from_pairs [] = []
from_pairs ((flag, value) ∷ pairs) = flag ∷ value ∷ from_pairs pairs

unfoldable pub unpaired : List Str → List Str
unpaired [] = []
unpaired (flag ∷ []) = flag ∷ []
unpaired (flag ∷ value ∷ args) = unpaired args

unfoldable pub sort_arg_pairs : List Str → List Str
unfolding sort_pairs to_pairs from_pairs unpaired
sort_arg_pairs args = from_pairs (sort_pairs (to_pairs args)) ++ unpaired args

-- The pairs of a map whose value is not blank, as the loop over the map appends them.
unfoldable pub given_args : Assoc Str Str → List Str
given_args [] = []
given_args ((flag, value) ∷ flags) =
    let rest = given_args flags in if is_blank value then rest else flag ∷ value ∷ rest

pub record CdiHook : Type 0 where
  pub hook_name : Str
  pub path : Str
  pub args : List Str
  pub timeout : ℕ

module _ (s : FileCdiDeviceStore) where
  unfoldable pub resolved_spec_dir : Str
  unfolding or_default
  resolved_spec_dir = or_default (codes "/var/run/cdi") s.spec_dir

  unfoldable pub state_root : Str
  unfolding resolved_spec_dir
  state_root =
      if is_blank s.state_dir
      then join_paths (resolved_spec_dir ∷ codes "thunder" ∷ [])
      else trim_space s.state_dir

  unfoldable pub resolved_kind : Str
  unfolding or_default
  resolved_kind = or_default (codes "thundercompute.com/gpu") s.kind

  unfoldable pub device_state_dir : Str → Str
  unfolding state_root
  device_state_dir device_name = join_paths (state_root ∷ device_name ∷ [])

  -- The map that hooks ranges over.
  unfoldable pub hook_flags : Allocation → Assoc Str Str
  unfolding thunder_client_name
  hook_flags allocation =
      (codes "--central-url", s.central_url)
      ∷ (codes "--telemetry-url", s.telemetry_url)
      ∷ (codes "--install-url", s.install_url)
      ∷ (codes "--artifact-base-url", s.artifact_base_url)
      ∷ (codes "--libthunder-url", s.libthunder_url)
      ∷ (codes "--libthunder-sha256", s.libthunder_sha256)
      ∷ (codes "--cache-dir", s.cache_dir)
      ∷ (codes "--ca-bundle", s.ca_bundle_path)
      ∷ (codes "--client-name", thunder_client_name allocation)
      ∷ []

  -- The hook of a device, for the order in which the map happens to be read.
  unfoldable pub runtime_hook : Assoc Str Str → Str → CdiHook
  unfolding device_state_dir given_args sort_arg_pairs
  runtime_hook flags device_name = record {
    hook_name = codes "createRuntime";
    path = trim_space s.hook_path;
    args =
        trim_space s.hook_path
        ∷ codes "cdi-hook"
        ∷ codes "--state-dir"
        ∷ device_state_dir device_name
        ∷ sort_arg_pairs (given_args flags);
    timeout = 120;
  }

  unfoldable pub hooks : Assoc Str Str → Str → List CdiHook
  unfolding runtime_hook
  hooks flags device_name =
      if is_nil (trim_space s.hook_path) then [] else runtime_hook flags device_name ∷ []
