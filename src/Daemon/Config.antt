-- ===== src/Daemon/Config.antt =====
-- internal/daemon/config.go: the daemon's settings, read from the environment. The environment is
-- the argument `env`, Go's `lookup func(string) (string, bool)`.
mod Names
pub mod Valid
mod Tests
pub use Names.*
use thunder_device_plugin.Base.{
  ℕ, ◌≤◌, ◌≡◌, Bool, true, false, ◌||◌, Option, none, some, Str, Outcome, ok, err, codes,
  trim_space, is_blank, cut, ◌==◌, text_eq, if◌then◌else◌, ltb, [],
}
use thunder_device_plugin.Base.Int.{ℤ, pos, ltb_ℤ}
use thunder_device_plugin.Base.Atoi.{atoi}

pub data ConfigError : Type 0 where
  -- "%s must be specified"
  missing : Str → ConfigError
  -- "%s must be a boolean"
  not_boolean : Str → ConfigError
  -- "%s must be a port range like 32000-32199"
  malformed_range : Str → Str → ConfigError
  -- "%s must be a port range within 1-65535 with start <= end"
  range_out_of_bounds : Str → Str → ConfigError

pub record Config : Type 0 where
  pub node : Str
  pub zone : Str
  pub advertised_ip : Str
  pub min_driver_version : Str
  pub port_range : Str
  pub thunder_api_url : Str
  pub thunder_api_token : Str
  pub host_root : Str
  pub lib_cuda_path : Str
  pub lib_nvml_path : Str
  pub nvsmi_path : Str
  pub zone_label : Str
  pub advertised_ip_label : Str
  pub host_target_pid : Str
  pub dra_enabled : Bool
  pub dra_driver_name : Str
  pub cdi_spec_dir : Str
  pub thunder_client_ns : Str
  pub kubelet_plugin_dir : Str
  pub kubelet_registrar_dir : Str
  pub thunder_install_url : Str
  pub thunder_telemetry_url : Str
  pub artifact_base_url : Str
  pub libthunder_url : Str
  pub libthunder_sha256 : Str
  pub ca_bundle_path : Str
  pub thunderd_log_unit : Str

infixl 5 ◌>>=◌
abbrev pub ◌>>=◌ {ℓ κ} :
    {A : Type ℓ} {B : Type κ}
    → Outcome ConfigError A
    → (A → Outcome ConfigError B)
    → Outcome ConfigError B
ok a >>= f = f a
err e >>= f = err e

-- `value, ok := lookup(key)`, blank values counting as unset, and trimmed.
setting : (Str → Option Str) → Str → Option Str
setting env key = elim (env key) [
  | none ↦ none
  | some value ↦ if is_blank value then none else some (trim_space value)
]

unfoldable pub required_env : (Str → Option Str) → Str → Outcome ConfigError Str
unfolding setting
required_env env key = elim (setting env key) [ none ↦ err (missing key) | some value ↦ ok value ]

unfoldable pub optional_env : (Str → Option Str) → Str → Str → Str
unfolding setting
optional_env env key fallback = elim (setting env key) [ none ↦ fallback | some value ↦ value ]

-- strconv.ParseBool.
unfoldable pub parse_bool : Str → Option Bool
parse_bool s =
    if s == codes "1"
      || s == codes "t"
      || s == codes "T"
      || s == codes "true"
      || s == codes "TRUE"
      || s == codes "True"
    then some true
    else if s == codes "0"
        || s == codes "f"
        || s == codes "F"
        || s == codes "false"
        || s == codes "FALSE"
        || s == codes "False"
    then some false
    else none

unfoldable pub optional_bool_env : (Str → Option Str) → Str → Bool → Outcome ConfigError Bool
unfolding setting parse_bool
optional_bool_env env key fallback = elim (setting env key) [
  | none ↦ ok fallback
  | some value ↦ elim (parse_bool value) [ none ↦ err (not_boolean key) | some b ↦ ok b ]
]

-- The checks of a value "start-end" that is not empty.
unfoldable pub check_port_range : Str → Str → Outcome ConfigError Str
check_port_range key value = elim (cut b'-' value) [
  | none ↦ err (malformed_range key value)
  | some (raw_start, raw_end) ↦ elim (atoi raw_start) [
    | none ↦ err (malformed_range key value)
    | some start ↦ elim (atoi raw_end) [
      | none ↦ err (malformed_range key value)
      | some end ↦
          if ltb_ℤ start (pos 1) || ltb_ℤ (pos 65535) end || ltb_ℤ end start
          then err (range_out_of_bounds key value)
          else ok value
    ]
  ]
]

unfoldable pub optional_port_range_env : (Str → Option Str) → Str → Outcome ConfigError Str
unfolding check_port_range optional_env
optional_port_range_env env key =
    let value = optional_env env key [] in if value == [] then ok [] else check_port_range key value

unfoldable pub config_from_lookup : (Str → Option Str) → Outcome ConfigError Config
unfolding required_env optional_env optional_bool_env optional_port_range_env
config_from_lookup env = do
  node_value ← required_env env env_node
  let zone_value = optional_env env env_zone []
  let ip_value = optional_env env env_advertised_ip []
  min_version ← required_env env env_min_driver_version
  api_token ← required_env env env_thunder_api_token
  dra ← optional_bool_env env env_dra_enabled true
  ports ← optional_port_range_env env env_port_range
  ok (record {
    node = node_value;
    zone = zone_value;
    advertised_ip = ip_value;
    min_driver_version = min_version;
    port_range = ports;
    thunder_api_url = optional_env env env_thunder_api_url [];
    thunder_api_token = api_token;
    host_root = optional_env env env_host_root default_host_root;
    lib_cuda_path = optional_env env env_lib_cuda_path default_lib_cuda_path;
    lib_nvml_path = optional_env env env_lib_nvml_path default_lib_nvml_path;
    nvsmi_path = optional_env env env_nvsmi_path default_nvsmi_path;
    zone_label = optional_env env env_zone_label default_zone_label;
    advertised_ip_label = optional_env env env_advertised_ip_label default_advertised_ip_label;
    host_target_pid = optional_env env env_host_target_pid default_host_target_pid;
    dra_enabled = dra;
    dra_driver_name = optional_env env env_dra_driver_name default_dra_driver_name;
    cdi_spec_dir = optional_env env env_cdi_spec_dir default_cdi_spec_dir;
    thunder_client_ns = optional_env env env_thunder_client_ns default_thunder_client_ns;
    kubelet_plugin_dir = optional_env env env_kubelet_plugin_dir default_kubelet_plugin_dir;
    kubelet_registrar_dir =
        optional_env env env_kubelet_registrar_dir default_kubelet_registrar_dir;
    thunder_install_url = optional_env env env_thunder_install_url default_thunder_install_url;
    thunder_telemetry_url =
        optional_env env env_thunder_telemetry_url default_thunder_telemetry_url;
    artifact_base_url = optional_env env env_artifact_base_url [];
    libthunder_url = optional_env env env_libthunder_url [];
    libthunder_sha256 = optional_env env env_libthunder_sha256 [];
    ca_bundle_path = optional_env env env_ca_bundle_path default_ca_bundle_path;
    thunderd_log_unit = optional_env env env_thunderd_log_unit default_thunderd_log_unit;
  })
