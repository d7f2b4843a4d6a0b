-- ===== src/Daemon/Config/Tests.antt =====
-- The configuration of a node whose environment sets what is required and a port range.
use thunder_device_plugin.Base.{◌≡◌, refl, Option, true, [], ◌∷◌, Str, codes, ok, lookup, text_eq}
use thunder_device_plugin.Daemon.Config.{
  Config, config_from_lookup, env_node, env_min_driver_version, env_thunder_api_token,
  env_port_range, default_host_root, default_lib_cuda_path, default_lib_nvml_path,
  default_nvsmi_path, default_zone_label, default_advertised_ip_label, default_host_target_pid,
  default_dra_driver_name, default_cdi_spec_dir, default_thunder_client_ns,
  default_kubelet_plugin_dir, default_kubelet_registrar_dir, default_thunder_install_url,
  default_thunder_telemetry_url, default_ca_bundle_path, default_thunderd_log_unit,
}
use thunder_device_plugin.Daemon.Config.Valid.{IsValid, config_from_lookup-IsValid}

abbrev environment : Str → Option Str
environment key = lookup key (
    (env_node, codes " n1 ")
    ∷ (env_min_driver_version, codes "550.54")
    ∷ (env_thunder_api_token, codes "t")
    ∷ (env_port_range, codes "32000-32199")
    ∷ [])

abbrev config : Config
config = record {
  node = codes "n1";
  zone = [];
  advertised_ip = [];
  min_driver_version = codes "550.54";
  port_range = codes "32000-32199";
  thunder_api_url = [];
  thunder_api_token = codes "t";
  host_root = default_host_root;
  lib_cuda_path = default_lib_cuda_path;
  lib_nvml_path = default_lib_nvml_path;
  nvsmi_path = default_nvsmi_path;
  zone_label = default_zone_label;
  advertised_ip_label = default_advertised_ip_label;
  host_target_pid = default_host_target_pid;
  dra_enabled = true;
  dra_driver_name = default_dra_driver_name;
  cdi_spec_dir = default_cdi_spec_dir;
  thunder_client_ns = default_thunder_client_ns;
  kubelet_plugin_dir = default_kubelet_plugin_dir;
  kubelet_registrar_dir = default_kubelet_registrar_dir;
  thunder_install_url = default_thunder_install_url;
  thunder_telemetry_url = default_thunder_telemetry_url;
  artifact_base_url = [];
  libthunder_url = [];
  libthunder_sha256 = [];
  ca_bundle_path = default_ca_bundle_path;
  thunderd_log_unit = default_thunderd_log_unit;
}

accepted : config_from_lookup environment ≡ ok config
unfolding config_from_lookup lookup thunder_device_plugin.Base.str_eq codes
    thunder_device_plugin.Base.trim_space thunder_device_plugin.Base.cut
    thunder_device_plugin.Base.Atoi.atoi
accepted = refl

config_from_lookup-IsValid_example : IsValid config
config_from_lookup-IsValid_example = config_from_lookup-IsValid environment config accepted
