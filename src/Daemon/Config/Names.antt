-- ===== src/Daemon/Config/Names.antt =====
-- internal/daemon/config.go: the environment variables that the daemon reads, and their defaults.
use thunder_device_plugin.Base.{Str, codes}

abbrev pub env_node : Str
env_node = codes "NODE"

abbrev pub env_zone : Str
env_zone = codes "ZONE"

abbrev pub env_advertised_ip : Str
env_advertised_ip = codes "ADVERTISED_IP"

abbrev pub env_min_driver_version : Str
env_min_driver_version = codes "MIN_DRIVER_VERSION"

abbrev pub env_port_range : Str
env_port_range = codes "THUNDER_PORT_RANGE"

abbrev pub env_thunder_api_url : Str
env_thunder_api_url = codes "THUNDER_API_URL"

abbrev pub env_thunder_api_token : Str
env_thunder_api_token = codes "THUNDER_API_TOKEN"

abbrev pub env_host_root : Str
env_host_root = codes "HOST_ROOT"

abbrev pub env_lib_cuda_path : Str
env_lib_cuda_path = codes "LIBCUDA_PATH"

abbrev pub env_lib_nvml_path : Str
env_lib_nvml_path = codes "LIBNVIDIA_ML_PATH"

abbrev pub env_nvsmi_path : Str
env_nvsmi_path = codes "NVIDIA_SMI_PATH"

abbrev pub env_zone_label : Str
env_zone_label = codes "NODE_ZONE_LABEL"

abbrev pub env_advertised_ip_label : Str
env_advertised_ip_label = codes "NODE_ADVERTISED_IP_LABEL"

abbrev pub env_host_target_pid : Str
env_host_target_pid = codes "HOST_TARGET_PID"

abbrev pub env_dra_enabled : Str
env_dra_enabled = codes "DRA_ENABLED"

abbrev pub env_dra_driver_name : Str
env_dra_driver_name = codes "DRA_DRIVER_NAME"

abbrev pub env_cdi_spec_dir : Str
env_cdi_spec_dir = codes "CDI_SPEC_DIR"

abbrev pub env_thunder_client_ns : Str
env_thunder_client_ns = codes "THUNDER_CLIENT_NAMESPACE"

abbrev pub env_kubelet_plugin_dir : Str
env_kubelet_plugin_dir = codes "KUBELET_PLUGIN_DIR"

abbrev pub env_kubelet_registrar_dir : Str
env_kubelet_registrar_dir = codes "KUBELET_REGISTRAR_DIR"

abbrev pub env_thunder_install_url : Str
env_thunder_install_url = codes "THUNDER_INSTALL_URL"

abbrev pub env_thunder_telemetry_url : Str
env_thunder_telemetry_url = codes "THUNDER_TELEMETRY_URL"

abbrev pub env_artifact_base_url : Str
env_artifact_base_url = codes "THUNDER_ARTIFACT_BASE_URL"

abbrev pub env_libthunder_url : Str
env_libthunder_url = codes "LIBTHUNDER_URL"

abbrev pub env_libthunder_sha256 : Str
env_libthunder_sha256 = codes "LIBTHUNDER_SHA256"

abbrev pub env_ca_bundle_path : Str
env_ca_bundle_path = codes "CA_BUNDLE_PATH"

abbrev pub env_thunderd_log_unit : Str
env_thunderd_log_unit = codes "THUNDERD_LOG_UNIT"

abbrev pub default_host_root : Str
default_host_root = codes "/host"

abbrev pub default_lib_cuda_path : Str
default_lib_cuda_path = codes "/usr/lib/x86_64-linux-gnu/libcuda.so.1"

abbrev pub default_lib_nvml_path : Str
default_lib_nvml_path = codes "/usr/lib/x86_64-linux-gnu/libnvidia-ml.so.1"

abbrev pub default_nvsmi_path : Str
default_nvsmi_path = codes "/usr/bin/nvidia-smi"

abbrev pub default_zone_label : Str
default_zone_label = codes "topology.kubernetes.io/zone"

abbrev pub default_advertised_ip_label : Str
default_advertised_ip_label = codes "thundercompute.com/advertised-ip"

abbrev pub default_host_target_pid : Str
default_host_target_pid = codes "1"

abbrev pub default_dra_driver_name : Str
default_dra_driver_name = codes "thundercompute.com"

abbrev pub default_cdi_spec_dir : Str
default_cdi_spec_dir = codes "/var/run/cdi"

abbrev pub default_thunder_client_ns : Str
default_thunder_client_ns = codes "thunder-system"

abbrev pub default_kubelet_plugin_dir : Str
default_kubelet_plugin_dir = codes "/var/lib/kubelet/plugins/thundercompute.com"

abbrev pub default_kubelet_registrar_dir : Str
default_kubelet_registrar_dir = codes "/var/lib/kubelet/plugins_registry"

abbrev pub default_thunder_install_url : Str
default_thunder_install_url = codes "https://get.thundercompute.com/install.sh"

abbrev pub default_thunder_telemetry_url : Str
default_thunder_telemetry_url = codes "https://telemetry.thundercompute.com:2096"

abbrev pub default_ca_bundle_path : Str
default_ca_bundle_path = codes "/etc/ssl/certs/ca-certificates.crt"

abbrev pub default_thunderd_log_unit : Str
default_thunderd_log_unit = codes "thunderd.service"
