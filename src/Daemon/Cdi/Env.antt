-- ===== src/Daemon/Cdi/Env.antt =====
-- FileCDIDeviceStore: what a container gets with the device, its environment and its mounts.
use thunder_device_plugin.Base.{
  Bool, false, ◌||◌, List, [], ◌∷◌, ◌++◌, Str, codes, ◌==◌, text_eq, is_blank, is_nil, trim_space,
  join, if◌then◌else◌,
}
use thunder_device_plugin.Base.Decimal.{decimal}
use thunder_device_plugin.Daemon.Driver.{Allocation}
use thunder_device_plugin.Daemon.Hook.Files.{dir_name}
use thunder_device_plugin.Daemon.Cdi.Hooks.{FileCdiDeviceStore, or_default}

-- Is the text among those seen?
unfoldable pub is_seen : List Str → Str → Bool
is_seen [] value = false
is_seen (s ∷ seen) value = s == value || is_seen seen value

-- The loop of uniqueNonEmpty, with what it has kept so far.
unfoldable pub unique_from : List Str → List Str → List Str
unfolding is_seen
unique_from seen [] = []
unique_from seen (given ∷ values) =
    let value = trim_space given in
    let skipped = unique_from seen values in
    let kept = value ∷ unique_from (value ∷ seen) values in
    if is_nil value || value == codes "."
    then skipped
    else if is_seen seen value
    then skipped
    else kept

unfoldable pub unique_non_empty : List Str → List Str
unfolding unique_from
unique_non_empty values = unique_from [] values

pub record Mount : Type 0 where
  pub host_path : Str
  pub container_path : Str
  pub kind : Str
  pub options : List Str

unfoldable pub bind_mount : Str → Mount
bind_mount path = record {
  host_path = path;
  container_path = path;
  kind = codes "none";
  options = codes "ro" ∷ codes "bind" ∷ [];
}

-- The loop of uniqueMounts, with the keys that it has seen.
unfoldable pub unique_mounts_from : List Str → List Mount → List Mount
unfolding is_seen
unique_mounts_from seen [] = []
unique_mounts_from seen (mount ∷ mounts) =
    let key = mount.host_path ++ 0 ∷ mount.container_path in
    let skipped = unique_mounts_from seen mounts in
    let kept = mount ∷ unique_mounts_from (key ∷ seen) mounts in
    if is_blank mount.host_path || is_blank mount.container_path
    then skipped
    else if is_seen seen key
    then skipped
    else kept

unfoldable pub unique_mounts : List Mount → List Mount
unfolding unique_mounts_from
unique_mounts mounts = unique_mounts_from [] mounts

-- A variable with the directories of a list, if there are any.
path_variable : Str → List Str → List Str
path_variable name dirs =
    if is_nil dirs then [] else (name ++ codes "=" ++ join (codes ":") dirs) ∷ []

module _ (s : FileCdiDeviceStore) where
  unfoldable pub resolved_lib_cuda_path : Str
  unfolding or_default
  resolved_lib_cuda_path =
      or_default (codes "/usr/lib/x86_64-linux-gnu/libcuda.so.1") s.lib_cuda_path

  unfoldable pub resolved_lib_nvml_path : Str
  unfolding or_default
  resolved_lib_nvml_path =
      or_default (codes "/usr/lib/x86_64-linux-gnu/libnvidia-ml.so.1") s.lib_nvml_path

  unfoldable pub nvidia_smi_path : Str
  unfolding or_default
  nvidia_smi_path = or_default (codes "/usr/bin/nvidia-smi") s.nv_smi_path

  unfoldable pub container_env : Str → Allocation → Str → List Str
  unfolding unique_non_empty path_variable nvidia_smi_path resolved_lib_cuda_path
      resolved_lib_nvml_path
  container_env qualified_name allocation token =
      let path_dirs = unique_non_empty (
        dir_name nvidia_smi_path
        ∷ codes "/usr/local/sbin"
        ∷ codes "/usr/local/bin"
        ∷ codes "/usr/sbin"
        ∷ codes "/usr/bin"
        ∷ codes "/sbin"
        ∷ codes "/bin"
        ∷ []) in
      let library_dirs =
        unique_non_empty (dir_name resolved_lib_cuda_path ∷ dir_name resolved_lib_nvml_path ∷ []) in
      ((codes "THUNDER_ENROLLMENT_TOKEN=" ++ token)
        ∷ (codes "THUNDER_CLIENT_INSTALL_COMMAND=" ++ trim_space s.client_install_command)
        ∷ (codes "THUNDER_RESOURCE_CLAIM_UID=" ++ allocation.claim_uid)
        ∷ (codes "THUNDER_RESOURCE_CLAIM_NAMESPACE=" ++ allocation.claim_namespace)
        ∷ (codes "THUNDER_RESOURCE_CLAIM_NAME=" ++ allocation.claim_name)
        ∷ (codes "THUNDER_GPU_TYPE=" ++ allocation.gpu_type)
        ∷ (codes "THUNDER_GPU_COUNT=" ++ decimal allocation.gpu_count)
        ∷ (codes "THUNDER_CDI_DEVICE=" ++ qualified_name)
        ∷ codes "LD_PRELOAD=/etc/thunder/libthunder.so"
        ∷ [])
      ++ (path_variable (codes "PATH") path_dirs
          ++ path_variable (codes "LD_LIBRARY_PATH") library_dirs)

  unfoldable pub mounts : List Mount
  unfolding unique_mounts bind_mount nvidia_smi_path resolved_lib_cuda_path resolved_lib_nvml_path
  mounts = unique_mounts (
      bind_mount nvidia_smi_path
      ∷ bind_mount resolved_lib_cuda_path
      ∷ bind_mount resolved_lib_nvml_path
      ∷ [])
