-- ===== src/Daemon/Nvidia.antt =====
-- internal/daemon/nvidia.go: the checks of the NVIDIA driver that come before an enrollment.
use thunder_device_plugin.Base.{
  ℕ, zero, suc, max, Bool, true, false, not, ◌||◌, Option, none, some, List, [], ◌∷◌, Str, ok, err,
  Fault, Call, codes, ◌==◌, text_eq, is_blank, trim_space, is_nil, split, keep, length, eqb,
  if◌then◌else◌,
}
use thunder_device_plugin.Base.Int.{ℤ, pos, ltb_ℤ}
use thunder_device_plugin.Base.Atoi.{atoi}
use thunder_device_plugin.Base.Paths.{clean, is_abs, join_paths}
use thunder_device_plugin.Daemon.Config.{Config}
use thunder_device_plugin.Daemon.Status.{Node}

pub data NvidiaError : Type 0 where
  -- "%s not found at node path %s (resolved path %s)"
  file_not_found : Str → Str → NvidiaError
  -- "get nvidia driver version", "get nvidia gpu count"
  driver_version_failed gpu_count_failed : Fault → NvidiaError
  no_driver_version zero_gpus : NvidiaError
  -- "nvidia driver format is incorrect", "%s env variable format is incorrect"
  bad_version bad_min_version : Str → NvidiaError
  -- "version not accepted"
  version_too_old : Str → Str → NvidiaError

-- One component of a version: blank ones and non-numbers are refused.
version_component : Str → Option ℤ
version_component part = if is_blank part then none else atoi part

all_components : List Str → Option (List ℤ)
unfolding version_component
all_components [] = some []
all_components (part ∷ parts) = elim (version_component part) [
  | none ↦ none
  | some n ↦ elim (all_components parts) [ none ↦ none | some ns ↦ some (n ∷ ns) ]
]

unfoldable pub parse_version : Str → Option (List ℤ)
unfolding all_components
parse_version version =
    let trimmed = trim_space version in
    if is_nil trimmed then none else all_components (split b'.' trimmed)

-- versionPart: components past the end are 0.
unfoldable pub version_part : List ℤ → ℕ → ℤ
version_part [] i = pos 0
version_part (n ∷ ns) zero = n
version_part (n ∷ ns) (suc i) = version_part ns i

-- The loop of ensureVersionRecency over the `rounds` components from index `i` on: is the version
-- accepted?
unfoldable pub recent_from : ℕ → ℕ → List ℤ → List ℤ → Bool
unfolding version_part
recent_from zero i version minimum = true
recent_from (suc rounds) i version minimum =
    let rest = recent_from rounds (suc i) version minimum in
    if ltb_ℤ (version_part minimum i) (version_part version i)
    then true
    else if ltb_ℤ (version_part version i) (version_part minimum i)
    then false
    else rest

unfoldable pub ensure_version_recency : Str → Str → Option NvidiaError
unfolding parse_version recent_from
ensure_version_recency version minimum = elim (parse_version version) [
  | none ↦ some (bad_version version)
  | some parts ↦ elim (parse_version minimum) [
    | none ↦ some (bad_min_version minimum)
    | some min_parts ↦
        if recent_from (max (length parts) (length min_parts)) 0 parts min_parts
        then none
        else some (version_too_old version minimum)
  ]
]

-- The first line that is not blank.
first_line : List Str → Option Str
first_line [] = none
first_line (line ∷ lines) = if is_blank line then first_line lines else some (trim_space line)

-- `strings.TrimPrefix(path, "/")`.
strip_root : Str → Str
strip_root [] = []
strip_root (c ∷ s) = if eqb c b'/' then s else c ∷ s

-- Where a node path stands under the root that the daemon sees the host at.
unfoldable pub resolve_node_path : Str → Str → Str
unfolding clean is_abs join_paths strip_root
resolve_node_path host_root node_path =
    let clean_path = clean node_path in
    if is_nil host_root || host_root == codes "/" || not (is_abs clean_path)
    then clean_path
    else join_paths (host_root ∷ strip_root clean_path ∷ [])

module _ {W : Type 0} (node : Node W) where
  unfoldable pub nvidia_driver_version : Config → Call W NvidiaError Str
  unfolding first_line
  nvidia_driver_version cfg w =
      let ((output, fault), w') =
        node.combined_output cfg.nvsmi_path
          (codes "--query-gpu=driver_version" ∷ codes "--format=csv,noheader,nounits" ∷ []) w in
      (
        elim fault [
          | some f ↦ err (driver_version_failed f)
          | none ↦ elim (first_line (split 10 output)) [
            | none ↦ err no_driver_version
            | some v ↦ ok v
          ]
        ],
        w',
      )

  unfoldable pub nvidia_gpu_count : Config → Call W NvidiaError ℕ
  nvidia_gpu_count cfg w =
      let ((output, fault), w') =
        node.combined_output cfg.nvsmi_path
          (codes "--query-gpu=index" ∷ codes "--format=csv,noheader,nounits" ∷ []) w in
      (
        elim fault [
          | some f ↦ err (gpu_count_failed f)
          | none ↦ ok (length (keep (λ line. not (is_blank line)) (split 10 output)))
        ],
        w',
      )

  -- The first of the paths that is not there, with where it was looked for.
  unfoldable pub missing_file : Config → List Str → W → Option (Str × Str) × W
  missing_file cfg [] w = (none, w)
  missing_file cfg (path ∷ paths) w =
      let resolved = resolve_node_path cfg.host_root path in
      let (there, w') = node.file_exists resolved w in
      let rest = missing_file cfg paths w' in if there then rest else (some (path, resolved), w')

  -- After the files: the driver's version, its recency, and the GPUs.
  unfoldable pub check_driver : Config → Call W NvidiaError (ℕ × Str)
  unfolding nvidia_driver_version nvidia_gpu_count
  check_driver cfg w =
      let (version, w₁) = nvidia_driver_version cfg w in
      elim version [
        | err e ↦ (err e, w₁)
        | ok driver_version ↦ elim (ensure_version_recency driver_version cfg.min_driver_version) [
          | some e ↦ (err e, w₁)
          | none ↦
              let (count, w₂) = nvidia_gpu_count cfg w₁ in
              (
                elim count [
                  | err e ↦ err e
                  | ok n ↦ if eqb n 0 then err zero_gpus else ok (n, driver_version)
                ],
                w₂,
              )
        ]
      ]

  unfoldable pub nvidia_checks : Config → Call W NvidiaError (ℕ × Str)
  unfolding missing_file check_driver
  nvidia_checks cfg w =
      let (absent, w') =
        missing_file cfg (cfg.lib_cuda_path ∷ cfg.lib_nvml_path ∷ cfg.nvsmi_path ∷ []) w in
      elim absent [
        | some (path, resolved) ↦ (err (file_not_found path resolved), w')
        | none ↦ check_driver cfg w'
      ]
