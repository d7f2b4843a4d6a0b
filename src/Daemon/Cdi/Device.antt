-- ===== src/Daemon/Cdi/Device.antt =====
-- FileCDIDeviceStore: Create, Remove and StagedClientID on the files of the node.
use thunder_device_plugin.Base.{
  ◌||◌, Option, none, some, List, [], ◌∷◌, ◌++◌, Str, codes, Assoc, Outcome, ok, err, Fault, other,
  is_not_found, Call, eqb, is_blank, is_nil, trim_space, if◌then◌else◌,
}
use thunder_device_plugin.Base.Paths.{join_paths}
use thunder_device_plugin.Base.FileNames.{after_last}
use thunder_device_plugin.Daemon.Driver.{Allocation, CdiDeviceStore}
use thunder_device_plugin.Daemon.Clients.Object.{thunder_client_name}
use thunder_device_plugin.Daemon.Hook.Files.{Files, lock_path, lock_state_dir}
use thunder_device_plugin.Daemon.Hook.Exchange.{Codec}
use thunder_device_plugin.Daemon.Hook.Stage.{token_file, config_file}
use thunder_device_plugin.Daemon.Cdi.Hooks.{
  FileCdiDeviceStore, CdiHook, resolved_spec_dir, resolved_kind, device_state_dir, hooks,
}
use thunder_device_plugin.Daemon.Cdi.Env.{Mount, container_env, mounts}

-- The CDI specification of one device.
pub record CdiSpec : Type 0 where
  pub cdi_version : Str
  pub kind : Str
  pub device_name : Str
  pub env : List Str
  pub mounts : List Mount
  pub hooks : List CdiHook

unfoldable pub cdi_device_name : Str → Str
cdi_device_name claim_uid = thunder_client_name claim_uid

-- strings.NewReplacer("/", "-", "=", "-", ":", "-", ".", "-").
unfoldable pub dashed : Str → Str
dashed [] = []
dashed (c ∷ s) =
    (if eqb c b'/' || eqb c b'=' || eqb c b':' || eqb c b'.' then b'-' else c) ∷ dashed s

-- What stands behind the last "=", if anything does.
unfoldable pub cdi_device_name_from_qualified_name : Str → Str
unfolding dashed
cdi_device_name_from_qualified_name qualified_name = elim (after_last b'=' qualified_name) [
  | none ↦ dashed qualified_name
  | some name ↦ if is_nil name then dashed qualified_name else name
]

module _ (s : FileCdiDeviceStore) where
  unfoldable pub spec_file : Str → Str
  spec_file qualified_name = dashed qualified_name ++ codes ".json"

  unfoldable pub spec_path : Str → Str
  unfolding spec_file
  spec_path qualified_name = join_paths (resolved_spec_dir s ∷ spec_file qualified_name ∷ [])

  unfoldable pub device_token_path : Str → Str
  device_token_path device_name = join_paths (device_state_dir s device_name ∷ token_file ∷ [])

  unfoldable pub qualified : Allocation → Str
  unfolding cdi_device_name
  qualified allocation = resolved_kind s ++ b'=' ∷ cdi_device_name allocation.claim_uid

  -- The specification of a claim, for the order in which the map of its hook's flags is read.
  unfoldable pub spec_of : Assoc Str Str → Allocation → Str → CdiSpec
  unfolding qualified cdi_device_name
  spec_of flags allocation token =
      let device_name = cdi_device_name allocation.claim_uid in
      record {
        cdi_version = codes "0.6.0";
        kind = resolved_kind s;
        device_name = device_name;
        env = container_env s (qualified allocation) allocation token;
        mounts = mounts s;
        hooks = hooks s flags device_name;
      }

-- json.MarshalIndent on a specification.
abbrev pub Marshal : Type 0
Marshal = CdiSpec → Outcome Fault Str

module _ {W : Type 0} (files : Files W) (s : FileCdiDeviceStore) where
  -- Create from the encoding of the specification on.
  unfoldable pub write_spec : Marshal → CdiSpec → Str → W → Option Fault × W
  write_spec marshal spec path w = elim (marshal spec) [
    | err fault ↦ (some fault, w)
    | ok encoded ↦
        let temp = path ++ codes ".tmp" in
        let (unmade, w₁) = files.mkdir_all (resolved_spec_dir s) w in
        let (unwritten, w₂) = files.write_file temp (encoded ++ 10 ∷ []) w₁ in
        let (unrenamed, w₃) = files.rename temp path w₂ in
        let (ignored, w₄) = files.remove temp w₃ in
        elim unmade [
          | some fault ↦ (some fault, w₁)
          | none ↦ elim unwritten [
            | some fault ↦ (some fault, w₂)
            | none ↦ elim unrenamed [ some fault ↦ (some fault, w₄) | none ↦ (none, w₃) ]
          ]
        ]
  ]

  -- The state directory goes when the device could not be made.
  unfoldable pub unless_failed : Str → Str → Option Fault × W → Outcome Fault Str × W
  unless_failed dir name (failed, w) =
      let (ignored, w') = files.remove_all dir w in
      elim failed [ some fault ↦ (err fault, w') | none ↦ (ok name, w) ]

  unfoldable pub create : Marshal → Assoc Str Str → Allocation → Str → Call W Fault Str
  unfolding write_spec unless_failed qualified spec_path device_token_path
  create marshal flags allocation token w =
      let device_name = cdi_device_name allocation.claim_uid in
      let dir = device_state_dir s device_name in
      let (unmade, w₁) = files.mkdir_all dir w in
      let (unstaged, w₂) =
        files.write_file (device_token_path s device_name) (token ++ 10 ∷ []) w₁ in
      let written =
        write_spec marshal (spec_of s flags allocation token) (spec_path s (qualified s allocation))
          w₂ in
      if is_blank s.client_install_command
      then (err (other (codes "client install command is required")), w)
      else if is_blank token
      then (err (other (codes "client enrollment token is required")), w)
      else elim unmade [
        | some fault ↦ (err fault, w₁)
        | none ↦
            unless_failed dir (qualified s allocation)
              (elim unstaged [ some fault ↦ (some fault, w₂) | none ↦ written ])
      ]

  -- The client that the hook enrolled for the device, "" if none.
  unfoldable pub staged_client_id : Codec → Str → W → Str × W
  staged_client_id codec qualified_name w =
      let device_name = cdi_device_name_from_qualified_name qualified_name in
      let (read, w') =
        files.read_file (join_paths (device_state_dir s device_name ∷ config_file ∷ [])) w in
      if is_blank qualified_name then ([], w) else elim read [
        | err fault ↦ ([], w')
        | ok content ↦ elim (codec.decode_config content) [
          | err e ↦ ([], w')
          | ok config ↦ (trim_space config.client_id, w')
        ]
      ]

  -- Remove past the lock.
  unfoldable pub remove_files : Str → Str → W → Option Fault × W
  unfolding spec_path
  remove_files qualified_name dir w =
      let (kept, w₁) = files.remove (spec_path s qualified_name) w in
      let (left, w₂) = files.remove_all dir w₁ in
      let rest : Option Fault × W = (
        elim left [ none ↦ none | some fault ↦ if is_not_found fault then none else some fault ],
        w₂,
      ) in
      elim kept [ none ↦ rest | some fault ↦ if is_not_found fault then rest else (some fault, w₁) ]

  -- Remove waits for the hook of the claim, if the lock can be had, and unlocks on every return.
  unfoldable pub remove : Str → W → Option Fault × W
  unfolding remove_files
  remove qualified_name w =
      let dir = device_state_dir s (cdi_device_name_from_qualified_name qualified_name) in
      let (unlocked, w₁) = lock_state_dir files dir w in
      let (failed, w₂) = remove_files qualified_name dir w₁ in
      let (ignored, w₃) = files.unlock (lock_path files dir) w₂ in
      if is_blank qualified_name
      then (none, w)
      else elim unlocked [ some fault ↦ (failed, w₂) | none ↦ (failed, w₃) ]

  -- The store as the driver takes it.
  abbrev pub as_cdi_store : Marshal → Codec → (Allocation → Assoc Str Str) → CdiDeviceStore W
  as_cdi_store marshal codec flags = record {
    create = λ allocation token w. create marshal (flags allocation) allocation token w;
    remove = remove;
    staged_client_id = staged_client_id codec;
    client_install_command = some s.client_install_command;
  }
