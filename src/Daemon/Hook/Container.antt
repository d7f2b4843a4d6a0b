-- ===== src/Daemon/Hook/Container.antt =====
-- internal/daemon/cdihook.go: the client is staged into the container that is being created.
use thunder_device_plugin.Base.{
  Bool, Option, none, some, [], ◌∷◌, ◌++◌, Str, codes, Outcome, ok, err, Fault, Call, is_blank,
  is_nil, trim_space, if◌then◌else◌,
}
use thunder_device_plugin.Base.Paths.{join_paths}
use thunder_device_plugin.Daemon.Cdi.Options.{CdiHookOptions}
use thunder_device_plugin.Daemon.Hook.Files.{
  readable, executable, Files, dir_name, lock_path, lock_state_dir, copy_file, write_file_atomic,
}
use thunder_device_plugin.Daemon.Hook.Exchange.{ThunderClientConfig, Codec}
use thunder_device_plugin.Daemon.Hook.Stage.{Node, HookError, config_file, client_config_for_claim}

pub record OciState : Type 0 where
  pub id : Str
  pub bundle : Str
  pub rootfs : Str

-- What the hook is run with: the runtime's state on its standard input, if it has one, and its JSON;
-- os.Stat, which says whether it found a directory, os.Lstat, os.Executable; and LibthunderCache.Ensure,
-- which gives the path of the library.
pub record Host (W : Type 0) : Type 0 where
  pub stdin : Option (Call W Fault Str)
  pub decode_state : Str → Outcome Str OciState
  pub stat : Str → Call W Fault Bool
  pub lstat : Str → W → Option Fault × W
  pub executable : Call W Fault Str
  pub ensure_library : CdiHookOptions → Call W Fault Str

pub data StageError : Type 0 where
  no_state : StageError
  state_unreadable : Fault → StageError
  state_undecodable : Str → StageError
  rootfs_unnamed : StageError
  rootfs_missing : Fault → StageError
  rootfs_not_directory : StageError
  not_locked : Fault → StageError
  library_missing : Fault → StageError
  not_enrolled : HookError → StageError
  not_staged : Fault → StageError
  not_encoded : Str → StageError
  plugin_dir_required : StageError
  daemon_unlocated : Fault → StageError

-- The filesystem that the state names: outright, or in the bundle.
unfoldable pub rootfs_of : OciState → Option Str
rootfs_of state =
    let rootfs = trim_space state.rootfs in
    if is_nil rootfs
    then (if is_blank state.bundle
        then none
        else some (join_paths (state.bundle ∷ codes "rootfs" ∷ [])))
    else some rootfs

-- "/etc/ssl/certs", and the file of the CA certificates in it.
abbrev pub certs_dir : Str
certs_dir = codes "/etc/ssl/certs"

abbrev pub certs_file : Str
certs_file = codes "ca-certificates.crt"

abbrev pub default_ca_bundle_path : Str
default_ca_bundle_path = certs_dir ++ b'/' ∷ certs_file

unfoldable pub guest_dir : Str → Str
guest_dir rootfs = join_paths (rootfs ∷ codes "/etc/thunder" ∷ [])

unfoldable pub guest_config_path : Str → Str
unfolding guest_dir
guest_config_path rootfs = join_paths (guest_dir rootfs ∷ config_file ∷ [])

unfoldable pub guest_certs_path : Str → Str
guest_certs_path rootfs = join_paths (rootfs ∷ default_ca_bundle_path ∷ [])

module _ {W : Type 0} (host : Host W) where
  unfoldable pub stat_rootfs : Str → Call W StageError Str
  stat_rootfs rootfs w =
      let (found, w') = host.stat rootfs w in
      (
        elim found [
          | err fault ↦ err (rootfs_missing fault)
          | ok is_dir ↦ if is_dir then ok rootfs else err rootfs_not_directory
        ],
        w',
      )

  unfoldable pub read_oci_rootfs : Call W StageError Str
  unfolding stat_rootfs rootfs_of
  read_oci_rootfs w = elim host.stdin [
    | none ↦ (err no_state, w)
    | some stdin ↦
        let (read, w₁) = stdin w in
        elim read [
          | err fault ↦ (err (state_unreadable fault), w₁)
          | ok raw ↦ elim (host.decode_state raw) [
            | err e ↦ (err (state_undecodable e), w₁)
            | ok state ↦ elim (rootfs_of state) [
              | none ↦ (err rootfs_unnamed, w₁)
              | some rootfs ↦ stat_rootfs rootfs w₁
            ]
          ]
        ]
  ]

module _ {W : Type 0} (files : Files W) (host : Host W) where
  -- Best effort: what fails is only logged.
  unfoldable pub stage_ca_bundle : Str → Str → W → W
  unfolding guest_certs_path
  stage_ca_bundle rootfs given w =
      let source = if is_blank given then default_ca_bundle_path else given in
      let target = guest_certs_path rootfs in
      let (absent, w₁) = host.lstat target w in
      let (found, w₂) = host.stat source w₁ in
      let (unmade, w₃) = files.mkdir_all (dir_name target) w₂ in
      let (uncopied, w₄) = copy_file files source target readable w₃ in
      elim absent [
        | none ↦ w₁
        | some fault ↦ elim found [
          | err fault' ↦ w₂
          | ok is_dir ↦ elim unmade [ some fault' ↦ w₃ | none ↦ w₄ ]
        ]
      ]

  -- stageThunderClient from the encoding of the configuration on.
  unfoldable pub stage_config : Codec → ThunderClientConfig → Str → Str → W → Option StageError × W
  unfolding stage_ca_bundle guest_config_path
  stage_config codec config rootfs ca_bundle_path w = elim (codec.encode_config config) [
    | err e ↦ (some (not_encoded e), w)
    | ok encoded ↦
        let (unwritten, w₁) =
          write_file_atomic files (guest_config_path rootfs) (encoded ++ 10 ∷ []) readable w in
        elim unwritten [
          | some fault ↦ (some (not_staged fault), w₁)
          | none ↦ (none, stage_ca_bundle rootfs ca_bundle_path w₁)
        ]
  ]

  unfoldable pub stage_thunder_client :
      Codec → Str → Str → ThunderClientConfig → Str → W → Option StageError × W
  unfolding stage_config guest_dir
  stage_thunder_client codec rootfs library_path config ca_bundle_path w =
      let (unmade, w₁) = files.mkdir_all (guest_dir rootfs) w in
      let (uncopied, w₂) =
        copy_file files library_path (join_paths (guest_dir rootfs ∷ codes "libthunder.so" ∷ []))
          executable w₁ in
      elim unmade [
        | some fault ↦ (some (not_staged fault), w₁)
        | none ↦ elim uncopied [
          | some fault ↦ (some (not_staged fault), w₂)
          | none ↦ stage_config codec config rootfs ca_bundle_path w₂
        ]
      ]

  unfoldable pub stage_hook_binary : Str → Call W StageError Str
  stage_hook_binary plugin_dir w =
      let target = join_paths (plugin_dir ∷ codes "bin" ∷ codes "thunder-cdi-hook" ∷ []) in
      let (self, w₁) = host.executable w in
      if is_blank plugin_dir then (err plugin_dir_required, w) else elim self [
        | err fault ↦ (err (daemon_unlocated fault), w₁)
        | ok binary ↦
            let (unmade, w₂) = files.mkdir_all (dir_name target) w₁ in
            let (uncopied, w₃) = copy_file files binary target executable w₂ in
            elim unmade [
              | some fault ↦ (err (not_staged fault), w₂)
              | none ↦ elim uncopied [
                | some fault ↦ (err (not_staged fault), w₃)
                | none ↦ (ok target, w₃)
              ]
            ]
      ]

module _ (codec : Codec) {W : Type 0} (node : Node W) (host : Host W) (opts : CdiHookOptions) where
  -- RunCDIHook with the lock of the claim held.
  unfoldable pub stage_locked : Str → W → Option StageError × W
  unfolding stage_thunder_client
  stage_locked rootfs w =
      let (library, w₁) = host.ensure_library opts w in
      let (config, w₂) = client_config_for_claim codec node opts w₁ in
      elim library [
        | err fault ↦ (some (library_missing fault), w₁)
        | ok library_path ↦ elim config [
          | err e ↦ (some (not_enrolled e), w₂)
          | ok client ↦
              stage_thunder_client node.files host codec rootfs library_path client
                opts.ca_bundle_path w₂
        ]
      ]

  unfoldable pub run_cdi_hook : W → Option StageError × W
  unfolding stage_locked read_oci_rootfs
  run_cdi_hook w =
      let (root, w₁) = read_oci_rootfs host w in
      elim root [
        | err e ↦ (some e, w₁)
        | ok rootfs ↦
            let (unlocked, w₂) = lock_state_dir node.files opts.state_dir w₁ in
            let (failed, w₃) = stage_locked rootfs w₂ in
            let (ignored, w₄) = node.files.unlock (lock_path node.files opts.state_dir) w₃ in
            elim unlocked [ some fault ↦ (some (not_locked fault), w₂) | none ↦ (failed, w₄) ]
      ]
