-- ===== src/Daemon/Reconcile/Setup.antt =====
-- The commands that repair a node: `thunder up` for one that is enrolled, the installer for one that
-- is not. Also the constants of reconcile.go.
use thunder_device_plugin.Base.{
  ℕ, Option, none, some, [], ◌∷◌, ◌++◌, Str, Outcome, ok, err, Fault, Call, codes, is_nil, join,
  cut_text, replace_char, if◌then◌else◌,
}
use thunder_device_plugin.Daemon.Config.{Config}
use thunder_device_plugin.Daemon.Status.{Node}
use thunder_device_plugin.Daemon.Nvidia.{NvidiaError, nvidia_checks}

abbrev pub unhealthy_reconcile_threshold : ℕ
unhealthy_reconcile_threshold = 3

abbrev pub restart_repair_limit : ℕ
restart_repair_limit = 2

abbrev pub transitional_reconcile_threshold : ℕ
transitional_reconcile_threshold = 30

pub record ServerEnrollment : Type 0 where
  pub enrollment_token : Str
  pub enrollment_token_id : Str

-- The request of the SDK's ServerEnrollmentCommand.
pub record CommandRequest : Type 0 where
  pub token : Str
  pub ip : Str
  pub zone : Str
  pub port_range : Str
  pub server_name : Str

-- The Thunder SDK's calls for servers.
pub record Servers (W : Type 0) : Type 0 where
  pub create_server_enrollment : Str → Call W Fault ServerEnrollment
  pub server_enrollment_command : CommandRequest → Str

pub data SetupError : Type 0 where
  nvidia : NvidiaError → SetupError
  -- "create thunder node enrollment", "run thunder node setup", "run thunder up"
  enrollment_failed installer_failed up_failed : Fault → SetupError
  -- "thunder node setup command is not in the expected form"
  unexpected_command : SetupError

-- shellQuote of internal/daemon/store.go.
unfoldable pub shell_quote : Str → Str
shell_quote value =
    if is_nil value
    then codes "''"
    else codes "'" ++ (replace_char b'\'' (codes "'\"'\"'") value ++ codes "'")

abbrev pub thunderd_transient_env : Str
thunderd_transient_env = codes "THUNDERD_TRANSIENT=1"

abbrev pub sudo : Str
sudo = codes "| sudo "

unfoldable pub with_transient_thunderd : Str → Outcome SetupError Str
with_transient_thunderd command = elim (cut_text sudo command) [
  | none ↦ err unexpected_command
  | some (before, after) ↦ ok (before ++ (sudo ++ (thunderd_transient_env ++ (codes " " ++ after))))
]

-- The command line of `restart`.
unfoldable pub up_command : Config → Str
unfolding shell_quote
up_command cfg = join (codes " ") (
    thunderd_transient_env
    ∷ codes "thunder"
    ∷ codes "up"
    ∷ codes "--ip"
    ∷ shell_quote cfg.advertised_ip
    ∷ codes "--zone"
    ∷ shell_quote cfg.zone
    ∷ codes "--node-name"
    ∷ shell_quote cfg.node
    ∷ [])

module _ {W : Type 0} (node : Node W) where
  unfoldable pub restart : Config → W → Option SetupError × W
  unfolding up_command
  restart cfg w =
      let (failed, w') = node.run_shell (codes "thunder up") (up_command cfg) w in
      (elim failed [ none ↦ none | some fault ↦ some (up_failed fault) ], w')

module _ {W : Type 0} (node : Node W) (servers : Servers W) where
  -- `enroll` once the token is minted: build the installer's command and run it.
  unfoldable pub run_installer : Config → ServerEnrollment → W → Option SetupError × W
  unfolding with_transient_thunderd
  run_installer cfg minted w =
      elim (with_transient_thunderd (
        servers.server_enrollment_command (record {
          token = minted.enrollment_token;
          ip = cfg.advertised_ip;
          zone = cfg.zone;
          port_range = cfg.port_range;
          server_name = cfg.node;
        }))) [
          | err e ↦ (some e, w)
          | ok command ↦
              let (failed, w') = node.run_shell (codes "thunder installer") command w in
              (elim failed [ none ↦ none | some fault ↦ some (installer_failed fault) ], w')
        ]

  -- `enroll`, with the zone's ID that the reconciler holds.
  unfoldable pub enroll : Config → Str → W → Option SetupError × W
  unfolding run_installer
  enroll cfg zone_id w =
      let (checked, w₁) = nvidia_checks node cfg w in
      elim checked [
        | err e ↦ (some (nvidia e), w₁)
        | ok gpus ↦
            let (minted, w₂) = servers.create_server_enrollment zone_id w₁ in
            elim minted [
              | err fault ↦ (some (enrollment_failed fault), w₂)
              | ok token ↦ run_installer cfg token w₂
            ]
      ]
