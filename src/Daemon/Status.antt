-- ===== src/Daemon/Status.antt =====
-- internal/daemon/status.go: what `thunder status --json` reports, and what the daemon reads in it.
use thunder_device_plugin.Base.{
  ℕ, Bool, true, false, ◌&&◌, ◌||◌, Option, none, some, List, [], ◌∷◌, Str, Outcome, ok, err, Fault,
  ◌==◌, text_eq, codes, trim_space, length, Call, if◌then◌else◌,
}

pub record Diagnostic : Type 0 where
  pub severity : Str
  pub message : Str
  pub action : Str

pub record Service : Type 0 where
  pub service : Str
  pub active : Str
  pub enabled : Str
  pub load : Str
  pub sub_state : Str

pub record ThunderStatus : Type 0 where
  pub service : Service
  pub local_api_healthy : Bool
  pub local_api_error : Str
  pub env_path : Str
  pub auth_token_configured : Bool
  pub config_error : Str
  pub healthy : Bool
  pub warnings : List Str
  pub diagnostics : List Diagnostic
  pub recent_logs : List Str

-- The node already holds a Thunder auth token.
unfoldable pub enrolled : ThunderStatus → Bool
enrolled s = s.auth_token_configured

-- The local API answers and the auth token is there, or `thunder status` says so itself.
unfoldable pub node_healthy : ThunderStatus → Bool
unfolding enrolled
node_healthy s = if s.healthy then true else s.local_api_healthy && enrolled s

-- A status reduced to what its log line depends on.
pub record StatusKey : Type 0 where
  pub failure : Str
  pub healthy : Bool
  pub local_api : Bool
  pub is_enrolled : Bool
  pub active : Str
  pub sub_state : Str
  pub warnings : ℕ
  pub diagnostics : ℕ

unfoldable pub key : ThunderStatus → StatusKey
unfolding node_healthy enrolled
key s = record {
  failure = [];
  healthy = node_healthy s;
  local_api = s.local_api_healthy;
  is_enrolled = enrolled s;
  active = s.service.active;
  sub_state = s.service.sub_state;
  warnings = length s.warnings;
  diagnostics = length s.diagnostics;
}

-- The message of an error, as `err.Error()` gives it.
abbrev pub message : Fault → Str
message Fault.not_found = codes "not found"
message Fault.conflict = codes "conflict"
message Fault.already_exists = codes "already exists"
message Fault.gone = codes "gone"
message (Fault.other text) = text

unfoldable pub unreadable_status_key : Fault → StatusKey
unreadable_status_key fault = record {
  failure = message fault;
  healthy = false;
  local_api = false;
  is_enrolled = false;
  active = [];
  sub_state = [];
  warnings = 0;
  diagnostics = 0;
}

-- systemd states that thunderd is moving through.
unfoldable pub is_transitional : ThunderStatus → Bool
is_transitional s =
    let active = trim_space s.service.active in
    active == codes "activating" || active == codes "deactivating" || active == codes "reloading"

-- What the daemon runs on the node (commandRunner of internal/daemon/runner.go) and how it reads a
-- status. `decode_status` is encoding/json on the fields above.
pub record Node (W : Type 0) : Type 0 where
  pub combined_output : Str → List Str → W → (Str × Option Fault) × W
  pub run_shell : Str → Str → W → Option Fault × W
  pub decode_status : Str → Outcome Fault ThunderStatus
  pub file_exists : Str → W → Bool × W

-- getThunderStatus: output that decodes is a status, whatever the command's exit status was.
unfoldable pub get_thunder_status : {W : Type 0} → Node W → Call W Fault ThunderStatus
get_thunder_status node w =
    let ((output, command_error), w') =
      node.combined_output (codes "thunder") (codes "status" ∷ codes "--json" ∷ []) w in
    elim (node.decode_status output) [
      | ok status ↦ (ok status, w')
      | err decode_error ↦ elim command_error [
        | some run_error ↦ (err run_error, w')
        | none ↦ (err decode_error, w')
      ]
    ]
