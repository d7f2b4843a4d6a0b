-- ===== src/Daemon/Reconcile/Tests.antt =====
-- The reconciler on a node that is up or down, and whose commands succeed.
use thunder_device_plugin.Base.{
  ℕ, zero, suc, if◌then◌else◌, ◌+◌, ◌*◌, ◌^◌, ◌≤◌, min, ◌≡◌, ◌≢◌, ◌⊎◌, refl, Bool, true, false,
  Option, none, some, List, [], ◌∷◌, Str, codes, Outcome, ok, err, Fault, other, arith, ◌==◌,
  text_eq,
}
use thunder_device_plugin.Daemon.Config.{Config}
use thunder_device_plugin.Daemon.Status.{Node, ThunderStatus, StatusKey, get_thunder_status}
use thunder_device_plugin.Daemon.Zone.{resolve_node_attributes, ensure_thunder_zone}
use thunder_device_plugin.Daemon.Reconcile.Setup.{SetupError, restart}
use thunder_device_plugin.Daemon.Reconcile.Defs.{
  Environment, Reconciler, seen_healthy, ensure_enrolled, reconcile,
}
use thunder_device_plugin.Daemon.Reconcile.Backoff.{reconcile_backoff, reconcile_backoff_lem}
use thunder_device_plugin.Daemon.Reconcile.Repair.{
  IsValid, Unrepaired, none_yet, one_more, ensure_enrolled-IsValid, repair_within,
}
use thunder_device_plugin.Daemon.Reconcile.Installs.{Counts}
use thunder_device_plugin.Daemon.Reconcile.Justified.{Justified, ensure_enrolled_justified}
use thunder_device_plugin.Daemon.Reconcile.Passes.{StartedWith, reconcile_settles}

-- How often the installer was run; thunderd is up once it was.
abbrev World : Type 0
World = ℕ

abbrev status : Bool → ThunderStatus
status well = record {
  service = record { service = []; active = []; enabled = []; load = []; sub_state = [] };
  local_api_healthy = well;
  local_api_error = [];
  env_path = [];
  auth_token_configured = well;
  config_error = [];
  healthy = well;
  warnings = [];
  diagnostics = [];
  recent_logs = [];
}

abbrev printed : World → Str
printed zero = []
printed (suc w) = b'u' ∷ []

-- The status of the node, and "5" from nvidia-smi: the version of the driver, and one GPU.
abbrev output : Str → World → Str
output name w = if name == codes "thunder" then printed w else b'5' ∷ []

abbrev read_status : Str → Outcome Fault ThunderStatus
read_status [] = ok (status false)
read_status (c ∷ s) = ok (status true)

abbrev environment : Environment World
environment = record {
  node = record {
    combined_output = λ name args w. ((output name w, none), w);
    run_shell = λ name command w. (none, if name == codes "thunder installer" then suc w else w);
    decode_status = read_status;
    file_exists = λ path w. (true, w);
  };
  zones = record {
    read_node = λ name w. (err (other []), w);
    list_zones = λ w. (ok (record { zone_id = b'1' ∷ []; display_name = b'z' ∷ [] } ∷ []), w);
    create_zone = λ name w. (none, w);
  };
  servers = record {
    create_server_enrollment = λ zone w.
        (ok (record { enrollment_token = b't' ∷ []; enrollment_token_id = b'i' ∷ [] }), w);
    server_enrollment_command = λ request. codes "curl | sudo sh";
  };
  ensure_library = λ source w. (err (other []), w);
  start_plugin = λ cfg zone w. (none, w);
}

abbrev config : Config
config = record {
  node = b'n' ∷ [];
  zone = b'z' ∷ [];
  advertised_ip = b'1' ∷ [];
  min_driver_version = b'1' ∷ [];
  port_range = [];
  thunder_api_url = [];
  thunder_api_token = [];
  host_root = [];
  lib_cuda_path = [];
  lib_nvml_path = [];
  nvsmi_path = [];
  zone_label = [];
  advertised_ip_label = [];
  host_target_pid = [];
  dra_enabled = true;
  dra_driver_name = [];
  cdi_spec_dir = [];
  thunder_client_ns = [];
  kubelet_plugin_dir = [];
  kubelet_registrar_dir = [];
  thunder_install_url = [];
  thunder_telemetry_url = [];
  artifact_base_url = [];
  libthunder_url = [];
  libthunder_sha256 = [];
  ca_bundle_path = [];
  thunderd_log_unit = [];
}

abbrev no_key : StatusKey
no_key = record {
  failure = [];
  healthy = false;
  local_api = false;
  is_enrolled = false;
  active = [];
  sub_state = [];
  warnings = 0;
  diagnostics = 0;
}

-- A reconciler before its first pass.
abbrev fresh : Reconciler
fresh = record {
  cfg = config;
  resolved = record config { zone = [] };
  zone_id = [];
  plugin_started = false;
  ever_healthy = false;
  unhealthy = 0;
  transitional = 0;
  passes = 0;
  libthunder_path = [];
  logged_status = no_key;
  restarts = 0;
}

-- One whose node was healthy before.
abbrev seasoned : Reconciler
seasoned = record fresh { ever_healthy = true; plugin_started = true }

fresh-IsValid : IsValid fresh
fresh-IsValid = record { restarts_limited = omega arith; transitional_limited = omega arith }

seasoned-IsValid : IsValid seasoned
seasoned-IsValid = record { restarts_limited = omega arith; transitional_limited = omega arith }

is_down : seen_healthy (get_thunder_status environment.node 0).0 ≡ false
unfolding get_thunder_status thunder_device_plugin.Daemon.Status.node_healthy
    thunder_device_plugin.Base.str_eq codes
is_down = refl

-- Only the installer counts.
counts : Counts environment.node environment.servers (λ w. w)
unfolding codes thunder_device_plugin.Base.str_eq
counts = record {
  read_keeps = λ name args w. refl;
  stat_keeps = λ path w. refl;
  up_keeps = λ command w. refl;
  mint_keeps = λ zone_id w. refl;
  install_counts = λ command w. refl;
}

reinstalls : (ensure_enrolled environment config fresh 0).world ≡ 1
unfolding ensure_enrolled thunder_device_plugin.Daemon.Reconcile.Defs.act_on_status
    get_thunder_status thunder_device_plugin.Daemon.Status.node_healthy
    thunder_device_plugin.Daemon.Status.is_transitional thunder_device_plugin.Base.str_eq
    thunder_device_plugin.Base.trim_space codes
    thunder_device_plugin.Daemon.Reconcile.Defs.log_status thunder_device_plugin.Daemon.Status.key
    thunder_device_plugin.Daemon.Reconcile.Defs.enroll_node
    thunder_device_plugin.Daemon.Reconcile.Setup.enroll
    thunder_device_plugin.Daemon.Nvidia.nvidia_checks thunder_device_plugin.Base.split
    thunder_device_plugin.Daemon.Nvidia.ensure_version_recency thunder_device_plugin.Base.Atoi.atoi
    thunder_device_plugin.Base.cut_text
reinstalls = refl

waits : let p = ensure_enrolled environment config seasoned 0 in (p.result ≡ ok tt) × (p.world ≡ 0)
unfolding ensure_enrolled thunder_device_plugin.Daemon.Reconcile.Defs.act_on_status
    get_thunder_status thunder_device_plugin.Daemon.Status.node_healthy
    thunder_device_plugin.Daemon.Status.is_transitional thunder_device_plugin.Base.str_eq
    thunder_device_plugin.Base.trim_space codes
    thunder_device_plugin.Daemon.Reconcile.Defs.log_status thunder_device_plugin.Daemon.Status.key
waits = (refl, refl)

settled : (reconcile environment fresh 1).result ≡ ok tt
unfolding reconcile resolve_node_attributes thunder_device_plugin.Daemon.Reconcile.Defs.resolve_zone
    thunder_device_plugin.Daemon.Reconcile.Defs.adopt thunder_device_plugin.Base.str_eq
    ensure_thunder_zone thunder_device_plugin.Daemon.Reconcile.Defs.serve ensure_enrolled
    thunder_device_plugin.Daemon.Reconcile.Defs.act_on_status get_thunder_status
    thunder_device_plugin.Daemon.Status.node_healthy
    thunder_device_plugin.Daemon.Reconcile.Defs.ensure_plugin
    thunder_device_plugin.Daemon.Reconcile.Defs.ensure_libthunder
    thunder_device_plugin.Daemon.Reconcile.Defs.log_status thunder_device_plugin.Daemon.Status.key
    codes
settled = refl

ensure_enrolled-IsValid_example : IsValid (ensure_enrolled environment config fresh 0).state
ensure_enrolled-IsValid_example = ensure_enrolled-IsValid environment config fresh 0 fresh-IsValid

one_pass : Unrepaired environment config counts 1 seasoned 0
one_pass =
    one_more {r' = (ensure_enrolled environment config seasoned 0).state} is_down waits.0 waits.1
      (record {
        same_restarts = refl;
        same_transitional = refl;
        same_unhealthy = refl;
        same_history = refl;
      })
      (none_yet {w = 0})

repair_within_example : 1 ≤ 98
repair_within_example = repair_within environment config counts one_pass seasoned-IsValid

was_installed : (ensure_enrolled environment config fresh 0).world ≢ 0
was_installed same = absurd (omega (arith, reinstalls, same))

ensure_enrolled_justified_example : Justified (get_thunder_status environment.node 0).0 fresh (
    (e : SetupError) × ((restart environment.node config
        (get_thunder_status environment.node 0).1).0
      ≡ some e))
ensure_enrolled_justified_example =
    ensure_enrolled_justified environment config counts fresh 0 was_installed

reconcile_settles_example :
    let p = reconcile environment fresh 1 in
    let state = p.state in
    let (attributes, w) = resolve_node_attributes environment.zones fresh.cfg 1 in
    (state.plugin_started ≡ true)
    × (attributes ≡ ok state.resolved)
    × (state.passes ≡ fresh.passes + 1)
    × ((((fresh.resolved.zone ≢ state.resolved.zone) ⊎ (fresh.zone_id ≡ []))
          × ((ensure_thunder_zone environment.zones state.resolved.zone w).0 ≡ ok state.zone_id))
        ⊎ ((fresh.resolved.zone ≡ state.resolved.zone)
            × (fresh.zone_id ≢ [])
            × (state.zone_id ≡ fresh.zone_id)))
    × (fresh.plugin_started ≡ false → StartedWith environment state.resolved p state.zone_id)
reconcile_settles_example = reconcile_settles environment fresh 1 settled

-- After four failures in a row the wait of 5 s has become 40 s.
reconcile_backoff_lem_example : reconcile_backoff 5 300 4 ≡ min (5 * 2 ^ 3) 300
reconcile_backoff_lem_example = reconcile_backoff_lem 5 300 4 (omega arith) (omega arith)
