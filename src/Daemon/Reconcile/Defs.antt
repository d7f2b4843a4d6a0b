-- ===== src/Daemon/Reconcile/Defs.antt =====
-- The reconciler's state and its methods: reconcile, ensureEnrolled, ensureLibthunder, ensurePlugin.
use thunder_device_plugin.Base.{
  ℕ, ◌+◌, Bool, true, false, not, ◌&&◌, ◌||◌, Option, none, some, List, [], ◌∷◌, ◌++◌, Str, Outcome,
  ok, err, Fault, Call, ◌==◌, text_eq, is_nil, ltb, eqb, if◌then◌else◌,
}
use thunder_device_plugin.Daemon.Config.{Config}
use thunder_device_plugin.Daemon.Status.{
  Node, ThunderStatus, StatusKey, enrolled, node_healthy, is_transitional, key,
  unreadable_status_key, get_thunder_status,
}
use thunder_device_plugin.Daemon.Zone.{
  ZoneApi, ZoneError, resolve_node_attributes, ensure_thunder_zone,
}
use thunder_device_plugin.Daemon.Reconcile.Setup.{
  Servers, SetupError, enroll, restart, unhealthy_reconcile_threshold, restart_repair_limit,
  transitional_reconcile_threshold,
}

-- How a LibthunderCache is set up.
pub record LibrarySource : Type 0 where
  pub dir : Str
  pub install_url : Str
  pub url : Str
  pub sha256 : Str
  pub artifact_base_url : Str

-- What the reconciler acts through. `ensure_library` is LibthunderCache.Ensure, and `start_plugin`
-- the field startPlugin.
pub record Environment (W : Type 0) : Type 0 where
  pub node : Node W
  pub zones : ZoneApi W
  pub servers : Servers W
  pub ensure_library : LibrarySource → Call W Fault Str
  pub start_plugin : Config → Str → W → Option Fault × W

pub record Reconciler : Type 0 where
  pub cfg : Config
  pub resolved : Config
  pub zone_id : Str
  pub plugin_started : Bool
  pub ever_healthy : Bool
  pub unhealthy : ℕ
  pub transitional : ℕ
  pub passes : ℕ
  pub libthunder_path : Str
  pub logged_status : StatusKey
  pub restarts : ℕ

pub data ReconcileError : Type 0 where
  zone_error : ZoneError → ReconcileError
  setup_error : SetupError → ReconcileError
  plugin_failed : Fault → ReconcileError

-- The lines that a pass logs, one constructor for each call of log.Printf.
pub data Line : Type 0 where
  node_attributes : Str → Str → Str → Line
  zone_resolved : Str → Str → Line
  status_unavailable : Fault → Line
  status_reported : ThunderStatus → Line
  thunderd_recovered : ℕ → ℕ → Line
  settling : ℕ → Line
  waiting : ℕ → ℕ → Line
  restarting : ℕ → ℕ → Line
  restart_failed : SetupError → Line
  enrolling : ℕ → Line
  library_not_cached : Fault → Line
  library_cached : Str → Line

-- What one method did: its result, the reconciler and the world after it, and the lines it logged.
pub record Pass (W : Type 0) : Type 0 where
  pub result : Outcome ReconcileError (Unit {0})
  pub state : Reconciler
  pub world : W
  pub lines : List Line

same_bool : Bool → Bool → Bool
same_bool true c = c
same_bool false c = not c

-- `key == r.loggedStatus`.
unfoldable pub same_key : StatusKey → StatusKey → Bool
unfolding same_bool
same_key a b =
    a.failure == b.failure
    && same_bool a.healthy b.healthy
    && same_bool a.local_api b.local_api
    && same_bool a.is_enrolled b.is_enrolled
    && a.active == b.active
    && a.sub_state == b.sub_state
    && eqb a.warnings b.warnings
    && eqb a.diagnostics b.diagnostics

abbrev pub key_of : Outcome Fault ThunderStatus → StatusKey
key_of (ok status) = key status
key_of (err fault) = unreadable_status_key fault

abbrev status_line : Outcome Fault ThunderStatus → Line
status_line (ok status) = status_reported status
status_line (err fault) = status_unavailable fault

-- A status is logged when it differs from the one that was logged last.
unfoldable pub log_status : Outcome Fault ThunderStatus → Reconciler → Reconciler × List Line
unfolding same_key
log_status seen r =
    if same_key (key_of seen) r.logged_status
    then (r, [])
    else (record r { logged_status = key_of seen }, status_line seen ∷ [])

-- The three tests that ensureEnrolled makes on `status` with `statusErr == nil`.
abbrev pub seen_healthy : Outcome Fault ThunderStatus → Bool
seen_healthy (ok status) = node_healthy status
seen_healthy (err fault) = false

abbrev pub seen_transitional : Outcome Fault ThunderStatus → Bool
seen_transitional (ok status) = is_transitional status
seen_transitional (err fault) = false

abbrev pub seen_enrolled : Outcome Fault ThunderStatus → Bool
seen_enrolled (ok status) = enrolled status
seen_enrolled (err fault) = false

-- Unhealthy checks before a repair: one for a node that never was healthy.
unfoldable pub repair_threshold : Reconciler → ℕ
repair_threshold r = if r.ever_healthy then unhealthy_reconcile_threshold else 1

module _ {W : Type 0} (env : Environment W) (cfg : Config) where
  -- The end of ensureEnrolled: install thunderd and enroll the node.
  unfoldable pub enroll_node : Reconciler → W → List Line → Pass W
  enroll_node r w lines =
      let (failed, w') = enroll env.node env.servers cfg r.zone_id w in
      let lines' = lines ++ (enrolling r.unhealthy ∷ []) in
      elim failed [
        | some e ↦ record { result = err (setup_error e); state = r; world = w'; lines = lines' }
        | none ↦ record {
          result = ok tt;
          state = record r { unhealthy = 0; transitional = 0; restarts = 0 };
          world = w';
          lines = lines';
        }
      ]

  -- The cheap repair; where it fails the node is enrolled instead.
  unfoldable pub restart_node : Reconciler → W → List Line → Pass W
  restart_node r w lines =
      let r' = record r { restarts = r.restarts + 1 } in
      let lines' = lines ++ (restarting r.unhealthy r'.restarts ∷ []) in
      let (failed, w') = restart env.node cfg w in
      elim failed [
        | some e ↦ enroll_node r' w' (lines' ++ (restart_failed e ∷ []))
        | none ↦ record {
          result = ok tt;
          state = record r' { unhealthy = 0; transitional = 0 };
          world = w';
          lines = lines';
        }
      ]

  -- ensureEnrolled once the status is read and logged.
  unfoldable pub act_on_status : Outcome Fault ThunderStatus → Reconciler → W → List Line → Pass W
  unfolding repair_threshold
  act_on_status seen r w lines =
      if seen_healthy seen
      then record {
        result = ok tt;
        state = record r { unhealthy = 0; transitional = 0; restarts = 0; ever_healthy = true };
        world = w;
        lines =
            if ltb 0 r.unhealthy || ltb 0 r.transitional
            then lines ++ (thunderd_recovered r.unhealthy r.transitional ∷ [])
            else lines;
      }
      else if seen_transitional seen && ltb r.transitional transitional_reconcile_threshold
      then record {
        result = ok tt;
        state = record r { transitional = r.transitional + 1 };
        world = w;
        lines = lines ++ (settling (r.transitional + 1) ∷ []);
      }
      else (let r' = record r { unhealthy = r.unhealthy + 1 } in
          if ltb r'.unhealthy (repair_threshold r')
          then record {
            result = ok tt;
            state = r';
            world = w;
            lines = lines ++ (waiting r'.unhealthy (repair_threshold r') ∷ []);
          }
          else if seen_enrolled seen && ltb r'.restarts restart_repair_limit
          then restart_node r' w lines
          else enroll_node r' w lines)

  unfoldable pub ensure_enrolled : Reconciler → W → Pass W
  ensure_enrolled r w =
      let (seen, w') = get_thunder_status env.node w in
      let (r', lines) = log_status seen r in act_on_status seen r' w' lines

  -- ensureLibthunder: a failure is logged, never returned.
  unfoldable pub ensure_libthunder : Reconciler → W → Reconciler × W × List Line
  ensure_libthunder r w =
      if not cfg.dra_enabled
      then (r, w, [])
      else (let (cached, w') =
            env.ensure_library
              (record {
                dir = cfg.kubelet_plugin_dir;
                install_url = cfg.thunder_install_url;
                url = cfg.libthunder_url;
                sha256 = cfg.libthunder_sha256;
                artifact_base_url = cfg.artifact_base_url;
              })
              w in
          elim cached [
            | err fault ↦ (r, w', library_not_cached fault ∷ [])
            | ok path ↦
                if path == r.libthunder_path
                then (r, w', [])
                else (record r { libthunder_path = path }, w', library_cached path ∷ [])
          ])

  -- ensurePlugin: started once.
  unfoldable pub ensure_plugin : Reconciler → W → List Line → Pass W
  ensure_plugin r w lines =
      if r.plugin_started
      then record { result = ok tt; state = r; world = w; lines = lines }
      else (let (failed, w') = env.start_plugin cfg r.zone_id w in
          elim failed [
            | some fault ↦ record {
              result = err (plugin_failed fault);
              state = r;
              world = w';
              lines = lines;
            }
            | none ↦ record {
              result = ok tt;
              state = record r { plugin_started = true };
              world = w';
              lines = lines;
            }
          ])

  -- reconcile from ensureEnrolled on.
  unfoldable pub serve : Reconciler → W → List Line → Pass W
  serve r w lines =
      let p = ensure_enrolled r w in
      elim p.result [
        | err e ↦ record p { lines = lines ++ p.lines }
        | ok _ ↦
            let (r', w', more) = ensure_libthunder p.state p.world in
            ensure_plugin r' w' (lines ++ p.lines ++ more)
      ]

  -- reconcile from the zone's ID on.
  unfoldable pub resolve_zone : Reconciler → W → List Line → Pass W
  resolve_zone r w lines =
      if not (is_nil r.zone_id)
      then serve r w lines
      else (let (resolved, w') = ensure_thunder_zone env.zones cfg.zone w in
          elim resolved [
            | err e ↦ record { result = err (zone_error e); state = r; world = w'; lines = lines }
            | ok zone_id ↦
                serve (record r { zone_id = zone_id }) w'
                  (lines ++ (zone_resolved cfg.zone zone_id ∷ []))
          ])

-- The attributes of this pass: a new zone invalidates the Thunder zone resolved for the old one.
unfoldable pub adopt : Reconciler → Config → Reconciler × List Line
adopt r cfg =
    let same_zone = r.resolved.zone == cfg.zone in
    let same_ip = r.resolved.advertised_ip == cfg.advertised_ip in
    let changed = eqb r.passes 0 || not same_zone || not same_ip in
    (
      record r {
        zone_id = if changed && not same_zone then [] else r.zone_id;
        resolved = cfg;
        passes = r.passes + 1;
      },
      if changed then node_attributes cfg.node cfg.zone cfg.advertised_ip ∷ [] else [],
    )

-- One pass.
unfoldable pub reconcile : {W : Type 0} → Environment W → Reconciler → W → Pass W
reconcile env r w =
    let (attributes, w') = resolve_node_attributes env.zones r.cfg w in
    elim attributes [
      | err e ↦ record { result = err (zone_error e); state = r; world = w'; lines = [] }
      | ok cfg ↦ let (r', lines) = adopt r cfg in resolve_zone env cfg r' w' lines
    ]
