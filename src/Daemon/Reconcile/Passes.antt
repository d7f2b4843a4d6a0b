-- ===== src/Daemon/Reconcile/Passes.antt =====
-- reconcile, and the methods that it calls: the plugin, the zone and the configuration.
use thunder_device_plugin.Base.{
  ◌+◌, ◌≡◌, ◌⊎◌, refl, ap, subst, ◌∙◌, inl, inr, true, false, Option, none, List, [], ◌∷◌, ◌++◌,
  Str, Outcome, ok, Fault, arith, Option-cases, Bool-cases, text_eq, str_eq_iff, ◌≢◌, Outcome-cases,
}
use thunder_device_plugin.Daemon.Config.{Config}
use thunder_device_plugin.Daemon.Status.{ThunderStatus, get_thunder_status}
use thunder_device_plugin.Daemon.Zone.{resolve_node_attributes, ensure_thunder_zone}
use thunder_device_plugin.Daemon.Reconcile.Setup.{restart}
use thunder_device_plugin.Daemon.Reconcile.Defs.{
  Environment, Reconciler, Pass, Line, restarting, restart_failed, zone_resolved, log_status,
  enroll_node, restart_node, act_on_status, ensure_enrolled, ensure_libthunder, ensure_plugin,
  serve, resolve_zone, adopt, reconcile,
}

-- What only reconcile and ensurePlugin write.
pub record SameIdentity (r r' : Reconciler) : Type 0 where
  pub same_cfg : r'.cfg ≡ r.cfg
  pub same_resolved : r'.resolved ≡ r.resolved
  pub same_zone_id : r'.zone_id ≡ r.zone_id
  pub same_passes : r'.passes ≡ r.passes
  pub same_plugin : r'.plugin_started ≡ r.plugin_started

log_status-SameIdentity :
    (seen : Outcome Fault ThunderStatus) (r : Reconciler) → SameIdentity r (log_status seen r).0
unfolding log_status
log_status-SameIdentity seen r = ground arith

module _ {W : Type 0} (env : Environment W) (cfg : Config) where
  enroll_node-SameIdentity :
      (r : Reconciler) (w : W) (lines : List Line)
      → SameIdentity r (enroll_node env cfg r w lines).state
  unfolding enroll_node
  enroll_node-SameIdentity r w lines = ground arith

  restart_node-SameIdentity :
      (r : Reconciler) (w : W) (lines : List Line)
      → SameIdentity r (restart_node env cfg r w lines).state
  unfolding restart_node restart
  restart_node-SameIdentity r w lines = elim (Option-cases (restart env.node cfg w).0) [
    | inl done ↦ rw done (ground arith)
    | inr (e, failed) ↦
        let r' = record r { restarts = r.restarts + 1 } in
        let lines' =
          lines ++ (restarting r.unhealthy r'.restarts ∷ []) ++ (restart_failed e ∷ []) in
        rw failed (ground (arith, enroll_node-SameIdentity r' (restart env.node cfg w).1 lines'))
  ]

  act_on_status-SameIdentity :
      (seen : Outcome Fault ThunderStatus) (r : Reconciler) (w : W) (lines : List Line)
      → SameIdentity r (act_on_status env cfg seen r w lines).state
  unfolding act_on_status
  act_on_status-SameIdentity seen r w lines =
      let r' = record r { unhealthy = r.unhealthy + 1 } in
      ground (arith, restart_node-SameIdentity r' w lines, enroll_node-SameIdentity r' w lines)

  ensure_enrolled-SameIdentity :
      (r : Reconciler) (w : W) → SameIdentity r (ensure_enrolled env cfg r w).state
  unfolding ensure_enrolled
  ensure_enrolled-SameIdentity r w =
      let seen = (get_thunder_status env.node w).0 in
      ground (
        arith,
        log_status-SameIdentity seen r,
        act_on_status-SameIdentity seen (log_status seen r).0 (get_thunder_status env.node w).1
            (log_status seen r).1,
      )

  ensure_libthunder-SameIdentity :
      (r : Reconciler) (w : W) → SameIdentity r (ensure_libthunder env cfg r w).0
  unfolding ensure_libthunder
  ensure_libthunder-SameIdentity r w = ground arith

  -- What ensurePlugin has called at the end of a pass.
  abbrev pub StartedWith : Pass W → Str → Type 0
  StartedWith p zone_id = (before : W) × (env.start_plugin cfg zone_id before ≡ (none, p.world))

  -- A plugin that ran is left alone; another is started with the zone's ID of the reconciler.
  ensure_plugin_lem :
      (r : Reconciler) (w : W) (lines : List Line)
      → let p = ensure_plugin env cfg r w lines in
        (p.result ≡ ok tt → p.state.plugin_started ≡ true)
        × (p.state.zone_id ≡ r.zone_id)
        × (p.state.resolved ≡ r.resolved)
        × (p.state.passes ≡ r.passes)
        × (r.plugin_started ≡ false → p.result ≡ ok tt → StartedWith p r.zone_id)
  unfolding ensure_plugin
  ensure_plugin_lem r w lines = elim (Option-cases (env.start_plugin cfg r.zone_id w).0) [
    | inl done ↦
        let called : env.start_plugin cfg r.zone_id w
            ≡ (none, (env.start_plugin cfg r.zone_id w).1) =
          ap (λ answer. (answer, (env.start_plugin cfg r.zone_id w).1)) done in
        elim (Bool-cases r.plugin_started) [
          | inl running ↦ ground (arith, running)
          | inr stopped ↦
              rw (stopped, done) ((λ fine. refl), refl, refl, refl, λ was fine. (w, called))
        ]
    | inr (fault, failed) ↦ elim (Bool-cases r.plugin_started) [
      | inl running ↦ ground (arith, running)
      | inr stopped ↦ ground (arith, stopped, failed)
    ]
  ]

  -- A pass that succeeds from ensureEnrolled on has the plugin running, and kept the zone.
  serve_lem :
      (r : Reconciler) (w : W) (lines : List Line)
      → let p = serve env cfg r w lines in
        (p.result ≡ ok tt → p.state.plugin_started ≡ true)
        × (p.state.zone_id ≡ r.zone_id)
        × (p.state.resolved ≡ r.resolved)
        × (p.state.passes ≡ r.passes)
        × (r.plugin_started ≡ false → p.result ≡ ok tt → StartedWith p r.zone_id)
  unfolding serve
  serve_lem r w lines =
      let p = ensure_enrolled env cfg r w in
      let same = ensure_enrolled-SameIdentity r w in
      let more = ensure_libthunder-SameIdentity p.state p.world in
      elim (Outcome-cases p.result) [
        | inl (done, fine) ↦
            let (r', w', logged) = ensure_libthunder env cfg p.state p.world in
            let rest = ensure_plugin_lem r' w' (lines ++ p.lines ++ logged) in
            rw (fine, serve)
              (
                rest.0,
                rest.1 ∙ more.same_zone_id ∙ same.same_zone_id,
                rest.2 ∙ more.same_resolved ∙ same.same_resolved,
                rest.3 ∙ more.same_passes ∙ same.same_passes,
                λ stopped ended.
                    subst (StartedWith (ensure_plugin env cfg r' w' (lines ++ p.lines ++ logged)))
                      (more.same_zone_id ∙ same.same_zone_id)
                      (rest.4 (more.same_plugin ∙ same.same_plugin ∙ stopped) ended),
              )
        | inr (e, failed) ↦ ground (arith, failed, same)
      ]

  resolve_zone_lem :
      (r : Reconciler) (w : W) (lines : List Line)
      → let p = resolve_zone env cfg r w lines in
        let found = ensure_thunder_zone env.zones cfg.zone w in
        (p.result ≡ ok tt → p.state.plugin_started ≡ true)
        × (p.state.resolved ≡ r.resolved)
        × (p.state.passes ≡ r.passes)
        × (r.zone_id ≢ [] → p.state.zone_id ≡ r.zone_id)
        × (r.zone_id ≡ [] → p.result ≡ ok tt → found.0 ≡ ok p.state.zone_id)
        × (r.plugin_started ≡ false → p.result ≡ ok tt → StartedWith p p.state.zone_id)
  unfolding resolve_zone
  resolve_zone_lem r w lines = elim (Outcome-cases (ensure_thunder_zone env.zones cfg.zone w).0) [
    | inl (zone_id, found) ↦
        let r' = record r { zone_id = zone_id } in
        let lines' = lines ++ (zone_resolved cfg.zone zone_id ∷ []) in
        let w' = (ensure_thunder_zone env.zones cfg.zone w).1 in
        ground (arith, found, serve_lem r w lines, serve_lem r' w' lines')
    | inr (e, lost) ↦ ground (arith, lost, serve_lem r w lines)
  ]

adopt_lem :
    (r : Reconciler) (cfg : Config)
    → let r' = (adopt r cfg).0 in
      (r'.resolved ≡ cfg)
      × (r'.passes ≡ r.passes + 1)
      × (r'.plugin_started ≡ r.plugin_started)
      × (r.resolved.zone ≢ cfg.zone → r'.zone_id ≡ [])
      × (r.zone_id ≡ [] → r'.zone_id ≡ [])
      × (r.resolved.zone ≡ cfg.zone → r'.zone_id ≡ r.zone_id)
unfolding adopt
adopt_lem r cfg = ground (arith, str_eq_iff r.resolved.zone cfg.zone)

-- A pass that succeeds leaves the plugin running, and the reconciler with the configuration that the
-- node's labels give and its Thunder zone: where the zone's name is new or no Thunder zone was known,
-- the one that this pass looked up by the name; otherwise the one that was known. If the plugin did
-- not run before, the pass has ended with the call that started it, on this configuration and this
-- Thunder zone.
pub reconcile_settles :
    {W : Type 0} (env : Environment W) (r : Reconciler) (w : W)
    → (reconcile env r w).result ≡ ok tt
    → let p = reconcile env r w in
      let state = p.state in
      let (attributes, w') = resolve_node_attributes env.zones r.cfg w in
      (state.plugin_started ≡ true)
      × (attributes ≡ ok state.resolved)
      × (state.passes ≡ r.passes + 1)
      × ((((r.resolved.zone ≢ state.resolved.zone) ⊎ (r.zone_id ≡ []))
            × ((ensure_thunder_zone env.zones state.resolved.zone w').0 ≡ ok state.zone_id))
          ⊎ ((r.resolved.zone ≡ state.resolved.zone)
              × (r.zone_id ≢ [])
              × (state.zone_id ≡ r.zone_id)))
      × (r.plugin_started ≡ false → StartedWith env state.resolved p state.zone_id)
unfolding reconcile
reconcile_settles env r w h = elim (Outcome-cases (resolve_node_attributes env.zones r.cfg w).0) [
  | inl (cfg, found) ↦
      let r' = adopt r cfg in
      let w' = (resolve_node_attributes env.zones r.cfg w).1 in
      let adopted = adopt_lem r cfg in
      let rest = resolve_zone_lem env cfg r'.0 w' r'.1 in
      ground (arith, found, adopted, str_eq_iff r.resolved.zone cfg.zone, rest)
  | inr (e, lost) ↦ ground (arith, lost)
]

-- The environment whose plugin starts in another way.
abbrev pub with_plugin :
    {W : Type 0} → (Config → Str → W → Option Fault × W) → Environment W → Environment W
with_plugin start env = record env { start_plugin = start }
