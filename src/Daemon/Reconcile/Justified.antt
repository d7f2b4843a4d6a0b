-- ===== src/Daemon/Reconcile/Justified.antt =====
-- ensureEnrolled and its repairs: the pass that runs the installer, and the status it acts on.
use thunder_device_plugin.Base.{
  ℕ, ◌+◌, ◌≤◌, ◌≡◌, ◌≢◌, ◌⊎◌, ◌∙◌, inl, inr, false, some, List, Outcome, Fault, arith, Option-cases,
}
use thunder_device_plugin.Daemon.Config.{Config}
use thunder_device_plugin.Daemon.Status.{ThunderStatus, get_thunder_status}
use thunder_device_plugin.Daemon.Reconcile.Setup.{SetupError, restart}
use thunder_device_plugin.Daemon.Reconcile.Defs.{
  Environment, Reconciler, Line, log_status, seen_healthy, seen_transitional, seen_enrolled,
  restart_node, act_on_status, ensure_enrolled,
}
use thunder_device_plugin.Daemon.Reconcile.Installs.{Counts, status_keeps, restart_keeps}
use thunder_device_plugin.Daemon.Reconcile.Repair.{log_status-SameCounters}

-- The reasons to run the installer on what `thunder status` said: thunderd is not healthy, no
-- transition is being waited for, the grace window of a node that was healthy is over, and either
-- the node holds no credentials that can be read, or its two restarts are spent, or a restart now
-- failed.
pub record Justified (seen : Outcome Fault ThunderStatus) (r : Reconciler) (restart_failed : Type 0)
    : Type 0 where
  pub is_down : seen_healthy seen ≡ false
  pub settled : (seen_transitional seen ≡ false) ⊎ (30 ≤ r.transitional)
  pub out_of_grace : (r.ever_healthy ≡ false) ⊎ (2 ≤ r.unhealthy)
  pub not_restartable : (seen_enrolled seen ≡ false) ⊎ (2 ≤ r.restarts) ⊎ restart_failed

module _ {W : Type 0} (env : Environment W) (cfg : Config) {installs : W → ℕ}
    (counts : Counts env.node env.servers installs) where
  restart_node_installs :
      (r : Reconciler) (w : W) (lines : List Line)
      → installs (restart_node env cfg r w lines).world ≢ installs w
      → (e : SetupError) × ((restart env.node cfg w).0 ≡ some e)
  unfolding restart_node restart
  restart_node_installs r w lines h = elim (Option-cases (restart env.node cfg w).0) [
    | inl done ↦ absurd (h (rw done (restart_keeps counts cfg w)))
    | inr failed ↦ failed
  ]

  act_on_status_justified :
      (seen : Outcome Fault ThunderStatus) (r : Reconciler) (w : W) (lines : List Line)
      → installs (act_on_status env cfg seen r w lines).world ≢ installs w
      → Justified seen r ((e : SetupError) × ((restart env.node cfg w).0 ≡ some e))
  unfolding act_on_status
  act_on_status_justified seen r w lines h =
      let r' = record r { unhealthy = r.unhealthy + 1 } in
      ground (arith, restart_node_installs r' w lines)

  -- Where only the installer's own command counts as a run of it, ensureEnrolled runs the installer
  -- only when thunderd is not healthy, no transition is being waited for, the grace window of a node
  -- that was healthy is over, and the node holds no credentials that can be read, or its two restarts
  -- are spent, or a restart now failed.
  pub ensure_enrolled_justified :
      (r : Reconciler) (w : W)
      → installs (ensure_enrolled env cfg r w).world ≢ installs w
      → let (seen, w') = get_thunder_status env.node w in
        Justified seen r ((e : SetupError) × ((restart env.node cfg w').0 ≡ some e))
  unfolding ensure_enrolled
  ensure_enrolled_justified r w h =
      let seen = (get_thunder_status env.node w).0 in
      ground (
        arith,
        act_on_status_justified seen (log_status seen r).0 (get_thunder_status env.node w).1
            (log_status seen r).1 (λ same. h (same ∙ status_keeps counts w)),
        log_status-SameCounters seen r,
      )
