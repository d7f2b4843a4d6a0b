-- ===== src/Daemon/Reconcile/Repair.antt =====
-- ensureEnrolled: the counters of the reconciler, and the passes in a row on a node that is down.
use thunder_device_plugin.Base.{
  ℕ, zero, suc, ◌+◌, ◌-◌, ◌*◌, ◌≤◌, ◌<◌, ◌≡◌, sym, ◌∙◌, inl, inr, false, List, Outcome, ok, Fault,
  arith, Option-cases,
}
use thunder_device_plugin.Daemon.Config.{Config}
use thunder_device_plugin.Daemon.Status.{ThunderStatus, get_thunder_status}
use thunder_device_plugin.Daemon.Reconcile.Setup.{restart, enroll}
use thunder_device_plugin.Daemon.Reconcile.Installs.{
  Counts, status_keeps, restart_keeps, enroll_installs,
}
use thunder_device_plugin.Daemon.Reconcile.Defs.{
  Environment, Reconciler, Line, log_status, seen_healthy, enroll_node, restart_node, act_on_status,
  ensure_enrolled,
}

-- What holds of the counters between two passes.
pub record IsValid (r : Reconciler) : Type 0 where
  pub restarts_limited : r.restarts ≤ 2
  pub transitional_limited : r.transitional ≤ 30

-- The counters of a reconciler, which the rest of a pass leaves alone.
pub record SameCounters (r r' : Reconciler) : Type 0 where
  pub same_restarts : r.restarts ≡ r'.restarts
  pub same_transitional : r.transitional ≡ r'.transitional
  pub same_unhealthy : r.unhealthy ≡ r'.unhealthy
  pub same_history : r.ever_healthy ≡ r'.ever_healthy

pub log_status-SameCounters :
    (seen : Outcome Fault ThunderStatus) (r : Reconciler) → SameCounters r (log_status seen r).0
unfolding log_status
log_status-SameCounters seen r = ground arith

-- How many passes may still go by before the installer is reached.
abbrev pub patience : Reconciler → ℕ
patience r = (2 - r.restarts) * 33 + (30 - r.transitional) + (2 - r.unhealthy)

module _ {W : Type 0} (env : Environment W) (cfg : Config) where
  enroll_node-IsValid :
      (r : Reconciler) (w : W) (lines : List Line)
      → IsValid r
      → IsValid (enroll_node env cfg r w lines).state
  unfolding enroll_node
  enroll_node-IsValid r w lines v = ground arith

  restart_node-IsValid :
      (r : Reconciler) (w : W) (lines : List Line)
      → IsValid r
      → r.restarts < 2
      → IsValid (restart_node env cfg r w lines).state
  unfolding restart_node restart
  restart_node-IsValid r w lines v h = elim (Option-cases (restart env.node cfg w).0) [
    | inl done ↦ rw done (ground arith)
    | inr (e, failed) ↦ rw failed (enroll_node-IsValid _ _ _ (omega arith))
  ]

  act_on_status-IsValid :
      (seen : Outcome Fault ThunderStatus) (r : Reconciler) (w : W) (lines : List Line)
      → IsValid r
      → IsValid (act_on_status env cfg seen r w lines).state
  unfolding act_on_status
  act_on_status-IsValid seen r w lines v =
      let r' = record r { unhealthy = r.unhealthy + 1 } in
      ground (arith, restart_node-IsValid r' w lines, enroll_node-IsValid r' w lines)

  -- Every call of ensureEnrolled keeps the restarts within their limit of 2 and the checks spent on a
  -- transition within theirs of 30.
  pub ensure_enrolled-IsValid :
      (r : Reconciler) (w : W) → IsValid r → IsValid (ensure_enrolled env cfg r w).state
  unfolding ensure_enrolled
  ensure_enrolled-IsValid r w v =
      let seen = (get_thunder_status env.node w).0 in
      act_on_status-IsValid seen (log_status seen r).0 _ _
        (ground (arith, log_status-SameCounters seen r))

  module _ {installs : W → ℕ} (counts : Counts env.node env.servers installs) where
    enroll_node_installs :
        (r : Reconciler) (w : W) (lines : List Line)
        → (enroll_node env cfg r w lines).result ≡ ok tt
        → installs (enroll_node env cfg r w lines).world ≡ suc (installs w)
    unfolding enroll_node
    enroll_node_installs r w lines fine =
        elim (Option-cases (enroll env.node env.servers cfg r.zone_id w).0) [
          | inl done ↦
              let ran = enroll_installs counts cfg r.zone_id w done in ground (arith, done, ran)
          | inr (e, failed) ↦ ground (arith, failed, fine)
        ]

    -- A restart that did not fall back to the installer used up one of the two.
    patience-restart_node :
        (r : Reconciler) (w : W) (lines : List Line)
        → r.restarts < 2
        → (restart_node env cfg r w lines).result ≡ ok tt
        → installs (restart_node env cfg r w lines).world ≡ installs w
        → patience (restart_node env cfg r w lines).state + 33 ≤ (2 - r.restarts) * 33 + 32
    unfolding restart_node restart
    patience-restart_node r w lines h fine quiet = elim (Option-cases (restart env.node cfg w).0) [
      | inl done ↦ rw done (omega arith)
      | inr (e, failed) ↦
          let r' = record r { restarts = r.restarts + 1 } in
          let w' = (restart env.node cfg w).1 in
          let same = restart_keeps counts cfg w in
          let ran = enroll_node_installs r' w' _ (rw failed at fine) in
          let quiet' = rw failed at quiet in absurd (omega (arith, ran, same, quiet'))
    ]

    patience-act_on_status :
        (seen : Outcome Fault ThunderStatus) (r : Reconciler) (w : W) (lines : List Line)
        → IsValid r
        → seen_healthy seen ≡ false
        → (act_on_status env cfg seen r w lines).result ≡ ok tt
        → installs (act_on_status env cfg seen r w lines).world ≡ installs w
        → patience (act_on_status env cfg seen r w lines).state < patience r
    unfolding act_on_status
    patience-act_on_status seen r w lines v down fine quiet =
        let r' = record r { unhealthy = r.unhealthy + 1 } in
        ground (arith, patience-restart_node r' w lines, enroll_node_installs r' w lines)

    -- A pass that finds thunderd down, reports no error and does not run the installer uses up
    -- patience.
    patience-ensure_enrolled :
        (r : Reconciler) (w : W)
        → IsValid r
        → seen_healthy (get_thunder_status env.node w).0 ≡ false
        → (ensure_enrolled env cfg r w).result ≡ ok tt
        → installs (ensure_enrolled env cfg r w).world ≡ installs w
        → patience (ensure_enrolled env cfg r w).state < patience r
    unfolding ensure_enrolled
    patience-ensure_enrolled r w v down fine quiet =
        let seen = (get_thunder_status env.node w).0 in
        let same = log_status-SameCounters seen r in
        let step =
          patience-act_on_status seen (log_status seen r).0 (get_thunder_status env.node w).1
            (log_status seen r).1 (ground (arith, same)) down fine
            (quiet ∙ sym (status_keeps counts w)) in
        ground (arith, step, same)

    -- `n` passes in a row, each of which finds thunderd down, reports no error and does not run the
    -- installer. The world may change in any way between two passes, and the rest of a pass may
    -- change whatever is no counter of the reconciler.
    pub data Unrepaired : ℕ → Reconciler → W → Type 0 where
      none_yet : {r : Reconciler} {w : W} → Unrepaired zero r w
      one_more :
          {n : ℕ} {r r' : Reconciler} {w w' : W}
          → seen_healthy (get_thunder_status env.node w).0 ≡ false
          → (ensure_enrolled env cfg r w).result ≡ ok tt
          → installs (ensure_enrolled env cfg r w).world ≡ installs w
          → SameCounters (ensure_enrolled env cfg r w).state r'
          → Unrepaired n r' w'
          → Unrepaired (suc n) r w

    Unrepaired-patience :
        {n : ℕ} {r : Reconciler} {w : W} → Unrepaired n r w → IsValid r → n ≤ patience r
    Unrepaired-patience none_yet v = omega arith
    Unrepaired-patience (one_more {r = r} {r' = r'} {w = w} down fine quiet same rest) v =
        let v' : IsValid r' = ground (arith, same, ensure_enrolled-IsValid r w v) in
        let step = patience-ensure_enrolled r w v down fine quiet in
        let ih = Unrepaired-patience rest v' in ground (arith, step, ih, same)

    -- From valid counters, and where only the installer's own command counts as a run of it, at most
    -- 98 passes in a row find thunderd down, report no error and do not run the installer, whatever
    -- the node reports and whether or not the restarts run.
    pub repair_within : {n : ℕ} {r : Reconciler} {w : W} → Unrepaired n r w → IsValid r → n ≤ 98
    repair_within u v = omega (arith, Unrepaired-patience u v)
