-- ===== src/Daemon/Reconcile/Installs.antt =====
-- The runs of the Thunder installer, as getThunderStatus, nvidiaChecks, restart and enroll change
-- their number.
use thunder_device_plugin.Base.{
  ℕ, suc, ◌≡◌, refl, ◌∙◌, Option, none, some, List, [], ◌∷◌, Str, Fault, arith, codes, ap,
  Outcome-branch, Option-branch, if-branch,
}
use thunder_device_plugin.Daemon.Config.{Config}
use thunder_device_plugin.Daemon.Status.{Node, get_thunder_status}
use thunder_device_plugin.Daemon.Nvidia.{
  nvidia_driver_version, nvidia_gpu_count, missing_file, check_driver, nvidia_checks,
  ensure_version_recency, resolve_node_path,
}
use thunder_device_plugin.Daemon.Reconcile.Setup.{
  Servers, ServerEnrollment, SetupError, restart, run_installer, enroll, with_transient_thunderd,
  installer_failed,
}

-- What is observed of the host: how often the installer was run. Only its own command line counts.
pub record Counts {W : Type 0} (node : Node W) (servers : Servers W) (installs : W → ℕ)
    : Type 0 where
  pub read_keeps :
      (name : Str) (args : List Str) (w : W)
      → installs (node.combined_output name args w).1 ≡ installs w
  pub stat_keeps : (path : Str) (w : W) → installs (node.file_exists path w).1 ≡ installs w
  pub up_keeps :
      (command : Str) (w : W)
      → installs (node.run_shell (codes "thunder up") command w).1 ≡ installs w
  pub mint_keeps :
      (zone_id : Str) (w : W) → installs (servers.create_server_enrollment zone_id w).1 ≡ installs w
  pub install_counts :
      (command : Str) (w : W)
      → installs (node.run_shell (codes "thunder installer") command w).1 ≡ suc (installs w)

module _ {W : Type 0} {node : Node W} {servers : Servers W} {installs : W → ℕ}
    (counts : Counts node servers installs) where
  Keeps : {A : Type 0} → W → A × W → Type 0
  Keeps w r = installs r.1 ≡ installs w

  -- A step that succeeds has run the installer once more.
  Adds : W → Option SetupError × W → Type 0
  Adds w (none, w') = installs w' ≡ suc (installs w)
  Adds w (some e, w') = Unit

  pub status_keeps : (w : W) → installs (get_thunder_status node w).1 ≡ installs w
  unfolding get_thunder_status
  status_keeps w =
      ground (arith, counts.read_keeps (codes "thunder") (codes "status" ∷ codes "--json" ∷ []) w)

  pub restart_keeps : (cfg : Config) (w : W) → installs (restart node cfg w).1 ≡ installs w
  unfolding restart
  restart_keeps cfg w = counts.up_keeps _ w

  missing_file-Keeps :
      (cfg : Config) (paths : List Str) (w : W) → Keeps w (missing_file node cfg paths w)
  unfolding missing_file Keeps
  missing_file-Keeps cfg [] w = refl
  missing_file-Keeps cfg (path ∷ paths) w =
      let resolved = resolve_node_path cfg.host_root path in
      let seen = node.file_exists resolved w in
      let same = counts.stat_keeps resolved w in
      if-branch (Keeps w) seen.0 _ _ (λ there. missing_file-Keeps cfg paths seen.1 ∙ same)
        (λ absent. same)

  check_driver-Keeps : (cfg : Config) (w : W) → Keeps w (check_driver node cfg w)
  unfolding check_driver nvidia_driver_version nvidia_gpu_count Keeps
  check_driver-Keeps cfg w =
      let w₁ = (nvidia_driver_version node cfg w).1 in
      let same = counts.read_keeps cfg.nvsmi_path _ w in
      Outcome-branch (Keeps w) (nvidia_driver_version node cfg w).0 _ _
        (λ version read.
          Option-branch (Keeps w) (ensure_version_recency version cfg.min_driver_version) _ _
            (λ recent. counts.read_keeps cfg.nvsmi_path _ w₁ ∙ same) (λ e old. same))
        (λ e failed. same)

  nvidia_checks-Keeps : (cfg : Config) (w : W) → Keeps w (nvidia_checks node cfg w)
  unfolding nvidia_checks Keeps
  nvidia_checks-Keeps cfg w =
      let paths = cfg.lib_cuda_path ∷ cfg.lib_nvml_path ∷ cfg.nvsmi_path ∷ [] in
      let same = missing_file-Keeps cfg paths w in
      Option-branch (Keeps w) (missing_file node cfg paths w).0 _ _
        (λ present. check_driver-Keeps cfg (missing_file node cfg paths w).1 ∙ same)
        (λ missing absent. same)

  Adds-tried :
      (f : Fault → SetupError) (failed : Option Fault) (w w' : W)
      → installs w' ≡ suc (installs w)
      → Adds w (elim failed [ none ↦ none | some fault ↦ some (f fault) ], w')
  unfolding Adds
  Adds-tried f none w w' h = h
  Adds-tried f (some fault) w w' h = tt

  run_installer-Adds :
      (cfg : Config) (minted : ServerEnrollment) (w : W)
      → Adds w (run_installer node servers cfg minted w)
  unfolding run_installer Adds
  run_installer-Adds cfg minted w =
      Outcome-branch (Adds w) (with_transient_thunderd _) _ _
        (λ command known.
          let ran = node.run_shell (codes "thunder installer") command w in
          Adds-tried installer_failed ran.0 w ran.1 (counts.install_counts command w))
        (λ e unknown. tt)

  Adds-from :
      (w w' : W) (r : Option SetupError × W) → installs w' ≡ installs w → Adds w' r → Adds w r
  unfolding Adds
  Adds-from w w' (none, w'') same h = h ∙ ap suc same
  Adds-from w w' (some e, w'') same h = tt

  -- An enrollment that succeeds has run the installer.
  enroll-Adds : (cfg : Config) (zone_id : Str) (w : W) → Adds w (enroll node servers cfg zone_id w)
  unfolding enroll Keeps Adds
  enroll-Adds cfg zone_id w =
      let w₁ = (nvidia_checks node cfg w).1 in
      let minted = servers.create_server_enrollment zone_id w₁ in
      Outcome-branch (Adds w) (nvidia_checks node cfg w).0 _ _
        (λ gpus fit.
          Outcome-branch (Adds w) minted.0 _ _
            (λ token made.
              Adds-from w minted.1 (run_installer node servers cfg token minted.1)
                (counts.mint_keeps zone_id w₁ ∙ nvidia_checks-Keeps cfg w)
                (run_installer-Adds cfg token minted.1))
            (λ fault failed. tt))
        (λ e unfit. tt)

  Adds-none :
      (w : W) (r : Option SetupError × W) → r.0 ≡ none → Adds w r → installs r.1 ≡ suc (installs w)
  unfolding Adds
  Adds-none w (none, w') done h = h
  Adds-none w (some e, w') done h = absurd (cc)

  pub enroll_installs :
      (cfg : Config) (zone_id : Str) (w : W)
      → (enroll node servers cfg zone_id w).0 ≡ none
      → installs (enroll node servers cfg zone_id w).1 ≡ suc (installs w)
  enroll_installs cfg zone_id w done =
      Adds-none w (enroll node servers cfg zone_id w) done (enroll-Adds cfg zone_id w)
