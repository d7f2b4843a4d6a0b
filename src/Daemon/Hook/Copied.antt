-- ===== src/Daemon/Hook/Copied.antt =====
-- copyFile on the files of the node.
use thunder_device_plugin.Base.{
  ℕ, ◌≡◌, ◌≢◌, subst, ◌∙◌, false, Option, none, some, Str, Fault, Option-branch, Outcome-branch,
}
use thunder_device_plugin.Daemon.Hook.Files.{
  Files, FileLaws, is_temp, dir_name, publish, without_temp, copy_file,
}
use thunder_device_plugin.Daemon.Hook.Published.{temp_apart}

-- What a copy relies on beside the laws of files.
pub record CopyLaws {W : Type 0} (files : Files W) (contents : Str → W → Option Str) : Type 0 where
  pub open_keeps :
      (path other : Str) (w : W) → contents other (files.open_file path w).1 ≡ contents other w
  pub create_keeps :
      (dir other : Str) (w : W)
      → is_temp other ≡ false
      → contents other (files.create_temp dir w).1 ≡ contents other w
  pub copy_keeps :
      (source temp other : Str) (w : W)
      → temp ≢ other
      → contents other (files.copy_to source temp w).1 ≡ contents other w

module _ {W : Type 0} {files : Files W} {contents : Str → W → Option Str}
    (laws : FileLaws files contents) (copy_laws : CopyLaws files contents) (other : Str)
    (lasting : is_temp other ≡ false) where
  unfoldable pub Kept : Option Str → Option Fault × W → Type 0
  Kept before (failed, w) = contents other w ≡ before

  publish-Kept :
      (temp target : Str) (mode : ℕ) (w : W)
      → temp ≢ other
      → target ≢ other
      → Kept (contents other w) (publish files temp target mode w)
  unfolding publish Kept
  publish-Kept temp target mode w apart apart' =
      let closed = files.close_file temp w in
      let set = files.chmod temp mode closed.1 in
      let After : Option Fault × W → Type 0 = Kept (contents other w) in
      let set_kept = laws.chmod_keeps temp mode other closed.1 ∙ laws.close_keeps temp other w in
      Option-branch After closed.0 _ _
        (λ done.
          Option-branch After set.0 _ _
            (λ done'. laws.rename_keeps temp target other set.1 apart apart' ∙ set_kept)
            (λ fault failed. set_kept))
        (λ fault failed. laws.close_keeps temp other w)

  without_temp-Kept :
      (temp : Str) (before : Option Str) (r : Option Fault × W)
      → temp ≢ other
      → Kept before r
      → Kept before (without_temp files temp r)
  unfolding without_temp Kept
  without_temp-Kept temp before (failed, w) apart kept = laws.remove_keeps temp other w apart ∙ kept

  pub copy_file-Kept :
      (source target : Str) (mode : ℕ) (w : W)
      → target ≢ other
      → Kept (contents other w) (copy_file files source target mode w)
  unfolding copy_file Kept
  copy_file-Kept source target mode w apart =
      let opened = files.open_file source w in
      let created = files.create_temp (dir_name target) opened.1 in
      let After : Option Fault × W → Type 0 = Kept (contents other w) in
      let opened_kept = copy_laws.open_keeps source other w in
      let created_kept =
        copy_laws.create_keeps (dir_name target) other opened.1 lasting ∙ opened_kept in
      Option-branch After opened.0 _ _
        (λ done.
          Outcome-branch After created.0 _ _
            (λ temp made.
              let away =
                temp_apart temp other (laws.created (dir_name target) temp opened.1 made).0
                  lasting in
              let copied = files.copy_to source temp created.1 in
              let copied_kept =
                copy_laws.copy_keeps source temp other created.1 away ∙ created_kept in
              let rest : Option Fault × W = elim copied.0 [
                | some fault ↦ (some fault, (files.close_file temp copied.1).1)
                | none ↦ publish files temp target mode copied.1
              ] in
              without_temp-Kept temp (contents other w) rest away (
                Option-branch After copied.0 _ _
                  (λ done'.
                    subst (λ before. Kept before (publish files temp target mode copied.1))
                      copied_kept (publish-Kept temp target mode copied.1 away apart))
                  (λ fault failed. laws.close_keeps temp other copied.1 ∙ copied_kept)))
            (λ fault failed. created_kept))
        (λ fault failed. opened_kept)

  pub Kept-same :
      {before : Option Str} (r : Option Fault × W) → Kept before r → contents other r.1 ≡ before
  unfolding Kept
  Kept-same (failed, w) kept = kept
