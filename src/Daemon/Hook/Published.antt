-- ===== src/Daemon/Hook/Published.antt =====
-- writeFileAtomic and its steps on the files of the node.
use thunder_device_plugin.Base.{
  ℕ, ◌≡◌, ◌≢◌, refl, sym, ap, ◌∙◌, true, false, Option, none, some, Str, Fault, Option-branch,
  Outcome-branch,
}
use thunder_device_plugin.Daemon.Hook.Files.{
  Files, FileLaws, is_temp, dir_name, publish, without_temp, write_file_atomic,
}

not_true : true ≢ false
not_true h = absurd (cc)

pub temp_apart : (temp target : Str) → is_temp temp ≡ true → is_temp target ≡ false → temp ≢ target
temp_apart temp target h k same = absurd (not_true (sym h ∙ ap is_temp same ∙ k))

module _ {W : Type 0} {files : Files W} {contents : Str → W → Option Str}
    (laws : FileLaws files contents) where
  -- A call that succeeded left the content in the file.
  Stored : Str → Str → Option Fault × W → Type 0
  Stored target content (none, w) = contents target w ≡ some content
  Stored target content (some fault, w) = Unit

  Stored-intro :
      (target content : Str) (r : Option Fault × W)
      → (r.0 ≡ none → contents target r.1 ≡ some content)
      → Stored target content r
  unfolding Stored
  Stored-intro target content (none, w) h = h refl
  Stored-intro target content (some fault, w) h = tt

  publish-Stored :
      (temp target content : Str) (mode : ℕ) (w : W)
      → contents temp w ≡ some content
      → Stored target content (publish files temp target mode w)
  unfolding publish Stored
  publish-Stored temp target content mode w there =
      let closed = files.close_file temp w in
      let set = files.chmod temp mode closed.1 in
      let kept = laws.chmod_keeps temp mode temp closed.1 ∙ laws.close_keeps temp temp w ∙ there in
      let After : Option Fault × W → Type 0 = Stored target content in
      Option-branch After closed.0 _ _
        (λ done.
          Option-branch After set.0 _ _
            (λ done'.
              Stored-intro target content (files.rename temp target set.1)
                (λ done''. laws.renamed temp target set.1 done'' ∙ kept))
            (λ fault failed. tt))
        (λ fault failed. tt)

  without_temp-Stored :
      (temp target content : Str) (r : Option Fault × W)
      → temp ≢ target
      → Stored target content r
      → Stored target content (without_temp files temp r)
  unfolding without_temp Stored
  without_temp-Stored temp target content (none, w) apart there =
      laws.remove_keeps temp target w apart ∙ there
  without_temp-Stored temp target content (some fault, w) apart there = tt

  write_file_atomic-Stored :
      (target content : Str) (mode : ℕ) (w : W)
      → is_temp target ≡ false
      → Stored target content (write_file_atomic files target content mode w)
  unfolding write_file_atomic Stored
  write_file_atomic-Stored target content mode w lasting =
      let w₁ = (files.create_temp (dir_name target) w).1 in
      let After : Option Fault × W → Type 0 = Stored target content in
      Outcome-branch After (files.create_temp (dir_name target) w).0 _ _
        (λ temp created.
          let (temporary, empty) = laws.created (dir_name target) temp w created in
          let w₂ = (files.write_to temp content w₁).1 in
          without_temp-Stored temp target content _ (temp_apart temp target temporary lasting) (
            Option-branch After (files.write_to temp content w₁).0 _ _
              (λ done.
                publish-Stored temp target content mode w₂
                  (laws.written temp content w₁ done empty))
              (λ fault failed. tt)))
        (λ fault failed. tt)

  Stored-none :
      (target content : Str) (r : Option Fault × W)
      → r.0 ≡ none
      → Stored target content r
      → contents target r.1 ≡ some content
  unfolding Stored
  Stored-none target content (none, w) done there = there
  Stored-none target content (some fault, w) done there = cc

  -- Where the file system keeps its laws, a write of a file as a whole that succeeds leaves the content
  -- there, for a file that is not called like a temporary one.
  pub write_file_atomic_stores :
      (target content : Str) (mode : ℕ) (w : W)
      → is_temp target ≡ false
      → (write_file_atomic files target content mode w).0 ≡ none
      → contents target (write_file_atomic files target content mode w).1 ≡ some content
  write_file_atomic_stores target content mode w lasting done =
      Stored-none target content (write_file_atomic files target content mode w) done
        (write_file_atomic-Stored target content mode w lasting)
