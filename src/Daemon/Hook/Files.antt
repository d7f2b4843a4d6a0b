-- ===== src/Daemon/Hook/Files.antt =====
-- The files of the node as the hook uses them, and the two ways in which it replaces one as a whole.
use thunder_device_plugin.Base.{
  ℕ, ◌≡◌, ◌≢◌, Bool, true, false, Option, none, some, [], ◌∷◌, Str, codes, ok, err, Fault, Call,
  contains, strip_prefix, if◌then◌else◌,
}
use thunder_device_plugin.Base.Paths.{clean, join_paths}
use thunder_device_plugin.Base.FileNames.{base_name}

-- The calls of package os. `create_temp` is os.CreateTemp with the pattern ".stage-*", and `copy_to`
-- io.Copy from an open file.
pub record Files (W : Type 0) : Type 0 where
  pub read_file : Str → Call W Fault Str
  pub open_file : Str → W → Option Fault × W
  pub create_temp : Str → Call W Fault Str
  pub write_to : Str → Str → W → Option Fault × W
  pub copy_to : Str → Str → W → Option Fault × W
  pub close_file : Str → W → Option Fault × W
  pub chmod : Str → ℕ → W → Option Fault × W
  pub rename : Str → Str → W → Option Fault × W
  pub remove : Str → W → Option Fault × W
  pub remove_all : Str → W → Option Fault × W
  pub mkdir_all : Str → W → Option Fault × W
  pub write_file : Str → Str → W → Option Fault × W
  pub open_lock : Str → W → Option Fault × W
  pub lock : Str → W → Option Fault × W
  pub unlock : Str → W → Option Fault × W

-- The modes that the code gives files: 0o600, 0o644 and 0o755.
abbrev pub owner_only : ℕ
owner_only = 384

abbrev pub readable : ℕ
readable = 420

abbrev pub executable : ℕ
executable = 493

-- A text up to its last slash.
unfoldable pub up_to_slash : Str → Str
up_to_slash [] = []
up_to_slash (c ∷ s) = if contains b'/' (c ∷ s) then c ∷ up_to_slash s else []

-- filepath.Dir.
unfoldable pub dir_name : Str → Str
unfolding up_to_slash
dir_name path = clean (up_to_slash path)

-- A name that os.CreateTemp gives.
unfoldable pub is_temp : Str → Bool
is_temp path = elim (strip_prefix (codes ".stage-") (base_name path)) [
  | none ↦ false
  | some rest ↦ true
]

module _ {W : Type 0} (files : Files W) where
  -- Close, Chmod and Rename, up to the first that fails.
  unfoldable pub publish : Str → Str → ℕ → W → Option Fault × W
  publish temp target mode w =
      let (unclosed, w₁) = files.close_file temp w in
      let (unset, w₂) = files.chmod temp mode w₁ in
      elim unclosed [
        | some fault ↦ (some fault, w₁)
        | none ↦ elim unset [ some fault ↦ (some fault, w₂) | none ↦ files.rename temp target w₂ ]
      ]

  -- The deferred removal of the temporary file, whose error is dropped.
  unfoldable pub without_temp : Str → Option Fault × W → Option Fault × W
  without_temp temp (failed, w) = let (ignored, w') = files.remove temp w in (failed, w')

  unfoldable pub write_file_atomic : Str → Str → ℕ → W → Option Fault × W
  unfolding publish without_temp
  write_file_atomic target content mode w =
      let (created, w₁) = files.create_temp (dir_name target) w in
      elim created [
        | err fault ↦ (some fault, w₁)
        | ok temp ↦
            let (unwritten, w₂) = files.write_to temp content w₁ in
            let (ignored, w₃) = files.close_file temp w₂ in
            without_temp temp (elim unwritten [
              | some fault ↦ (some fault, w₃)
              | none ↦ publish temp target mode w₂
            ])
      ]

  -- lockFile: whether the lock is held, and the error if it is not.
  unfoldable pub lock_file : Str → W → Option Fault × W
  lock_file path w =
      let (unopened, w₁) = files.open_lock path w in
      let (unlocked, w₂) = files.lock path w₁ in
      let (ignored, w₃) = files.close_file path w₂ in
      elim unopened [
        | some fault ↦ (some fault, w₁)
        | none ↦ elim unlocked [ some fault ↦ (some fault, w₃) | none ↦ (none, w₂) ]
      ]

  -- The lock that serialises the hooks of a claim.
  unfoldable pub lock_path : Str → Str
  lock_path state_dir = join_paths (state_dir ∷ codes "stage.lock" ∷ [])

  unfoldable pub lock_state_dir : Str → W → Option Fault × W
  unfolding lock_file lock_path
  lock_state_dir state_dir w =
      let (unmade, w₁) = files.mkdir_all state_dir w in
      let locked = lock_file (lock_path state_dir) w₁ in
      elim unmade [ some fault ↦ (some fault, w₁) | none ↦ locked ]

  unfoldable pub copy_file : Str → Str → ℕ → W → Option Fault × W
  unfolding publish without_temp
  copy_file source target mode w =
      let (unopened, w₀) = files.open_file source w in
      let (created, w₁) = files.create_temp (dir_name target) w₀ in
      elim unopened [
        | some fault ↦ (some fault, w₀)
        | none ↦ elim created [
          | err fault ↦ (some fault, w₁)
          | ok temp ↦
              let (uncopied, w₂) = files.copy_to source temp w₁ in
              let (ignored, w₃) = files.close_file temp w₂ in
              without_temp temp (elim uncopied [
                | some fault ↦ (some fault, w₃)
                | none ↦ publish temp target mode w₂
              ])
        ]
      ]

-- What the hook relies on: an observer of the contents of files, and what the calls do to them, where
-- no two paths lead to one file.
pub record FileLaws {W : Type 0} (files : Files W) (contents : Str → W → Option Str) : Type 0 where
  pub read_ok :
      (path : Str) (w : W) (content : Str)
      → (files.read_file path w).0 ≡ ok content
      → contents path w ≡ some content
  pub read_keeps :
      (path other : Str) (w : W) → contents other (files.read_file path w).1 ≡ contents other w
  pub created :
      (dir temp : Str) (w : W)
      → (files.create_temp dir w).0 ≡ ok temp
      → (is_temp temp ≡ true) × (contents temp (files.create_temp dir w).1 ≡ some [])
  pub written :
      (temp content : Str) (w : W)
      → (files.write_to temp content w).0 ≡ none
      → contents temp w ≡ some []
      → contents temp (files.write_to temp content w).1 ≡ some content
  pub close_keeps :
      (path other : Str) (w : W) → contents other (files.close_file path w).1 ≡ contents other w
  pub chmod_keeps :
      (path : Str) (mode : ℕ) (other : Str) (w : W)
      → contents other (files.chmod path mode w).1 ≡ contents other w
  pub renamed :
      (from to : Str) (w : W)
      → (files.rename from to w).0 ≡ none
      → contents to (files.rename from to w).1 ≡ contents from w
  pub rename_keeps :
      (from to other : Str) (w : W)
      → from ≢ other
      → to ≢ other
      → contents other (files.rename from to w).1 ≡ contents other w
  pub stored :
      (path content : Str) (w : W)
      → (files.write_file path content w).0 ≡ none
      → contents path (files.write_file path content w).1 ≡ some content
  pub write_keeps :
      (path content other : Str) (w : W)
      → path ≢ other
      → contents other (files.write_file path content w).1 ≡ contents other w
  pub mkdir_keeps :
      (dir other : Str) (w : W) → contents other (files.mkdir_all dir w).1 ≡ contents other w
  pub remove_keeps :
      (path other : Str) (w : W)
      → path ≢ other
      → contents other (files.remove path w).1 ≡ contents other w
