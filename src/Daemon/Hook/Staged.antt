-- ===== src/Daemon/Hook/Staged.antt =====
-- stageThunderClient: the files of the container.
use thunder_device_plugin.Base.{
  ℕ, ◌≡◌, ◌≢◌, refl, sym, ap, subst, ◌∙◌, Bool, true, false, Option, none, some, List, [], ◌∷◌,
  ◌++◌, Str, codes, Outcome, ok, err, Fault, Call, Option-branch, Outcome-branch, if-branch,
  is_blank, is_nil, str_eq, contains, if◌then◌else◌,
}
use thunder_device_plugin.Base.FileNames.{base_name, IsPlain}
use thunder_device_plugin.Base.Joined.{base_name-join_paths, base_name_below}
use thunder_device_plugin.Base.Paths.{join_paths}
use thunder_device_plugin.Daemon.Hook.Files.{
  readable, executable, Files, FileLaws, is_temp, dir_name, copy_file, write_file_atomic,
}
use thunder_device_plugin.Daemon.Hook.Published.{write_file_atomic_stores}
use thunder_device_plugin.Daemon.Hook.Exchange.{ThunderClientConfig, Codec}
use thunder_device_plugin.Daemon.Hook.Stage.{config_file}
use thunder_device_plugin.Daemon.Hook.Container.{
  Host, StageError, certs_dir, certs_file, default_ca_bundle_path, guest_dir, guest_config_path,
  guest_certs_path, stage_ca_bundle, stage_config, stage_thunder_client,
}
use thunder_device_plugin.Daemon.Hook.Copied.{CopyLaws, copy_file-Kept, Kept-same}

config_file-IsPlain : IsPlain config_file
unfolding contains codes str_eq
config_file-IsPlain = record { slashless = refl; shown = refl; not_here = refl; not_up = refl }

certs_file-IsPlain : IsPlain certs_file
unfolding contains codes str_eq
certs_file-IsPlain = record { slashless = refl; shown = refl; not_here = refl; not_up = refl }

guest_config_path-base_name : (rootfs : Str) → base_name (guest_config_path rootfs) ≡ config_file
unfolding guest_config_path
guest_config_path-base_name rootfs =
    base_name-join_paths (guest_dir rootfs) config_file config_file-IsPlain

guest_config_lasts : (rootfs : Str) → is_temp (guest_config_path rootfs) ≡ false
unfolding is_temp thunder_device_plugin.Base.strip_prefix codes
guest_config_lasts rootfs = rw (guest_config_path-base_name rootfs, is_temp) refl

certs_apart : certs_file ≢ config_file
unfolding str_eq codes
certs_apart h = let apart : false ≡ true = ap (λ s. str_eq s config_file) h in absurd (cc)

-- The CA certificates do not go where the configuration is.
guest_certs_apart : (rootfs : Str) → guest_certs_path rootfs ≢ guest_config_path rootfs
unfolding guest_certs_path
guest_certs_apart rootfs same = certs_apart (
    sym (base_name_below rootfs certs_dir certs_file certs_file-IsPlain)
    ∙ ap base_name same
    ∙ guest_config_path-base_name rootfs)

-- What the host's calls beside the files leave alone.
pub record HostLaws {W : Type 0} (host : Host W) (contents : Str → W → Option Str) : Type 0 where
  pub stat_keeps :
      (path other : Str) (w : W) → contents other (host.stat path w).1 ≡ contents other w
  pub lstat_keeps :
      (path other : Str) (w : W) → contents other (host.lstat path w).1 ≡ contents other w

module _ {W : Type 0} {files : Files W} (host : Host W) {contents : Str → W → Option Str}
    (laws : FileLaws files contents) (copy_laws : CopyLaws files contents)
    (host_laws : HostLaws host contents) (rootfs : Str) where
  Same : Option Str → W → Type 0
  Same before w = contents (guest_config_path rootfs) w ≡ before

  stage_ca_bundle-Same :
      (given : Str) (w : W)
      → Same (contents (guest_config_path rootfs) w) (stage_ca_bundle files host rootfs given w)
  unfolding stage_ca_bundle Same
  stage_ca_bundle-Same given w =
      let other = guest_config_path rootfs in
      let source = if is_blank given then default_ca_bundle_path else given in
      let target = guest_certs_path rootfs in
      let looked = host.lstat target w in
      let found = host.stat source looked.1 in
      let made = files.mkdir_all (dir_name target) found.1 in
      let After : W → Type 0 = Same (contents other w) in
      let looked_kept = host_laws.lstat_keeps target other w in
      let found_kept = host_laws.stat_keeps source other looked.1 ∙ looked_kept in
      let made_kept = laws.mkdir_keeps (dir_name target) other found.1 ∙ found_kept in
      Option-branch After looked.0 _ _ (λ there. looked_kept)
        (λ fault missing.
          Outcome-branch After found.0 _ _
            (λ is_dir exists.
              Option-branch After made.0 _ _
                (λ done.
                  Kept-same laws copy_laws other (guest_config_lasts rootfs) _ (
                    copy_file-Kept laws copy_laws other (guest_config_lasts rootfs) source target
                      readable made.1 (guest_certs_apart rootfs))
                  ∙ made_kept)
                (λ fault' failed. made_kept))
            (λ fault' failed. found_kept))

  -- A staging that succeeded left the configuration.
  Staged : Codec → ThunderClientConfig → Option StageError × W → Type 0
  Staged codec config (none, w) =
      (encoded : Str) × (codec.encode_config config ≡ ok encoded)
      × (contents (guest_config_path rootfs) w ≡ some (encoded ++ 10 ∷ []))
  Staged codec config (some e, w) = Unit

  stage_config-Staged :
      (codec : Codec) (config : ThunderClientConfig) (ca_bundle_path : Str) (w : W)
      → Staged codec config (stage_config files host codec config rootfs ca_bundle_path w)
  unfolding stage_config Staged Same
  stage_config-Staged codec config ca_bundle_path w =
      let After : Option StageError × W → Type 0 = Staged codec config in
      let path = guest_config_path rootfs in
      Outcome-branch After (codec.encode_config config) _ _
        (λ encoded same.
          let content = encoded ++ 10 ∷ [] in
          let written = write_file_atomic files path content readable w in
          Option-branch After written.0 _ _
            (λ done. (
              encoded,
              same,
              stage_ca_bundle-Same ca_bundle_path written.1
                  ∙ write_file_atomic_stores laws path content readable w
                      (guest_config_lasts rootfs) done,
            ))
            (λ fault failed. tt))
        (λ e failed. tt)

  stage_thunder_client-Staged :
      (codec : Codec) (library_path : Str) (config : ThunderClientConfig) (ca_bundle_path : Str)
      (w : W)
      → Staged codec config
          (stage_thunder_client files host codec rootfs library_path config ca_bundle_path w)
  unfolding stage_thunder_client Staged
  stage_thunder_client-Staged codec library_path config ca_bundle_path w =
      let After : Option StageError × W → Type 0 = Staged codec config in
      let made = files.mkdir_all (guest_dir rootfs) w in
      let library = join_paths (guest_dir rootfs ∷ codes "libthunder.so" ∷ []) in
      let copied = copy_file files library_path library executable made.1 in
      Option-branch After made.0 _ _
        (λ done.
          Option-branch After copied.0 _ _
            (λ done'. stage_config-Staged codec config ca_bundle_path copied.1)
            (λ fault failed. tt))
        (λ fault failed. tt)

  Staged-none :
      (codec : Codec) (config : ThunderClientConfig) (r : Option StageError × W)
      → r.0 ≡ none
      → Staged codec config r
      → (encoded : Str) × (codec.encode_config config ≡ ok encoded)
        × (contents (guest_config_path rootfs) r.1 ≡ some (encoded ++ 10 ∷ []))
  unfolding Staged
  Staged-none codec config (none, w) done staged = staged
  Staged-none codec config (some e, w) done staged = absurd (cc)

  -- Where files keep their laws and the other calls on the host leave files alone, a staging that
  -- succeeds leaves the encoded configuration of the client, with a newline, in the container's
  -- config.json, whatever became of the CA certificates.
  pub stage_thunder_client_stages :
      (codec : Codec) (library_path : Str) (config : ThunderClientConfig) (ca_bundle_path : Str)
      (w : W)
      → (stage_thunder_client files host codec rootfs library_path config ca_bundle_path w).0 ≡ none
      → (encoded : Str) × (codec.encode_config config ≡ ok encoded)
        × (contents
              (guest_config_path rootfs)
              (stage_thunder_client files host codec rootfs library_path config ca_bundle_path w).1
            ≡ some (encoded ++ 10 ∷ []))
  stage_thunder_client_stages codec library_path config ca_bundle_path w done =
      Staged-none codec config
        (stage_thunder_client files host codec rootfs library_path config ca_bundle_path w) done
        (stage_thunder_client-Staged codec library_path config ca_bundle_path w)
