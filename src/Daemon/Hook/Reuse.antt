-- ===== src/Daemon/Hook/Reuse.antt =====
-- clientConfigForClaim, called again after a call that gave a configuration.
use thunder_device_plugin.Base.{
  ℕ, zero, suc, ◌+◌, ◌-◌, ◌≤◌, ◌≡◌, ◌≢◌, refl, sym, ap, ◌∙◌, ◌⊎◌, inl, inr, Bool, true, false, not,
  Option, none, some, List, [], ◌∷◌, ◌++◌, Str, codes, Outcome, ok, err, Fault, arith,
  Outcome-branch, Option-branch, if-branch, is_blank, is_nil, trim_space, split, str_eq, eqb, All,
  Option-cases, Bool-cases, if◌then◌else◌,
}
use thunder_device_plugin.Base.Joined.{base_name-join_paths}
use thunder_device_plugin.Base.FileNames.{base_name, IsPlain}
use thunder_device_plugin.Daemon.Cdi.Options.{CdiHookOptions}
use thunder_device_plugin.Daemon.Hook.Files.{owner_only, FileLaws, is_temp, write_file_atomic}
use thunder_device_plugin.Daemon.Hook.Published.{write_file_atomic_stores}
use thunder_device_plugin.Daemon.Hook.Exchange.{ThunderClientConfig, Codec}
use thunder_device_plugin.Daemon.Hook.Stage.{
  Node, HookError, exchange_with_retry, config_path, token_path, token_file, config_file, usable,
  hook_client_name, keep_config, exchange_staged_token, client_config_for_claim,
}
use thunder_device_plugin.Daemon.Hook.Attempts.{RequestLaws}
use thunder_device_plugin.Daemon.Hook.Named.{exchange_with_retry_named}

config_file-IsPlain : IsPlain config_file
unfolding thunder_device_plugin.Base.contains codes thunder_device_plugin.Base.str_eq
config_file-IsPlain = record { slashless = refl; shown = refl; not_here = refl; not_up = refl }

token_file-IsPlain : IsPlain token_file
unfolding thunder_device_plugin.Base.contains codes thunder_device_plugin.Base.str_eq
token_file-IsPlain = record { slashless = refl; shown = refl; not_here = refl; not_up = refl }

files_differ : token_file ≢ config_file
unfolding codes str_eq
files_differ h = let apart : false ≡ true = ap (λ s. str_eq s config_file) h in absurd (cc)

config_path-base_name : (opts : CdiHookOptions) → base_name (config_path opts) ≡ config_file
unfolding config_path
config_path-base_name opts = base_name-join_paths opts.state_dir config_file config_file-IsPlain

-- The configuration is neither the token nor a temporary file.
paths_differ : (opts : CdiHookOptions) → token_path opts ≢ config_path opts
unfolding token_path
paths_differ opts same = files_differ (
    sym (base_name-join_paths opts.state_dir token_file token_file-IsPlain)
    ∙ ap base_name same
    ∙ config_path-base_name opts)

config_path_lasts : (opts : CdiHookOptions) → is_temp (config_path opts) ≡ false
unfolding is_temp thunder_device_plugin.Base.strip_prefix codes
config_path_lasts opts = rw (config_path-base_name opts, is_temp) refl

-- A configuration that was encoded can be decoded, with the newline behind it.
pub record CodecLaws (codec : Codec) : Type 0 where
  pub decode-encode :
      (config : ThunderClientConfig) (encoded : Str)
      → codec.encode_config config ≡ ok encoded
      → codec.decode_config (encoded ++ 10 ∷ []) ≡ ok config

usable_encoded :
    {codec : Codec} (codec_laws : CodecLaws codec) (config : ThunderClientConfig) (encoded : Str)
    → codec.encode_config config ≡ ok encoded
    → is_nil config.client_id ≡ false
    → usable codec (ok (encoded ++ 10 ∷ [])) ≡ some config
unfolding usable
usable_encoded codec_laws config encoded same named =
    rw (codec_laws.decode-encode config encoded same, named, usable) refl

usable_read :
    (codec : Codec) (read : Outcome Fault Str) (config : ThunderClientConfig)
    → usable codec read ≡ some config
    → (content : Str) × (read ≡ ok content)
unfolding usable
usable_read codec (ok content) config h = (content, refl)
usable_read codec (err fault) config h = absurd (cc)

module _ {codec : Codec} (codec_laws : CodecLaws codec) {W : Type 0} (node : Node W)
    {contents : Str → W → Option Str} (file_laws : FileLaws node.files contents)
    (opts : CdiHookOptions) where
  -- A call that gave a configuration left it in the cache of the claim.
  Cached : Outcome HookError ThunderClientConfig × W → Type 0
  Cached (ok config, w) =
      (content : Str) × (contents (config_path opts) w ≡ some content)
      × (usable codec (ok content) ≡ some config)
  Cached (err e, w) = Unit

  keep_config-Cached :
      (config : ThunderClientConfig) (w : W)
      → is_nil config.client_id ≡ false
      → Cached (keep_config codec node opts config w)
  unfolding keep_config Cached
  keep_config-Cached config w named =
      Outcome-branch Cached (codec.encode_config config) _ _
        (λ encoded same.
          let content = encoded ++ 10 ∷ [] in
          let written = write_file_atomic node.files (config_path opts) content owner_only w in
          Option-branch Cached written.0 _ _
            (λ done. (
              content,
              file_laws.remove_keeps (token_path opts) (config_path opts) written.1
                    (paths_differ opts)
                  ∙ write_file_atomic_stores file_laws (config_path opts) content owner_only w
                      (config_path_lasts opts) done,
              usable_encoded codec_laws config encoded same named,
            ))
            (λ fault failed. tt))
        (λ e failed. tt)

  exchange_staged_token-Cached : (w : W) → Cached (exchange_staged_token codec node opts w)
  unfolding exchange_staged_token Cached
  exchange_staged_token-Cached w =
      let read = node.files.read_file (token_path opts) w in
      Outcome-branch Cached read.0 _ _
        (λ staged found.
          let answer =
            exchange_with_retry codec node opts (trim_space staged) (hook_client_name opts)
              read.1 in
          Outcome-branch Cached answer.0 _ _
            (λ config exchanged. keep_config-Cached config answer.1 (
              exchange_with_retry_named codec node opts (trim_space staged) (hook_client_name opts)
                read.1 config exchanged))
            (λ e failed. tt))
        (λ fault failed. tt)

  client_config_for_claim-Cached : (w : W) → Cached (client_config_for_claim codec node opts w)
  unfolding client_config_for_claim Cached
  client_config_for_claim-Cached w =
      let read = node.files.read_file (config_path opts) w in
      Option-branch Cached (usable codec read.0) _ _
        (λ nothing. exchange_staged_token-Cached read.1)
        (λ config cached.
          let (content, found) = usable_read codec read.0 config cached in
          (
            content,
            file_laws.read_keeps (config_path opts) (config_path opts) w
                ∙ file_laws.read_ok (config_path opts) w content found,
            ap (usable codec) (sym found) ∙ cached,
          ))

  Cached-ok :
      (r : Outcome HookError ThunderClientConfig × W) (config : ThunderClientConfig)
      → r.0 ≡ ok config
      → Cached r
      → (content : Str) × (contents (config_path opts) r.1 ≡ some content)
        × (usable codec (ok content) ≡ some config)
  unfolding Cached
  Cached-ok (ok config', w) config same (content, there, used) =
      let same' : config' ≡ config = cc in (content, there, used ∙ ap some same')
  Cached-ok (err e, w) config same cached = absurd (cc)

  module _
      (readable : (path : Str) (w : W) (content : Str)
        → contents path w ≡ some content
        → (node.files.read_file path w).0 ≡ ok content)
      {sent : W → ℕ} (request_laws : RequestLaws node sent) where
    reads_cache :
        (w : W) (content : Str) (config : ThunderClientConfig)
        → contents (config_path opts) w ≡ some content
        → usable codec (ok content) ≡ some config
        → client_config_for_claim codec node opts w
          ≡ (ok config, (node.files.read_file (config_path opts) w).1)
    unfolding client_config_for_claim
    reads_cache w content config there used =
        rw
          (
            ap (usable codec) (readable (config_path opts) w content there) ∙ used,
            client_config_for_claim,
          )
          refl

    -- Where files and JSON keep their laws and a file that is there can be read, a configuration that
    -- clientConfigForClaim gave is what it gives when it runs again, and then it sends no request.
    pub client_config_reused :
        (w : W) (config : ThunderClientConfig)
        → (client_config_for_claim codec node opts w).0 ≡ ok config
        → let (answer, w') = client_config_for_claim codec node opts w in
          let (again, w'') = client_config_for_claim codec node opts w' in
          (again ≡ ok config) × (sent w'' ≡ sent w')
    client_config_reused w config given =
        let (answer, w') = client_config_for_claim codec node opts w in
        let (content, there, used) =
          Cached-ok (client_config_for_claim codec node opts w) config given
            (client_config_for_claim-Cached w) in
        let again = reads_cache w' content config there used in
        (
          ap (λ r. r.0) again,
          ap (λ r. sent r.1) again ∙ request_laws.read_sends (config_path opts) w',
        )
