-- ===== src/Daemon/Hook/Stage.antt =====
-- internal/daemon/cdihook.go: the retries of the exchange, and the configuration of a claim.
use thunder_device_plugin.Base.{
  ℕ, zero, suc, ◌+◌, ◌-◌, ◌*◌, ◌/◌, Bool, false, not, Option, none, some, [], ◌∷◌, ◌++◌, Str, codes,
  Outcome, ok, err, Fault, Call, ltb, is_nil, trim_space, if◌then◌else◌,
}
use thunder_device_plugin.Base.Paths.{join_paths}
use thunder_device_plugin.Base.FileNames.{base_name}
use thunder_device_plugin.Daemon.Cdi.Options.{CdiHookOptions}
use thunder_device_plugin.Daemon.Hook.Files.{owner_only, Files, write_file_atomic}
use thunder_device_plugin.Daemon.Hook.Exchange.{
  ExchangeError, is_retryable, ThunderClientConfig, Codec, Transport, exchange_client_enrollment,
}

-- What the hook runs on, with times in nanoseconds: rand.Int64N, the deadline of the context if it has
-- one, the clock, and a wait, which says whether the context was done first.
pub record Node (W : Type 0) : Type 0 where
  pub files : Files W
  pub transport : Transport W
  pub random_below : ℕ → W → ℕ × W
  pub deadline : Option ℕ
  pub now : W → ℕ × W
  pub wait : ℕ → W → Bool × W

pub data HookError : Type 0 where
  token_unreadable : Fault → HookError
  exchange_failed : ExchangeError → HookError
  config_unencodable : Str → HookError
  config_uncached : Fault → HookError

abbrev pub exchange_attempts : ℕ
exchange_attempts = 5

abbrev pub exchange_initial_delay : ℕ
exchange_initial_delay = 500000000

abbrev exchange_max_delay : ℕ
exchange_max_delay = 8000000000

abbrev pub token_file : Str
token_file = codes "enrollment-token"

abbrev pub config_file : Str
config_file = codes "config.json"

unfoldable pub config_path : CdiHookOptions → Str
config_path opts = join_paths (opts.state_dir ∷ config_file ∷ [])

unfoldable pub token_path : CdiHookOptions → Str
token_path opts = join_paths (opts.state_dir ∷ token_file ∷ [])

unfoldable pub next_delay : ℕ → ℕ
next_delay delay = if ltb delay exchange_max_delay then delay * 2 else delay

-- The cached configuration, if there is one that can be used.
unfoldable pub usable : Codec → Outcome Fault Str → Option ThunderClientConfig
usable codec (err fault) = none
usable codec (ok cached) = elim (codec.decode_config cached) [
  | err e ↦ none
  | ok config ↦ if is_nil config.client_id then none else some config
]

-- The name of the client in Thunder.
unfoldable pub hook_client_name : CdiHookOptions → Str
hook_client_name opts =
    let client_name = trim_space opts.client_name in
    if is_nil client_name then base_name opts.state_dir else client_name

module _ {W : Type 0} (node : Node W) where
  unfoldable pub jitter : ℕ → W → ℕ × W
  jitter delay w = let (spread, w') = node.random_below delay w in (delay / 2 + spread, w')

  -- Would the wait leave no time for another attempt?
  unfoldable pub too_late : ℕ → W → Bool × W
  too_late wait w = elim node.deadline [
    | none ↦ (false, w)
    | some deadline ↦
        let (now, w') = node.now w in (ltb deadline (now + wait + exchange_initial_delay), w')
  ]

module _ (codec : Codec) {W : Type 0} (node : Node W) (opts : CdiHookOptions) where
  unfoldable pub exchange : Str → Str → Call W ExchangeError ThunderClientConfig
  exchange token client_name w =
      exchange_client_enrollment codec node.transport opts.central_url opts.telemetry_url token
        client_name w

  -- One attempt, and the number that may follow it.
  unfoldable pub attempt : ℕ → ℕ → Str → Str → Call W ExchangeError ThunderClientConfig
  unfolding jitter too_late next_delay exchange
  attempt zero delay token client_name w = exchange token client_name w
  attempt (suc left) delay token client_name w =
      let (answer, w₁) = exchange token client_name w in
      let (wait, w₂) = jitter node delay w₁ in
      let (late, w₃) = too_late node wait w₂ in
      let (done, w₄) = node.wait wait w₃ in
      let rest = attempt left (next_delay delay) token client_name w₄ in
      elim answer [
        | ok config ↦ (ok config, w₁)
        | err e ↦
            if not (is_retryable e)
            then (err e, w₁)
            else if late
            then (err e, w₃)
            else if done
            then (err e, w₄)
            else rest
      ]

  unfoldable pub exchange_with_retry : Str → Str → Call W ExchangeError ThunderClientConfig
  unfolding attempt
  exchange_with_retry token client_name w =
      attempt (exchange_attempts - 1) exchange_initial_delay token client_name w

  -- The exchanged configuration is kept, and the token that it spent is removed.
  unfoldable pub keep_config : ThunderClientConfig → Call W HookError ThunderClientConfig
  unfolding write_file_atomic config_path token_path
  keep_config config w = elim (codec.encode_config config) [
    | err e ↦ (err (config_unencodable e), w)
    | ok encoded ↦
        let (failed, w₁) =
          write_file_atomic node.files (config_path opts) (encoded ++ 10 ∷ []) owner_only w in
        let (ignored, w₂) = node.files.remove (token_path opts) w₁ in
        elim failed [ some fault ↦ (err (config_uncached fault), w₁) | none ↦ (ok config, w₂) ]
  ]

  -- clientConfigForClaim without a cached configuration.
  unfoldable pub exchange_staged_token : Call W HookError ThunderClientConfig
  unfolding exchange_with_retry keep_config hook_client_name token_path
  exchange_staged_token w =
      let (token, w₁) = node.files.read_file (token_path opts) w in
      elim token [
        | err fault ↦ (err (token_unreadable fault), w₁)
        | ok staged ↦
            let (answer, w₂) = exchange_with_retry (trim_space staged) (hook_client_name opts) w₁ in
            elim answer [
              | err e ↦ (err (exchange_failed e), w₂)
              | ok config ↦ keep_config config w₂
            ]
      ]

  unfoldable pub client_config_for_claim : Call W HookError ThunderClientConfig
  unfolding exchange_staged_token usable config_path
  client_config_for_claim w =
      let (cached, w₁) = node.files.read_file (config_path opts) w in
      elim (usable codec cached) [ some config ↦ (ok config, w₁) | none ↦ exchange_staged_token w₁ ]
