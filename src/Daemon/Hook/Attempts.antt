-- ===== src/Daemon/Hook/Attempts.antt =====
-- The retries of the exchange: the number of requests for a token.
use thunder_device_plugin.Base.{
  ℕ, zero, suc, ◌+◌, ◌≤◌, ◌≡◌, refl, ◌∙◌, inl, inr, not, Str, Outcome, ok, err, arith,
  Outcome-branch, Option-branch, if-branch, is_blank, Option-cases,
}
use thunder_device_plugin.Daemon.Cdi.Options.{CdiHookOptions}
use thunder_device_plugin.Daemon.Hook.Exchange.{
  ExchangeError, retryable, rejected, is_retryable, ThunderClientConfig, Codec,
  exchange_client_enrollment, enrollment_body,
}
use thunder_device_plugin.Daemon.Hook.Stage.{
  exchange_initial_delay, Node, jitter, too_late, next_delay, exchange, attempt,
  exchange_with_retry, exchange_attempts,
}

-- What the other calls leave of the number of requests that were sent, and what a request adds to it.
pub record RequestLaws {W : Type 0} (node : Node W) (sent : W → ℕ) : Type 0 where
  pub send_counts :
      (endpoint bearer body : Str) (w : W)
      → sent (node.transport.send endpoint bearer body w).1 ≡ suc (sent w)
  pub random_sends : (bound : ℕ) (w : W) → sent (node.random_below bound w).1 ≡ sent w
  pub now_sends : (w : W) → sent (node.now w).1 ≡ sent w
  pub wait_sends : (delay : ℕ) (w : W) → sent (node.wait delay w).1 ≡ sent w
  pub read_sends : (path : Str) (w : W) → sent (node.files.read_file path w).1 ≡ sent w

module _ {W : Type 0} {node : Node W} {sent : W → ℕ} (laws : RequestLaws node sent) where
  jitter_sends : (delay : ℕ) (w : W) → sent (jitter node delay w).1 ≡ sent w
  unfolding jitter
  jitter_sends delay w = laws.random_sends delay w

  too_late_sends : (wait : ℕ) (w : W) → sent (too_late node wait w).1 ≡ sent w
  unfolding too_late
  too_late_sends wait w = elim (Option-cases node.deadline) [
    | inl unlimited ↦ rw unlimited refl
    | inr (deadline, limited) ↦ rw limited (laws.now_sends w)
  ]

module _ (codec : Codec) {W : Type 0} {node : Node W} (opts : CdiHookOptions) {sent : W → ℕ}
    (laws : RequestLaws node sent) where
  -- So many requests were sent since, or fewer; no fewer where the answer is an error that may pass.
  unfoldable pub Asked : ℕ → ℕ → Outcome ExchangeError ThunderClientConfig × W → Type 0
  Asked before bound (ok config, w) = sent w ≤ before + bound
  Asked before bound (err (rejected text), w) = sent w ≤ before + bound
  Asked before bound (err (retryable text), w) = sent w ≡ before + bound

  Asked-Within :
      (before bound : ℕ) (r : Outcome ExchangeError ThunderClientConfig × W)
      → Asked before bound r
      → sent r.1 ≤ before + bound
  unfolding Asked
  Asked-Within before bound (ok config, w) h = h
  Asked-Within before bound (err (rejected text), w) h = h
  Asked-Within before bound (err (retryable text), w) h = omega (arith, h)

  config_from_response-Asked :
      (before : ℕ) (r : Outcome ExchangeError ThunderClientConfig) (w : W)
      → sent w ≡ suc before
      → Asked before 1 (r, w)
  unfolding Asked
  config_from_response-Asked before (ok config) w h = omega (arith, h)
  config_from_response-Asked before (err (rejected text)) w h = omega (arith, h)
  config_from_response-Asked before (err (retryable text)) w h = omega (arith, h)

  -- An exchange sends one request or, where it finds that it cannot, none.
  pub exchange-Asked :
      (token client_name : Str) (w : W)
      → Asked (sent w) 1 (exchange codec node opts token client_name w)
  unfolding exchange exchange_client_enrollment Asked
  exchange-Asked token client_name w =
      let After : Outcome ExchangeError ThunderClientConfig × W → Type 0 = Asked (sent w) 1 in
      let none_sent : sent w ≤ sent w + 1 = omega arith in
      if-branch After (is_blank token) _ _ (λ blank. none_sent)
        (λ shown.
          if-branch After (is_blank opts.central_url) _ _ (λ blank'. none_sent)
            (λ shown'.
              Outcome-branch After (enrollment_body codec client_name) _ _
                (λ body encoded.
                  Option-branch After (node.transport.new_request _) _ _
                    (λ built. config_from_response-Asked (sent w) _ _ (laws.send_counts _ _ body w))
                    (λ e failed. none_sent))
                (λ e failed. none_sent)))

  -- The world in which the next attempt starts.
  abbrev pub waited : ℕ → W → W
  waited delay w₁ =
      let (wait, w₂) = jitter node delay w₁ in
      let (late, w₃) = too_late node wait w₂ in (node.wait wait w₃).1

  pub waited_sends : (delay : ℕ) (w : W) → sent (waited delay w) ≡ sent w
  waited_sends delay w = laws.wait_sends _ _ ∙ too_late_sends laws _ _ ∙ jitter_sends laws delay w

  late_sends :
      (delay : ℕ) (w : W)
      → let (wait, w₂) = jitter node delay w in sent (too_late node wait w₂).1 ≡ sent w
  late_sends delay w = too_late_sends laws _ _ ∙ jitter_sends laws delay w

  pub exchange-Within :
      (token client_name : Str) (w : W)
      → sent (exchange codec node opts token client_name w).1 ≤ suc (sent w)
  exchange-Within token client_name w =
      let h =
        Asked-Within (sent w) 1 (exchange codec node opts token client_name w)
          (exchange-Asked token client_name w) in
      omega (arith, h)

  attempt-Within :
      (left delay : ℕ) (token client_name : Str) (w : W)
      → sent (attempt codec node opts left delay token client_name w).1 ≤ sent w + suc left
  unfolding attempt
  attempt-Within zero delay token client_name w =
      let h = exchange-Within token client_name w in omega (arith, h)
  attempt-Within (suc left) delay token client_name w =
      let Within : Outcome ExchangeError ThunderClientConfig × W → Type 0 =
        λ r. sent r.1 ≤ sent w + suc (suc left) in
      let (answer, w₁) = exchange codec node opts token client_name w in
      let w₄ = waited delay w₁ in
      let once = exchange-Within token client_name w in
      let now : sent w₁ ≤ sent w + suc (suc left) = omega (arith, once) in
      Outcome-branch Within answer _ _ (λ config exchanged. now)
        (λ e failed.
          if-branch Within (not (is_retryable e)) _ _ (λ verdict. now)
            (λ may_pass.
              if-branch Within (too_late node _ _).0 _ _
                (λ late. omega (arith, late_sends delay w₁, once))
                (λ in_time.
                  if-branch Within (node.wait _ _).0 _ _
                    (λ done. omega (arith, waited_sends delay w₁, once))
                    (λ waited. omega (
                      arith,
                      waited_sends delay w₁,
                      once,
                      attempt-Within left (next_delay delay) token client_name w₄,
                    )))))

  -- Whatever Thunder answers, the hook sends at most five requests for a token.
  pub exchange_with_retry_within :
      (token client_name : Str) (w : W)
      → sent (exchange_with_retry codec node opts token client_name w).1
        ≤ sent w + exchange_attempts
  unfolding exchange_with_retry
  exchange_with_retry_within token client_name w =
      attempt-Within 4 exchange_initial_delay token client_name w
