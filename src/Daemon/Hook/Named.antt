-- ===== src/Daemon/Hook/Named.antt =====
-- The exchange of a token: the client that the answer names.
use thunder_device_plugin.Base.{
  ℕ, zero, suc, ◌≡◌, refl, sym, ap, inl, inr, false, not, ◌||◌, none, some, List, [], ◌∷◌, Str,
  codes, Outcome, ok, err, Outcome-branch, Option-branch, if-branch, is_blank, is_nil, trim_space,
  split, eqb, ltb, All, Bool-cases,
}
use thunder_device_plugin.Base.Int.{pos_part}
use thunder_device_plugin.Daemon.Cdi.Options.{CdiHookOptions}
use thunder_device_plugin.Daemon.Hook.Exchange.{
  ExchangeError, is_retryable, ThunderClientConfig, ClientClaims, Response, Codec, check_claims,
  missing_field, claims_of_parts, decode_payload, decode_client_claims, config_from_payload,
  config_from_response, enrollment_body, exchange_client_enrollment,
}
use thunder_device_plugin.Daemon.Hook.Stage.{
  exchange_initial_delay, Node, too_late, next_delay, exchange, attempt, exchange_with_retry,
}

shown_text : (s : Str) → is_blank s ≡ false → is_nil s ≡ false
unfolding trim_space
shown_text [] h = cc
shown_text (c ∷ s) h = refl

-- Claims that are accepted name a client.
NamesClient : Outcome Str ClientClaims → Type 0
NamesClient (ok claims) = is_nil claims.client_id ≡ false
NamesClient (err e) = Unit

missing_field-none :
    (fields : List (Str × Str))
    → missing_field fields ≡ none
    → All (λ f. is_blank f.1 ≡ false) fields
unfolding missing_field
missing_field-none [] h = tt
missing_field-none ((field, value) ∷ fields) h = elim (Bool-cases (is_blank value)) [
  | inl blank ↦ let no : some field ≡ none = rw blank at h in absurd (cc)
  | inr shown ↦ (shown, missing_field-none fields (rw shown at h))
]

check_claims-NamesClient : (claims : ClientClaims) → NamesClient (check_claims claims)
unfolding check_claims NamesClient
check_claims-NamesClient claims =
    let fields =
      (codes "orgId", claims.org_id)
      ∷ (codes "clientId", claims.client_id)
      ∷ (codes "gpuType", claims.gpu_type)
      ∷ [] in
    Option-branch NamesClient (missing_field fields) _ _
      (λ complete.
        let client = (missing_field-none fields complete).1.0 in
        if-branch NamesClient (eqb (pos_part claims.gpu_count) 0) _ _ (λ few. tt)
          (λ some_gpus. shown_text claims.client_id client))
      (λ field missing. tt)

module _ (codec : Codec) where
  decode_payload-NamesClient : (part : Str) → NamesClient (decode_payload codec part)
  unfolding decode_payload NamesClient
  decode_payload-NamesClient part =
      Outcome-branch NamesClient (codec.decode_base64 part) _ _
        (λ payload decoded.
          Outcome-branch NamesClient (codec.decode_claims payload) _ _
            (λ claims decoded'. check_claims-NamesClient claims) (λ e failed. tt))
        (λ e failed. tt)

  claims_of_parts-NamesClient : (parts : List Str) → NamesClient (claims_of_parts codec parts)
  unfolding claims_of_parts NamesClient
  claims_of_parts-NamesClient (head ∷ payload ∷ signature ∷ []) = decode_payload-NamesClient payload
  claims_of_parts-NamesClient _ = tt

  -- A configuration that was exchanged has a client.
  HasClient : Outcome ExchangeError ThunderClientConfig → Type 0
  HasClient (ok config) = is_nil config.client_id ≡ false
  HasClient (err e) = Unit

  HasClient-ok :
      (r : Outcome ExchangeError ThunderClientConfig) (config : ThunderClientConfig)
      → r ≡ ok config
      → HasClient r
      → is_nil config.client_id ≡ false
  unfolding HasClient
  HasClient-ok (ok config') config same named =
      let same' : config' ≡ config = cc in rw (sym (ap (λ c. c.client_id) same')) named
  HasClient-ok (err e) config same named = cc

  HasClient-claims :
      (claims : Outcome Str ClientClaims) (f : ClientClaims → ThunderClientConfig)
      (g : Str → ExchangeError)
      → ((c : ClientClaims) → (f c).client_id ≡ c.client_id)
      → NamesClient claims
      → HasClient (elim claims [ ok c ↦ ok (f c) | err e ↦ err (g e) ])
  unfolding NamesClient HasClient
  HasClient-claims (ok c) f g same named = rw (same c) named
  HasClient-claims (err e) f g same named = tt

  config_from_payload-HasClient :
      (central_url telemetry_url payload : Str)
      → HasClient (config_from_payload codec central_url telemetry_url payload)
  unfolding config_from_payload HasClient decode_client_claims
  config_from_payload-HasClient central_url telemetry_url payload =
      Outcome-branch HasClient (codec.decode_response payload) _ _
        (λ enrolled decoded.
          if-branch HasClient (is_nil enrolled.auth_token) _ _ (λ missing. tt)
            (λ token.
              if-branch HasClient (is_nil enrolled.jwt) _ _ (λ missing. tt)
                (λ jwt.
                  HasClient-claims (decode_client_claims codec enrolled.jwt) _ _ (λ c. refl)
                    (claims_of_parts-NamesClient (split b'.' enrolled.jwt)))))
        (λ e failed. tt)

  config_from_response-HasClient :
      (central_url telemetry_url : Str) (response : Response)
      → HasClient (config_from_response codec central_url telemetry_url response)
  unfolding config_from_response HasClient
  config_from_response-HasClient central_url telemetry_url response =
      Outcome-branch HasClient response.payload _ _
        (λ payload received.
          if-branch HasClient (ltb response.status_code 200 || ltb 299 response.status_code) _ _
            (λ failed. tt)
            (λ success. config_from_payload-HasClient central_url telemetry_url payload))
        (λ e failed. tt)

  module _ {W : Type 0} (node : Node W) (opts : CdiHookOptions) (token client_name : Str) where
    Answered : Outcome ExchangeError ThunderClientConfig × W → Type 0
    Answered r = HasClient r.0

    exchange-HasClient : (w : W) → HasClient (exchange codec node opts token client_name w).0
    unfolding exchange exchange_client_enrollment HasClient Answered
    exchange-HasClient w =
        if-branch Answered (is_blank token) _ _ (λ blank. tt)
          (λ shown.
            if-branch Answered (is_blank opts.central_url) _ _ (λ blank. tt)
              (λ shown'.
                Outcome-branch Answered (enrollment_body codec client_name) _ _
                  (λ body encoded.
                    Option-branch Answered (node.transport.new_request _) _ _
                      (λ built.
                        Outcome-branch HasClient (node.transport.send _ _ body w).0 _ _
                          (λ response sent.
                            config_from_response-HasClient opts.central_url opts.telemetry_url
                              response)
                          (λ e failed. tt))
                      (λ e failed. tt))
                  (λ e failed. tt)))

    attempt-HasClient :
        (left delay : ℕ) (w : W)
        → HasClient (attempt codec node opts left delay token client_name w).0
    unfolding attempt HasClient Answered
    attempt-HasClient zero delay w = exchange-HasClient w
    attempt-HasClient (suc left) delay w =
        Outcome-branch Answered (exchange codec node opts token client_name w).0 _ _
          (λ config exchanged. HasClient-ok _ config exchanged (exchange-HasClient w))
          (λ e failed.
            if-branch Answered (not (is_retryable e)) _ _ (λ verdict. tt)
              (λ passes.
                if-branch Answered (too_late node _ _).0 _ _ (λ late. tt)
                  (λ in_time.
                    if-branch Answered (node.wait _ _).0 _ _ (λ done. tt)
                      (λ waited. attempt-HasClient left (next_delay delay) _))))

    -- Every configuration that the exchange gives names a client.
    pub exchange_with_retry_named :
        (w : W) (config : ThunderClientConfig)
        → (exchange_with_retry codec node opts token client_name w).0 ≡ ok config
        → is_nil config.client_id ≡ false
    unfolding exchange_with_retry
    exchange_with_retry_named w config exchanged =
        HasClient-ok _ config exchanged (attempt-HasClient 4 exchange_initial_delay w)
