-- ===== src/Daemon/Hook/Exchange.antt =====
-- internal/daemon/clientconfig.go: an enrollment token is exchanged for the configuration of a client.
use thunder_device_plugin.Base.{
  ℕ, Bool, true, false, ◌||◌, Option, none, some, List, [], ◌∷◌, ◌++◌, Str, codes, Outcome, ok, err,
  Call, eqb, ltb, leb, is_blank, is_nil, split, trim_suffix, trim_space, if◌then◌else◌,
}
use thunder_device_plugin.Base.Int.{ℤ, pos_part}

-- An error of the exchange: one that another attempt might get past, or a verdict.
pub data ExchangeError : Type 0 where
  retryable : Str → ExchangeError
  rejected : Str → ExchangeError

abbrev pub is_retryable : ExchangeError → Bool
is_retryable (retryable text) = true
is_retryable (rejected text) = false

pub record ThunderClientConfig : Type 0 where
  pub device_id : Str
  pub client_id : Str
  pub org_id : Str
  pub gpu_type : Str
  pub gpu_count : ℤ
  pub central_api_url : Str
  pub auth_token : Str
  pub claims : Str
  pub enable_grpc_tls : Bool
  pub thunderd_discovery_enabled : Bool
  pub telemetry_collector : Str

pub record ClientEnrollmentResponse : Type 0 where
  pub auth_token : Str
  pub jwt : Str

pub record ClientClaims : Type 0 where
  pub org_id : Str
  pub client_id : Str
  pub gpu_type : Str
  pub gpu_count : ℤ

-- encoding/json and encoding/base64.
pub record Codec : Type 0 where
  pub encode_hostname : Str → Outcome Str Str
  pub decode_response : Str → Outcome Str ClientEnrollmentResponse
  pub decode_base64 : Str → Outcome Str Str
  pub decode_claims : Str → Outcome Str ClientClaims
  pub encode_config : ThunderClientConfig → Outcome Str Str
  pub decode_config : Str → Outcome Str ThunderClientConfig

-- An answer of the Thunder API: its status, and its body as far as it could be read.
pub record Response : Type 0 where
  pub status_code : ℕ
  pub status : Str
  pub payload : Outcome Str Str

-- package net/http: the request that is made of the endpoint, the token and the body, and its answer.
pub record Transport (W : Type 0) : Type 0 where
  pub new_request : Str → Option Str
  pub send : Str → Str → Str → Call W Str Response

-- The fields that a claim must have, in the order in which the map of them is read.
unfoldable pub missing_field : List (Str × Str) → Option Str
missing_field [] = none
missing_field ((field, value) ∷ fields) =
    let later = missing_field fields in if is_blank value then some field else later

unfoldable pub check_claims : ClientClaims → Outcome Str ClientClaims
unfolding missing_field
check_claims claims =
    elim (missing_field (
      (codes "orgId", claims.org_id)
      ∷ (codes "clientId", claims.client_id)
      ∷ (codes "gpuType", claims.gpu_type)
      ∷ [])) [
        | some field ↦ err (codes "client claims JWT is missing " ++ field)
        | none ↦
            if eqb (pos_part claims.gpu_count) 0
            then err (codes "client claims JWT is missing gpuCount")
            else ok claims
      ]

module _ (codec : Codec) where
  unfoldable pub decode_payload : Str → Outcome Str ClientClaims
  unfolding check_claims
  decode_payload part = elim (codec.decode_base64 part) [
    | err e ↦ err (codes "client claims JWT payload could not be decoded: " ++ e)
    | ok payload ↦ elim (codec.decode_claims payload) [
      | err e ↦ err (codes "client claims JWT payload is malformed: " ++ e)
      | ok claims ↦ check_claims claims
    ]
  ]

  -- Three parts with dots between; the middle one is the payload.
  unfoldable pub claims_of_parts : List Str → Outcome Str ClientClaims
  unfolding decode_payload
  claims_of_parts (head ∷ payload ∷ signature ∷ []) = decode_payload payload
  claims_of_parts _ = err (codes "client claims JWT is malformed")

  unfoldable pub decode_client_claims : Str → Outcome Str ClientClaims
  unfolding claims_of_parts
  decode_client_claims token = claims_of_parts (split b'.' token)

  -- The configuration from the body of an answer that is no error.
  unfoldable pub config_from_payload : Str → Str → Str → Outcome ExchangeError ThunderClientConfig
  unfolding decode_client_claims
  config_from_payload central_url telemetry_url payload = elim (codec.decode_response payload) [
    | err e ↦ err (rejected (codes "decode enrollment response: " ++ e))
    | ok enrolled ↦
        if is_nil enrolled.auth_token
        then err (rejected (codes "enrollment response is missing authToken"))
        else if is_nil enrolled.jwt
        then err (rejected (codes "enrollment response is missing jwt"))
        else elim (decode_client_claims enrolled.jwt) [
          | err e ↦ err (rejected e)
          | ok claims ↦ ok (record {
            device_id = claims.client_id;
            client_id = claims.client_id;
            org_id = claims.org_id;
            gpu_type = claims.gpu_type;
            gpu_count = claims.gpu_count;
            central_api_url = trim_suffix b'/' central_url;
            auth_token = enrolled.auth_token;
            claims = enrolled.jwt;
            enable_grpc_tls = false;
            thunderd_discovery_enabled = true;
            telemetry_collector = telemetry_url;
          })
        ]
  ]

  -- A rate limit (429) or a fault of the server may pass; the other statuses but 2xx are verdicts.
  unfoldable pub status_error : Response → Str → ExchangeError
  status_error response payload =
      let text =
        codes "exchange client enrollment: status "
        ++ response.status
        ++ codes ": "
        ++ trim_space payload in
      if eqb response.status_code 429 || leb 500 response.status_code
      then retryable text
      else rejected text

  unfoldable pub config_from_response :
      Str → Str → Response → Outcome ExchangeError ThunderClientConfig
  unfolding config_from_payload status_error
  config_from_response central_url telemetry_url response = elim response.payload [
    | err e ↦ err (rejected (codes "read enrollment response: " ++ e))
    | ok payload ↦
        if ltb response.status_code 200 || ltb 299 response.status_code
        then err (status_error response payload)
        else config_from_payload central_url telemetry_url payload
  ]

  -- The body of the request.
  unfoldable pub enrollment_body : Str → Outcome Str Str
  enrollment_body hostname =
      if is_blank hostname then ok (codes "{}") else codec.encode_hostname hostname

  unfoldable pub exchange_client_enrollment :
      {W : Type 0} → Transport W → Str → Str → Str → Str → Call W ExchangeError ThunderClientConfig
  unfolding config_from_response enrollment_body
  exchange_client_enrollment transport central_url telemetry_url token hostname w =
      let endpoint = trim_suffix b'/' central_url ++ codes "/api/v1/enrollment-tokens/enroll" in
      if is_blank token
      then (err (rejected (codes "enrollment token is required")), w)
      else if is_blank central_url
      then (err (rejected (codes "central URL is required")), w)
      else elim (enrollment_body hostname) [
        | err e ↦ (err (rejected (codes "encode enrollment body: " ++ e)), w)
        | ok body ↦ elim (transport.new_request endpoint) [
          | some e ↦ (err (rejected (codes "build enrollment request: " ++ e)), w)
          | none ↦
              let (answer, w') = transport.send endpoint (codes "Bearer " ++ token) body w in
              (
                elim answer [
                  | err e ↦ err (retryable (codes "exchange client enrollment: " ++ e))
                  | ok response ↦ config_from_response central_url telemetry_url response
                ],
                w',
              )
        ]
      ]
