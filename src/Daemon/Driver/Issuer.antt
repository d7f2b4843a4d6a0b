-- ===== src/Daemon/Driver/Issuer.antt =====
-- ThunderTokenIssuer: the token issuer of the driver, over the calls of the Thunder SDK.
use thunder_device_plugin.Base.{
  ℕ, Option, none, some, Str, codes, ok, err, Fault, other, is_not_found, Call, is_blank, is_nil,
  trim_space, if◌then◌else◌,
}
use thunder_device_plugin.Daemon.Driver.Types.{Allocation, TokenIssuer}

-- The SDK's request and answer; when the token expires is not read by the driver.
pub record CreateClientEnrollmentRequest : Type 0 where
  pub zone_id : Str
  pub gpu_type : Str
  pub gpu_count : ℕ

pub record ClientEnrollment : Type 0 where
  pub enrollment_token_id : Str
  pub enrollment_token : Str

pub record ThunderSdk (W : Type 0) : Type 0 where
  pub create_client_enrollment : CreateClientEnrollmentRequest → Call W Fault ClientEnrollment
  pub revoke_client : Str → W → Option Fault × W
  pub unenroll_client : Str → W → Option Fault × W

-- A nil client is `none`.
pub record ThunderTokenIssuer (W : Type 0) : Type 0 where
  pub client : Option (ThunderSdk W)
  pub zone_id : Str

-- "thunder client is required"
abbrev client_required : Fault
client_required = other (codes "thunder client is required")

-- A client or a token that Thunder no longer knows is revoked.
unfoldable pub known : Option Fault → Option Fault
known none = none
known (some fault) = if is_not_found fault then none else some fault

module _ {W : Type 0} (i : ThunderTokenIssuer W) where
  unfoldable pub mint : Allocation → Call W Fault (Str × Str)
  mint allocation w = elim i.client [
    | none ↦ (err client_required, w)
    | some client ↦
        let zone = trim_space i.zone_id in
        let (answer, w') =
          client.create_client_enrollment
            (record {
              zone_id = if is_nil zone then allocation.zone else zone;
              gpu_type = allocation.gpu_type;
              gpu_count = allocation.gpu_count;
            })
            w in
        (
          elim answer [
            | err fault ↦ err fault
            | ok token ↦ ok (token.enrollment_token_id, token.enrollment_token)
          ],
          w',
        )
  ]

  unfoldable pub revoke_client : Str → W → Option Fault × W
  unfolding known
  revoke_client client_id w =
      let revoked : Option Fault × W = elim i.client [
        | none ↦ (some client_required, w)
        | some client ↦ let (answer, w') = client.revoke_client client_id w in (known answer, w')
      ] in
      if is_blank client_id then (none, w) else revoked

  unfoldable pub revoke : Str → W → Option Fault × W
  unfolding known
  revoke token_id w =
      let revoked : Option Fault × W = elim i.client [
        | none ↦ (some client_required, w)
        | some client ↦ let (answer, w') = client.unenroll_client token_id w in (known answer, w')
      ] in
      if is_blank token_id then (none, w) else revoked

  -- The issuer as the driver takes it.
  abbrev pub as_token_issuer : TokenIssuer W
  as_token_issuer = record { mint = mint; revoke = revoke; revoke_client = revoke_client }
