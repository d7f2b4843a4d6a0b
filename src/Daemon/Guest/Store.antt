-- ===== src/Daemon/Guest/Store.antt =====
-- KubernetesGuestConfigStore: Create, Remove.
use thunder_device_plugin.Base.{
  ◌-◌, Option, none, some, [], ◌∷◌, ◌++◌, Str, codes, Assoc, ok, err, Fault, other, is_not_found,
  Call, leb, length, take, is_blank, is_nil, trim_space, to_lower, trim_suffix, join, if◌then◌else◌,
}
use thunder_device_plugin.Daemon.Driver.{Allocation, GuestArtifacts, GuestConfigStore}

-- A Secret, with the metadata that the code reads and writes.
pub record Secret : Type 0 where
  pub name : Str
  pub namespace : Str
  pub labels : Assoc Str Str
  pub kind : Str
  pub content : Assoc Str Str
  pub resource_version : Str

-- The Kubernetes client for Secrets.
pub record SecretApi (W : Type 0) : Type 0 where
  pub get : Str → Str → Call W Fault Secret
  pub create : Secret → W → Option Fault × W
  pub update : Secret → W → Option Fault × W
  pub delete : Str → Str → W → Option Fault × W

-- The first ten digits of SHA-256 in hexadecimal are a parameter, `digest`.
unfoldable pub thunder_guest_artifact_name : (Str → Str) → Str → Str → Str
thunder_guest_artifact_name digest claim_name suffix =
    let given = to_lower (trim_space claim_name) in
    let base = if is_nil given then codes "claim" else given in
    let name = base ++ b'-' ∷ suffix in
    let hash = digest name in
    let max_base_len = 253 - length suffix - length hash - 2 in
    if leb (length name) 253
    then name
    else trim_suffix b'-' (take max_base_len base) ++ b'-' ∷ hash ++ b'-' ∷ suffix

unfoldable pub thunder_guest_setup_secret_name : (Str → Str) → Str → Str
unfolding thunder_guest_artifact_name
thunder_guest_setup_secret_name digest claim_name =
    thunder_guest_artifact_name digest claim_name (codes "thunder-setup")

unfoldable pub guest_artifact_labels : Allocation → Assoc Str Str
guest_artifact_labels allocation =
    (codes "app.kubernetes.io/name", codes "thunder-dra-driver")
    ∷ (codes "app.kubernetes.io/component", codes "guest-config")
    ∷ (codes "thundercompute.com/claim-uid", allocation.claim_uid)
    ∷ (codes "thundercompute.com/claim-namespace", allocation.claim_namespace)
    ∷ (codes "thundercompute.com/claim-name", allocation.claim_name)
    ∷ []

unfoldable pub thunder_guest_install_script : Str → Str
thunder_guest_install_script install_command =
    let given = trim_space install_command in
    let command =
      if is_nil given
      then codes "echo thunder client install command is not configured >&2; exit 1"
      else given in
    join (10 ∷ []) (
      codes "#!/usr/bin/env bash"
      ∷ codes "set -euo pipefail"
      ∷ []
      ∷ codes "TOKEN_FILE=\"${THUNDER_ENROLLMENT_TOKEN_FILE:-/mnt/thunder-setup/enrollment-token}\""
      ∷ codes "if [[ ! -s \"${TOKEN_FILE}\" ]]; then"
      ∷ codes "  echo \"Thunder enrollment token file is missing: ${TOKEN_FILE}\" >&2"
      ∷ codes "  exit 1"
      ∷ codes "fi"
      ∷ codes "export THUNDER_ENROLLMENT_TOKEN=\"$(cat \"${TOKEN_FILE}\")\""
      ∷ []
      ∷ command
      ∷ []
      ∷ [])

-- The two keys of the Secret.
abbrev pub install_script_key : Str
install_script_key = codes "install-thunder-client.sh"

abbrev pub token_key : Str
token_key = codes "enrollment-token"

module _ {W : Type 0} (api : SecretApi W) where
  unfoldable pub upsert_secret : Secret → W → Option Fault × W
  upsert_secret desired w =
      let (current, w₁) = api.get desired.namespace desired.name w in
      elim current [
        | err fault ↦ if is_not_found fault then api.create desired w₁ else (some fault, w₁)
        | ok secret ↦
            api.update
              (record secret {
                labels = desired.labels;
                kind = desired.kind;
                content = desired.content;
              })
              w₁
      ]

  unfoldable pub delete_secret : Str → Str → W → Option Fault × W
  delete_secret namespace given w =
      let name = trim_space given in
      let (failed, w') = api.delete namespace name w in
      if is_nil name then (none, w) else elim failed [
        | none ↦ (none, w')
        | some fault ↦ if is_not_found fault then (none, w') else (some fault, w')
      ]

-- A nil client is `none`.
module _ {W : Type 0} (client : Option (SecretApi W)) (digest : Str → Str) where
  abbrev pub setup_secret : Allocation → Str → Str → Secret
  setup_secret allocation token install_command = record {
    name = thunder_guest_setup_secret_name digest allocation.claim_name;
    namespace = trim_space allocation.claim_namespace;
    labels = guest_artifact_labels allocation;
    kind = codes "Opaque";
    content =
        (token_key, token)
        ∷ (install_script_key, thunder_guest_install_script install_command)
        ∷ [];
    resource_version = [];
  }

  unfoldable pub create : Allocation → Str → Str → Call W Fault GuestArtifacts
  unfolding upsert_secret
  create allocation token install_command w = elim client [
    | none ↦ (err (other (codes "kubernetes client is required")), w)
    | some api ↦
        let secret = setup_secret allocation token install_command in
        let (failed, w') = upsert_secret api secret w in
        if is_blank allocation.claim_namespace
        then (err (other (codes "claim namespace is required")), w)
        else if is_blank token
        then (err (other (codes "client enrollment token is required")), w)
        else elim failed [
          | some fault ↦ (err fault, w')
          | none ↦ (ok (record { namespace = secret.namespace; secret_name = secret.name }), w')
        ]
  ]

  unfoldable pub remove : GuestArtifacts → W → Option Fault × W
  unfolding delete_secret
  remove artifacts w = elim client [
    | none ↦ (some (other (codes "kubernetes client is required")), w)
    | some api ↦
        let namespace = trim_space artifacts.namespace in
        if is_nil namespace then (none, w) else delete_secret api namespace artifacts.secret_name w
  ]

  -- The store as the driver takes it.
  abbrev pub as_guest_store : GuestConfigStore W
  as_guest_store = record { create = create; remove = remove }
