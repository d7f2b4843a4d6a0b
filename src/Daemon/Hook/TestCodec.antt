-- ===== src/Daemon/Hook/TestCodec.antt =====
-- JSON for the tests: the texts of a configuration with their lengths, and the numbers behind them.
use thunder_device_plugin.Base.{
  ◌≡◌, refl, sym, ap, ◌∙◌, Bool, true, false, [], ◌∷◌, ◌++◌, Str, codes, Outcome, ok, text_eq,
  length, take, drop, eqb, if◌then◌else◌,
}
use thunder_device_plugin.Base.Int.{ℤ, pos, negsuc}
use thunder_device_plugin.Daemon.Hook.Exchange.{ThunderClientConfig, Codec}
use thunder_device_plugin.Daemon.Hook.Reuse.{CodecLaws}

-- A text with its length before it, and its reading.
unfoldable pub text : Str → Str → Str
text s rest = length s ∷ (s ++ rest)

unfoldable pub read_text : Str → Str × Str
read_text [] = ([], [])
read_text (n ∷ s) = (take n s, drop n s)

read_text-text : (s rest more : Str) → read_text (text s rest ++ more) ≡ (s, rest ++ more)
unfolding read_text text
read_text-text [] rest more = refl
read_text-text (c ∷ s) rest more =
    let ih = read_text-text s rest more in ap (λ r. (c ∷ r.0, r.1)) ih

unfoldable pub sign : ℤ → Str → Str
sign (pos n) rest = 0 ∷ n ∷ rest
sign (negsuc n) rest = 1 ∷ n ∷ rest

abbrev flag : Bool → Str → Str
flag true rest = 1 ∷ rest
flag false rest = 0 ∷ rest

abbrev config0 : ThunderClientConfig
config0 = record {
  device_id = [];
  client_id = [];
  org_id = [];
  gpu_type = [];
  gpu_count = pos 0;
  central_api_url = [];
  auth_token = [];
  claims = [];
  enable_grpc_tls = false;
  thunderd_discovery_enabled = false;
  telemetry_collector = [];
}

abbrev encode : ThunderClientConfig → Str
encode c = text c.device_id (
    text c.client_id (
      text c.org_id (
        text c.gpu_type (
          text c.central_api_url (
            text c.auth_token (
              text c.claims (
                text c.telemetry_collector (
                  sign c.gpu_count
                    (flag c.enable_grpc_tls (flag c.thunderd_discovery_enabled []))))))))))

unfoldable pub numbers : Str → ℤ × (Bool × Bool)
numbers (s ∷ n ∷ tls ∷ discovery ∷ rest) =
    ((if eqb s 0 then pos n else negsuc n), (eqb tls 1, eqb discovery 1))
numbers _ = (pos 0, (false, false))

numbers_read :
    (n : ℤ) (tls discovery : Bool) (more : Str)
    → numbers (sign n (flag tls (flag discovery [])) ++ more) ≡ (n, (tls, discovery))
unfolding numbers sign
numbers_read (pos n) true true more = refl
numbers_read (pos n) true false more = refl
numbers_read (pos n) false true more = refl
numbers_read (pos n) false false more = refl
numbers_read (negsuc n) true true more = refl
numbers_read (negsuc n) true false more = refl
numbers_read (negsuc n) false true more = refl
numbers_read (negsuc n) false false more = refl

abbrev decode : Str → ThunderClientConfig
decode s₀ =
    let (device_id, s₁) = read_text s₀ in
    let (client_id, s₂) = read_text s₁ in
    let (org_id, s₃) = read_text s₂ in
    let (gpu_type, s₄) = read_text s₃ in
    let (central_api_url, s₅) = read_text s₄ in
    let (auth_token, s₆) = read_text s₅ in
    let (claims, s₇) = read_text s₆ in
    let (telemetry_collector, s₈) = read_text s₇ in
    let (gpu_count, (tls, discovery)) = numbers s₈ in
    record {
      device_id = device_id;
      client_id = client_id;
      org_id = org_id;
      gpu_type = gpu_type;
      gpu_count = gpu_count;
      central_api_url = central_api_url;
      auth_token = auth_token;
      claims = claims;
      enable_grpc_tls = tls;
      thunderd_discovery_enabled = discovery;
      telemetry_collector = telemetry_collector;
    }

decode-encode : (c : ThunderClientConfig) → decode (encode c ++ 10 ∷ []) ≡ c
decode-encode c =
    rw
      (
        read_text-text c.device_id _ (10 ∷ []),
        read_text-text c.client_id _ (10 ∷ []),
        read_text-text c.org_id _ (10 ∷ []),
        read_text-text c.gpu_type _ (10 ∷ []),
        read_text-text c.central_api_url _ (10 ∷ []),
        read_text-text c.auth_token _ (10 ∷ []),
        read_text-text c.claims _ (10 ∷ []),
        read_text-text c.telemetry_collector _ (10 ∷ []),
        numbers_read c.gpu_count c.enable_grpc_tls c.thunderd_discovery_enabled (10 ∷ []),
      )
      refl

abbrev pub codec : Codec
codec = record {
  encode_hostname = λ hostname. ok hostname;
  decode_response = λ payload. ok (record { auth_token = codes "auth"; jwt = codes "h.p.s" });
  decode_base64 = λ part. ok part;
  decode_claims = λ payload. ok (record {
    org_id = codes "org";
    client_id = codes "c1";
    gpu_type = codes "a100";
    gpu_count = pos 1;
  });
  encode_config = λ config. ok (encode config);
  decode_config = λ s. ok (decode s);
}

pub codec_laws : CodecLaws codec
codec_laws = record { decode-encode = λ config encoded h. encoded_back config encoded h }
  where
    encoded_back :
        (config : ThunderClientConfig) (encoded : Str)
        → ◌≡◌ {A = Outcome Str Str} (ok (encode config)) (ok encoded)
        → ◌≡◌ {A = Outcome Str ThunderClientConfig} (ok (decode (encoded ++ 10 ∷ []))) (ok config)
    encoded_back config encoded h =
        let same : encode config ≡ encoded = cc in
        ap ok (ap (λ s. decode (s ++ 10 ∷ [])) (sym same) ∙ decode-encode config)
