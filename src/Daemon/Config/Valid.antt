-- ===== src/Daemon/Config/Valid.antt =====
-- configFromLookup: the checks that an accepted configuration has passed.
use thunder_device_plugin.Base.{
  ℕ, ◌≤◌, ◌≡◌, refl, ◌⊎◌, inl, inr, true, false, ◌||◌, Option, some, [], Str, Outcome, ok, err,
  arith, ◌==◌, text_eq, is_nil, cut, Option-branch, if-branch,
}
use mathlib.Core.Path.{subst}
use thunder_device_plugin.Base.Int.{ℤ, pos, negsuc, ltb_ℤ}
use thunder_device_plugin.Base.Atoi.{atoi}
use thunder_device_plugin.Daemon.Config.{
  Config, ConfigError, ◌>>=◌, required_env, optional_env, optional_bool_env, check_port_range,
  optional_port_range_env, config_from_lookup, setting, env_node, env_min_driver_version,
  env_thunder_api_token, env_dra_enabled, env_port_range,
}

-- Two decimal numbers with a dash between them, in order and within the ports.
pub record IsPortRange (text : Str) : Type 0 where
  pub from : Str
  pub to : Str
  pub first : ℕ
  pub last : ℕ
  pub split_at_dash : cut b'-' text ≡ some (from, to)
  pub from_is : atoi from ≡ some (pos first)
  pub to_is : atoi to ≡ some (pos last)
  pub above_zero : 1 ≤ first
  pub in_order : first ≤ last
  pub within_ports : last ≤ 65535

-- What the daemon relies on in its configuration.
pub record IsValid (cfg : Config) : Type 0 where
  pub has_node : is_nil cfg.node ≡ false
  pub has_min_version : is_nil cfg.min_driver_version ≡ false
  pub has_token : is_nil cfg.thunder_api_token ≡ false
  pub ports : (cfg.port_range ≡ []) ⊎ IsPortRange cfg.port_range

ok_injective : {E A : Type 0} {a b : A} → ◌≡◌ {A = Outcome E A} (ok a) (ok b) → a ≡ b
ok_injective h = cc

bind_ok :
    {A B : Type 0} (o : Outcome ConfigError A) (f : A → Outcome ConfigError B) (b : B)
    → (o >>= f) ≡ ok b
    → (a : A) × (o ≡ ok a) × (f a ≡ ok b)
bind_ok (ok a) f b h = (a, refl, h)
bind_ok (err e) f b h = cc

required_env_named :
    (env : Str → Option Str) (key value : Str)
    → required_env env key ≡ ok value
    → is_nil value ≡ false
unfolding required_env setting
required_env_named env key value h = ground arith

-- What a check lets through.
Checked : Outcome ConfigError Str → Type 0
Checked (ok text) = (text ≡ []) ⊎ IsPortRange text
Checked (err e) = Unit

range_checked :
    (text from to : Str) (start end : ℤ)
    → cut b'-' text ≡ some (from, to)
    → atoi from ≡ some start
    → atoi to ≡ some end
    → (ltb_ℤ start (pos 1) || ltb_ℤ (pos 65535) end || ltb_ℤ end start) ≡ false
    → IsPortRange text
range_checked text from to (pos a) (pos b) dash first last fits = record {
  from = from;
  to = to;
  first = a;
  last = b;
  split_at_dash = dash;
  from_is = first;
  to_is = last;
  above_zero = ground arith;
  in_order = ground arith;
  within_ports = ground arith;
}
range_checked text from to (negsuc a) end dash first last fits = absurd (ground arith)
range_checked text from to (pos a) (negsuc b) dash first last fits = absurd (ground arith)

check_port_range-Checked : (key text : Str) → Checked (check_port_range key text)
unfolding check_port_range Checked
check_port_range-Checked key text =
    Option-branch Checked (cut b'-' text) _ _ (λ no_dash. tt)
      (λ parts dash.
        Option-branch Checked (atoi parts.0) _ _ (λ no_start. tt)
          (λ start first.
            Option-branch Checked (atoi parts.1) _ _ (λ no_end. tt)
              (λ end last.
                if-branch Checked (ltb_ℤ start (pos 1) || ltb_ℤ (pos 65535) end || ltb_ℤ end start)
                  _ _ (λ outside. tt)
                  (λ inside.
                    inr (range_checked text parts.0 parts.1 start end dash first last inside)))))

optional_port_range_env-Checked :
    (env : Str → Option Str) (key : Str) → Checked (optional_port_range_env env key)
unfolding optional_port_range_env Checked
optional_port_range_env-Checked env key =
    if-branch Checked (optional_env env key [] == []) _ _ (λ unset. inl refl)
      (λ set. check_port_range-Checked key (optional_env env key []))

Checked-ok :
    (o : Outcome ConfigError Str) (text : Str)
    → o ≡ ok text
    → Checked o
    → (text ≡ []) ⊎ IsPortRange text
unfolding Checked
Checked-ok (ok text') text h checked =
    subst (λ t. (t ≡ []) ⊎ IsPortRange t) (ok_injective h) checked
Checked-ok (err e) text h checked = cc

-- A configuration that is accepted names the node, the least driver version and the API token, and
-- its port range is empty or two decimal numbers with a dash between, in order and within 1 to 65535.
pub config_from_lookup-IsValid :
    (env : Str → Option Str) (cfg : Config) → config_from_lookup env ≡ ok cfg → IsValid cfg
unfolding config_from_lookup
config_from_lookup-IsValid env cfg accepted =
    let (node, named, h₁) = bind_ok (required_env env env_node) _ cfg accepted in
    let (version, versioned, h₂) = bind_ok (required_env env env_min_driver_version) _ cfg h₁ in
    let (token, tokened, h₃) = bind_ok (required_env env env_thunder_api_token) _ cfg h₂ in
    let (dra, enabled, h₄) = bind_ok (optional_bool_env env env_dra_enabled true) _ cfg h₃ in
    let (ports, ranged, h₅) = bind_ok (optional_port_range_env env env_port_range) _ cfg h₄ in
    subst IsValid (ok_injective h₅) (record {
      has_node = required_env_named env env_node node named;
      has_min_version = required_env_named env env_min_driver_version version versioned;
      has_token = required_env_named env env_thunder_api_token token tokened;
      ports = Checked-ok _ ports ranged (optional_port_range_env-Checked env env_port_range);
    })
