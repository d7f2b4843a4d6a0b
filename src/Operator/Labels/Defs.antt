-- ===== src/Operator/Labels/Defs.antt =====
-- dnsLabel, truncateLabel and the names made from them.
use thunder_device_plugin.Base.{
  ℕ, ◌-◌, Bool, false, not, ◌&&◌, ◌||◌, [], ◌∷◌, ◌++◌, Str, codes, is_nil, trim_space, to_lower,
  trim_suffix, length, take, leb, eqb, if◌then◌else◌,
}
use thunder_device_plugin.Base.Decimal.{decimal}

abbrev pub max_dns_label : ℕ
max_dns_label = 63

-- [a-z0-9-]
unfoldable pub is_label_char : ℕ → Bool
is_label_char c = (leb b'a' c && leb c b'z') || (leb b'0' c && leb c b'9') || eqb c b'-'

-- `invalidDNSLabelRun.ReplaceAllString(s, "-")`: each longest run of other characters becomes one
-- dash. `inside` says that a run is under way.
unfoldable pub replace_runs : Bool → Str → Str
unfolding is_label_char
replace_runs inside [] = []
replace_runs inside (c ∷ s) =
    let rest = replace_runs (not (is_label_char c)) s in
    if is_label_char c then c ∷ rest else if inside then rest else b'-' ∷ rest

unfoldable pub trim_left_dashes : Str → Str
trim_left_dashes [] = []
trim_left_dashes (c ∷ s) = if eqb c b'-' then trim_left_dashes s else c ∷ s

-- `strings.TrimRight(s, c)`.
unfoldable pub trim_right_char : ℕ → Str → Str
trim_right_char x [] = []
trim_right_char x (c ∷ s) = let r = trim_right_char x s in if eqb c x && is_nil r then [] else c ∷ r

module _ (digest : Str → Str) where
  unfoldable pub truncate_label : Str → ℕ → Str
  truncate_label label limit =
      if leb (length label) limit
      then label
      else (let hash = digest label in
          trim_suffix b'-' (take (limit - length hash - 1) label) ++ (b'-' ∷ hash))

  unfoldable pub dns_label : Str → Str
  unfolding replace_runs trim_left_dashes trim_right_char
  dns_label value =
      let spelled = replace_runs false (to_lower (trim_space value)) in
      let label = trim_right_char b'-' (trim_left_dashes spelled) in
      if is_nil label then codes "unknown" else truncate_label label max_dns_label

  -- A name with a number behind it, short enough with the number.
  unfoldable pub numbered : Str → ℕ → Str
  numbered label index =
      let suffix = b'-' ∷ decimal index in
      truncate_label label (max_dns_label - length suffix) ++ suffix

  unfoldable pub resource_slice_name : Str → Str → Str → ℕ → Str
  resource_slice_name prefix zone gpu_type shard =
      numbered (dns_label (prefix ++ (b'-' ∷ zone) ++ (b'-' ∷ gpu_type))) shard

  unfoldable pub device_name : Str → ℕ → Str
  device_name gpu_type index = numbered (dns_label gpu_type) index

  unfoldable pub pool_name : Str → Str → Str
  pool_name zone gpu_type = dns_label zone ++ (b'/' ∷ dns_label gpu_type)
