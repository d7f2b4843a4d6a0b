-- ===== src/Operator/Labels/Valid.antt =====
-- dnsLabel: the length of its label, and the characters in it.
use thunder_device_plugin.Base.{
  ℕ, zero, suc, ◌-◌, ◌≤◌, ◌≡◌, refl, Bool, true, false, not, ◌&&◌, [], ◌∷◌, ◌++◌, Str, codes, arith,
  eqb, leb, is_nil, All, All-append, length, length-append, length-take, take, trim_space, to_lower,
  trim_suffix, if-branch,
}
use thunder_device_plugin.Operator.Labels.Defs.{
  is_label_char, replace_runs, trim_left_dashes, trim_right_char, truncate_label, dns_label,
  max_dns_label,
}

abbrev pub IsLabelChar : ℕ → Type 0
IsLabelChar c = is_label_char c ≡ true

-- The first character is there, and is no dash.
abbrev pub starts_well : Str → Bool
starts_well [] = false
starts_well (c ∷ s) = not (eqb c b'-')

-- A DNS label: one to 63 of the characters a-z, 0-9 and dash, not a dash first.
pub record IsLabel (text : Str) : Type 0 where
  pub fits : length text ≤ 63
  pub spelled : All IsLabelChar text
  pub begins : starts_well text ≡ true

replace_runs-IsLabelChar : (inside : Bool) (s : Str) → All IsLabelChar (replace_runs inside s)
unfolding replace_runs is_label_char
replace_runs-IsLabelChar inside [] = tt
replace_runs-IsLabelChar inside (c ∷ s) =
    let rest = replace_runs-IsLabelChar (not (is_label_char c)) s in
    if-branch (All IsLabelChar) (is_label_char c) _ _ (λ allowed. (allowed, rest))
      (λ invalid. if-branch (All IsLabelChar) inside _ _ (λ started. rest) (λ start. (refl, rest)))

-- Trimming dashes keeps the characters, and leaves no dash in front.
trim_left_dashes-IsLabelChar : (s : Str) → All IsLabelChar s → All IsLabelChar (trim_left_dashes s)
unfolding trim_left_dashes
trim_left_dashes-IsLabelChar [] h = tt
trim_left_dashes-IsLabelChar (c ∷ s) h =
    if-branch (All IsLabelChar) (eqb c b'-') _ _ (λ dash. trim_left_dashes-IsLabelChar s h.1)
      (λ other. h)

trim_left_dashes_begins :
    (s : Str) → is_nil (trim_left_dashes s) ≡ false → starts_well (trim_left_dashes s) ≡ true
unfolding trim_left_dashes
trim_left_dashes_begins [] h = cc
trim_left_dashes_begins (c ∷ s) h = ground (arith, trim_left_dashes_begins s)

trim_right_char-IsLabelChar :
    (x : ℕ) (s : Str) → All IsLabelChar s → All IsLabelChar (trim_right_char x s)
unfolding trim_right_char
trim_right_char-IsLabelChar x [] h = tt
trim_right_char-IsLabelChar x (c ∷ s) h =
    if-branch (All IsLabelChar) (eqb c x && is_nil (trim_right_char x s)) _ _ (λ dropped. tt)
      (λ kept. (h.0, trim_right_char-IsLabelChar x s h.1))

trim_right_char_begins :
    (s : Str) → starts_well s ≡ true → starts_well (trim_right_char b'-' s) ≡ true
unfolding trim_right_char
trim_right_char_begins [] h = h
trim_right_char_begins (c ∷ s) h = ground arith

trim_suffix-IsLabelChar : (x : ℕ) (s : Str) → All IsLabelChar s → All IsLabelChar (trim_suffix x s)
unfolding trim_suffix
trim_suffix-IsLabelChar x [] h = tt
trim_suffix-IsLabelChar x (c ∷ s) h =
    if-branch (All IsLabelChar) (is_nil s && eqb c x) _ _ (λ dropped. tt)
      (λ kept. (h.0, trim_suffix-IsLabelChar x s h.1))

length-trim_suffix : (x : ℕ) (s : Str) → length (trim_suffix x s) ≤ length s
unfolding trim_suffix
length-trim_suffix x [] = omega arith
length-trim_suffix x (c ∷ s) = ground (arith, length-trim_suffix x s)

take-IsLabelChar : (n : ℕ) (s : Str) → All IsLabelChar s → All IsLabelChar (take n s)
take-IsLabelChar zero s h = tt
take-IsLabelChar (suc n) [] h = tt
take-IsLabelChar (suc n) (c ∷ s) h = (h.0, take-IsLabelChar n s h.1)

cut_begins :
    (n : ℕ) (s hash : Str)
    → starts_well s ≡ true
    → starts_well (trim_suffix b'-' (take (suc n) s) ++ hash) ≡ true
unfolding trim_suffix
cut_begins n [] hash h = cc
cut_begins n (c ∷ s) hash h = ground arith

left_named : (s : Str) → is_nil (trim_right_char b'-' s) ≡ false → is_nil s ≡ false
unfolding trim_right_char
left_named [] h = h
left_named (c ∷ s) h = refl

unknown-IsLabel : IsLabel (codes "unknown")
unfolding codes is_label_char
unknown-IsLabel = record {
  fits = omega arith;
  spelled = (refl, (refl, (refl, (refl, (refl, (refl, (refl, tt)))))));
  begins = refl;
}

-- What is assumed of the digest: ten characters, each fit for a label.
module _ (digest : Str → Str) (digest_length : (s : Str) → length (digest s) ≡ 10)
    (digest_spelled : (s : Str) → All IsLabelChar (digest s)) where
  truncate_label-IsLabel :
      (label : Str)
      → All IsLabelChar label
      → starts_well label ≡ true
      → IsLabel (truncate_label digest label max_dns_label)
  unfolding truncate_label is_label_char
  truncate_label-IsLabel label spelled begins =
      if-branch IsLabel (leb (length label) max_dns_label) _ _
        (λ short. record { fits = ground arith; spelled = spelled; begins = begins })
        (λ long.
          let room : max_dns_label - length (digest label) - 1 ≡ 52 =
            omega (arith, digest_length label) in
          rw room (record {
            fits = omega (
              arith,
              length-append (trim_suffix b'-' (take 52 label)) (b'-' ∷ digest label),
              length-trim_suffix b'-' (take 52 label),
              length-take 52 label,
              digest_length label,
            );
            spelled =
                All-append IsLabelChar (trim_suffix b'-' (take 52 label)) (b'-' ∷ digest label)
                  (trim_suffix-IsLabelChar b'-' (take 52 label) (take-IsLabelChar 52 label spelled))
                  (refl, digest_spelled label);
            begins = cut_begins 51 label (b'-' ∷ digest label) begins;
          }))

  -- For a digest of ten characters that are fit for a label, dnsLabel turns every text into a DNS
  -- label: one to 63 of the characters a-z, 0-9 and dash, the first of them no dash.
  pub dns_label-IsLabel : (value : Str) → IsLabel (dns_label digest value)
  unfolding dns_label
  dns_label-IsLabel value =
      let spelled = replace_runs false (to_lower (trim_space value)) in
      let left = trim_left_dashes spelled in
      if-branch IsLabel (is_nil (trim_right_char b'-' left)) _ _ (λ empty. unknown-IsLabel)
        (λ named.
          truncate_label-IsLabel (trim_right_char b'-' left)
            (trim_right_char-IsLabelChar b'-' left (
              trim_left_dashes-IsLabelChar spelled
                (replace_runs-IsLabelChar false (to_lower (trim_space value)))))
            (trim_right_char_begins left (trim_left_dashes_begins spelled (left_named left named))))
