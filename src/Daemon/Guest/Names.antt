-- ===== src/Daemon/Guest/Names.antt =====
-- thunderGuestSetupSecretName: the length of its result.
use thunder_device_plugin.Base.{
  ℕ, ◌+◌, ◌-◌, ◌≤◌, ◌≡◌, [], ◌∷◌, ◌++◌, Str, codes, arith, leb, leb→le, length, length-append,
  length-take, take, is_nil, trim_space, to_lower, trim_suffix, if-branch, if◌then◌else◌,
}
use thunder_device_plugin.Daemon.Guest.Store.{
  thunder_guest_artifact_name, thunder_guest_setup_secret_name,
}

length-trim_suffix : (c : ℕ) (s : Str) → length (trim_suffix c s) ≤ length s
unfolding trim_suffix
length-trim_suffix c [] = omega arith
length-trim_suffix c (x ∷ s) = ground (arith, length-trim_suffix c s)

length-dashed :
    (front hash suffix : Str)
    → length (front ++ b'-' ∷ hash ++ b'-' ∷ suffix)
      ≡ length front + length hash + length suffix + 2
length-dashed front hash suffix =
    let outer = length-append (front ++ b'-' ∷ hash) (b'-' ∷ suffix) in
    let inner = length-append front (b'-' ∷ hash) in omega (arith, outer, inner)

dashed_fits :
    (front hash suffix : Str)
    → length hash ≡ 10
    → length suffix ≤ 241
    → length front ≤ 253 - length suffix - length hash - 2
    → length (front ++ b'-' ∷ hash ++ b'-' ∷ suffix) ≤ 253
dashed_fits front hash suffix ten fits short =
    let total = length-dashed front hash suffix in omega (arith, ten, fits, short, total)

trimmed_fits : (most : ℕ) (base : Str) → length (trim_suffix b'-' (take most base)) ≤ most
trimmed_fits most base =
    let trimmed = length-trim_suffix b'-' (take most base) in
    let taken = length-take most base in omega (arith, trimmed, taken)

shortened :
    (base hash suffix : Str)
    → length hash ≡ 10
    → length suffix ≤ 241
    → length (
        trim_suffix b'-' (take (253 - length suffix - length hash - 2) base)
        ++ b'-' ∷ hash
        ++ b'-' ∷ suffix)
      ≤ 253
shortened base hash suffix ten fits =
    dashed_fits (trim_suffix b'-' (take (253 - length suffix - length hash - 2) base)) hash suffix
      ten fits (trimmed_fits (253 - length suffix - length hash - 2) base)

artifact_name_fits :
    (digest : Str → Str) (claim_name suffix : Str)
    → ((s : Str) → length (digest s) ≡ 10)
    → length suffix ≤ 241
    → length (thunder_guest_artifact_name digest claim_name suffix) ≤ 253
unfolding thunder_guest_artifact_name
artifact_name_fits digest claim_name suffix ten fits =
    let Fits : Str → Type 0 = λ name. length name ≤ 253 in
    let given = to_lower (trim_space claim_name) in
    let base = if is_nil given then codes "claim" else given in
    let name = base ++ b'-' ∷ suffix in
    if-branch Fits (leb (length name) 253) _ _ (λ short. leb→le (length name) 253 short)
      (λ long. shortened base (digest name) suffix (ten name) fits)

-- For a digest of ten characters, the Secret of every claim has a name of at most 253 characters.
pub length-thunder_guest_setup_secret_name :
    (digest : Str → Str) (claim_name : Str)
    → ((s : Str) → length (digest s) ≡ 10)
    → length (thunder_guest_setup_secret_name digest claim_name) ≤ 253
unfolding thunder_guest_setup_secret_name codes
length-thunder_guest_setup_secret_name digest claim_name ten =
    artifact_name_fits digest claim_name (codes "thunder-setup") ten (omega arith)
