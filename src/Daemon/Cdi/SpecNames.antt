-- ===== src/Daemon/Cdi/SpecNames.antt =====
-- The names of the files that Create writes: the token, the specification, and its temporary file.
use thunder_device_plugin.Base.{
  ℕ, ◌≡◌, ◌≢◌, refl, sym, ap, ◌∙◌, true, false, some, [], ◌∷◌, ◌++◌, Str, codes, arith, contains,
  ◌==◌, text_eq, str_eq, str_eq_iff, is_nil, inl, inr, Bool-cases,
}
use thunder_device_plugin.Base.FileNames.{base_name, IsPlain, after_last, after_last-append}
use thunder_device_plugin.Base.Joined.{base_name-join_paths, base_name-append_suffix}
use thunder_device_plugin.Daemon.Driver.{Allocation}
use thunder_device_plugin.Daemon.Clients.Object.{thunder_client_name}
use thunder_device_plugin.Daemon.Hook.Stage.{token_file}
use thunder_device_plugin.Daemon.Cdi.Hooks.{
  FileCdiDeviceStore, device_state_dir, resolved_spec_dir, resolved_kind,
}
use thunder_device_plugin.Daemon.Cdi.Device.{
  cdi_device_name_from_qualified_name, cdi_device_name, dashed, spec_file, spec_path,
  device_token_path, qualified,
}

contains_behind :
    (c : ℕ) (front back : Str) → contains c back ≡ true → contains c (front ++ back) ≡ true
unfolding contains
contains_behind c [] back h = h
contains_behind c (x ∷ front) back h = ground (arith, contains_behind c front back h)

contains_neither :
    (c : ℕ) (front back : Str)
    → contains c front ≡ false
    → contains c back ≡ false
    → contains c (front ++ back) ≡ false
unfolding contains
contains_neither c [] back h k = k
contains_neither c (x ∷ front) back h k = ground (arith, contains_neither c front back)

pub contains-apart : (c : ℕ) (s t : Str) → contains c s ≡ true → contains c t ≡ false → s ≢ t
contains-apart c s t h k same =
    let both : true ≡ false = sym h ∙ ap (contains c) same ∙ k in absurd (cc)

contains-differ :
    (c : ℕ) (s t : Str) → contains c s ≡ true → contains c t ≡ false → (s == t) ≡ false
contains-differ c s t h k = elim (Bool-cases (s == t)) [
  | inl same ↦ absurd (contains-apart c s t h k ((str_eq_iff s t).0 same))
  | inr differ ↦ differ
]

dashed_slashless : (s : Str) → contains b'/' (dashed s) ≡ false
unfolding dashed contains
dashed_slashless [] = refl
dashed_slashless (c ∷ s) = ground (arith, dashed_slashless s)

shown_behind : (c : ℕ) (s : Str) → contains c s ≡ true → is_nil s ≡ false
unfolding contains
shown_behind c [] h = absurd (cc)
shown_behind c (x ∷ s) h = refl

-- A name with a suffix that has a letter is no special element.
suffixed-IsPlain :
    (c : ℕ) (front back : Str)
    → contains b'/' front ≡ false
    → contains b'/' back ≡ false
    → contains c back ≡ true
    → contains c (codes ".") ≡ false
    → contains c (codes "..") ≡ false
    → IsPlain (front ++ back)
suffixed-IsPlain c front back slashless slashless' has absent absent' =
    let has' = contains_behind c front back has in
    record {
      slashless = contains_neither b'/' front back slashless slashless';
      shown = shown_behind c (front ++ back) has';
      not_here = contains-differ c (front ++ back) (codes ".") has' absent;
      not_up = contains-differ c (front ++ back) (codes "..") has' absent';
    }

module _ (s : FileCdiDeviceStore) (name : Str) where
  spec_file-IsPlain : IsPlain (spec_file s name)
  unfolding spec_file contains codes
  spec_file-IsPlain =
      suffixed-IsPlain b'j' (dashed name) (codes ".json") (dashed_slashless name) refl refl refl
        refl

  temp_file-IsPlain : IsPlain (spec_file s name ++ codes ".tmp")
  unfolding contains codes
  temp_file-IsPlain =
      suffixed-IsPlain b't' (spec_file s name) (codes ".tmp") (IsPlain.slashless spec_file-IsPlain)
        refl refl refl refl

  spec_path-base_name : base_name (spec_path s name) ≡ spec_file s name
  unfolding spec_path
  spec_path-base_name =
      base_name-join_paths (resolved_spec_dir s) (spec_file s name) spec_file-IsPlain

  temp_path-base_name :
      base_name (spec_path s name ++ codes ".tmp") ≡ spec_file s name ++ codes ".tmp"
  unfolding spec_path
  temp_path-base_name =
      base_name-append_suffix (resolved_spec_dir s) (spec_file s name) (codes ".tmp")
        spec_file-IsPlain temp_file-IsPlain

  token_path-base_name :
      (device_name : Str) → base_name (device_token_path s device_name) ≡ token_file
  unfolding device_token_path contains codes str_eq
  token_path-base_name device_name =
      base_name-join_paths (device_state_dir s device_name) token_file
        (record { slashless = refl; shown = refl; not_here = refl; not_up = refl })

  pub spec_apart : (device_name : Str) → spec_path s name ≢ device_token_path s device_name
  unfolding spec_file contains codes
  spec_apart device_name same =
      contains-apart b'.' (spec_file s name) token_file
        (contains_behind b'.' (dashed name) (codes ".json") refl) refl
        (sym spec_path-base_name ∙ ap base_name same ∙ token_path-base_name device_name)

  pub temp_apart :
      (device_name : Str) → (spec_path s name ++ codes ".tmp") ≢ device_token_path s device_name
  unfolding contains codes
  temp_apart device_name same =
      contains-apart b'.' (spec_file s name ++ codes ".tmp") token_file
        (contains_behind b'.' (spec_file s name) (codes ".tmp") refl) refl
        (sym temp_path-base_name ∙ ap base_name same ∙ token_path-base_name device_name)

claim_name_shown : (uid : Str) → is_nil (cdi_device_name uid) ≡ false
unfolding cdi_device_name thunder_client_name codes
claim_name_shown uid = refl

behind_equals :
    (qualified_name name : Str)
    → after_last b'=' qualified_name ≡ some name
    → is_nil name ≡ false
    → cdi_device_name_from_qualified_name qualified_name ≡ name
unfolding cdi_device_name_from_qualified_name
behind_equals qualified_name name found shown =
    rw (found, shown, cdi_device_name_from_qualified_name) refl

-- Where a claim's device has no "=" in its name, its qualified name leads back to the device.
pub cdi_device_name_from_qualified_name-qualified :
    (s : FileCdiDeviceStore) (allocation : Allocation)
    → contains b'=' (cdi_device_name allocation.claim_uid) ≡ false
    → cdi_device_name_from_qualified_name (qualified s allocation)
      ≡ cdi_device_name allocation.claim_uid
unfolding qualified
cdi_device_name_from_qualified_name-qualified s allocation plain =
    let name = cdi_device_name allocation.claim_uid in
    behind_equals (qualified s allocation) name
      (after_last-append b'=' (resolved_kind s) name plain) (claim_name_shown allocation.claim_uid)
