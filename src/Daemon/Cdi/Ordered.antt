-- ===== src/Daemon/Cdi/Ordered.antt =====
-- The arguments of the hook, as FileCDIDeviceStore makes them from a map of flags.
use thunder_device_plugin.Base.{
  ◌≡◌, refl, sym, ap, ◌∙◌, subst, inl, inr, Bool, not, List, [], ◌∷◌, ◌++◌, Str, codes, Assoc,
  arith, str_lt, text_eq, str_eq, All, keep, is_blank, Bool-cases, if◌then◌else◌,
}
use mathlib.Core.List.{Permᴰ}
use mathlib.Core.List.Permᴰ
use thunder_device_plugin.Daemon.Driver.{Allocation}
use thunder_device_plugin.Daemon.Cdi.Hooks.{
  FileCdiDeviceStore, sort_pairs, to_pairs, from_pairs, unpaired, sort_arg_pairs, given_args,
  runtime_hook, hooks, hook_flags, thunder_client_name,
}
use thunder_device_plugin.Daemon.Cdi.Sorted.{
  Pair, Differ, Distinct, Below, InOrder, sort_pairs-InOrder, Distinct-perm, sort_pairs-perm,
  sort_pairs_perm,
}

-- Does the pair have a value?
abbrev pub given : Pair → Bool
given pair = not (is_blank pair.1)

to_pairs-given_args : (flags : Assoc Str Str) → to_pairs (given_args flags) ≡ keep given flags
unfolding to_pairs given_args
to_pairs-given_args [] = refl
to_pairs-given_args ((flag, value) ∷ flags) = ground (arith, to_pairs-given_args flags)

unpaired-given_args : (flags : Assoc Str Str) → unpaired (given_args flags) ≡ []
unfolding unpaired given_args
unpaired-given_args [] = refl
unpaired-given_args ((flag, value) ∷ flags) = ground (arith, unpaired-given_args flags)

append_nil : (args : List Str) → args ++ [] ≡ args
append_nil [] = refl
append_nil (arg ∷ args) = ap (λ rest. arg ∷ rest) (append_nil args)

pub sort_arg_pairs-given_args :
    (flags : Assoc Str Str)
    → sort_arg_pairs (given_args flags) ≡ from_pairs (sort_pairs (keep given flags))
unfolding sort_arg_pairs
sort_arg_pairs-given_args flags =
    rw (to_pairs-given_args flags, unpaired-given_args flags) (append_nil _)

All-keep {κ} :
    (P : Pair → Type κ) (test : Pair → Bool) (pairs : List Pair)
    → All P pairs
    → All P (keep test pairs)
All-keep P test [] h = h
All-keep P test (p ∷ pairs) h = elim (Bool-cases (test p)) [
  | inl kept ↦ rw kept (h.0, All-keep P test pairs h.1)
  | inr dropped ↦ rw dropped (All-keep P test pairs h.1)
]

Distinct-keep :
    (test : Pair → Bool) (pairs : List Pair) → Distinct pairs → Distinct (keep test pairs)
Distinct-keep test [] h = h
Distinct-keep test (p ∷ pairs) h = elim (Bool-cases (test p)) [
  | inl kept ↦ rw kept (All-keep (Differ p) test pairs h.0, Distinct-keep test pairs h.1)
  | inr dropped ↦ rw dropped (Distinct-keep test pairs h.1)
]

InOrder-keep : (test : Pair → Bool) (pairs : List Pair) → InOrder pairs → InOrder (keep test pairs)
InOrder-keep test [] h = h
InOrder-keep test (p ∷ pairs) h = elim (Bool-cases (test p)) [
  | inl kept ↦ rw kept (All-keep (Below p) test pairs h.0, InOrder-keep test pairs h.1)
  | inr dropped ↦ rw dropped (InOrder-keep test pairs h.1)
]

-- A pair before two lists that are rearrangements of each other.
keep_cons :
    (test : Pair → Bool) (p : Pair) {ps qs : List Pair}
    → Permᴰ ps qs
    → Permᴰ (if test p then p ∷ ps else ps) (if test p then p ∷ qs else qs)
keep_cons test p π = elim (Bool-cases (test p)) [
  | inl kept ↦ rw kept (Permᴰ.cons refl π)
  | inr dropped ↦ rw dropped π
]

keep_swap :
    (test : Pair → Bool) (p q : Pair) (pairs : List Pair)
    → Permᴰ (keep test (p ∷ q ∷ pairs)) (keep test (q ∷ p ∷ pairs))
keep_swap test p q pairs = elim (Bool-cases (test p)) [
  | inl p_kept ↦ elim (Bool-cases (test q)) [
    | inl q_kept ↦ rw (p_kept, q_kept) (Permᴰ.swap refl refl)
    | inr q_dropped ↦ rw (p_kept, q_dropped) (Permᴰ.refl _)
  ]
  | inr p_dropped ↦ rw p_dropped (Permᴰ.refl _)
]

pub keep-perm :
    (test : Pair → Bool) {ps qs : List Pair} → Permᴰ ps qs → Permᴰ (keep test ps) (keep test qs)
keep-perm test Permᴰ.nil = Permᴰ.nil
keep-perm test (Permᴰ.cons {a} {b} {l₁} {l₂} e π) =
    subst (λ q. Permᴰ (keep test (a ∷ l₁)) (keep test (q ∷ l₂))) e
      (keep_cons test a (keep-perm test π))
keep-perm test (Permᴰ.swap {a} {b} {a'} {b'} {l} e e') =
    subst (λ p. Permᴰ (keep test (a ∷ b ∷ l)) (keep test (a' ∷ p ∷ l))) e
      (subst (λ p. Permᴰ (keep test (a ∷ b ∷ l)) (keep test (p ∷ a ∷ l))) e' (keep_swap test a b l))
keep-perm test (Permᴰ.trans π ρ) = Permᴰ.trans (keep-perm test π) (keep-perm test ρ)

-- Rearranged flags are sorted to the same arguments.
pub sorted_args :
    {flags flags' : Assoc Str Str}
    → Permᴰ flags flags'
    → Distinct flags
    → sort_arg_pairs (given_args flags) ≡ sort_arg_pairs (given_args flags')
sorted_args {flags} {flags'} π apart =
    sort_arg_pairs-given_args flags
    ∙ ap from_pairs (sort_pairs-perm (keep-perm given π) (Distinct-keep given flags apart))
    ∙ sym (sort_arg_pairs-given_args flags')

module _ (s : FileCdiDeviceStore) (allocation : Allocation) where
  -- The flags in the order of their names.
  abbrev pub sorted_flags : Assoc Str Str
  sorted_flags =
      (codes "--artifact-base-url", s.artifact_base_url)
      ∷ (codes "--ca-bundle", s.ca_bundle_path)
      ∷ (codes "--cache-dir", s.cache_dir)
      ∷ (codes "--central-url", s.central_url)
      ∷ (codes "--client-name", thunder_client_name allocation)
      ∷ (codes "--install-url", s.install_url)
      ∷ (codes "--libthunder-sha256", s.libthunder_sha256)
      ∷ (codes "--libthunder-url", s.libthunder_url)
      ∷ (codes "--telemetry-url", s.telemetry_url)
      ∷ []

  -- hook_flags, sorted.
  sort_pairs-hook_flags : sort_pairs (hook_flags s allocation) ≡ sorted_flags
  unfolding hook_flags sort_pairs str_lt codes
  sort_pairs-hook_flags = refl

  pub hook_flags_sorted : Permᴰ (hook_flags s allocation) sorted_flags
  hook_flags_sorted = Permᴰ.symm (
      subst (λ l. Permᴰ l (hook_flags s allocation)) sort_pairs-hook_flags
        (sort_pairs_perm (hook_flags s allocation)))

  pub sorted_flags-Distinct : Distinct sorted_flags
  unfolding str_eq codes
  sorted_flags-Distinct = (
    (refl, (refl, (refl, (refl, (refl, (refl, (refl, (refl, tt)))))))),
    (
      (refl, (refl, (refl, (refl, (refl, (refl, (refl, tt))))))),
      (
        (refl, (refl, (refl, (refl, (refl, (refl, tt)))))),
        (
          (refl, (refl, (refl, (refl, (refl, tt))))),
          (
            (refl, (refl, (refl, (refl, tt)))),
            ((refl, (refl, (refl, tt))), ((refl, (refl, tt)), ((refl, tt), (tt, tt)))),
          ),
        ),
      ),
    ),
  )

  sorted_flags-InOrder : InOrder sorted_flags
  unfolding str_lt codes
  sorted_flags-InOrder = (
    (refl, (refl, (refl, (refl, (refl, (refl, (refl, (refl, tt)))))))),
    (
      (refl, (refl, (refl, (refl, (refl, (refl, (refl, tt))))))),
      (
        (refl, (refl, (refl, (refl, (refl, (refl, tt)))))),
        (
          (refl, (refl, (refl, (refl, (refl, tt))))),
          (
            (refl, (refl, (refl, (refl, tt)))),
            ((refl, (refl, (refl, tt))), ((refl, (refl, tt)), ((refl, tt), (tt, tt)))),
          ),
        ),
      ),
    ),
  )

  sort_arg_pairs_flags :
      sort_arg_pairs (given_args (hook_flags s allocation)) ≡ from_pairs (keep given sorted_flags)
  sort_arg_pairs_flags =
      sym (sorted_args (Permᴰ.symm hook_flags_sorted) sorted_flags-Distinct)
      ∙ sort_arg_pairs-given_args sorted_flags
      ∙ ap from_pairs (
          sort_pairs-InOrder (keep given sorted_flags)
            (InOrder-keep given sorted_flags sorted_flags-InOrder))

  given_args_flags :
      (flags : Assoc Str Str)
      → Permᴰ flags (hook_flags s allocation)
      → sort_arg_pairs (given_args flags) ≡ sort_arg_pairs (given_args (hook_flags s allocation))
  given_args_flags flags π =
      sorted_args π
        (Distinct-perm (Permᴰ.symm (Permᴰ.trans π hook_flags_sorted)) sorted_flags-Distinct)

  -- The arguments behind `--state-dir`, in every order of the flags.
  pub sort_arg_pairs-flags :
      (flags : Assoc Str Str)
      → Permᴰ flags (hook_flags s allocation)
      → sort_arg_pairs (given_args flags) ≡ from_pairs (keep given sorted_flags)
  sort_arg_pairs-flags flags π = given_args_flags flags π ∙ sort_arg_pairs_flags

  -- The hook that the CDI specification has does not depend on the order in which the map of the flags
  -- is read.
  pub hooks_order_free :
      (flags : Assoc Str Str) (device_name : Str)
      → Permᴰ flags (hook_flags s allocation)
      → hooks s flags device_name ≡ hooks s (hook_flags s allocation) device_name
  unfolding hooks runtime_hook
  hooks_order_free flags device_name π = rw (given_args_flags flags π) refl
