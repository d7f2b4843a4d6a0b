-- ===== src/Operator/Labels/Distinct.antt =====
-- The numbered names of devices and slices.
use thunder_device_plugin.Base.{
  ℕ, ◌≡◌, ◌⊎◌, inl, inr, refl, sym, ap, ◌∙◌, true, false, [], ◌∷◌, ◌++◌, Str, arith, contains, All,
  if◌then◌else◌,
}
use thunder_device_plugin.Base.Decimal.{decimal, decimal_injective, decimal-IsDigit, IsDigit}
use thunder_device_plugin.Operator.Labels.Defs.{numbered, device_name, resource_slice_name}

-- What follows the last `c`, in a text that has one.
after_last : ℕ → Str → Str
after_last c [] = []
after_last c (x ∷ s) = if contains c s then after_last c s else s

contains-append_cons : (c : ℕ) (a x : Str) → contains c (a ++ (c ∷ x)) ≡ true
unfolding contains
contains-append_cons c [] x = ground arith
contains-append_cons c (y ∷ a) x = ground (arith, contains-append_cons c a x)

after_last-append : (c : ℕ) (a x : Str) → contains c x ≡ false → after_last c (a ++ (c ∷ x)) ≡ x
unfolding after_last
after_last-append c [] x h = rw h
after_last-append c (y ∷ a) x h = rw (contains-append_cons c a x) (after_last-append c a x h)

contains-digits : (s : Str) → All IsDigit s → contains b'-' s ≡ false
unfolding contains
contains-digits [] h = refl
contains-digits (c ∷ s) h = ground (arith, contains-digits s h.1)

module _ (digest : Str → Str) where
  after_last-numbered :
      (label : Str) (i : ℕ) → after_last b'-' (numbered digest label i) ≡ decimal i
  unfolding numbered
  after_last-numbered label i =
      after_last-append b'-' _ (decimal i) (contains-digits (decimal i) (decimal-IsDigit i))

  numbered_injective :
      (label label' : Str) (i j : ℕ) → numbered digest label i ≡ numbered digest label' j → i ≡ j
  numbered_injective label label' i j h =
      decimal_injective i j
        (sym (after_last-numbered label i) ∙ ap (after_last b'-') h ∙ after_last-numbered label' j)

  -- No two devices of one GPU type share a name, and no two slices of one pool, whatever the names
  -- were cut to.
  pub names_distinct :
      (prefix zone gpu_type : Str) (i j : ℕ)
      → (device_name digest gpu_type i ≡ device_name digest gpu_type j)
        ⊎ (resource_slice_name digest prefix zone gpu_type i
            ≡ resource_slice_name digest prefix zone gpu_type j)
      → i ≡ j
  unfolding device_name resource_slice_name
  names_distinct prefix zone gpu_type i j (inl h) = numbered_injective _ _ i j h
  names_distinct prefix zone gpu_type i j (inr h) = numbered_injective _ _ i j h
