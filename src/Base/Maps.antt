-- ===== src/Base/Maps.antt =====
-- A Go map as an association list. The code ranges over maps in an order of the runtime's choice:
-- here that is the order of the list.
use mathlib.Core.Path.{◌≡◌, refl, subst₂}
use mathlib.Core.Logic.{inl, inr}
use mathlib.Core.Bool.{Bool, true, false}
use mathlib.Core.List.{List, [], ◌∷◌}
use mathlib.Core.Option.{Option, none, some}
use native.Mathlib.Omega.{arith}
use thunder_device_plugin.Base.Tests.{if◌then◌else◌, Eq, ◌==◌, Bool-cases, some_injective}
use thunder_device_plugin.Base.Lists.{All}

abbrev pub Assoc {ℓ κ} : Type ℓ → Type κ → Type (ℓ ⊔ κ)
Assoc K V = List (K × V)

module _ {ℓ κ} {K : Type ℓ} {V : Type κ} ⦃e : Eq K⦄ where
  -- `value, ok := entries[key]`
  unfoldable pub lookup : K → Assoc K V → Option V
  lookup key ((here, value) ∷ rest) = if here == key then some value else lookup key rest
  lookup key [] = none

  -- `_, ok := entries[key]`
  unfoldable pub has_key : K → Assoc K V → Bool
  has_key key entries = elim (lookup key entries) [ none ↦ false | some _ ↦ true ]

  -- `value := entries[key]`, with the zero value where the key is missing.
  unfoldable pub lookup_or : V → K → Assoc K V → V
  lookup_or zero_value key entries = elim (lookup key entries) [
    | none ↦ zero_value
    | some value ↦ value
  ]

  -- `entries[key] = value`
  unfoldable pub insert : K → V → Assoc K V → Assoc K V
  insert key value ((here, old) ∷ rest) =
      let behind = (here, old) ∷ insert key value rest in
      if here == key then (key, value) ∷ rest else behind
  insert key value [] = (key, value) ∷ []

  -- `delete(entries, key)`
  unfoldable pub erase : K → Assoc K V → Assoc K V
  erase key ((here, value) ∷ rest) =
      let behind = erase key rest in if here == key then behind else (here, value) ∷ behind
  erase key [] = []

  -- Reading after a write.
  pub lookup-insert :
      (written read : K) (value : V) (entries : Assoc K V)
      → (if written == read then some value else lookup read entries)
        ≡ lookup read (insert written value entries)
  unfolding insert lookup
  lookup-insert written read value ((here, old) ∷ rest) = ground (
    arith,
    lookup-insert written read value rest,
    e.test_iff written read,
    e.test_iff here written,
    e.test_iff here read,
  )
  lookup-insert written read value [] = refl

  -- Reading after a deletion.
  pub lookup-erase :
      (gone read : K) (entries : Assoc K V)
      → lookup read (erase gone entries) ≡ (if gone == read then none else lookup read entries)
  unfolding erase lookup
  lookup-erase gone read ((here, old) ∷ rest) = ground (
    arith,
    lookup-erase gone read rest,
    e.test_iff gone read,
    e.test_iff here gone,
    e.test_iff here read,
  )
  lookup-erase gone read [] = ground arith

module _ {ℓ κ μ} {K : Type ℓ} {V : Type κ} ⦃e : Eq K⦄ (P : K × V → Type μ) where
  -- A predicate on the entries of a map is kept by a write, if it holds of what is written under
  -- every key that is equal.
  pub All-insert : (k : K) (v : V) (m : Assoc K V) → All P m → P (k, v) → All P (insert k v m)
  unfolding insert
  All-insert k v [] h p = (p, tt)
  All-insert k v ((j, w) ∷ m) h p = elim (Bool-cases (e.test j k)) [
    | inl same ↦ rw same (p, h.1)
    | inr other ↦ rw other (h.0, All-insert k v m h.1 p)
  ]

  pub All-lookup : (k : K) (v : V) (m : Assoc K V) → All P m → lookup k m ≡ some v → P (k, v)
  unfolding lookup
  All-lookup k v [] h found = absurd (cc)
  All-lookup k v ((j, w) ∷ m) h found = elim (Bool-cases (e.test j k)) [
    | inl same ↦
        let found' : some w ≡ some v = rw same at found in
        subst₂ (λ a b. P (a, b)) ((e.test_iff j k).0 same) (some_injective found') h.0
    | inr other ↦ All-lookup k v m h.1 (rw other at found)
  ]
