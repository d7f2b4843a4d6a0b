-- ===== src/Operator/Publish/Stable.antt =====
-- nextGeneration and currentDefinitionMatches on the slices that buildResourceSlices gives.
use thunder_device_plugin.Base.{
  ℕ, zero, suc, ◌+◌, ◌-◌, ◌*◌, ◌/◌, ◌^◌, ◌≤◌, ◌<◌, ◌≡◌, refl, sym, ap, ◌∙◌, Bool, true, false, not,
  ◌&&◌, Option, none, some, List, [], ◌∷◌, ◌++◌, Str, arith, eqb, ltb, ◌==◌, text_eq, str_eq_iff,
  Assoc, lookup, Option-branch, if-branch, if◌then◌else◌, Bool-cases, inl, inr, Eq, to_upper, All,
  length, lookup,
}
use thunder_device_plugin.Base.Int.{ℤ, pos, negsuc}
use thunder_device_plugin.Operator.Inventory.Defs.{Floats, PoolKey, pool_eq, PoolDefinition}
use thunder_device_plugin.Operator.Slices.Defs.{
  Config, default_name_prefix, ResourceSlice, devices_per_slice, build_device, build_devices,
  build_slice, build_shards, build_resource_slices, shard_end,
}
use thunder_device_plugin.Operator.Labels.Defs.{device_name, pool_name}
use thunder_device_plugin.Operator.Slices.Shards.{
  all_devices, length-build_devices, build_resource_slices_devices,
}
use thunder_device_plugin.Operator.Publish.Same.{same_ℤ, same_list, same_spec, same_device}
use thunder_device_plugin.Operator.Publish.Defs.{
  PublishedPool, current_definition_matches, current_generation, next_generation, same_specs,
  sort_by_name,
}

text_refl : (a : Str) → (a == a) ≡ true
text_refl a = ground (arith, str_eq_iff a a)

eqb_refl : (n : ℕ) → eqb n n ≡ true
eqb_refl n = ground arith

same_ℤ_refl : (n : ℤ) → same_ℤ n n ≡ true
same_ℤ_refl (pos n) = eqb_refl n
same_ℤ_refl (negsuc n) = eqb_refl n

module _ {F : Type 0} (fl : Floats F) (digest : Str → Str) (cfg : Config) (prefix : Str) where
  -- The configuration with another prefix of names.
  abbrev renamed : Config
  renamed = record cfg { name_prefix = prefix }

  same_built :
      (definition : PoolDefinition F) (index : ℕ)
      → same_device
          (build_device fl digest cfg definition index)
          (build_device fl digest renamed definition index)
        ≡ true
  unfolding build_device lookup thunder_device_plugin.Base.str_eq thunder_device_plugin.Base.codes
  same_built definition index =
      rw
        (
          text_refl (device_name digest definition.gpu_type index),
          text_refl (to_upper definition.gpu_type),
          text_refl definition.zone,
        )
        refl

  same_devices :
      (definition : PoolDefinition F) (first count : ℕ)
      → same_list same_device
          (build_devices fl digest cfg definition first count)
          (build_devices fl digest renamed definition first count)
        ≡ true
  unfolding build_devices
  same_devices definition first zero = refl
  same_devices definition first (suc count) =
      rw (same_built definition first, same_devices definition (suc first) count) refl

  same_shards :
      (definition : PoolDefinition F) (generation : ℤ) (shards shard rounds : ℕ)
      → same_specs fl digest cfg
          (build_shards fl digest cfg definition generation shards shard rounds)
          (build_shards fl digest renamed definition generation shards shard rounds)
        ≡ true
  unfolding same_specs build_shards build_slice same_spec thunder_device_plugin.Base.str_eq
      thunder_device_plugin.Base.codes
  same_shards definition generation shards shard zero = refl
  same_shards definition generation shards shard (suc rounds) =
      let first = shard * devices_per_slice in
      rw
        (
          text_refl cfg.driver_name,
          text_refl (pool_name digest definition.zone definition.gpu_type),
          same_ℤ_refl generation,
          eqb_refl shards,
          text_refl cfg.zone_label_key,
          text_refl definition.zone,
          same_devices definition first (shard_end first definition.capacity - first),
          same_shards definition generation shards (suc shard) rounds,
        )
        refl

  -- currentDefinitionMatches, which renders with the default prefix of names.
  same_slices :
      (definition : PoolDefinition F) (generation : ℤ)
      → same_specs fl digest cfg
          (build_resource_slices fl digest cfg definition generation)
          (build_resource_slices fl digest renamed definition generation)
        ≡ true
  unfolding build_resource_slices same_specs
  same_slices definition generation = elim (Bool-cases (eqb definition.capacity 0)) [
    | inl empty ↦ rw empty refl
    | inr offered ↦ rw offered (
        same_shards definition generation ((definition.capacity + 128 - 1) / 128) 0
          ((definition.capacity + 128 - 1) / 128))
  ]

-- Devices stand in slices.
some_devices : (slices : List ResourceSlice) → 0 < length (all_devices slices) → 0 < length slices
some_devices [] h = h
some_devices (slice ∷ slices) h = omega arith

module _ {F : Type 0} (fl : Floats F) (digest : Str → Str) (cfg : Config) where
  -- A slice of the configured driver, of a generation.
  IsBuilt : ℤ → ResourceSlice → Type 0
  IsBuilt generation slice =
      (slice.spec.driver ≡ cfg.driver_name) × (slice.spec.generation ≡ generation)

  build_shards-IsBuilt :
      (definition : PoolDefinition F) (generation : ℤ) (shards shard rounds : ℕ)
      → All
          (IsBuilt generation)
          (build_shards fl digest cfg definition generation shards shard rounds)
  unfolding build_shards build_slice IsBuilt
  build_shards-IsBuilt definition generation shards shard zero = tt
  build_shards-IsBuilt definition generation shards shard (suc rounds) =
      ((refl, refl), build_shards-IsBuilt definition generation shards (suc shard) rounds)

  build_resource_slices-IsBuilt :
      (definition : PoolDefinition F) (generation : ℤ)
      → All (IsBuilt generation) (build_resource_slices fl digest cfg definition generation)
  unfolding build_resource_slices
  build_resource_slices-IsBuilt definition generation =
      if-branch (All (IsBuilt generation)) (eqb definition.capacity 0) _ _ (λ empty. tt)
        (λ offered.
          build_shards-IsBuilt definition generation ((definition.capacity + 128 - 1) / 128) 0
            ((definition.capacity + 128 - 1) / 128))

  length-build_resource_slices :
      (definition : PoolDefinition F) (generation : ℤ)
      → 0 < definition.capacity
      → 0 < length (build_resource_slices fl digest cfg definition generation)
  length-build_resource_slices definition generation offers =
      some_devices (build_resource_slices fl digest cfg definition generation) (
        rw
          (
            build_resource_slices_devices fl digest cfg definition generation,
            length-build_devices fl digest cfg definition 0 definition.capacity,
          )
          offers)

  matches_again :
      (definition : PoolDefinition F) (generation : ℤ) (slices : List ResourceSlice)
      → slices ≡ build_resource_slices fl digest cfg definition generation
      → All (IsBuilt generation) slices
      → 0 < length slices
      → (current_definition_matches fl digest cfg slices definition ≡ true)
        × (current_generation fl digest cfg slices ≡ generation)
  unfolding current_definition_matches IsBuilt
  matches_again definition generation [] same built some_slices = ground arith
  matches_again definition generation (first ∷ rest) same ((driver, version), built) some_slices = (
    rw (same, driver, version)
        (same_slices fl digest cfg default_name_prefix definition generation),
    version,
  )

  -- A pool that is published as its definition says, under a generation above 0, keeps that
  -- generation, whatever the cache holds, where its slices' names sort as text in the order of the
  -- shards.
  pub next_generation_stable :
      (cache : Assoc PoolKey (PublishedPool F)) (key : PoolKey) (definition : PoolDefinition F)
      (generation : ℕ)
      → 0 < definition.capacity
      → let published = build_resource_slices fl digest cfg definition (pos (suc generation)) in
        sort_by_name published ≡ published
        → next_generation fl digest cfg cache key definition (sort_by_name published)
          ≡ pos (suc generation)
  unfolding next_generation
  next_generation_stable cache key definition generation offers in_order =
      let again =
        matches_again definition (pos (suc generation))
          (build_resource_slices fl digest cfg definition (pos (suc generation))) refl
          (build_resource_slices-IsBuilt definition (pos (suc generation)))
          (length-build_resource_slices definition (pos (suc generation)) offers) in
      rw (in_order, again.0, again.1) (ground arith)
