-- ===== src/Operator/Slices/Shards.antt =====
-- buildResourceSlices: the devices of the slices, taken together.
use thunder_device_plugin.Base.{
  ℕ, zero, suc, ◌+◌, ◌-◌, ◌*◌, ◌/◌, ◌≤◌, ◌<◌, ◌≡◌, refl, ap, sym, List, [], ◌∷◌, ◌++◌, Str, All,
  length, arith, Bool-cases, inl, inr, eqb, ltb,
}
use mathlib.Core.List.{append-nil}
use thunder_device_plugin.Base.Int.{ℤ}
use thunder_device_plugin.Operator.Inventory.Defs.{Floats, PoolDefinition}
use thunder_device_plugin.Operator.Labels.Defs.{pool_name}
use thunder_device_plugin.Operator.Slices.Defs.{
  Config, Device, ResourceSlice, build_device, build_devices, build_slice, build_shards,
  build_resource_slices, shard_end,
}

-- The devices of a list of slices, one slice after the other.
abbrev pub all_devices : List ResourceSlice → List Device
all_devices [] = []
all_devices (slice ∷ slices) = slice.spec.devices ++ all_devices slices

-- A slice of a pool of so many slices: it states the pool's name, generation and number of slices,
-- and holds one to 128 devices.
pub record IsShard (pool : Str) (generation : ℤ) (count : ℕ) (slice : ResourceSlice) : Type 0 where
  pub named : slice.spec.pool ≡ pool
  pub versioned : slice.spec.generation ≡ generation
  pub counted : slice.spec.slice_count ≡ count
  pub holds : 0 < length slice.spec.devices
  pub fits : length slice.spec.devices ≤ 128

-- A shard that starts inside the pool holds one to 128 devices.
shard_holds :
    (total shard : ℕ)
    → shard * 128 < total
    → (0 < shard_end (shard * 128) total - shard * 128)
      × (shard_end (shard * 128) total - shard * 128 ≤ 128)
unfolding shard_end
shard_holds total shard inside = ground arith

module _ {F : Type 0} (fl : Floats F) (digest : Str → Str) (cfg : Config) where
  pub length-build_devices :
      (definition : PoolDefinition F) (first count : ℕ)
      → length (build_devices fl digest cfg definition first count) ≡ count
  unfolding build_devices
  length-build_devices definition first zero = refl
  length-build_devices definition first (suc count) =
      ap suc (length-build_devices definition (suc first) count)

  build_devices-append :
      (definition : PoolDefinition F) (first m n : ℕ)
      → build_devices fl digest cfg definition first m
          ++ build_devices fl digest cfg definition (first + m) n
        ≡ build_devices fl digest cfg definition first (m + n)
  unfolding build_devices
  build_devices-append definition first zero n =
      let start : first + 0 ≡ first = omega arith in
      let rest : 0 + n ≡ n = omega arith in rw (start, rest) refl
  build_devices-append definition first (suc m) n =
      let next : first + suc m ≡ suc first + m = omega arith in
      let rest : suc m + n ≡ suc (m + n) = omega arith in
      rw (next, rest)
        (ap (λ ds. build_device fl digest cfg definition first ∷ ds)
          (build_devices-append definition (suc first) m n))

  no_devices :
      (definition : PoolDefinition F) (first : ℕ)
      → build_devices fl digest cfg definition first 0 ≡ []
  unfolding build_devices
  no_devices definition first = refl

  -- The devices of one shard, and those behind it.
  shard_devices :
      (definition : PoolDefinition F) (shard : ℕ)
      → build_devices fl digest cfg definition
            (shard * 128)
            (shard_end (shard * 128) definition.capacity - shard * 128)
          ++ build_devices fl digest cfg definition
              (suc shard * 128)
              (definition.capacity - suc shard * 128)
        ≡ build_devices fl digest cfg definition (shard * 128) (definition.capacity - shard * 128)
  unfolding shard_end
  shard_devices definition shard = elim (Bool-cases (ltb definition.capacity (shard * 128 + 128))) [
    | inl last ↦
        let none_left : definition.capacity - suc shard * 128 ≡ 0 = ground arith in
        rw (last, none_left, no_devices definition (suc shard * 128)) (append-nil _)
    | inr full ↦
        let next : suc shard * 128 ≡ shard * 128 + 128 = omega arith in
        let here : shard * 128 + 128 - shard * 128 ≡ 128 = omega arith in
        let rest : 128 + (definition.capacity - (shard * 128 + 128))
            ≡ definition.capacity - shard * 128 =
          ground arith in
        rw
          (
            full,
            next,
            here,
            build_devices-append definition (shard * 128) 128
                (definition.capacity - (shard * 128 + 128)),
            rest,
          )
          refl
  ]

  length-build_shards :
      (definition : PoolDefinition F) (generation : ℤ) (shards shard rounds : ℕ)
      → length (build_shards fl digest cfg definition generation shards shard rounds) ≡ rounds
  unfolding build_shards
  length-build_shards definition generation shards shard zero = refl
  length-build_shards definition generation shards shard (suc rounds) =
      ap suc (length-build_shards definition generation shards (suc shard) rounds)

  -- The devices of the shards from `shard` on are those from the first of them to the pool's end.
  build_shards_devices :
      (definition : PoolDefinition F) (generation : ℤ) (shards shard rounds : ℕ)
      → definition.capacity ≤ (shard + rounds) * 128
      → all_devices (build_shards fl digest cfg definition generation shards shard rounds)
        ≡ build_devices fl digest cfg definition (shard * 128) (definition.capacity - shard * 128)
  unfolding build_shards build_slice
  build_shards_devices definition generation shards shard zero high =
      let none_left : definition.capacity - shard * 128 ≡ 0 = omega (arith, high) in
      rw none_left (sym (no_devices definition (shard * 128)))
  build_shards_devices definition generation shards shard (suc rounds) high =
      rw
        (build_shards_devices definition generation shards (suc shard) rounds (omega (arith, high)))
        (shard_devices definition shard)

  build_shards-IsShard :
      (definition : PoolDefinition F) (generation : ℤ) (shards shard rounds : ℕ)
      → (shard + rounds) * 128 < definition.capacity + 128
      → All
          (IsShard (pool_name digest definition.zone definition.gpu_type) generation shards)
          (build_shards fl digest cfg definition generation shards shard rounds)
  unfolding build_shards build_slice
  build_shards-IsShard definition generation shards shard zero near = tt
  build_shards-IsShard definition generation shards shard (suc rounds) near = (
    record {
      named = refl;
      versioned = refl;
      counted = refl;
      holds =
          rw
            (length-build_devices definition (shard * 128)
              (shard_end (shard * 128) definition.capacity - shard * 128))
            ((shard_holds definition.capacity shard (omega (arith, near))).0);
      fits =
          rw
            (length-build_devices definition (shard * 128)
              (shard_end (shard * 128) definition.capacity - shard * 128))
            ((shard_holds definition.capacity shard (omega (arith, near))).1);
    },
    build_shards-IsShard definition generation shards (suc shard) rounds (omega (arith, near)),
  )

  -- The slices of a pool hold exactly the devices that number 0 to its capacity less one, in this
  -- order and each once.
  pub build_resource_slices_devices :
      (definition : PoolDefinition F) (generation : ℤ)
      → all_devices (build_resource_slices fl digest cfg definition generation)
        ≡ build_devices fl digest cfg definition 0 definition.capacity
  unfolding build_resource_slices
  build_resource_slices_devices definition generation =
      elim (Bool-cases (eqb definition.capacity 0)) [
        | inl empty ↦
            let none_left : definition.capacity ≡ 0 = ground arith in
            rw (empty, none_left) (sym (no_devices definition 0))
        | inr offered ↦
            let shards = (definition.capacity + 128 - 1) / 128 in
            let start : definition.capacity - 0 * 128 ≡ definition.capacity = omega arith in
            rw
              (
                offered,
                build_shards_devices definition generation shards 0 shards (ground arith),
                start,
              )
              refl
      ]

  -- Each slice of a pool states the pool's name, the generation and the number of slices that there
  -- really are, and holds one to 128 devices.
  pub build_resource_slices-IsShard :
      (definition : PoolDefinition F) (generation : ℤ)
      → All
          (IsShard
            (pool_name digest definition.zone definition.gpu_type)
            generation
            (length (build_resource_slices fl digest cfg definition generation)))
          (build_resource_slices fl digest cfg definition generation)
  unfolding build_resource_slices
  build_resource_slices-IsShard definition generation =
      elim (Bool-cases (eqb definition.capacity 0)) [
        | inl empty ↦ rw empty tt
        | inr offered ↦
            let shards = (definition.capacity + 128 - 1) / 128 in
            rw (offered, length-build_shards definition generation shards 0 shards)
              (build_shards-IsShard definition generation shards 0 shards (ground arith))
      ]
