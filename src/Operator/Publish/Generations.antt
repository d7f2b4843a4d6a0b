-- ===== src/Operator/Publish/Generations.antt =====
-- nextGeneration on the slices of a pool.
use thunder_device_plugin.Base.{
  zero, suc, ◌-◌, ◌^◌, ◌≡◌, false, Option, none, some, List, Str, arith, text_eq, Assoc, lookup,
  if-branch, if◌then◌else◌, lookup,
}
use thunder_device_plugin.Base.Int.{ℤ, pos, negsuc, ◌≤ℤ◌, ◌<ℤ◌, ltb_ℤ}
use thunder_device_plugin.Operator.Inventory.Defs.{Floats, PoolKey, pool_eq, PoolDefinition}
use thunder_device_plugin.Operator.Slices.Defs.{Config, ResourceSlice}
use thunder_device_plugin.Operator.Publish.Defs.{
  PublishedPool, next_int64, current_definition_matches, current_generation, next_generation,
  same_definition,
}

abbrev max_int64 : ℤ
max_int64 = pos (2 ^ 63 - 1)

next_int64_rises : (n : ℤ) → n <ℤ max_int64 → n <ℤ next_int64 n
unfolding next_int64
next_int64_rises (pos n) h = ground arith
next_int64_rises (negsuc zero) h = omega arith
next_int64_rises (negsuc (suc n)) h = omega arith

module _ {F : Type 0} (fl : Floats F) (digest : Str → Str) (cfg : Config) where
  -- The cache knows no publication of the pool, or one of another definition that is at least as
  -- recent as the slices; the generations are below the largest int64.
  abbrev pub IsOutdated : PoolDefinition F → ℤ → Option (PublishedPool F) → Type 0
  IsOutdated definition generation none = generation <ℤ max_int64
  IsOutdated definition generation (some cached) =
      (same_definition fl digest cfg cached.definition definition ≡ false)
      × (generation ≤ℤ cached.generation)
      × (cached.generation <ℤ max_int64)

  rises_over :
      (definition : PoolDefinition F) (generation : ℤ) (entry : Option (PublishedPool F))
      → IsOutdated definition generation entry
      → generation <ℤ (elim entry [
        | some cached ↦
            if same_definition fl digest cfg cached.definition definition
            then cached.generation
            else next_int64 cached.generation
        | none ↦ if ltb_ℤ (pos 0) generation then next_int64 generation else pos 1
      ])
  rises_over definition generation none h =
      if-branch (λ g. generation <ℤ g) (ltb_ℤ (pos 0) generation) _ _
        (λ published. next_int64_rises generation h) (λ unpublished. ground arith)
  rises_over definition generation (some cached) (other, newer, bound) =
      rw other (omega (arith, newer, next_int64_rises cached.generation bound))

  -- A pool whose slices do not match its definition gets a generation above theirs, where the cache
  -- holds no publication of the pool, or one of another definition and no older, and the generations
  -- are below the largest int64.
  pub next_generation_rises :
      (cache : Assoc PoolKey (PublishedPool F)) (key : PoolKey) (definition : PoolDefinition F)
      (current : List ResourceSlice)
      → current_definition_matches fl digest cfg current definition ≡ false
      → IsOutdated definition (current_generation fl digest cfg current) (lookup key cache)
      → current_generation fl digest cfg current
        <ℤ next_generation fl digest cfg cache key definition current
  unfolding next_generation
  next_generation_rises cache key definition current changed outdated =
      rw changed (
        rises_over definition (current_generation fl digest cfg current) (lookup key cache)
          outdated)
