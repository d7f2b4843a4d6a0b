-- ===== src/Operator/Inventory/Capacity.antt =====
-- buildDesiredPools: the pools that it files, and their capacities.
use thunder_device_plugin.Base.{
  ℕ, ◌≤◌, ◌<◌, ◌≡◌, List, [], ◌∷◌, Str, Outcome, ok, err, Outcome-branch, if-branch, Option-cases,
  Bool-cases, inl, inr, arith, lookup, lookup_or, Assoc, All, All-insert, All-lookup, eqb, is_nil,
  text_eq, ◌||◌,
}
use thunder_device_plugin.Operator.Inventory.Defs.{
  Floats, PoolKey, pool_eq, PoolDefinition, OversubscriptionTargets, InventoryError, ThunderApi,
  Zone, target_for, published, add_pool, add_pools, no_definition, add_zone, add_zones,
  build_desired_pools, zone_names,
}

-- A pool is filed under its own zone and GPU type, offers at least one GPU, and never fewer than are
-- committed to clients.
pub record HasFloor {F : Type 0} (entry : PoolKey × PoolDefinition F) : Type 0 where
  pub filed_zone : entry.1.zone ≡ entry.0.zone
  pub filed_gpu_type : entry.1.gpu_type ≡ entry.0.gpu_type
  pub offers : 0 < entry.1.capacity
  pub floor : entry.1.client_capacity ≤ entry.1.capacity

module _ {F : Type 0} (fl : Floats F) where
  client-le-published : (host client : ℕ) (target : F) → client ≤ published fl host client target
  unfolding published
  client-le-published host client target = ground arith

  definition_floor :
      (key : PoolKey) (desired : Assoc PoolKey (PoolDefinition F))
      → All HasFloor desired
      → (lookup_or (no_definition fl) key desired).client_capacity
        ≤ (lookup_or (no_definition fl) key desired).capacity
  unfolding lookup_or
  definition_floor key desired h = elim (Option-cases (lookup key desired)) [
    | inl missing ↦ rw (missing, lookup_or) (omega arith)
    | inr (d, found) ↦ rw (found, lookup_or) ((All-lookup HasFloor key d desired h found).floor)
  ]

  add_pool-HasFloor :
      (zone : Str) (hosts clients : Assoc Str ℕ) (targets : OversubscriptionTargets F)
      (desired : Assoc PoolKey (PoolDefinition F)) (gpu_type : Str)
      → All HasFloor desired
      → All HasFloor (add_pool fl zone hosts clients targets desired gpu_type)
  unfolding add_pool
  add_pool-HasFloor zone hosts clients targets desired gpu_type h =
      let host = lookup_or 0 gpu_type hosts in
      let client = lookup_or 0 gpu_type clients in
      let target = target_for fl targets gpu_type in
      let key : PoolKey = record { zone = zone; gpu_type = gpu_type } in
      elim (Bool-cases (eqb (published fl host client target) 0)) [
        | inl none_offered ↦ rw none_offered h
        | inr some_offered ↦ rw some_offered (
            All-insert HasFloor key _ desired h (
              ground
                (arith, client-le-published host client target, definition_floor key desired h)))
      ]

  add_pools-HasFloor :
      (zone : Str) (hosts clients : Assoc Str ℕ) (targets : OversubscriptionTargets F)
      (desired : Assoc PoolKey (PoolDefinition F)) (types : List Str)
      → All HasFloor desired
      → All HasFloor (add_pools fl zone hosts clients targets desired types)
  unfolding add_pools
  add_pools-HasFloor zone hosts clients targets desired [] h = h
  add_pools-HasFloor zone hosts clients targets desired (t ∷ ts) h =
      add_pools-HasFloor zone hosts clients targets
        (add_pool fl zone hosts clients targets desired t) ts
        (add_pool-HasFloor zone hosts clients targets desired t h)

abbrev FloorsOf : {F : Type 0} → Outcome InventoryError (Assoc PoolKey (PoolDefinition F)) → Type 0
FloorsOf (ok desired) = All HasFloor desired
FloorsOf (err e) = Unit

abbrev Floors :
    {F W : Type 0} → Outcome InventoryError (Assoc PoolKey (PoolDefinition F)) × W → Type 0
Floors r = FloorsOf r.0

module _ {F W : Type 0} (fl : Floats F) (api : ThunderApi F W) where
  add_zone-Floors :
      (name id : Str) (desired : Assoc PoolKey (PoolDefinition F)) (w : W)
      → All HasFloor desired
      → Floors (add_zone fl api name id desired w)
  unfolding add_zone
  add_zone-Floors name id desired w h =
      Outcome-branch Floors (api.list_servers id w).0 _ _
        (λ servers listed.
          Outcome-branch Floors (api.list_clients id (api.list_servers id w).1).0 _ _
            (λ clients committed. add_pools-HasFloor fl name _ _ _ desired _ h)
            (λ fault failed. tt))
        (λ fault failed. tt)

  add_zones-Floors :
      (desired : Assoc PoolKey (PoolDefinition F)) (zones : List Zone) (w : W)
      → All HasFloor desired
      → Floors (add_zones fl api desired zones w)
  unfolding add_zones
  add_zones-Floors desired [] w h = h
  add_zones-Floors desired (zone ∷ zones) w h =
      let (name, id) = zone_names zone in
      if-branch Floors (is_nil name || is_nil id) _ _
        (λ unnamed. add_zones-Floors desired zones w h)
        (λ named.
          Outcome-branch Floors (add_zone fl api name id desired w).0 _ _
            (λ more added.
              add_zones-Floors more zones (add_zone fl api name id desired w).1
                (rw added at (add_zone-Floors name id desired w h)))
            (λ e failed. tt))

  build_desired_pools-Floors : (w : W) → Floors (build_desired_pools fl api w)
  unfolding build_desired_pools
  build_desired_pools-Floors w =
      Outcome-branch Floors (api.list_zones w).0 _ _
        (λ zones listed. add_zones-Floors [] zones (api.list_zones w).1 tt) (λ fault failed. tt)

  -- When the inventory can be read, every pool that should be published is filed under its own zone and GPU type, offers at least
  -- one GPU, and never fewer than are committed to its clients, whatever the hosts report and
  -- whatever the oversubscription target is.
  pub build_desired_pools-HasFloor :
      (w : W) (desired : Assoc PoolKey (PoolDefinition F))
      → (build_desired_pools fl api w).0 ≡ ok desired
      → All HasFloor desired
  build_desired_pools-HasFloor w desired built = rw built at (build_desired_pools-Floors w)
