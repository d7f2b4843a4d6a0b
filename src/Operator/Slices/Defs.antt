-- ===== src/Operator/Slices/Defs.antt =====
-- buildResourceSlices, buildSlice, buildDevice, formatOversubscription.
use thunder_device_plugin.Base.{
  ℕ, zero, suc, ◌+◌, ◌-◌, ◌*◌, ◌/◌, not, List, [], ◌∷◌, ◌++◌, Str, codes, Assoc, ltb, eqb, to_upper,
  trim_suffix, if◌then◌else◌,
}
use thunder_device_plugin.Base.Int.{ℤ}
use thunder_device_plugin.Base.Decimal.{decimal}
use thunder_device_plugin.Operator.Inventory.Defs.{Floats, PoolDefinition}
use thunder_device_plugin.Operator.Labels.Defs.{
  dns_label, trim_right_char, resource_slice_name, device_name, pool_name,
}

-- What the operator is configured with; the interval between two reconciliations is the caller's.
pub record Config : Type 0 where
  pub driver_name : Str
  pub name_prefix : Str
  pub zone_label_key : Str
  pub device_class_prefix : Str
  pub extended_resource_prefix : Str
  pub orphan_grace_period : ℕ

abbrev pub default_name_prefix : Str
default_name_prefix = codes "thunder"

abbrev thunder_domain : Str
thunder_domain = codes "thundercompute.com"

abbrev pub domain_name : Str → Str
domain_name name = thunder_domain ++ (b'/' ∷ name)

abbrev pub host_capacity_label : Str
host_capacity_label = domain_name (codes "host-capacity")

abbrev pub client_capacity_label : Str
client_capacity_label = domain_name (codes "client-capacity")

abbrev pub devices_per_slice : ℕ
devices_per_slice = 128

-- A device: its name and its string attributes.
pub record Device : Type 0 where
  pub name : Str
  pub attributes : Assoc Str Str

-- A requirement of a node selector: the label, the operator, the values.
pub record Requirement : Type 0 where
  pub label : Str
  pub operator : Str
  pub values : List Str

pub record Spec : Type 0 where
  pub driver : Str
  pub pool : Str
  pub generation : ℤ
  pub slice_count : ℕ
  pub node_selector : List (List Requirement)
  pub devices : List Device

pub record ResourceSlice : Type 0 where
  pub name : Str
  pub labels : Assoc Str Str
  pub spec : Spec

-- The end of a shard: 128 devices on, or the end of the pool.
unfoldable pub shard_end : ℕ → ℕ → ℕ
shard_end first total =
    if ltb total (first + devices_per_slice) then total else first + devices_per_slice

module _ {F : Type 0} (fl : Floats F) (digest : Str → Str) (cfg : Config) where
  unfoldable pub format_oversubscription : F → Str
  format_oversubscription target =
      let shown = if not (fl.is_positive target) then fl.one else target in
      trim_suffix b'.' (trim_right_char b'0' (fl.format shown))

  unfoldable pub build_device : PoolDefinition F → ℕ → Device
  build_device definition index = record {
    name = device_name digest definition.gpu_type index;
    attributes =
        (domain_name (codes "gpu_type"), to_upper definition.gpu_type)
        ∷ (domain_name (codes "zone"), definition.zone)
        ∷ [];
  }

  -- The loop `for index := first; index < last; index++`, for `last - first` rounds.
  unfoldable pub build_devices : PoolDefinition F → ℕ → ℕ → List Device
  unfolding build_device
  build_devices definition first zero = []
  build_devices definition first (suc count) =
      build_device definition first ∷ build_devices definition (suc first) count

  unfoldable pub build_slice : PoolDefinition F → ℤ → ℕ → ℕ → List Device → ResourceSlice
  unfolding format_oversubscription
  build_slice definition generation shard shards devices = record {
    name = resource_slice_name digest cfg.name_prefix definition.zone definition.gpu_type shard;
    labels =
        (codes "app.kubernetes.io/name", codes "thunder-dra-driver")
        ∷ (codes "app.kubernetes.io/component", codes "resource-inventory")
        ∷ (codes "app.kubernetes.io/managed-by", codes "thunder-device-plugin-operator")
        ∷ (domain_name (codes "zone"), dns_label digest definition.zone)
        ∷ (domain_name (codes "gpu_type"), dns_label digest definition.gpu_type)
        ∷ (host_capacity_label, decimal definition.host_capacity)
        ∷ (client_capacity_label, decimal definition.client_capacity)
        ∷ (
          domain_name (codes "oversubscription"),
          format_oversubscription definition.oversubscription,
        )
        ∷ (domain_name (codes "shard"), decimal shard)
        ∷ [];
    spec = record {
      driver = cfg.driver_name;
      pool = pool_name digest definition.zone definition.gpu_type;
      generation = generation;
      slice_count = shards;
      node_selector =
          (record {
            label = cfg.zone_label_key;
            operator = codes "In";
            values = definition.zone ∷ [];
          }
            ∷ [])
          ∷ [];
      devices = devices;
    };
  }

  -- The loop over the shards, from `shard` on for `rounds` rounds.
  unfoldable pub build_shards : PoolDefinition F → ℤ → ℕ → ℕ → ℕ → List ResourceSlice
  unfolding build_slice build_devices shard_end
  build_shards definition generation shards shard zero = []
  build_shards definition generation shards shard (suc rounds) =
      let first = shard * devices_per_slice in
      let devices = build_devices definition first (shard_end first definition.capacity - first) in
      build_slice definition generation shard shards devices
      ∷ build_shards definition generation shards (suc shard) rounds

  unfoldable pub build_resource_slices : PoolDefinition F → ℤ → List ResourceSlice
  unfolding build_shards
  build_resource_slices definition generation =
      let total = definition.capacity in
      let shards = (total + devices_per_slice - 1) / devices_per_slice in
      if eqb total 0 then [] else build_shards definition generation shards 0 shards
