-- ===== src/Operator/Tests.antt =====
-- The operator on one zone with four A100 hosts' GPUs and two clients.
use thunder_device_plugin.Base.{
  ℕ, ◌+◌, ◌*◌, ◌≤◌, ◌<◌, ◌≡◌, ◌≢◌, refl, Bool, true, false, not, Option, none, some, List, [], ◌∷◌,
  Str, codes, Outcome, ok, err, Fault, other, arith, ◌==◌, text_eq, str_eq, All, Assoc, lookup,
  lookup_or, length, eqb, ltb, is_nil, not_found, inl, inr,
}
use thunder_device_plugin.Base.Int.{pos, ◌<ℤ◌}
use thunder_device_plugin.Operator.Inventory.Defs.{
  Floats, PoolKey, PoolDefinition, Zone, Server, RegisteredClient, ThunderApi, count_servers,
  count_clients, build_desired_pools,
}
use thunder_device_plugin.Operator.Inventory.Counts.{
  total_server_gpus, total_client_gpus, zone_counts,
}
use thunder_device_plugin.Operator.Inventory.Capacity.{HasFloor, build_desired_pools-HasFloor}
use thunder_device_plugin.Operator.Labels.Defs.{dns_label, pool_name}
use thunder_device_plugin.Operator.Labels.Valid.{IsLabel, IsLabelChar, dns_label-IsLabel}
use thunder_device_plugin.Operator.Labels.Distinct.{names_distinct}
use thunder_device_plugin.Operator.Slices.Defs.{
  Config, ResourceSlice, build_devices, build_resource_slices,
}
use thunder_device_plugin.Operator.Slices.Shards.{
  all_devices, IsShard, build_resource_slices_devices, build_resource_slices-IsShard,
}
use thunder_device_plugin.Operator.Publish.Defs.{
  current_definition_matches, next_generation, sort_by_name,
}
use thunder_device_plugin.Operator.Publish.Generations.{next_generation_rises}
use thunder_device_plugin.Operator.Publish.Stable.{next_generation_stable}
use thunder_device_plugin.Operator.Orphans.Defs.{
  ClientObject, ClientResource, Reaper, reap, reap_orphaned_clients,
}
use thunder_device_plugin.Operator.Orphans.Grace.{IsWaiting, ReadsOnly, reap_orphaned_clients_waits}
use thunder_device_plugin.Operator.Orphans.Release.{Laws, IsSafe, reap-IsSafe}

-- Targets in whole numbers.
abbrev whole : Floats ℕ
whole = record {
  one = 1;
  zero_value = 0;
  is_positive = λ n. ltb 0 n;
  same = eqb;
  scale = λ n target. n * target;
  format = λ n. codes "1.000";
}

abbrev a100 : Str
a100 = codes "a100"

abbrev servers : List Server
servers = record { status = codes "Ready"; gpu_type = codes "A100"; gpu_count = pos 4 } ∷ []

abbrev registered : List RegisteredClient
registered = record { gpu_type = codes "a100"; gpu_count = pos 2; decommissioned = false } ∷ []

abbrev api : ThunderApi ℕ ℕ
api = record {
  list_zones = λ w. (ok (record { zone_id = codes "z1"; display_name = codes "z" } ∷ []), w);
  list_servers = λ zone w. (ok servers, w);
  list_clients = λ zone w. (ok registered, w);
  list_targets = λ zone w. (err (other []), w);
  unenroll_client = λ token w. (none, w);
}

a100_named : a100 ≢ []
unfolding codes
a100_named h = cc

zone_counts_example :
    (lookup_or 0 a100 (count_servers [] servers) ≡ total_server_gpus a100 servers)
    × (lookup_or 0 a100 (count_clients [] registered) ≡ total_client_gpus a100 registered)
zone_counts_example = zone_counts a100 servers registered a100_named

abbrev pool : PoolDefinition ℕ
pool = record {
  zone = codes "z";
  gpu_type = codes "a100";
  host_capacity = 4;
  client_capacity = 2;
  oversubscription = 1;
  capacity = 4;
}

abbrev pool_key : PoolKey
pool_key = record { zone = codes "z"; gpu_type = codes "a100" }

built : (build_desired_pools whole api 0).0 ≡ ok ((pool_key, pool) ∷ [])
unfolding build_desired_pools codes lookup lookup_or str_eq
    thunder_device_plugin.Operator.Inventory.Defs.zone_names thunder_device_plugin.Base.trim_space
    thunder_device_plugin.Operator.Inventory.Defs.add_zone
    thunder_device_plugin.Operator.Inventory.Defs.add_pools
    thunder_device_plugin.Operator.Inventory.Defs.gpu_types count_servers
    thunder_device_plugin.Base.to_lower thunder_device_plugin.Base.insert count_clients
    thunder_device_plugin.Base.has_key thunder_device_plugin.Operator.Inventory.Defs.add_pool
    thunder_device_plugin.Operator.Inventory.Defs.zone_oversubscription
built = refl

build_desired_pools-HasFloor_example : All HasFloor ((pool_key, pool) ∷ [])
build_desired_pools-HasFloor_example =
    build_desired_pools-HasFloor whole api 0 ((pool_key, pool) ∷ []) built

abbrev digest : Str → Str
digest text = codes "0123456789"

length-digest : (text : Str) → length (digest text) ≡ 10
unfolding codes
length-digest text = refl

digest_spelled : (text : Str) → All IsLabelChar (digest text)
unfolding codes thunder_device_plugin.Operator.Labels.Defs.is_label_char
digest_spelled text =
    (refl, (refl, (refl, (refl, (refl, (refl, (refl, (refl, (refl, (refl, tt))))))))))

dns_label-IsLabel_example : IsLabel (dns_label digest (codes "US East 1"))
dns_label-IsLabel_example =
    dns_label-IsLabel digest length-digest digest_spelled (codes "US East 1")

names_distinct_example : ◌≡◌ {A = ℕ} 2 2
names_distinct_example = names_distinct digest (codes "thunder") (codes "z") a100 2 2 (inl refl)

abbrev config : Config
config = record {
  driver_name = codes "thundercompute.com";
  name_prefix = codes "thunder";
  zone_label_key = codes "topology.kubernetes.io/zone";
  device_class_prefix = codes "thunder-gpu-";
  extended_resource_prefix = codes "thundercompute.com/gpu-";
  orphan_grace_period = 300;
}

build_resource_slices_devices_example :
    all_devices (build_resource_slices whole digest config pool (pos 1))
    ≡ build_devices whole digest config pool 0 pool.capacity
build_resource_slices_devices_example =
    build_resource_slices_devices whole digest config pool (pos 1)

build_resource_slices-IsShard_example :
    All
      (IsShard
        (pool_name digest pool.zone pool.gpu_type)
        (pos 1)
        (length (build_resource_slices whole digest config pool (pos 1))))
      (build_resource_slices whole digest config pool (pos 1))
build_resource_slices-IsShard_example =
    build_resource_slices-IsShard whole digest config pool (pos 1)

in_order :
    let published = build_resource_slices whole digest config pool (pos 3) in
    sort_by_name published ≡ published
unfolding build_resource_slices sort_by_name
in_order = refl

next_generation_stable_example :
    next_generation whole digest config [] pool_key pool
      (sort_by_name (build_resource_slices whole digest config pool (pos 3)))
    ≡ pos 3
next_generation_stable_example =
    next_generation_stable whole digest config [] pool_key pool 2 (omega arith) in_order

abbrev other_slice : ResourceSlice
other_slice = record {
  name = codes "s";
  labels = [];
  spec = record {
    driver = [];
    pool = [];
    generation = pos 3;
    slice_count = 0;
    node_selector = [];
    devices = [];
  };
}

changed : current_definition_matches whole digest config (other_slice ∷ []) pool ≡ false
unfolding current_definition_matches build_resource_slices
    thunder_device_plugin.Operator.Publish.Same.same_spec str_eq pool_name dns_label
    thunder_device_plugin.Base.to_lower thunder_device_plugin.Base.trim_space codes
    thunder_device_plugin.Operator.Labels.Defs.truncate_label
changed = refl

next_generation_rises_example :
    pos 3 <ℤ next_generation whole digest config [] pool_key pool (other_slice ∷ [])
unfolding lookup
next_generation_rises_example =
    next_generation_rises whole digest config [] pool_key pool (other_slice ∷ []) changed
      (omega arith)

abbrev orphan : ClientObject
orphan = record {
  namespace = codes "ns";
  name = codes "c1";
  finalizers = codes "thundercompute.com/client-cleanup" ∷ [];
  claim_namespace = codes "ns";
  claim_name = codes "c1";
  claim_uid = codes "u1";
  token_id = codes "t1";
}

-- Is the token in force, and which objects are there?
abbrev Cluster : Type 0
Cluster = Bool × List ClientObject

abbrev resource : ClientResource Cluster
resource = record {
  list = λ w. (ok w.1, w);
  update = λ item w. (none, (w.0, item ∷ []));
  delete = λ namespace name w. (none, (w.0, []));
}

abbrev reaper : Reaper Cluster
reaper = record {
  get_claim_uid = λ namespace name w. (err not_found, w);
  unenroll_client = λ token w. (none, (false, w.1));
  now = λ w. 10;
  clients = some resource;
  orphan_grace_period = 300;
}

abbrev tokens : Cluster → List Str
tokens (true, objects) = codes "t1" ∷ []
tokens (false, objects) = []

laws : Laws reaper resource (λ w token. w.0) (λ w. w.1)
laws = record {
  unenroll_objects = λ token w. refl;
  unenroll_revokes = λ token w h. refl;
  update_tokens = λ item w token. refl;
  delete_tokens = λ namespace name w token. refl;
}

abbrev start : Cluster
start = (true, orphan ∷ [])

tokened : is_nil orphan.token_id ≡ false
unfolding codes
tokened = refl

-- The same cluster with a clock, which each call moves on.
abbrev Clocked : Type 0
Clocked = ℕ × Cluster

abbrev clocked_resource : ClientResource Clocked
clocked_resource = record {
  list = λ w. (ok w.1.1, (w.0 + 5, w.1));
  update = λ item w. (none, (w.0 + 1, (w.1.0, item ∷ [])));
  delete = λ namespace name w. (none, (w.0 + 1, (w.1.0, [])));
}

abbrev clocked_reaper : Reaper Clocked
clocked_reaper = record {
  get_claim_uid = λ namespace name w. (err not_found, (w.0 + 2, w.1));
  unenroll_client = λ token w. (none, (w.0 + 1, (false, w.1.1)));
  now = λ w. w.0;
  clients = some clocked_resource;
  orphan_grace_period = 300;
}

reads : ReadsOnly clocked_reaper clocked_resource (λ w. tokens w.1)
reads = record {
  get_claim_keeps = λ namespace name w. refl;
  list_keeps = λ w. refl;
  get_claim_later = λ namespace name w. omega arith;
  list_later = λ w. omega arith;
  unenroll_later = λ token w. omega arith;
  update_later = λ item w. omega arith;
  delete_later = λ namespace name w. omega arith;
}

abbrev at_ten : Clocked
at_ten = (10, start)

ends : (reap_orphaned_clients clocked_reaper [] at_ten).1.1.0 ≡ 17
unfolding reap_orphaned_clients codes lookup
ends = refl

reap_orphaned_clients_waits_example :
    let (answer, (orphans, w)) = reap_orphaned_clients clocked_reaper [] at_ten in
    (tokens w.1 ≡ tokens start) × All (IsWaiting 300 w.0) orphans
reap_orphaned_clients_waits_example =
    reap_orphaned_clients_waits clocked_reaper clocked_resource (λ w. tokens w.1) reads [] at_ten
      refl (omega (arith, ends)) tt

reap-IsSafe_example :
    IsSafe reaper resource
      (λ w token. w.0)
      (λ w. w.1)
      laws
      orphan
      start
      (reap reaper resource orphan start)
reap-IsSafe_example =
    reap-IsSafe reaper resource (λ w token. w.0) (λ w. w.1) laws orphan start tokened
