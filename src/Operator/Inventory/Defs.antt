-- ===== src/Operator/Inventory/Defs.antt =====
-- The Thunder API as the operator uses it, and buildDesiredPools.
use thunder_device_plugin.Base.{
  ℕ, ◌+◌, ◌≡◌, ◌↔◌, Bool, true, not, ◌&&◌, ◌||◌, Option, none, some, List, [], ◌∷◌, ◌++◌, Str,
  Outcome, ok, err, Fault, Call, Eq, ◌==◌, text_eq, str_eq_iff, codes, is_nil, trim_space, to_lower,
  ltb, eqb, lookup, lookup_or, has_key, insert, Assoc, if◌then◌else◌, arith,
}
use thunder_device_plugin.Base.Int.{ℤ, pos, pos_part, ltb_ℤ}

-- float64 as the operator uses it: the number 1, the test `> 0`, `==`, int64(math.Floor(float64(n) *
-- target)) for a target above 0, and the text that FormatFloat gives with three decimals.
pub record Floats (F : Type 0) : Type 0 where
  pub one : F
  pub zero_value : F
  pub is_positive : F → Bool
  pub same : F → F → Bool
  pub scale : ℕ → F → ℕ
  pub format : F → Str

pub record PoolKey : Type 0 where
  pub zone : Str
  pub gpu_type : Str

unfoldable pub same_pool : PoolKey → PoolKey → Bool
same_pool a b = a.zone == b.zone && a.gpu_type == b.gpu_type

pub same_pool_iff : (a b : PoolKey) → (same_pool a b ≡ true) ↔ (a ≡ b)
unfolding same_pool
same_pool_iff a b = ground (arith, str_eq_iff a.zone b.zone, str_eq_iff a.gpu_type b.gpu_type)

instance abbrev pub pool_eq : Eq PoolKey
pool_eq = record { test = same_pool; test_iff = same_pool_iff }

-- What the Thunder SDK returns.
pub record Zone : Type 0 where
  pub zone_id : Str
  pub display_name : Str

pub record Server : Type 0 where
  pub status : Str
  pub gpu_type : Str
  pub gpu_count : ℤ

pub record RegisteredClient : Type 0 where
  pub gpu_type : Str
  pub gpu_count : ℤ
  pub decommissioned : Bool

pub record TargetEntry (F : Type 0) : Type 0 where
  pub gpu_type : Str
  pub target : F

pub record TargetsResponse (F : Type 0) : Type 0 where
  pub default_target : F
  pub targets : List (TargetEntry F)

-- ThunderAPI.
pub record ThunderApi (F W : Type 0) : Type 0 where
  pub list_zones : Call W Fault (List Zone)
  pub list_servers : Str → Call W Fault (List Server)
  pub list_clients : Str → Call W Fault (List RegisteredClient)
  pub list_targets : Str → Call W Fault (TargetsResponse F)
  pub unenroll_client : Str → W → Option Fault × W

pub record PoolDefinition (F : Type 0) : Type 0 where
  pub zone : Str
  pub gpu_type : Str
  pub host_capacity : ℕ
  pub client_capacity : ℕ
  pub oversubscription : F
  pub capacity : ℕ

unfoldable pub normalize_gpu_type : Str → Str
normalize_gpu_type gpu_type = to_lower (trim_space gpu_type)

unfoldable pub add_gpu_count : Assoc Str ℕ → Str → ℤ → Assoc Str ℕ
unfolding normalize_gpu_type
add_gpu_count counts gpu_type count =
    let normalized = normalize_gpu_type gpu_type in
    if is_nil normalized || not (ltb_ℤ (pos 0) count)
    then counts
    else insert normalized (lookup_or 0 normalized counts + pos_part count) counts

unfoldable pub node_healthy : Str → Bool
node_healthy status =
    let text = trim_space (to_lower status) in
    is_nil text
    || text == codes "active"
    || text == codes "online"
    || text == codes "ready"
    || text == codes "healthy"

-- The two loops that count GPUs by type.
unfoldable pub count_servers : Assoc Str ℕ → List Server → Assoc Str ℕ
unfolding node_healthy add_gpu_count
count_servers counts [] = counts
count_servers counts (server ∷ servers) =
    count_servers
      (if not (node_healthy server.status)
        then counts
        else add_gpu_count counts server.gpu_type server.gpu_count)
      servers

unfoldable pub count_clients : Assoc Str ℕ → List RegisteredClient → Assoc Str ℕ
unfolding add_gpu_count
count_clients counts [] = counts
count_clients counts (client ∷ clients) =
    count_clients
      (if client.decommissioned
        then counts
        else add_gpu_count counts client.gpu_type client.gpu_count)
      clients

abbrev keys : {V : Type 0} → Assoc Str V → List Str
keys [] = []
keys ((k, v) ∷ m) = k ∷ keys m

keys_not_in : {V : Type 0} → Assoc Str V → List Str → List Str
keys_not_in m [] = []
keys_not_in m (k ∷ ks) = if has_key k m then keys_not_in m ks else k ∷ keys_not_in m ks

-- The GPU types of a zone: those of the hosts and those of the clients, each once.
unfoldable pub gpu_types : Assoc Str ℕ → Assoc Str ℕ → List Str
unfolding keys_not_in
gpu_types hosts clients = keys hosts ++ keys_not_in hosts (keys clients)

-- The name and the ID of a zone, each standing in for the other where it is blank.
unfoldable pub zone_names : Zone → Str × Str
zone_names zone =
    let id = trim_space zone.zone_id in
    let shown = trim_space zone.display_name in
    let name = if is_nil shown then id else shown in (name, if is_nil id then name else id)

pub record OversubscriptionTargets (F : Type 0) : Type 0 where
  pub by_gpu_type : Assoc Str F
  pub fallback : F

pub data InventoryError : Type 0 where
  -- "list thunder zones", "list thunder servers in zone %q", "list thunder clients in zone %q"
  zones_failed : Fault → InventoryError
  servers_failed clients_failed : Str → Fault → InventoryError

module _ {F : Type 0} (fl : Floats F) where
  -- `For`: the type's own target, the zone's, or 1; a target that is not positive is none.
  unfoldable pub target_for : OversubscriptionTargets F → Str → F
  unfolding normalize_gpu_type
  target_for t gpu_type =
      let default = if fl.is_positive t.fallback then t.fallback else fl.one in
      elim (lookup (normalize_gpu_type gpu_type) t.by_gpu_type) [
        | none ↦ default
        | some target ↦ if fl.is_positive target then target else default
      ]

  collect_targets : Assoc Str F → List (TargetEntry F) → Assoc Str F
  unfolding normalize_gpu_type
  collect_targets m [] = m
  collect_targets m (entry ∷ entries) =
      let gpu_type = normalize_gpu_type entry.gpu_type in
      collect_targets (if is_nil gpu_type then m else insert gpu_type entry.target m) entries

  -- zoneOversubscription on the answer of the API: a failure means 1 for every type.
  unfoldable pub zone_oversubscription :
      Outcome Fault (TargetsResponse F) → OversubscriptionTargets F
  unfolding collect_targets
  zone_oversubscription (err fault) = record { by_gpu_type = []; fallback = fl.one }
  zone_oversubscription (ok response) = record {
    by_gpu_type = collect_targets [] response.targets;
    fallback = response.default_target;
  }

  unfoldable pub oversubscribed : ℕ → F → ℕ
  oversubscribed host_capacity target =
      if eqb host_capacity 0 || not (fl.is_positive target)
      then 0
      else fl.scale host_capacity target

  abbrev pub no_definition : PoolDefinition F
  no_definition = record {
    zone = [];
    gpu_type = [];
    host_capacity = 0;
    client_capacity = 0;
    oversubscription = fl.zero_value;
    capacity = 0;
  }

  -- What one zone publishes of a GPU type.
  unfoldable pub published : ℕ → ℕ → F → ℕ
  unfolding oversubscribed
  published host client target =
      let scaled = oversubscribed host target in if ltb scaled client then client else scaled

  -- The body of the loop over the GPU types of a zone.
  unfoldable pub add_pool :
      Str
      → Assoc Str ℕ
      → Assoc Str ℕ
      → OversubscriptionTargets F
      → Assoc PoolKey (PoolDefinition F)
      → Str
      → Assoc PoolKey (PoolDefinition F)
  unfolding target_for published
  add_pool zone_name hosts clients targets desired gpu_type =
      let host = lookup_or 0 gpu_type hosts in
      let client = lookup_or 0 gpu_type clients in
      let target = target_for targets gpu_type in
      let capacity = published host client target in
      let key : PoolKey = record { zone = zone_name; gpu_type = gpu_type } in
      let definition = lookup_or no_definition key desired in
      if eqb capacity 0
      then desired
      else insert key
          (record {
            zone = zone_name;
            gpu_type = gpu_type;
            host_capacity = definition.host_capacity + host;
            client_capacity = definition.client_capacity + client;
            oversubscription = target;
            capacity = definition.capacity + capacity;
          })
          desired

  unfoldable pub add_pools :
      Str
      → Assoc Str ℕ
      → Assoc Str ℕ
      → OversubscriptionTargets F
      → Assoc PoolKey (PoolDefinition F)
      → List Str
      → Assoc PoolKey (PoolDefinition F)
  add_pools zone_name hosts clients targets desired [] = desired
  add_pools zone_name hosts clients targets desired (gpu_type ∷ types) =
      add_pools zone_name hosts clients targets
        (add_pool zone_name hosts clients targets desired gpu_type) types

module _ {F W : Type 0} (fl : Floats F) (api : ThunderApi F W) where
  -- The body of the loop over the zones, for a zone that has a name.
  unfoldable pub add_zone :
      Str
      → Str
      → Assoc PoolKey (PoolDefinition F)
      → Call W InventoryError (Assoc PoolKey (PoolDefinition F))
  add_zone zone_name zone_id desired w =
      let (servers, w₁) = api.list_servers zone_id w in
      elim servers [
        | err fault ↦ (err (servers_failed zone_id fault), w₁)
        | ok server_list ↦
            let (clients, w₂) = api.list_clients zone_id w₁ in
            elim clients [
              | err fault ↦ (err (clients_failed zone_id fault), w₂)
              | ok client_list ↦
                  let hosts = count_servers [] server_list in
                  let committed = count_clients [] client_list in
                  let (response, w₃) = api.list_targets zone_id w₂ in
                  (
                    ok (
                        add_pools fl zone_name hosts committed (zone_oversubscription fl response)
                          desired (gpu_types hosts committed)),
                    w₃,
                  )
            ]
      ]

  unfoldable pub add_zones :
      Assoc PoolKey (PoolDefinition F)
      → List Zone
      → Call W InventoryError (Assoc PoolKey (PoolDefinition F))
  add_zones desired [] w = (ok desired, w)
  add_zones desired (zone ∷ zones) w =
      let (name, id) = zone_names zone in
      let (added, w₁) = add_zone name id desired w in
      let skipped = add_zones desired zones w in
      if is_nil name || is_nil id
      then skipped
      else elim added [ err e ↦ (err e, w₁) | ok more ↦ add_zones more zones w₁ ]

  unfoldable pub build_desired_pools : Call W InventoryError (Assoc PoolKey (PoolDefinition F))
  unfolding add_zones
  build_desired_pools w =
      let (zones, w₁) = api.list_zones w in
      elim zones [ err fault ↦ (err (zones_failed fault), w₁) | ok list ↦ add_zones [] list w₁ ]
