-- ===== src/Operator/Publish/Defs.antt =====
-- nextGeneration, listExistingResourceSlices, applyPool and what they use. The log lines are left out.
use thunder_device_plugin.Base.{
  ℕ, suc, ◌+◌, ◌^◌, ◌-◌, Bool, true, false, not, ◌&&◌, ◌||◌, Option, none, some, List, [], ◌∷◌,
  ◌++◌, Str, Fault, Call, is_not_found, is_nil, ◌==◌, text_eq, eqb, lookup, lookup_or, insert,
  erase, Assoc, length, split, str_lt, if◌then◌else◌,
}
use thunder_device_plugin.Base.Int.{ℤ, pos, negsuc, pos_part, ltb_ℤ}
use thunder_device_plugin.Base.Atoi.{atoi}
use thunder_device_plugin.Operator.Inventory.Defs.{
  Floats, PoolKey, pool_eq, PoolDefinition, no_definition,
}
use thunder_device_plugin.Operator.Slices.Defs.{
  Config, ResourceSlice, build_resource_slices, default_name_prefix, host_capacity_label,
  client_capacity_label,
}
use thunder_device_plugin.Operator.Publish.Same.{same_map, same_spec}

pub record PublishedPool (F : Type 0) : Type 0 where
  pub definition : PoolDefinition F
  pub generation : ℤ

-- `n + 1` on an int64.
unfoldable pub next_int64 : ℤ → ℤ
next_int64 (pos n) = if eqb n (2 ^ 63 - 1) then negsuc (2 ^ 63 - 1) else pos (suc n)
next_int64 (negsuc ℕ.zero) = pos 0
next_int64 (negsuc (suc n)) = negsuc n

unfoldable pub resource_slice_key : ResourceSlice → Option PoolKey
resource_slice_key slice = elim (split b'/' slice.spec.pool) [
  | [] ↦ none
  | zone ∷ others ↦ elim others [
    | [] ↦ none
    | gpu_type ∷ more ↦
        if not (is_nil more) || is_nil zone || is_nil gpu_type
        then none
        else some (record { zone = zone; gpu_type = gpu_type })
  ]
]

parse_int_label : Option Str → ℤ
parse_int_label none = pos 0
parse_int_label (some value) = elim (atoi value) [ none ↦ pos 0 | some n ↦ n ]

count_devices : List ResourceSlice → ℕ
count_devices [] = 0
count_devices (slice ∷ slices) = length slice.spec.devices + count_devices slices

insert_by_name : ResourceSlice → List ResourceSlice → List ResourceSlice
insert_by_name slice [] = slice ∷ []
insert_by_name slice (s ∷ slices) =
    if str_lt s.name slice.name then s ∷ insert_by_name slice slices else slice ∷ s ∷ slices

-- `sort.Slice` by name; the names of the slices of a cluster differ.
unfoldable pub sort_by_name : List ResourceSlice → List ResourceSlice
unfolding insert_by_name
sort_by_name [] = []
sort_by_name (slice ∷ slices) = insert_by_name slice (sort_by_name slices)

-- The loop that files the slices under their pools.
unfoldable pub group_slices :
    Assoc PoolKey (List ResourceSlice) → List ResourceSlice → Assoc PoolKey (List ResourceSlice)
unfolding resource_slice_key
group_slices existing [] = existing
group_slices existing (slice ∷ slices) = elim (resource_slice_key slice) [
  | none ↦ group_slices existing slices
  | some key ↦ group_slices (insert key (lookup_or [] key existing ++ (slice ∷ [])) existing) slices
]

module _ {F : Type 0} (fl : Floats F) (digest : Str → Str) (cfg : Config) where
  -- The counts of the labels are read as numbers from 0 up, which is how the operator writes them.
  unfoldable pub definition_from_resource_slices : List ResourceSlice → PoolDefinition F
  unfolding parse_int_label count_devices
  definition_from_resource_slices [] = no_definition fl
  definition_from_resource_slices (slice ∷ slices) = elim (resource_slice_key slice) [
    | none ↦ no_definition fl
    | some key ↦ record {
      zone = key.zone;
      gpu_type = key.gpu_type;
      host_capacity = pos_part (parse_int_label (lookup host_capacity_label slice.labels));
      client_capacity = pos_part (parse_int_label (lookup client_capacity_label slice.labels));
      oversubscription = fl.zero_value;
      capacity = count_devices (slice ∷ slices);
    }
  ]

  unfoldable pub same_definition : PoolDefinition F → PoolDefinition F → Bool
  same_definition a b =
      a.zone == b.zone
      && a.gpu_type == b.gpu_type
      && eqb a.host_capacity b.host_capacity
      && eqb a.client_capacity b.client_capacity
      && fl.same a.oversubscription b.oversubscription
      && eqb a.capacity b.capacity

  unfoldable pub same_specs : List ResourceSlice → List ResourceSlice → Bool
  same_specs [] [] = true
  same_specs [] (w ∷ wanted) = false
  same_specs (c ∷ current) [] = false
  same_specs (c ∷ current) (w ∷ wanted) = same_spec c.spec w.spec && same_specs current wanted

  -- The configuration with which currentDefinitionMatches renders the definition again.
  abbrev pub rendering : ResourceSlice → Config
  rendering first = record cfg {
    driver_name = first.spec.driver;
    name_prefix = default_name_prefix;
  }

  unfoldable pub current_definition_matches : List ResourceSlice → PoolDefinition F → Bool
  unfolding same_specs
  current_definition_matches [] definition = false
  current_definition_matches (first ∷ rest) definition =
      same_specs (first ∷ rest)
        (build_resource_slices fl digest (rendering first) definition first.spec.generation)

  -- The generation that stands in the first slice.
  abbrev pub current_generation : List ResourceSlice → ℤ
  current_generation [] = pos 0
  current_generation (first ∷ rest) = first.spec.generation

  unfoldable pub next_generation :
      Assoc PoolKey (PublishedPool F) → PoolKey → PoolDefinition F → List ResourceSlice → ℤ
  unfolding current_definition_matches same_definition next_int64
  next_generation cache key definition current =
      let generation = current_generation current in
      if current_definition_matches current definition
      then if ltb_ℤ (pos 0) generation then generation else pos 1
      else (elim (lookup key cache) [
        | some cached ↦
            if same_definition cached.definition definition
            then cached.generation
            else next_int64 cached.generation
        | none ↦ if ltb_ℤ (pos 0) generation then next_int64 generation else pos 1
      ])

-- The ResourceSlice calls of the Kubernetes API.
pub record SliceApi (W : Type 0) : Type 0 where
  pub list : Call W Fault (List ResourceSlice)
  pub create : ResourceSlice → W → Option Fault × W
  pub update : ResourceSlice → W → Option Fault × W
  pub delete : Str → W → Option Fault × W

pub data PublishError : Type 0 where
  -- "list ResourceSlices"
  list_failed : Fault → PublishError
  -- "create ResourceSlice %s", "update ResourceSlice %s", "delete ResourceSlice %s"
  create_failed update_failed delete_failed : Str → Fault → PublishError

unfoldable pub same_published_resource_slice : ResourceSlice → ResourceSlice → Bool
same_published_resource_slice current wanted =
    same_map current.labels wanted.labels && same_spec current.spec wanted.spec

by_name_from : Assoc Str ResourceSlice → List ResourceSlice → Assoc Str ResourceSlice
by_name_from m [] = m
by_name_from m (slice ∷ slices) = by_name_from (insert slice.name slice m) slices

failed_with : (Fault → PublishError) → Option Fault → Option PublishError
failed_with error none = none
failed_with error (some fault) = some (error fault)

module _ {W : Type 0} (api : SliceApi W) where
  unfoldable pub delete_slice : Str → W → Option PublishError × W
  unfolding failed_with
  delete_slice name w =
      let (answer, w') = api.delete name w in
      (
        elim answer [
          | none ↦ none
          | some fault ↦ if is_not_found fault then none else some (delete_failed name fault)
        ],
        w',
      )

  -- The body of the loop over the wanted slices, for the slice that has its name, if any.
  unfoldable pub apply_slice : Option ResourceSlice → ResourceSlice → W → Option PublishError × W
  unfolding failed_with same_published_resource_slice
  apply_slice none slice w =
      let (answer, w') = api.create slice w in (failed_with (create_failed slice.name) answer, w')
  apply_slice (some existing) slice w =
      let (answer, w') =
        api.update (record existing { labels = slice.labels; spec = slice.spec }) w in
      if same_published_resource_slice existing slice
      then (none, w)
      else (failed_with (update_failed slice.name) answer, w')

  unfoldable pub delete_surplus : Assoc Str ResourceSlice → W → Option PublishError × W
  unfolding delete_slice
  delete_surplus [] w = (none, w)
  delete_surplus ((name, stale) ∷ m) w =
      let (answer, w') = delete_slice stale.name w in
      let rest = delete_surplus m w' in elim answer [ some e ↦ (some e, w') | none ↦ rest ]

  unfoldable pub apply_slices :
      Assoc Str ResourceSlice → List ResourceSlice → W → Option PublishError × W
  unfolding apply_slice delete_surplus
  apply_slices by_name [] w = delete_surplus by_name w
  apply_slices by_name (slice ∷ wanted) w =
      let (answer, w') = apply_slice (lookup slice.name by_name) slice w in
      let rest = apply_slices (erase slice.name by_name) wanted w' in
      elim answer [ some e ↦ (some e, w') | none ↦ rest ]

  unfoldable pub apply_pool : List ResourceSlice → List ResourceSlice → W → Option PublishError × W
  unfolding by_name_from apply_slices
  apply_pool current wanted w = apply_slices (by_name_from [] current) wanted w
