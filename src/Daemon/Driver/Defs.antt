-- ===== src/Daemon/Driver/Defs.antt =====
-- The methods of internal/daemon/driver.go.
use thunder_device_plugin.Base.{
  ℕ, Bool, not, ◌&&◌, ◌||◌, Option, none, some, List, [], ◌∷◌, ◌++◌, map, Str, Outcome, ok, err,
  Call, ◌==◌, text_eq, codes, is_nil, is_blank, trim_space, length, lookup, if◌then◌else◌,
}
use thunder_device_plugin.Daemon.Config.{default_dra_driver_name}
use thunder_device_plugin.Daemon.Driver.Types.{
  AllocationResult, ConsumerReference, ResourceClaim, Device, ResourceSlice, PreparedDevice,
  ResourceConsumer, AllocatedDevice, Allocation, ThunderClient, GuestArtifacts, Kube, Driver,
  Stores, DriverError, kube_required, tokens_required, clients_required, cdi_required,
  guest_required, not_allocated, list_slices_failed, device_not_found, missing_attributes,
  mixed_pools, no_result,
}

abbrev pub zone_attribute_name : Str
zone_attribute_name = codes "thundercompute.com/zone"

abbrev pub gpu_type_attribute_name : Str
gpu_type_attribute_name = codes "thundercompute.com/gpu_type"

-- stringAttribute: "" for an attribute that is missing or has no string value.
unfoldable pub string_attribute : Device → Str → Str
string_attribute device name = elim (lookup name device.attributes) [
  | none ↦ []
  | some value ↦ elim value [ none ↦ [] | some text ↦ trim_space text ]
]

abbrev pub no_consumer : ResourceConsumer
no_consumer = record { api_group = []; resource = []; namespace = []; name = []; uid = [] }

consumer_of : Str → List ConsumerReference → ResourceConsumer
consumer_of namespace [] = no_consumer
consumer_of namespace (c ∷ cs) = record {
  api_group = c.api_group;
  resource = c.resource;
  namespace = namespace;
  name = c.name;
  uid = c.uid;
}

unfoldable pub first_consumer : ResourceClaim → ResourceConsumer
unfolding consumer_of
first_consumer claim = consumer_of claim.namespace claim.reserved_for

-- One entry for each allocated GPU, all of them on the one CDI device of the claim.
unfoldable pub devices_for : Str → Allocation → List PreparedDevice
devices_for cdi_name allocation =
    map
      (λ d. record {
        requests = d.request_name ∷ [];
        pool_name = d.pool_name;
        device_name = d.device_name;
        share_id = d.share_id;
        cdi_device_ids = cdi_name ∷ [];
      })
      allocation.devices

find_device : Str → List Device → Option Device
find_device name [] = none
find_device name (device ∷ devices) =
    if device.name == name then some device else find_device name devices

-- The two loops of allocatedDevice.
unfoldable pub find_in_slices : Str → Str → List ResourceSlice → Option Device
unfolding find_device
find_in_slices pool name [] = none
find_in_slices pool name (slice ∷ slices) =
    let rest = find_in_slices pool name slices in
    if not (slice.pool_name == pool)
    then rest
    else elim (find_device name slice.devices) [ none ↦ rest | some device ↦ some device ]

-- The zone and GPU type that one more device must agree with, "" before the first.
unfoldable pub agrees : Str → Str → Str → Str → Bool
agrees zone gpu_type zone' gpu_type' = is_nil zone || (zone == zone' && gpu_type == gpu_type')

-- thunderClientFromAllocation, at the time `now`, with the fields that prepareOne fills in after.
unfoldable pub thunder_client_from_allocation :
    Allocation → ℕ → Str → Str → GuestArtifacts → ThunderClient
thunder_client_from_allocation a now cdi_name token_id artifacts = record {
  claim_uid = a.claim_uid;
  claim_namespace = a.claim_namespace;
  claim_name = a.claim_name;
  gpu_type = a.gpu_type;
  gpu_count = a.gpu_count;
  zone = a.zone;
  node_name = a.node_name;
  request_name = a.request_name;
  pool_name = a.pool_name;
  device_name = a.device_name;
  share_id = a.share_id;
  consumer = a.consumer;
  cdi_name = cdi_name;
  enrollment_token_id = token_id;
  guest_namespace = artifacts.namespace;
  guest_secret = artifacts.secret_name;
  created_at = now;
  updated_at = now;
}

module _ {W : Type 0} (d : Driver W) where
  unfoldable pub driver_name : Str
  driver_name = if is_blank d.driver_name then default_dra_driver_name else trim_space d.driver_name

  unfoldable pub validate_stores_only : Outcome DriverError (Stores W)
  validate_stores_only = elim d.tokens [
    | none ↦ err tokens_required
    | some tokens ↦ elim d.clients [
      | none ↦ err clients_required
      | some clients ↦ elim d.cdi [
        | none ↦ err cdi_required
        | some cdi ↦ elim d.guest [
          | none ↦ err guest_required
          | some guest ↦
              ok (record { tokens = tokens; clients = clients; cdi = cdi; guest = guest })
        ]
      ]
    ]
  ]

  unfoldable pub validate : Outcome DriverError (Kube W × Stores W)
  unfolding validate_stores_only
  validate = elim d.kube [
    | none ↦ err kube_required
    | some kube ↦ elim validate_stores_only [ err e ↦ err e | ok stores ↦ ok (kube, stores) ]
  ]

  unfoldable pub allocated_device : Kube W → Str → Str → Call W DriverError Device
  unfolding driver_name
  allocated_device kube pool name w =
      let (slices, w') = kube.list_resource_slices driver_name w in
      (
        elim slices [
          | err fault ↦ err (list_slices_failed fault)
          | ok list ↦ elim (find_in_slices pool name list) [
            | none ↦ err (device_not_found pool name)
            | some device ↦ ok device
          ]
        ],
        w',
      )

  -- The loop of decodeAllocation over the results left, with the allocation so far.
  unfoldable pub decode_results :
      Kube W → List AllocationResult → Allocation → Call W DriverError Allocation
  decode_results kube [] a w = (ok a, w)
  decode_results kube (result ∷ results) a w =
      let skip = decode_results kube results a w in
      let (found, w') = allocated_device kube result.pool result.device w in
      let next = λ (device : Device).
        decode_results kube results
          (record a {
            zone = string_attribute device zone_attribute_name;
            gpu_type = string_attribute device gpu_type_attribute_name;
            devices =
                a.devices
                ++ record {
                  request_name = result.request;
                  pool_name = result.pool;
                  device_name = result.device;
                  share_id = result.share_id;
                }
                  ∷ [];
          })
          w' in
      if not (result.driver == driver_name) then skip else elim found [
        | err e ↦ (err e, w')
        | ok device ↦
            let zone = string_attribute device zone_attribute_name in
            let gpu_type = string_attribute device gpu_type_attribute_name in
            let rest = next device in
            if is_nil zone || is_nil gpu_type
            then (err (missing_attributes result.pool result.device), w')
            else if not (agrees a.zone a.gpu_type zone gpu_type)
            then (err mixed_pools, w')
            else rest
      ]

  -- The end of decodeAllocation: the first device names the claim.
  unfoldable pub name_allocation :
      Allocation → List AllocatedDevice → Outcome DriverError Allocation
  name_allocation a [] = err no_result
  name_allocation a (first ∷ others) = ok (record a {
    gpu_count = length a.devices;
    request_name = first.request_name;
    pool_name = first.pool_name;
    device_name = first.device_name;
    share_id = first.share_id;
  })

  unfoldable pub decode_allocation : Kube W → ResourceClaim → Call W DriverError Allocation
  decode_allocation kube claim w = elim claim.allocation [
    | none ↦ (err not_allocated, w)
    | some results ↦
        let (decoded, w') =
          decode_results kube results
            (record {
              claim_uid = claim.uid;
              claim_namespace = claim.namespace;
              claim_name = claim.name;
              devices = [];
              request_name = [];
              pool_name = [];
              device_name = [];
              share_id = none;
              consumer = first_consumer claim;
              node_name = d.node_name;
              zone = [];
              gpu_type = [];
              gpu_count = 0;
            })
            w in
        (elim decoded [ err e ↦ err e | ok a ↦ name_allocation a a.devices ], w')
  ]
