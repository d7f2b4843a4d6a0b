-- ===== src/Daemon/Driver/DecodeTests.antt =====
-- A claim for two A100s of one pool, and a third device that is another driver's.
use thunder_device_plugin.Base.{
  ℕ, ◌≡◌, refl, Option, none, some, List, [], ◌∷◌, Str, codes, Outcome, ok, err,
}
use thunder_device_plugin.Daemon.Driver.Types.{
  AllocationResult, Allocation, ResourceClaim, Device, Kube, Driver,
}
use thunder_device_plugin.Daemon.Driver.Defs.{
  zone_attribute_name, gpu_type_attribute_name, driver_name, no_consumer, decode_allocation,
}
use thunder_device_plugin.Daemon.Driver.Decode.{IsWhole, device_of, decode_allocation-IsWhole}

abbrev pool : Str
pool = codes "z/a100"

abbrev gpu : Str → Device
gpu name = record {
  name = name;
  attributes =
      (zone_attribute_name, some (codes "z")) ∷ (gpu_type_attribute_name, some (codes "A100")) ∷ [];
}

abbrev cluster : Kube ℕ
cluster = record {
  list_resource_slices = λ driver w. (
    ok (
        record { pool_name = pool; devices = gpu (codes "a100-0") ∷ gpu (codes "a100-1") ∷ [] }
        ∷ []),
    w,
  );
}

abbrev driver : Driver ℕ
driver = record {
  driver_name = codes "thundercompute.com";
  node_name = codes "n1";
  kube = some cluster;
  tokens = none;
  clients = none;
  cdi = none;
  guest = none;
}

abbrev allocated : Str → Str → AllocationResult
allocated owner name = record {
  request = codes "gpus";
  driver = owner;
  pool = pool;
  device = name;
  share_id = none;
}

abbrev results : List AllocationResult
results =
    allocated (codes "thundercompute.com") (codes "a100-0")
    ∷ allocated (codes "nic.example") (codes "eth0")
    ∷ allocated (codes "thundercompute.com") (codes "a100-1")
    ∷ []

abbrev claim : ResourceClaim
claim = record {
  uid = codes "u1";
  namespace = codes "ns";
  name = codes "c1";
  allocation = some results;
  reserved_for = [];
}

abbrev two_gpus : Allocation
two_gpus = record {
  claim_uid = codes "u1";
  claim_namespace = codes "ns";
  claim_name = codes "c1";
  devices =
      device_of (allocated (codes "thundercompute.com") (codes "a100-0"))
      ∷ device_of (allocated (codes "thundercompute.com") (codes "a100-1"))
      ∷ [];
  request_name = codes "gpus";
  pool_name = pool;
  device_name = codes "a100-0";
  share_id = none;
  consumer = no_consumer;
  node_name = codes "n1";
  zone = codes "z";
  gpu_type = codes "A100";
  gpu_count = 2;
}

accepted : (decode_allocation driver cluster claim 0).0 ≡ ok two_gpus
unfolding decode_allocation thunder_device_plugin.Daemon.Driver.Defs.decode_results
    thunder_device_plugin.Base.str_eq codes driver_name thunder_device_plugin.Base.trim_space
    thunder_device_plugin.Daemon.Driver.Defs.allocated_device
    thunder_device_plugin.Daemon.Driver.Defs.find_in_slices
    thunder_device_plugin.Daemon.Driver.Defs.string_attribute thunder_device_plugin.Base.lookup
    thunder_device_plugin.Daemon.Driver.Defs.agrees
    thunder_device_plugin.Daemon.Driver.Defs.name_allocation
    thunder_device_plugin.Daemon.Driver.Defs.first_consumer
accepted = refl

decode_allocation-IsWhole_example : IsWhole claim.uid (driver_name driver) results two_gpus
decode_allocation-IsWhole_example =
    decode_allocation-IsWhole driver cluster claim results 0 two_gpus refl accepted
