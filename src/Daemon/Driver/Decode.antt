-- ===== src/Daemon/Driver/Decode.antt =====
-- decodeAllocation and the devices of a claim.
use thunder_device_plugin.Base.{
  ◌<◌, ◌≡◌, refl, sym, ap, ◌∙◌, ◌⊎◌, inl, inr, true, false, not, ◌||◌, none, some, List, [], ◌∷◌,
  ◌++◌, Str, Outcome, ok, err, Outcome-branch, if-branch, ◌==◌, text_eq, is_nil, length, arith,
  if◌then◌else◌,
}
use mathlib.Core.Path.{subst}
use mathlib.Core.List.{append-nil}
use thunder_device_plugin.Daemon.Driver.Types.{
  AllocationResult, AllocatedDevice, Allocation, ResourceClaim, Kube, Driver, DriverError,
}
use thunder_device_plugin.Daemon.Driver.Defs.{
  string_attribute, zone_attribute_name, gpu_type_attribute_name, agrees, driver_name,
  allocated_device, decode_results, name_allocation, decode_allocation, first_consumer,
}

abbrev pub device_of : AllocationResult → AllocatedDevice
device_of result = record {
  request_name = result.request;
  pool_name = result.pool;
  device_name = result.device;
  share_id = result.share_id;
}

-- The devices of a claim that are this driver's.
abbrev pub own_devices : Str → List AllocationResult → List AllocatedDevice
own_devices driver [] = []
own_devices driver (result ∷ results) =
    if result.driver == driver
    then device_of result ∷ own_devices driver results
    else own_devices driver results

-- An allocation for the devices of a claim: all of the driver's, in the order of the claim, at least
-- one, counted, and with a zone and a GPU type.
pub record IsWhole (claim_uid : Str) (driver : Str) (results : List AllocationResult)
    (a : Allocation) : Type 0 where
  pub complete : a.devices ≡ own_devices driver results
  pub counted : a.gpu_count ≡ length a.devices
  pub some_device : 0 < a.gpu_count
  pub has_zone : is_nil a.zone ≡ false
  pub has_gpu_type : is_nil a.gpu_type ≡ false
  pub same_claim : a.claim_uid ≡ claim_uid

ok_injective : {E A : Type 0} {a b : A} → ◌≡◌ {A = Outcome E A} (ok a) (ok b) → a ≡ b
ok_injective h = cc

snoc-append : {A : Type 0} (xs : List A) (x : A) (ys : List A) → (xs ++ x ∷ []) ++ ys ≡ xs ++ x ∷ ys
snoc-append [] x ys = refl
snoc-append (y ∷ xs) x ys = ap (λ zs. y ∷ zs) (snoc-append xs x ys)

-- With a device an allocation has a zone and a GPU type.
Located : Allocation → Type 0
Located a = (a.devices ≡ []) ⊎ ((is_nil a.zone ≡ false) × (is_nil a.gpu_type ≡ false))

placed_with :
    (a : Allocation) (first : AllocatedDevice) (others : List AllocatedDevice)
    → a.devices ≡ first ∷ others
    → Located a
    → (is_nil a.zone ≡ false) × (is_nil a.gpu_type ≡ false)
unfolding Located
placed_with a first others shape (inl empty) = cc
placed_with a first others shape (inr placed) = placed

module _ {W : Type 0} (d : Driver W) (kube : Kube W) where
  -- What the loop leaves of an allocation.
  Decoded : Allocation → List AllocationResult → Outcome DriverError Allocation × W → Type 0
  Decoded before results (ok a, w) =
      (a.devices ≡ before.devices ++ own_devices (driver_name d) results)
      × (a.claim_uid ≡ before.claim_uid)
      × Located a
  Decoded before results (err e, w) = Unit

  Decoded-skipped :
      (a : Allocation) (result : AllocationResult) (results : List AllocationResult)
      (r : Outcome DriverError Allocation × W)
      → (result.driver == driver_name d) ≡ false
      → Decoded a results r
      → Decoded a (result ∷ results) r
  unfolding Decoded
  Decoded-skipped a result results (ok a', w) foreign h = rw foreign h
  Decoded-skipped a result results (err e, w) foreign h = tt

  Decoded-taken :
      (a next : Allocation) (result : AllocationResult) (results : List AllocationResult)
      (r : Outcome DriverError Allocation × W)
      → (result.driver == driver_name d) ≡ true
      → next.devices ≡ a.devices ++ device_of result ∷ []
      → next.claim_uid ≡ a.claim_uid
      → Decoded next results r
      → Decoded a (result ∷ results) r
  unfolding Decoded
  Decoded-taken a next result results (ok a', w) own added same (devices, uid, located) =
      let own_rest = own_devices (driver_name d) results in
      (
        rw own (
            devices
            ∙ ap (λ ds. ds ++ own_rest) added
            ∙ snoc-append a.devices (device_of result) own_rest),
        uid ∙ same,
        located,
      )
  Decoded-taken a next result results (err e, w) own added same h = tt

  decode_results-Decoded :
      (results : List AllocationResult) (a : Allocation) (w : W)
      → Located a
      → Decoded a results (decode_results d kube results a w)
  unfolding decode_results Decoded Located
  decode_results-Decoded [] a w located = (sym (append-nil a.devices), refl, located)
  decode_results-Decoded (result ∷ results) a w located =
      let w' = (allocated_device d kube result.pool result.device w).1 in
      if-branch (Decoded a (result ∷ results)) (not (result.driver == driver_name d)) _ _
        (λ foreign.
          Decoded-skipped a result results (decode_results d kube results a w) (ground arith)
            (decode_results-Decoded results a w located))
        (λ own.
          Outcome-branch (Decoded a (result ∷ results))
            (allocated_device d kube result.pool result.device w).0 _ _
            (λ device found.
              let zone = string_attribute device zone_attribute_name in
              let gpu_type = string_attribute device gpu_type_attribute_name in
              let next = record a {
                zone = zone;
                gpu_type = gpu_type;
                devices = a.devices ++ device_of result ∷ [];
              } in
              if-branch (Decoded a (result ∷ results)) (is_nil zone || is_nil gpu_type) _ _
                (λ missing. tt)
                (λ placed.
                  if-branch (Decoded a (result ∷ results))
                    (not (agrees a.zone a.gpu_type zone gpu_type)) _ _ (λ mixed. tt)
                    (λ uniform.
                      Decoded-taken a next result results (decode_results d kube results next w')
                        (ground arith) refl refl
                        (decode_results-Decoded results next w' (inr (ground arith))))))
            (λ e lost. tt))

  Named : Str → List AllocationResult → Outcome DriverError Allocation × W → Type 0
  Named uid results (ok a, w) = IsWhole uid (driver_name d) results a
  Named uid results (err e, w) = Unit

  name_allocation-Named :
      (claim : ResourceClaim) (results : List AllocationResult) (a : Allocation)
      (devices : List AllocatedDevice) (w : W)
      → a.devices ≡ devices
      → a.devices ≡ own_devices (driver_name d) results
      → a.claim_uid ≡ claim.uid
      → Located a
      → Named claim.uid results (name_allocation d a devices, w)
  unfolding name_allocation Named Located
  name_allocation-Named claim results a [] w shape complete uid located = tt
  name_allocation-Named claim results a (first ∷ others) w shape complete uid located =
      let placed : (is_nil a.zone ≡ false) × (is_nil a.gpu_type ≡ false) =
        placed_with a first others shape located in
      record {
        complete = complete;
        counted = refl;
        some_device = rw shape (omega arith);
        has_zone = placed.0;
        has_gpu_type = placed.1;
        same_claim = uid;
      }

  -- The decoded allocation, named after its first device.
  finish-Named :
      (claim : ResourceClaim) (results : List AllocationResult) (before : Allocation)
      (r : Outcome DriverError Allocation × W)
      → before.devices ≡ []
      → before.claim_uid ≡ claim.uid
      → Decoded before results r
      → Named claim.uid results
          (elim r.0 [ err e ↦ err e | ok a ↦ name_allocation d a a.devices ], r.1)
  unfolding Decoded Named
  finish-Named claim results before (ok a, w) fresh named (devices, uid, located) =
      name_allocation-Named claim results a a.devices w refl (rw fresh at devices) (uid ∙ named)
        located
  finish-Named claim results before (err e, w) fresh named h = tt

  decode_allocation-Named :
      (claim : ResourceClaim) (results : List AllocationResult) (w : W)
      → claim.allocation ≡ some results
      → Named claim.uid results (decode_allocation d kube claim w)
  unfolding decode_allocation Named Decoded Located first_consumer
  decode_allocation-Named claim results w allocated =
      let before : Allocation = record {
        claim_uid = claim.uid;
        claim_namespace = claim.namespace;
        claim_name = claim.name;
        devices = [];
        request_name = [];
        pool_name = [];
        device_name = [];
        share_id = none;
        consumer = first_consumer claim;
        node_name = d.node_name;
        zone = [];
        gpu_type = [];
        gpu_count = 0;
      } in
      rw allocated (
        finish-Named claim results before (decode_results d kube results before w) refl refl
          (decode_results-Decoded results before w (inl refl)))

  Named-IsWhole :
      (claim : ResourceClaim) (results : List AllocationResult)
      (r : Outcome DriverError Allocation × W) (a : Allocation)
      → r.0 ≡ ok a
      → Named claim.uid results r
      → IsWhole claim.uid (driver_name d) results a
  unfolding Named
  Named-IsWhole claim results (ok a', w) a accepted whole =
      subst (λ x. IsWhole claim.uid (driver_name d) results x) (ok_injective accepted) whole
  Named-IsWhole claim results (err e, w) a accepted whole = cc

  -- An allocation that decodeAllocation accepts has all the devices of the claim that are this
  -- driver's, in the claim's order, at least one, counts them, and has a zone and a GPU type.
  pub decode_allocation-IsWhole :
      (claim : ResourceClaim) (results : List AllocationResult) (w : W) (a : Allocation)
      → claim.allocation ≡ some results
      → (decode_allocation d kube claim w).0 ≡ ok a
      → IsWhole claim.uid (driver_name d) results a
  decode_allocation-IsWhole claim results w a allocated accepted =
      Named-IsWhole claim results (decode_allocation d kube claim w) a accepted
        (decode_allocation-Named claim results w allocated)
