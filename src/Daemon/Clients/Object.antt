-- ===== src/Daemon/Clients/Object.antt =====
-- thunderClientObject, thunderClientFromObject and the accessors of unstructured objects.
use thunder_device_plugin.Base.{
  ℕ, not, ◌||◌, Option, none, some, List, [], ◌∷◌, ◌++◌, Str, codes, Assoc, lookup, insert, text_eq,
  is_nil, trim_space, to_lower, replace_char, if◌then◌else◌,
}
use thunder_device_plugin.Base.Int.{ℤ, pos, pos_part}
use thunder_device_plugin.Daemon.Driver.{ResourceConsumer, ThunderClient, no_consumer}

-- A value of an unstructured object, as deep as these objects go.
pub data Value : Type 0 where
  text : Str → Value
  number : ℤ → Value
  fields : Assoc Str Str → Value

-- An unstructured ThunderClient: the metadata that the code reads, and the two sections.
pub record ClientObject : Type 0 where
  pub name : Str
  pub namespace : Str
  pub labels : Assoc Str Str
  pub finalizers : List Str
  pub resource_version : Str
  pub spec : Assoc Str Value
  pub status : Assoc Str Value

unfoldable pub thunder_client_name : Str → Str
thunder_client_name claim_uid =
    let name = replace_char b'_' (codes "-") (to_lower (trim_space claim_uid)) in
    codes "claim-" ++ (if is_nil name then codes "unknown" else name)

abbrev label : Str → Str
label name = codes "thundercompute.com/" ++ name

-- How time.RFC3339 prints and reads a time, which is counted in nanoseconds.
pub record Clock : Type 0 where
  pub format : ℕ → Str
  pub parse : Str → ℕ

-- nestedString, nestedInt64, nestedTime on one of the two sections, and stringFromMap.
unfoldable pub nested_string : Str → Assoc Str Value → Str
nested_string name section = elim (lookup name section) [
  | none ↦ []
  | some value ↦ elim value [ text s ↦ s | number n ↦ [] | fields m ↦ [] ]
]

unfoldable pub nested_int64 : Str → Assoc Str Value → ℤ
nested_int64 name section = elim (lookup name section) [
  | none ↦ pos 0
  | some value ↦ elim value [ text s ↦ pos 0 | number n ↦ n | fields m ↦ pos 0 ]
]

unfoldable pub string_from_map : Str → Assoc Str Str → Str
string_from_map name values = elim (lookup name values) [ none ↦ [] | some s ↦ s ]

unfoldable pub nested_consumer : Assoc Str Value → ResourceConsumer
unfolding string_from_map
nested_consumer section = elim (lookup (codes "consumer") section) [
  | none ↦ no_consumer
  | some value ↦ elim value [
    | text s ↦ no_consumer
    | number n ↦ no_consumer
    | fields m ↦ record {
      api_group = string_from_map (codes "apiGroup") m;
      resource = string_from_map (codes "resource") m;
      namespace = string_from_map (codes "namespace") m;
      name = string_from_map (codes "name") m;
      uid = string_from_map (codes "uid") m;
    }
  ]
]

unfoldable pub share_from : Str → Option Str
share_from share = if is_nil share then none else some share

module _ (clock : Clock) where
  unfoldable pub nested_time : Str → Assoc Str Value → ℕ
  unfolding nested_string
  nested_time name section =
      let value = nested_string name section in if is_nil value then 0 else clock.parse value

  -- The status before the share and the consumer are set.
  abbrev base_status : ThunderClient → Assoc Str Value
  base_status client =
      (codes "nodeName", text client.node_name)
      ∷ (codes "zone", text client.zone)
      ∷ (codes "requestName", text client.request_name)
      ∷ (codes "poolName", text client.pool_name)
      ∷ (codes "deviceName", text client.device_name)
      ∷ (codes "cdiName", text client.cdi_name)
      ∷ (codes "enrollmentTokenID", text client.enrollment_token_id)
      ∷ (codes "guestNamespace", text client.guest_namespace)
      ∷ (codes "guestSecretName", text client.guest_secret)
      ∷ (codes "createdAt", text (clock.format client.created_at))
      ∷ (codes "updatedAt", text (clock.format client.updated_at))
      ∷ []

  abbrev set_share : Option Str → Assoc Str Value → Assoc Str Value
  set_share none status = status
  set_share (some share) status = insert (codes "shareID") (text share) status

  abbrev consumer_fields : ResourceConsumer → Assoc Str Str
  consumer_fields consumer =
      (codes "apiGroup", consumer.api_group)
      ∷ (codes "resource", consumer.resource)
      ∷ (codes "namespace", consumer.namespace)
      ∷ (codes "name", consumer.name)
      ∷ (codes "uid", consumer.uid)
      ∷ []

  unfoldable pub set_consumer : ResourceConsumer → Assoc Str Value → Assoc Str Value
  set_consumer consumer status =
      if not (is_nil consumer.name) || not (is_nil consumer.uid)
      then insert (codes "consumer") (fields (consumer_fields consumer)) status
      else status

  unfoldable pub thunder_client_object : ThunderClient → Str → ClientObject
  unfolding set_consumer
  thunder_client_object client namespace = record {
    name = thunder_client_name client.claim_uid;
    namespace = namespace;
    labels =
        (codes "app.kubernetes.io/name", codes "thunder-dra-driver")
        ∷ (label (codes "claim-uid"), client.claim_uid)
        ∷ (label (codes "gpu-type"), to_lower client.gpu_type)
        ∷ (label (codes "claim-namespace"), client.claim_namespace)
        ∷ [];
    finalizers = [];
    resource_version = [];
    spec =
        (codes "claimUID", text client.claim_uid)
        ∷ (codes "claimNamespace", text client.claim_namespace)
        ∷ (codes "claimName", text client.claim_name)
        ∷ (codes "gpuType", text client.gpu_type)
        ∷ (codes "gpuCount", number (pos client.gpu_count))
        ∷ [];
    status = set_consumer client.consumer (set_share client.share_id (base_status client));
  }

  -- A negative gpuCount, which the store never writes, is read as 0.
  unfoldable pub thunder_client_from_object : ClientObject → ThunderClient
  unfolding nested_string nested_int64 nested_time nested_consumer share_from
  thunder_client_from_object object = record {
    claim_uid = nested_string (codes "claimUID") object.spec;
    claim_namespace = nested_string (codes "claimNamespace") object.spec;
    claim_name = nested_string (codes "claimName") object.spec;
    gpu_type = nested_string (codes "gpuType") object.spec;
    gpu_count = pos_part (nested_int64 (codes "gpuCount") object.spec);
    zone = nested_string (codes "zone") object.status;
    node_name = nested_string (codes "nodeName") object.status;
    request_name = nested_string (codes "requestName") object.status;
    pool_name = nested_string (codes "poolName") object.status;
    device_name = nested_string (codes "deviceName") object.status;
    share_id = share_from (nested_string (codes "shareID") object.status);
    consumer = nested_consumer object.status;
    cdi_name = nested_string (codes "cdiName") object.status;
    enrollment_token_id = nested_string (codes "enrollmentTokenID") object.status;
    guest_namespace = nested_string (codes "guestNamespace") object.status;
    guest_secret = nested_string (codes "guestSecretName") object.status;
    created_at = nested_time (codes "createdAt") object.status;
    updated_at = nested_time (codes "updatedAt") object.status;
  }
