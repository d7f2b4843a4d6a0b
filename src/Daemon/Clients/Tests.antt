-- ===== src/Daemon/Clients/Tests.antt =====
-- The store over an API that keeps one object and no resource versions.
use thunder_device_plugin.Base.{
  ◌/◌, ◌*◌, ℕ, ◌≡◌, ◌≢◌, refl, sym, ap, ◌⊎◌, inl, inr, Bool, true, false, ◌&&◌, Option, none, some,
  List, [], ◌∷◌, ◌++◌, Str, codes, Outcome, ok, err, Fault, not_found, other, arith, ◌==◌, text_eq,
  str_eq_iff, is_nil, length, Bool-cases, some_injective, zero, suc, ◌∙◌, if◌then◌else◌,
}
use thunder_device_plugin.Daemon.Driver.{ThunderClient}
use thunder_device_plugin.Daemon.Clients.Object.{
  Clock, ClientObject, thunder_client_name, thunder_client_object, thunder_client_from_object,
}
use thunder_device_plugin.Daemon.Clients.RoundTrip.{
  whole_seconds, in_seconds, IsStorable, thunder_client_from_object-thunder_client_object,
}
use thunder_device_plugin.Daemon.Clients.Store.{
  ClientApi, KubernetesThunderClientStore, stamped, upsert, delete,
}
use thunder_device_plugin.Daemon.Clients.Laws.{ApiLaws}
use thunder_device_plugin.Daemon.Clients.Recorded.{Holds, upsert_recorded}
use thunder_device_plugin.Daemon.Clients.Deleted.{delete_forgets}

abbrev pub World : Type 0
World = Option ClientObject

abbrev pub is_at : Str → Str → ClientObject → Bool
is_at namespace name object = object.namespace == namespace && object.name == name

abbrev pub at : Str → Str → World → Option ClientObject
at namespace name none = none
at namespace name (some object) = if is_at namespace name object then some object else none

abbrev pub answer : Option ClientObject → Outcome Fault ClientObject
answer none = err not_found
answer (some object) = ok object

-- The world after an update, and after a deletion.
abbrev pub kept : ClientObject → World
kept object = if is_nil object.finalizers then none else some object

abbrev pub api_update : ClientObject → Option ClientObject → World → Option Fault × World
api_update object none w = (some not_found, w)
api_update object (some old) w = (none, some object)

abbrev pub api_delete : Option ClientObject → World → Option Fault × World
api_delete none w = (some not_found, w)
api_delete (some old) w = (none, kept old)

abbrev pub api : ClientApi World
api = record {
  get = λ namespace name w. (answer (at namespace name w), w);
  create = λ object w. (none, some object);
  update = λ object w. api_update object (at object.namespace object.name w) w;
  delete = λ namespace name w. api_delete (at namespace name w) w;
  now = λ w. (7000000123, w);
}

at_itself : (object : ClientObject) → at object.namespace object.name (some object) ≡ some object
at_itself object =
    let same_namespace = (str_eq_iff object.namespace object.namespace).1 refl in
    let same_name = (str_eq_iff object.name object.name).1 refl in
    rw (same_namespace, same_name) refl

answer_ok : (found : World) (object : ClientObject) → answer found ≡ ok object → found ≡ some object
answer_ok none object h = absurd (cc)
answer_ok (some object') object h = cc

answer_missing : (found : World) → answer found ≡ err not_found → found ≡ none
answer_missing none h = refl
answer_missing (some object') h = absurd (cc)

is_at_named :
    (namespace name : Str) (object : ClientObject)
    → is_at namespace name object ≡ true
    → (object.namespace ≡ namespace) × (object.name ≡ name)
is_at_named namespace name object h =
    ground (arith, str_eq_iff object.namespace namespace, str_eq_iff object.name name)

at_named :
    (namespace name : Str) (w : World) (object : ClientObject)
    → at namespace name w ≡ some object
    → (object.namespace ≡ namespace) × (object.name ≡ name)
at_named namespace name none object there = absurd (cc)
at_named namespace name (some object') object there =
    elim (Bool-cases (is_at namespace name object')) [
      | inl here ↦
          let same : some object' ≡ some object = rw here at there in
          let named = is_at_named namespace name object' here in
          (
            sym (ap (λ o. o.namespace) (some_injective same)) ∙ named.0,
            sym (ap (λ o. o.name) (some_injective same)) ∙ named.1,
          )
      | inr elsewhere ↦ let nothing : none ≡ some object = rw elsewhere at there in absurd (cc)
    ]

update_stored :
    (object : ClientObject) (found w : World)
    → (api_update object found w).0 ≡ none
    → at object.namespace object.name (api_update object found w).1 ≡ some object
update_stored object none w done = absurd (cc)
update_stored object (some old) w done = at_itself object

update_refused :
    (object : ClientObject) (found w : World)
    → (api_update object found w).0 ≡ some not_found
    → (found ≡ none) × ((api_update object found w).1 ≡ w)
update_refused object none w refused = (refl, refl)
update_refused object (some old) w refused = absurd (cc)

delete_done :
    (namespace name : Str) (found w : World)
    → (api_delete found w).0 ≡ none
    → ((object : ClientObject) → found ≡ some object → is_nil object.finalizers ≡ true)
    → at namespace name (api_delete found w).1 ≡ none
delete_done namespace name none w done free = absurd (cc)
delete_done namespace name (some old) w done free = rw (free old refl) refl

delete_refused :
    (found w : World)
    → (api_delete found w).0 ≡ some not_found
    → (found ≡ none) × ((api_delete found w).1 ≡ w)
delete_refused none w refused = (refl, refl)
delete_refused (some old) w refused = absurd (cc)

pub laws : ApiLaws api at
laws = record {
  get_ok = λ namespace name w object found. answer_ok (at namespace name w) object found;
  get_missing = λ namespace name w missing. answer_missing (at namespace name w) missing;
  get_named = λ namespace name w object found.
      at_named namespace name w object (answer_ok (at namespace name w) object found);
  get_keeps = λ namespace name w. refl;
  create_ok = λ object w done. (object.resource_version, at_itself object);
  update_ok = λ object w done held.
      (object.resource_version, update_stored object (at object.namespace object.name w) w done);
  update_released = λ object w done free.
      inr
        (object.resource_version, update_stored object (at object.namespace object.name w) w done);
  update_missing = λ object w refused.
      let (gone, same) = update_refused object (at object.namespace object.name w) w refused in
      rw same gone;
  delete_ok =
      λ namespace name w done free. delete_done namespace name (at namespace name w) w done free;
  delete_missing = λ namespace name w refused.
      let (gone, same) = delete_refused (at namespace name w) w refused in rw same gone;
}

-- A time is printed as a stroke for each second.
abbrev pub strokes : ℕ → Str
strokes zero = 47 ∷ []
strokes (suc t) = 47 ∷ strokes t

abbrev pub count : Str → ℕ
count [] = 0
count (c ∷ s) = length s

abbrev pub clock : Clock
clock = record { format = λ t. strokes (t / 1000000000); parse = λ text. count text * 1000000000 }

length-strokes : (t : ℕ) → length (strokes t) ≡ suc t
length-strokes zero = refl
length-strokes (suc t) = ap suc (length-strokes t)

count-strokes : (t : ℕ) → count (strokes t) ≡ t
count-strokes zero = refl
count-strokes (suc t) = length-strokes t

strokes_shown : (t : ℕ) → is_nil (strokes t) ≡ false
strokes_shown zero = refl
strokes_shown (suc t) = refl

parsed : (t : ℕ) → clock.parse (clock.format t) ≡ whole_seconds t
unfolding whole_seconds
parsed t = ap (λ n. n * 1000000000) (count-strokes (t / 1000000000))

shown : (t : ℕ) → is_nil (clock.format t) ≡ false
shown t = strokes_shown (t / 1000000000)

abbrev client : ThunderClient
client = record {
  claim_uid = codes "A_1";
  claim_namespace = codes "default";
  claim_name = codes "claim";
  gpu_type = codes "A100";
  gpu_count = 2;
  zone = codes "east";
  node_name = codes "node";
  request_name = codes "gpu";
  pool_name = codes "thunder-east-a100";
  device_name = codes "gpu-0000";
  share_id = some (codes "s1");
  consumer = record {
    api_group = [];
    resource = codes "pods";
    namespace = codes "default";
    name = codes "pod";
    uid = codes "u1";
  };
  cdi_name = codes "thundercompute.com/gpu=claim-a-1";
  enrollment_token_id = codes "t1";
  guest_namespace = [];
  guest_secret = [];
  created_at = 5000000000;
  updated_at = 5000000000;
}

storable : IsStorable client
unfolding codes
storable = record { has_share = λ h. absurd (cc); has_consumer = inl refl }

abbrev s : KubernetesThunderClientStore World
s = record { client = some api; namespace = codes " " }

thunder_client_from_object-thunder_client_object_example :
    thunder_client_from_object clock (thunder_client_object clock client (codes "thunder-system"))
    ≡ client
unfolding whole_seconds
thunder_client_from_object-thunder_client_object_example =
    thunder_client_from_object-thunder_client_object clock parsed shown client
      (codes "thunder-system") storable (record { created_whole = refl; updated_whole = refl })

upsert_recorded_example :
    (object : ClientObject) × (at
        (codes "thunder-system")
        (codes "claim-a-1")
        (upsert clock s client none).1
      ≡ some object)
    × Holds clock (in_seconds (stamped client 0 7000000123)) object
unfolding upsert codes thunder_device_plugin.Base.trim_space thunder_client_name
    thunder_device_plugin.Base.replace_char thunder_device_plugin.Base.to_lower
upsert_recorded_example = upsert_recorded clock parsed shown laws s client none refl storable refl

-- The object that the store wrote, and what is left once another's finalizer holds it.
abbrev recorded : World
unfolding upsert
recorded = (upsert clock s client none).1

delete_forgets_example :
    at (codes "thunder-system") (codes "claim-a-1") (delete clock s (codes "A_1") recorded).1 ≡ none
unfolding upsert delete codes thunder_device_plugin.Base.str_eq thunder_client_object
    thunder_device_plugin.Base.trim_space thunder_client_name
    thunder_device_plugin.Base.replace_char thunder_device_plugin.Base.to_lower
delete_forgets_example = delete_forgets laws clock s (codes "A_1") recorded refl refl refl
