-- ===== src/Daemon/Cdi/DeviceTests.antt =====
-- A device that is made on a small node.
use thunder_device_plugin.Base.{
  ◌≡◌, refl, false, contains, trim_space, Option, some, List, [], ◌∷◌, ◌++◌, Str, codes, Outcome,
  ok, Fault,
}
use thunder_device_plugin.Daemon.Hook.Stage.{token_path, config_path}
use thunder_device_plugin.Base.Int.{pos}
use thunder_device_plugin.Daemon.Hook.Exchange.{Codec, ThunderClientConfig}
use thunder_device_plugin.Daemon.Hook.TestCodec.{codec}
use thunder_device_plugin.Daemon.Hook.TestNode.{World, contents, files, file_laws}
use thunder_device_plugin.Daemon.Cdi.Hooks.{hook_flags}
use thunder_device_plugin.Daemon.Cdi.Parsed.{told}
use thunder_device_plugin.Daemon.Cdi.Device.{
  CdiSpec, Marshal, cdi_device_name, qualified, spec_of, staged_client_id, spec_path, create,
}
use thunder_device_plugin.Daemon.Cdi.StagedId.{staged_client_id-qualified}
use thunder_device_plugin.Daemon.Cdi.Staged.{create_stages}
use thunder_device_plugin.Daemon.Cdi.Tests.{s, allocation}

abbrev marshal : Marshal
marshal spec = ok (codes "spec of " ++ spec.device_name)

abbrev empty : World
empty = ([], 0)

abbrev created : Outcome Fault Str × World
unfolding create
created = create files s marshal (hook_flags s allocation) allocation (codes "tok") empty

create_stages_example :
    let w = created.1 in
    (codes "thundercompute.com/gpu=claim-u1" ≡ qualified s allocation)
    × (contents (token_path (told s allocation (cdi_device_name (codes "u1")))) w
        ≡ some (codes "tok" ++ 10 ∷ []))
    × ((encoded : Str) × (marshal (spec_of s (hook_flags s allocation) allocation (codes "tok"))
          ≡ ok encoded)
        × (contents (spec_path s (qualified s allocation)) w ≡ some (encoded ++ 10 ∷ [])))
unfolding create thunder_device_plugin.Base.trim_space codes thunder_device_plugin.Base.lookup
    thunder_device_plugin.Base.insert thunder_device_plugin.Base.str_eq
    thunder_device_plugin.Base.Paths.join_paths
    thunder_device_plugin.Daemon.Cdi.Hooks.device_state_dir
    thunder_device_plugin.Daemon.Clients.Object.thunder_client_name
    thunder_device_plugin.Daemon.Cdi.Device.dashed
    thunder_device_plugin.Daemon.Cdi.Hooks.resolved_kind thunder_device_plugin.Base.replace_char
    thunder_device_plugin.Base.to_lower
create_stages_example =
    create_stages file_laws s marshal (hook_flags s allocation) allocation (codes "tok")
      (codes "thundercompute.com/gpu=claim-u1") empty refl

spec_stands :
    contents (codes "/var/run/cdi/thundercompute-com-gpu-claim-u1.json") created.1
    ≡ some (codes "spec of claim-u1" ++ 10 ∷ [])
unfolding thunder_device_plugin.Base.lookup created thunder_device_plugin.Base.trim_space codes
    thunder_device_plugin.Base.insert thunder_device_plugin.Base.str_eq
    thunder_device_plugin.Base.Paths.join_paths
    thunder_device_plugin.Daemon.Cdi.Hooks.device_state_dir
    thunder_device_plugin.Daemon.Clients.Object.thunder_client_name
    thunder_device_plugin.Daemon.Cdi.Device.dashed
    thunder_device_plugin.Daemon.Cdi.Hooks.resolved_kind thunder_device_plugin.Base.replace_char
    thunder_device_plugin.Base.to_lower spec_of
spec_stands = refl

-- The configuration that the hook kept, of a client whose ID has a newline behind it.
abbrev config : ThunderClientConfig
config = record {
  device_id = [];
  client_id = codes "c1" ++ 10 ∷ [];
  org_id = [];
  gpu_type = [];
  gpu_count = pos 1;
  central_api_url = [];
  auth_token = [];
  claims = [];
  enable_grpc_tls = false;
  thunderd_discovery_enabled = false;
  telemetry_collector = [];
}

abbrev one_config : Codec
one_config = record codec { decode_config = λ content. ok config }

abbrev enrolled : World
enrolled = ((codes "/var/run/cdi/thunder/claim-u1/config.json", codes "json") ∷ [], 0)

kept :
    (files.read_file (config_path (told s allocation (cdi_device_name (codes "u1")))) enrolled).0
    ≡ ok (codes "json")
unfolding config_path thunder_device_plugin.Base.lookup thunder_device_plugin.Base.str_eq codes
    thunder_device_plugin.Base.Paths.join_paths
    thunder_device_plugin.Daemon.Cdi.Hooks.device_state_dir trim_space cdi_device_name
    thunder_device_plugin.Daemon.Clients.Object.thunder_client_name
    thunder_device_plugin.Base.replace_char thunder_device_plugin.Base.to_lower
kept = refl

equals_free : contains b'=' (cdi_device_name (codes "u1")) ≡ false
unfolding contains cdi_device_name codes
    thunder_device_plugin.Daemon.Clients.Object.thunder_client_name
    thunder_device_plugin.Base.replace_char thunder_device_plugin.Base.to_lower trim_space
equals_free = refl

staged_client_id-qualified_example :
    (staged_client_id files s one_config (qualified s allocation) enrolled).0
    ≡ trim_space (codes "c1" ++ 10 ∷ [])
staged_client_id-qualified_example =
    staged_client_id-qualified files one_config s allocation enrolled (codes "json") config
      equals_free kept refl
