-- ===== src/Daemon/Hook/Tests.antt =====
-- The hook on a small node.
use thunder_device_plugin.Base.{
  ℕ, ◌+◌, ◌≤◌, ◌≡◌, refl, Bool, true, false, List, [], ◌∷◌, ◌++◌, Str, codes, Option, none, some,
  Outcome, ok, err, str_eq,
}
use thunder_device_plugin.Base.Int.{pos}
use thunder_device_plugin.Daemon.Hook.Exchange.{ExchangeError, retryable, ThunderClientConfig}
use thunder_device_plugin.Daemon.Hook.Stage.{
  exchange_with_retry, exchange_attempts, client_config_for_claim,
}
use thunder_device_plugin.Daemon.Hook.Attempts.{exchange_with_retry_within}
use thunder_device_plugin.Daemon.Hook.Reuse.{client_config_reused}
use thunder_device_plugin.Daemon.Hook.Container.{
  guest_config_path, stage_thunder_client, run_cdi_hook,
}
use thunder_device_plugin.Daemon.Hook.Staged.{stage_thunder_client_stages}
use thunder_device_plugin.Daemon.Hook.Exchange.{Codec}
use thunder_device_plugin.Daemon.Hook.TestCodec.{codec, codec_laws}
use thunder_device_plugin.Daemon.Hook.TestNode.{
  contents, files, host, copy_laws, host_laws, sent, file_laws, node, request_laws, readable, opts,
  staged,
}

-- The third of the requests is answered.
third_request :
    sent (exchange_with_retry codec (node 2) opts (codes "tok") (codes "pod") staged).1 ≡ 3
unfolding exchange_with_retry thunder_device_plugin.Daemon.Hook.Exchange.exchange_client_enrollment
    thunder_device_plugin.Base.trim_space codes thunder_device_plugin.Base.split
third_request = refl

exchange_with_retry_within_example :
    sent (exchange_with_retry codec (node 2) opts (codes "tok") (codes "pod") staged).1
    ≤ 0 + exchange_attempts
exchange_with_retry_within_example =
    exchange_with_retry_within codec opts (request_laws 2) (codes "tok") (codes "pod") staged

abbrev enrolled : ThunderClientConfig
enrolled = record {
  device_id = codes "c1";
  client_id = codes "c1";
  org_id = codes "org";
  gpu_type = codes "a100";
  gpu_count = pos 1;
  central_api_url = codes "https://t";
  auth_token = codes "auth";
  claims = codes "h.p.s";
  enable_grpc_tls = false;
  thunderd_discovery_enabled = true;
  telemetry_collector = [];
}

client_config_reused_example :
    let (answer, w) = client_config_for_claim codec (node 2) opts staged in
    let (again, w') = client_config_for_claim codec (node 2) opts w in
    (again ≡ ok enrolled) × (sent w' ≡ sent w)
unfolding client_config_for_claim thunder_device_plugin.Base.lookup str_eq codes
    thunder_device_plugin.Base.Paths.join_paths
    thunder_device_plugin.Daemon.Hook.Exchange.exchange_client_enrollment
    thunder_device_plugin.Base.trim_space thunder_device_plugin.Base.FileNames.base_name
    thunder_device_plugin.Base.insert thunder_device_plugin.Base.trim_suffix
client_config_reused_example =
    client_config_reused codec_laws (node 2) file_laws opts (readable 2) (request_laws 2) staged
      enrolled refl

-- The whole hook leaves the configuration in the container and the token spent.
hook_staged :
    let (failed, w) = run_cdi_hook codec (node 2) host opts staged in
    (failed ≡ none)
    × (contents (codes "/b/rootfs/etc/thunder/config.json") w
        ≡ contents (codes "/run/c1/config.json") w)
    × (contents (codes "/run/c1/enrollment-token") w ≡ none)
unfolding run_cdi_hook thunder_device_plugin.Base.trim_space codes
    thunder_device_plugin.Daemon.Hook.Files.lock_state_dir client_config_for_claim
    thunder_device_plugin.Base.lookup str_eq thunder_device_plugin.Base.Paths.join_paths
    thunder_device_plugin.Daemon.Hook.Exchange.exchange_client_enrollment
    thunder_device_plugin.Base.FileNames.base_name thunder_device_plugin.Base.insert
    thunder_device_plugin.Daemon.Hook.Files.copy_file thunder_device_plugin.Base.erase
hook_staged = (refl, refl, refl)

stage_thunder_client_stages_example :
    (encoded : Str) × (codec.encode_config enrolled ≡ ok encoded)
    × (contents
          (guest_config_path (codes "/b/rootfs"))
          (stage_thunder_client files host codec
            (codes "/b/rootfs")
            (codes "/cache/libthunder.so")
            enrolled
            []
            staged).1
        ≡ some (encoded ++ 10 ∷ []))
unfolding stage_thunder_client thunder_device_plugin.Daemon.Hook.Files.copy_file
    thunder_device_plugin.Base.lookup thunder_device_plugin.Base.insert str_eq codes
    thunder_device_plugin.Daemon.Hook.Files.write_file_atomic thunder_device_plugin.Base.erase
    thunder_device_plugin.Base.Paths.join_paths
stage_thunder_client_stages_example =
    stage_thunder_client_stages host file_laws copy_laws host_laws (codes "/b/rootfs") codec
      (codes "/cache/libthunder.so") enrolled [] staged refl
