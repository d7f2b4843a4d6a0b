-- ===== src/Daemon/Cdi/StagedId.antt =====
-- FileCDIDeviceStore.StagedClientID, and the configuration that the hook of the device keeps.
use thunder_device_plugin.Base.{
  ◌≡◌, refl, true, false, [], ◌∷◌, ◌++◌, Str, ok, arith, contains, trim_space, contains_shown,
}
use thunder_device_plugin.Daemon.Driver.{Allocation}
use thunder_device_plugin.Daemon.Hook.Files.{Files}
use thunder_device_plugin.Daemon.Hook.Exchange.{Codec, ThunderClientConfig}
use thunder_device_plugin.Daemon.Hook.Stage.{config_path}
use thunder_device_plugin.Daemon.Cdi.Hooks.{FileCdiDeviceStore, resolved_kind}
use thunder_device_plugin.Daemon.Cdi.Parsed.{told}
use thunder_device_plugin.Daemon.Cdi.SpecNames.{cdi_device_name_from_qualified_name-qualified}
use thunder_device_plugin.Daemon.Cdi.Device.{cdi_device_name, qualified, staged_client_id}

-- The text before the name ends in the "=".
equals_behind : (front back : Str) → contains b'=' (front ++ (b'=' ∷ back)) ≡ true
unfolding contains
equals_behind [] back = refl
equals_behind (c ∷ front) back = ground (arith, equals_behind front back)

module _ {W : Type 0} (files : Files W) (codec : Codec) (s : FileCdiDeviceStore) where
  -- Where the claim's device has no "=" in its name, and the configuration that the device's hook
  -- keeps can be read and decodes, StagedClientID of the device's qualified name gives the client's
  -- ID that it has, without the space around it.
  pub staged_client_id-qualified :
      (allocation : Allocation) (w : W) (content : Str) (config : ThunderClientConfig)
      → contains b'=' (cdi_device_name allocation.claim_uid) ≡ false
      → (files.read_file
          (config_path (told s allocation (cdi_device_name allocation.claim_uid)))
          w).0
        ≡ ok content
      → codec.decode_config content ≡ ok config
      → (staged_client_id files s codec (qualified s allocation) w).0 ≡ trim_space config.client_id
  unfolding staged_client_id config_path qualified
  staged_client_id-qualified allocation w content config plain kept decoded =
      let named = cdi_device_name_from_qualified_name-qualified s allocation plain in
      let shown =
        contains_shown b'=' (qualified s allocation) refl
          (equals_behind (resolved_kind s) (cdi_device_name allocation.claim_uid)) in
      rw (named, shown, kept, decoded) refl
