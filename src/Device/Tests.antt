-- ===== src/Device/Tests.antt =====
-- The device theorems at a concrete registry.
use espmic.Common.{false, [], ◌∷◌}
use espmic.Common.GoMap
use espmic.Device.Registry.{Device, Registry, new_registry, register}

abbrev mic : Device
mic = record {
  device_id = "mic";
  display_name = "kitchen";
  firmware = "1.0";
  capabilities = "opus" ∷ [];
  status = "";
  last_seen = 0;
  online = false;
}

abbrev one_device : Registry
unfolding register new_registry GoMap.insert
one_device = register new_registry mic (1 ∷ 2 ∷ [])
