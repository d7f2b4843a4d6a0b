-- ===== src/Daemon/Zone/Tests.antt =====
-- Three zones, two of them of one display name.
use thunder_device_plugin.Base.{refl, List, [], ◌∷◌, Str, is_nil, All, ◌≡◌, false}
use thunder_device_plugin.Daemon.Zone.{Zone, smallest_from}
use thunder_device_plugin.Daemon.Zone.Smallest.{named, IsSmallest, smallest_from-IsSmallest}

abbrev east : Str
east = b'e' ∷ []

abbrev zones : List Zone
zones =
    record { zone_id = b'9' ∷ []; display_name = east }
    ∷ record { zone_id = b'1' ∷ []; display_name = b'w' ∷ [] }
    ∷ record { zone_id = b'3' ∷ b'0' ∷ []; display_name = east }
    ∷ []

zones_have_ids : All (λ zone. is_nil zone.zone_id ≡ false) zones
zones_have_ids = (refl, (refl, (refl, tt)))

smallest_from-IsSmallest_example : IsSmallest (named east zones) (smallest_from east [] zones)
smallest_from-IsSmallest_example = smallest_from-IsSmallest east zones zones_have_ids
