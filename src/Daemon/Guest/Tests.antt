-- ===== src/Daemon/Guest/Tests.antt =====
-- The name of a Secret for a claim of a long name.
use thunder_device_plugin.Base.{ℕ, zero, suc, ◌≤◌, ◌≡◌, refl, List, [], ◌∷◌, Str, codes, length}
use thunder_device_plugin.Daemon.Guest.Store.{thunder_guest_setup_secret_name}
use thunder_device_plugin.Daemon.Guest.Names.{length-thunder_guest_setup_secret_name}

abbrev digest : Str → Str
digest s = codes "0123456789"

abbrev repeated : ℕ → Str
repeated zero = []
repeated (suc n) = b'A' ∷ repeated n

long_name : length (thunder_guest_setup_secret_name digest (repeated 300)) ≡ 253
unfolding thunder_guest_setup_secret_name thunder_device_plugin.Base.to_lower
    thunder_device_plugin.Base.trim_space codes thunder_device_plugin.Base.trim_suffix
long_name = refl

length-thunder_guest_setup_secret_name_example :
    length (thunder_guest_setup_secret_name digest (repeated 300)) ≤ 253
unfolding codes
length-thunder_guest_setup_secret_name_example =
    length-thunder_guest_setup_secret_name digest (repeated 300) (λ s. refl)
