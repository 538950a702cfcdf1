-- ===== src/Compute/MacAddress/Examples.antt =====
-- A MAC address written with hyphens and capitals.
use nctl.Prelude.{List, none, ◌≡◌, refl}
use nctl.Prelude.Value.{str}
use nctl.Prelude.Result.{ok}
use nctl.Compute.MacAddress.{Octet, normalize_mac_address}
use nctl.Compute.MacAddress.Canonical.{Spells, IsNormal, normalize_mac_address-IsNormal}

normalize_mac_address-IsNormal_example :
    (os : List Octet) × Spells (str " 52-54-00-AB-cd-0F ") os × IsNormal os "52:54:00:ab:cd:0f"
unfolding normalize_mac_address
normalize_mac_address-IsNormal_example =
    normalize_mac_address-IsNormal (str " 52-54-00-AB-cd-0F ") "52:54:00:ab:cd:0f" refl

-- nothing but white space is no address
normalize_mac_address-blank : normalize_mac_address (str "  ") ≡ ok none
unfolding normalize_mac_address
normalize_mac_address-blank = refl
