-- ===== src/Compute/MacAddress.antt =====
-- src/nctl_core/compute/contract.py: normalize_mac_address. The path of an error that has none is empty.
mod Canonical
mod Examples
use nctl.Prelude.{
  ℕ, zero, suc, String, Bool, true, false, ◌&&◌, ◌||◌, List, [], ◌∷◌, Option, none, some, map,
  nat_eq, ◌==◌, if◌then◌else◌,
}
use nctl.Prelude.Value.{Value, null, str}
use nctl.Prelude.Result.{Result, ok, err}
use nctl.Compute.Text.{between, strip}
use nctl.Compute.Contract.{ComputeContractError}
use Prim.Native.Char.{Char, code}
use Prim.Native.String as Text

abbrev pub Octet : Type 0
Octet = Char × Char

-- [0-9a-fA-F]
unfoldable pub is_hex : Char → Bool
is_hex c = between 48 57 (code c) || (between 65 70 (code c) || between 97 102 (code c))

-- the octets of a text that matches the pattern of n + 1 octets with the separator
unfoldable pub octets : ℕ → ℕ → String → Option (List Octet)
unfolding is_hex
octets sep zero (Text.◌∷◌ a (Text.◌∷◌ b Text.[])) =
    if is_hex a && is_hex b then some ((a, b) ∷ []) else none
octets sep (suc n) (Text.◌∷◌ a (Text.◌∷◌ b (Text.◌∷◌ c s))) =
    let rest = octets sep n s in
    if is_hex a && (is_hex b && nat_eq (code c) sep)
    then elim rest [ none ↦ none | some os ↦ some ((a, b) ∷ os) ]
    else none
octets sep n s = none

-- `str.lower`, of a hexadecimal digit
unfoldable pub lower : Char → Char
lower c =
    if nat_eq (code c) 65
    then "a"
    else if nat_eq (code c) 66
    then "b"
    else if nat_eq (code c) 67
    then "c"
    else if nat_eq (code c) 68
    then "d"
    else if nat_eq (code c) 69
    then "e"
    else if nat_eq (code c) 70
    then "f"
    else c

abbrev pub lower_octet : Octet → Octet
lower_octet (a, b) = (lower a, lower b)

-- ":".join(octets)
unfoldable pub join : List Octet → String
join [] = ""
join ((a, b) ∷ []) = Text.◌∷◌ a (Text.◌∷◌ b Text.[])
join ((a, b) ∷ (o ∷ os)) = Text.◌∷◌ a (Text.◌∷◌ b (Text.◌∷◌ ":" (join (o ∷ os))))

abbrev pub refuse_mac : Result ComputeContractError (Option String)
refuse_mac = err (record { code = "invalid_mac_address"; path = "" })

abbrev pub joined :
    Option (List Octet) → Option (List Octet) → Result ComputeContractError (Option String)
joined (some os) hyphened = ok (some (join (map lower_octet os)))
joined none (some os) = ok (some (join (map lower_octet os)))
joined none none = refuse_mac

unfoldable pub normalize_mac_address : Value → Result ComputeContractError (Option String)
unfolding strip octets join lower
normalize_mac_address null = ok none
normalize_mac_address (str value) =
    if strip value == ""
    then ok none
    else joined (octets b':' 5 (strip value)) (octets b'-' 5 (strip value))
normalize_mac_address value = refuse_mac
