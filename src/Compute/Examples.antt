-- ===== src/Compute/Examples.antt =====
-- A configuration of a container, with blanks around its texts.
use nctl.Prelude.{true, not, ◌≡◌, refl}
use nctl.Prelude.Value.{Fields, obj, str, int, bool, field, end}
use nctl.Compute.Lifecycle.{
  effective_lifecycle, is_actionable_lifecycle, is_held,
  effective_lifecycle-is_actionable_lifecycle,
}
use nctl.Compute.Contract.{validate_instance_config}
use nctl.Compute.Clean.{fits, validate_instance_config-fits}

abbrev given : Fields
given =
    field "template" (str " debian ") (
      field "unprivileged" (bool true) (field "vmid" (int 100) (field "bridge" (str "vmbr0 ") end)))

abbrev normal : Fields
normal =
    field "template" (str "debian")
      (field "vmid" (int 100) (field "bridge" (str "vmbr0") (field "unprivileged" (bool true) end)))

validate_instance_config-fits_example : fits "bridge" (str "vmbr0") ≡ true
unfolding validate_instance_config
validate_instance_config-fits_example =
    validate_instance_config-fits "container" (obj given) "config" {out = normal} "bridge"
      (str "vmbr0") refl refl

effective_lifecycle-is_actionable_lifecycle_example :
    (effective_lifecycle "active" "retired" ≡ effective_lifecycle "retired" "active")
    × (is_actionable_lifecycle (effective_lifecycle "active" "retired")
        ≡ not (is_held "active" "retired"))
effective_lifecycle-is_actionable_lifecycle_example =
    effective_lifecycle-is_actionable_lifecycle "active" "retired"
