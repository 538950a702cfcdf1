-- ===== src/Compute/Contract.antt =====
-- src/nctl_core/compute/contract.py: the validators of compute intent. An error is its code and its path,
-- without its message.
use nctl.Prelude.{
  ℕ, String, Bool, true, ◌&&◌, List, [], ◌∷◌, none, some, contains, ltb, ◌==◌, if◌then◌else◌,
}
use nctl.Prelude.Value.{Value, Fields, null, obj, str, int, bool, field, end, lookup, store}
use nctl.Prelude.Result.{Result, ok, err, ◌>>=◌}
use nctl.Compute.Text.{between, strip, text_length}
use Prim.Native.String as Text

pub record ComputeContractError : Type 0 where
  pub code : String
  pub path : String

infixr 66 ◌/◌
-- f"{path}.{key}"
abbrev pub ◌/◌ : String → String → String
path / key = Text.◌++◌ path (Text.◌++◌ "." key)

abbrev pub refuse : {A : Type 0} → String → String → Result ComputeContractError A
refuse code path = err (record { code = code; path = path })

unfoldable pub choose : List String → String → Value → String → Result ComputeContractError String
choose choices code v path = elim v [
  | str s ↦ if contains s choices then ok s else refuse code path
  | _ ↦ refuse code path
]

unfoldable pub validate_provider_type : Value → String → Result ComputeContractError String
unfolding choose
validate_provider_type = choose ("proxmox" ∷ []) "invalid_provider_type"

unfoldable pub validate_compute_lifecycle : Value → String → Result ComputeContractError String
unfolding choose
validate_compute_lifecycle =
    choose ("planned" ∷ "approved" ∷ "active" ∷ "deprecated" ∷ "retired" ∷ []) "invalid_lifecycle"

unfoldable pub validate_instance_kind : Value → String → Result ComputeContractError String
unfolding choose
validate_instance_kind = choose ("container" ∷ "virtual_machine" ∷ []) "invalid_instance_kind"

unfoldable pub validate_power_state : Value → String → Result ComputeContractError String
unfolding choose
validate_power_state = choose ("running" ∷ "stopped" ∷ []) "invalid_power_state"

unfoldable pub validate_desired_presence : Value → String → Result ComputeContractError String
unfolding choose
validate_desired_presence = choose ("present" ∷ "absent" ∷ []) "invalid_desired_presence"

unfoldable pub validate_config_schema_version : Value → String → Result ComputeContractError String
unfolding choose
validate_config_schema_version null path = ok "v1"
validate_config_schema_version v path = choose ("v1" ∷ []) "invalid_config_schema_version" v path

unfoldable pub bounded_int :
    ℕ → ℕ → String → String → Value → String → Result ComputeContractError ℕ
bounded_int minimum maximum kind_code range_code v path = elim v [
  | int n ↦ if between minimum maximum n then ok n else refuse range_code path
  | Value.neg n ↦ refuse range_code path
  | _ ↦ refuse kind_code path
]

unfoldable pub validate_vmid : Value → String → Result ComputeContractError ℕ
unfolding bounded_int
validate_vmid = bounded_int 100 999999999 "invalid_vmid" "vmid_out_of_range"

unfoldable pub validate_vcpus : Value → String → Result ComputeContractError ℕ
unfolding bounded_int
validate_vcpus = bounded_int 1 8192 "vcpus_out_of_range" "vcpus_out_of_range"

unfoldable pub validate_memory_mb : Value → String → Result ComputeContractError ℕ
unfolding bounded_int
validate_memory_mb = bounded_int 16 2147483647 "memory_mb_out_of_range" "memory_mb_out_of_range"

unfoldable pub validate_root_disk_gb : Value → String → Result ComputeContractError ℕ
unfolding bounded_int
validate_root_disk_gb =
    bounded_int 1 2147483647 "root_disk_gb_out_of_range" "root_disk_gb_out_of_range"

-- `_require_json_object(value if value is not None else {}, path)`
unfoldable pub require_json_object : Value → String → Result ComputeContractError Fields
require_json_object v path = elim v [
  | null ↦ ok end
  | obj fs ↦ ok fs
  | _ ↦ refuse "invalid_config_type" path
]

unfoldable pub require_non_empty_string : ℕ → Value → String → Result ComputeContractError String
unfolding strip
require_non_empty_string max_length v path = elim v [
  | str s ↦
      let stripped = strip s in
      if stripped == ""
      then refuse "invalid_config_value" path
      else if ltb max_length (text_length stripped)
      then refuse "invalid_config_value" path
      else ok stripped
  | _ ↦ refuse "invalid_config_value" path
]

-- whether `set(obj) - allowed` is empty
unfoldable pub only_keys : List String → Fields → Bool
only_keys allowed end = true
only_keys allowed (field k v fs) = contains k allowed && only_keys allowed fs

-- `for key in keys: if key in obj: result[key] = _require_non_empty_string(...)`
unfoldable pub copy_texts :
    ℕ → String → Fields → List String → Fields → Result ComputeContractError Fields
unfolding lookup store require_non_empty_string
copy_texts max_length path fs [] result = ok result
copy_texts max_length path fs (key ∷ rest) result = elim (lookup key fs) [
  | none ↦ copy_texts max_length path fs rest result
  | some v ↦ require_non_empty_string max_length v (path / key) >>= λ s.
      copy_texts max_length path fs rest (store key (str s) result)
]

unfoldable pub validate_platform_config : Value → String → Result ComputeContractError Fields
unfolding require_json_object only_keys copy_texts
validate_platform_config v path = require_json_object v path >>= λ fs.
    if only_keys ("cluster_name" ∷ "default_storage" ∷ "default_bridge" ∷ []) fs
    then copy_texts 255 path fs ("cluster_name" ∷ "default_storage" ∷ "default_bridge" ∷ []) end
    else refuse "unknown_config_key" path

unfoldable pub copy_template : String → Fields → Result ComputeContractError Fields
unfolding lookup store require_non_empty_string
copy_template path fs = elim (lookup "template" fs) [
  | none ↦ refuse "missing_config_value" (path / "template")
  | some v ↦
      require_non_empty_string 512 v (path / "template") >>= λ s. ok (store "template" (str s) end)
]

unfoldable pub copy_vmid : String → Fields → Fields → Result ComputeContractError Fields
unfolding lookup store validate_vmid
copy_vmid path fs result = elim (lookup "vmid" fs) [
  | none ↦ ok result
  | some v ↦ validate_vmid v (path / "vmid") >>= λ n. ok (store "vmid" (int n) result)
]

unfoldable pub require_flag : Value → String → Result ComputeContractError Bool
require_flag v path = elim v [ bool b ↦ ok b | _ ↦ refuse "invalid_config_value" path ]

unfoldable pub copy_unprivileged :
    String → String → Fields → Fields → Result ComputeContractError Fields
unfolding lookup store require_flag
copy_unprivileged instance_kind path fs result =
    if instance_kind == "container"
    then elim (lookup "unprivileged" fs) [
      | none ↦ refuse "missing_config_value" (path / "unprivileged")
      | some v ↦
          require_flag v (path / "unprivileged") >>= λ b. ok (store "unprivileged" (bool b) result)
    ]
    else elim (lookup "unprivileged" fs) [
      | none ↦ ok result
      | some v ↦ refuse "invalid_config_key" (path / "unprivileged")
    ]

abbrev pub instance_keys : List String
instance_keys = "vmid" ∷ "template" ∷ "storage" ∷ "bridge" ∷ "unprivileged" ∷ []

unfoldable pub validate_instance_config :
    String → Value → String → Result ComputeContractError Fields
unfolding require_json_object only_keys copy_template copy_vmid copy_texts copy_unprivileged
validate_instance_config instance_kind v path = require_json_object v path >>= λ fs.
    if only_keys instance_keys fs
    then copy_template path fs
      >>= copy_vmid path fs
      >>= copy_texts 255 path fs ("storage" ∷ "bridge" ∷ [])
      >>= copy_unprivileged instance_kind path fs
    else refuse "unknown_config_key" path
