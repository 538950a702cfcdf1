-- ===== src/Reconcile/ProfileChecks.antt =====
-- src/nctl_core/reconcile/profiles.py: the checks of a deployment profile, and the hints that they resolve to
-- with a placement's configuration. Messages are left out.
mod Resolved
mod Examples
use nctl.Prelude.{
  String, Bool, true, false, not, ◌&&◌, ◌||◌, List, [], ◌∷◌, Option, none, some, all, nonempty,
  nat_eq, ◌==◌, if◌then◌else◌,
}
use nctl.Prelude.Value.{Value, Fields, str, lookup}
use nctl.Prelude.Result.{Result, ok, err, ◌>>=◌}
use nctl.Compute.Text.{strip}
use Prim.Native.Char.{code}
use Prim.Native.String as Text

-- EXISTENCE_PROOF_CHECK_KINDS
pub data PathKind : Type 0 where
  file_exists cron_registered nfs_export nfs_mount : PathKind

-- a check with its `path` and `path_from_config`, or an HTTP check with its paths
pub data CheckSpec : Type 0 where
  path_check : PathKind → Option String → Option String → CheckSpec
  http_check : List String → CheckSpec

pub data Hint : Type 0 where
  path_hint : PathKind → String → Hint
  http_hint : List String → Hint

-- `CheckResolutionError`, and the AssertionError of a check with neither source
pub data ResolutionError : Type 0 where
  unresolved assertion_failed : ResolutionError

-- `Path(s).is_absolute()`, or `s.startswith("/")`
abbrev pub is_absolute : String → Bool
is_absolute Text.[] = false
is_absolute (Text.◌∷◌ c s) = nat_eq (code c) b'/'

-- `s.startswith("~/")`
abbrev pub is_home_relative : String → Bool
is_home_relative Text.[] = false
is_home_relative (Text.◌∷◌ c s) = nat_eq (code c) b'~' && is_absolute s

unfoldable pub is_rooted : String → Bool
is_rooted s = is_home_relative s || is_absolute s

-- `bool(value)`
abbrev pub is_set : Option String → Bool
is_set none = false
is_set (some s) = not (s == "")

abbrev same_bool : Bool → Bool → Bool
same_bool true b = b
same_bool false b = not b

abbrev path_is_rooted : Option String → Bool
path_is_rooted none = true
path_is_rooted (some p) = is_rooted p

-- whether _validate_single_path_source passes
unfoldable pub validate_single_path_source : Option String → Option String → Bool
unfolding is_rooted
validate_single_path_source path path_from_config =
    not (same_bool (is_set path) (is_set path_from_config)) && path_is_rooted path

-- whether the model's validator passes
unfoldable pub validate_check : CheckSpec → Bool
unfolding validate_single_path_source
validate_check (path_check kind path path_from_config) =
    validate_single_path_source path path_from_config
validate_check (http_check paths) = nonempty paths && all is_absolute paths

-- a configured value that names a path
unfoldable pub is_usable : Option Value → Bool
unfolding strip is_rooted
is_usable (some (str s)) = not (strip s == "") && is_rooted s
is_usable v = false

abbrev pub text_of : Option Value → String
text_of (some (str s)) = s
text_of v = ""

unfoldable pub resolve_check_path :
    Option String → Option String → Fields → Result ResolutionError String
unfolding is_usable lookup
resolve_check_path (some path) path_from_config config = ok path
resolve_check_path none none config = err assertion_failed
resolve_check_path none (some key) config =
    if is_usable (lookup key config) then ok (text_of (lookup key config)) else err unresolved

abbrev pub hint_of : CheckSpec → Fields → Result ResolutionError Hint
hint_of (path_check kind path path_from_config) config =
    resolve_check_path path path_from_config config >>= λ p. ok (path_hint kind p)
hint_of (http_check paths) config = ok (http_hint paths)

unfoldable pub resolve_check_hints : List CheckSpec → Fields → Result ResolutionError (List Hint)
unfolding resolve_check_path
resolve_check_hints [] config = ok []
resolve_check_hints (check ∷ checks) config =
    hint_of check config >>= λ h. resolve_check_hints checks config >>= λ hs. ok (h ∷ hs)
