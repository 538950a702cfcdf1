-- ===== src/Reconcile/ProfileChecks/Examples.antt =====
-- A profile with a mounted share and a web page.
use nctl.Prelude.{List, [], ◌∷◌, none, some, ◌≡◌, refl}
use nctl.Prelude.Value.{Fields, str, field, end}
use nctl.Prelude.Result.{ok}
use nctl.Reconcile.ProfileChecks.{
  CheckSpec, path_check, http_check, nfs_mount, path_hint, http_hint, validate_check,
  resolve_check_hints,
}
use nctl.Reconcile.ProfileChecks.Resolved.{AreHints, resolve_check_hints-AreHints}

abbrev config : Fields
config = field "share" (str "~/share") end

abbrev checks : List CheckSpec
checks = path_check nfs_mount none (some "share") ∷ http_check ("/health" ∷ []) ∷ []

resolve_check_hints-AreHints_example : AreHints config checks (resolve_check_hints checks config)
unfolding validate_check
resolve_check_hints-AreHints_example = resolve_check_hints-AreHints config checks (refl, (refl, tt))

resolve_check_hints_found :
    resolve_check_hints checks config
    ≡ ok (path_hint nfs_mount "~/share" ∷ http_hint ("/health" ∷ []) ∷ [])
unfolding resolve_check_hints
resolve_check_hints_found = refl
