-- ===== src/Reconcile/Reconcilers/Registered.antt =====
-- What the registry of the reconcilers holds.
use nctl.Prelude.{[], ◌≡◌, refl}
use nctl.Prelude.Dict
use nctl.Prelude.Dict.{Dict}
use nctl.Prelude.Result.{ok}
use nctl.Reconcile.Reconcilers.{registrations, register_all, registry}

-- No id is registered twice, so loading the module does not raise.
registry-loads : register_all registrations [] ≡ ok registry
unfolding registry Dict.get Dict.put
registry-loads = refl
