-- ===== src/Reconcile/Hosts.antt =====
-- src/nctl_core/reconcile/ssh_preflight.py: the hosts that a plan's actions touch, and the errors that a
-- key scan is reported by. The store and the scans themselves are outside the model.
pub mod Observed
mod Examples
use nctl.Prelude.{
  String, Bool, true, false, not, ◌&&◌, List, [], ◌∷◌, ◌++◌, Option, none, some, nonempty, contains,
  select, map, ◌==◌, if◌then◌else◌,
}
use nctl.Prelude.Order.{sorted}
use nctl.Prelude.Dict.{Dict}
use nctl.Prelude.Sets.{set_of, update}
use nctl.Prelude.Value.{text_list}
use nctl.Prelude.Result.{Result, ok, err, ◌>>=◌}
use nctl.Drift.Model.{Target}
use nctl.Reconcile.Model.{ReconcileAction}
use nctl.Reconcile.Registry.{Reconciler, get_reconciler}
use nctl.Reconcile.Reconcilers.{registry, target_slugs}

-- `EnvelopeError`, by its code and the hosts in its detail
pub record EnvelopeError : Type 0 where
  pub code : String
  pub hosts : List String

abbrev pub error_code : String → EnvelopeError
error_code code = record { code = code; hosts = [] }

pub data ScanStatus : Type 0 where
  ready unenrolled mismatch unreachable : ScanStatus

pub record SshPreflightEntry : Type 0 where
  pub slug : String
  pub status : ScanStatus

abbrev pub is_ready : SshPreflightEntry → Bool
is_ready e = elim e.status [ ready ↦ true | _ ↦ false ]

abbrev has_status : ScanStatus → SshPreflightEntry → Bool
has_status unenrolled e = elim e.status [ unenrolled ↦ true | _ ↦ false ]
has_status mismatch e = elim e.status [ mismatch ↦ true | _ ↦ false ]
has_status unreachable e = elim e.status [ unreachable ↦ true | _ ↦ false ]
has_status ready e = is_ready e

abbrev report : ScanStatus → String → List SshPreflightEntry → List EnvelopeError
report status code entries =
    let matching = select (has_status status) entries in
    if nonempty matching
    then record { code = code; hosts = sorted (map (λ e. e.slug) matching) } ∷ []
    else []

unfoldable pub ssh_scan_errors : List SshPreflightEntry → List EnvelopeError
ssh_scan_errors entries =
    report unenrolled "ssh_host_key_unenrolled" entries
    ++ (report mismatch "ssh_host_key_mismatch" entries
        ++ report unreachable "ssh_host_key_unreachable" entries)

-- `MissingSshHostSlugsError`, with the action
pub data MissingSshHostSlugs : Type 0 where
  missing_ssh_host_slugs : String → MissingSshHostSlugs

unfoldable pub connects_over_ssh : String → Bool
connects_over_ssh id = elim (get_reconciler registry id) [
  | ok r ↦ r.connects_over_ssh
  | err e ↦ false
]

abbrev is_node : Target → Bool
is_node t = t.kind == "node"

unfoldable pub action_host_slugs : ReconcileAction → Result MissingSshHostSlugs (List String)
action_host_slugs a =
    let listed = text_list "host_slugs" a.parameters in
    if nonempty listed
    then ok (set_of listed)
    else if connects_over_ssh a.reconciler_id
    then err (missing_ssh_host_slugs a.id)
    else ok (set_of (target_slugs (select is_node a.targets)))

-- `for action in actions: if wanted(action): slugs.update(action_host_slugs(action))`
unfoldable pub collect_slugs :
    (ReconcileAction → Bool)
    → List ReconcileAction
    → List String
    → Result MissingSshHostSlugs (List String)
collect_slugs wanted [] slugs = ok slugs
collect_slugs wanted (a ∷ rest) slugs =
    let go_on = collect_slugs wanted rest slugs in
    let hosts = action_host_slugs a >>= λ found. collect_slugs wanted rest (update found slugs) in
    if wanted a then hosts else go_on

unfoldable pub ssh_requiring_reconciler_ids : String → Bool
ssh_requiring_reconciler_ids = connects_over_ssh

unfoldable pub ssh_required_host_slugs :
    (String → Bool) → List ReconcileAction → Result MissingSshHostSlugs (List String)
unfolding collect_slugs
ssh_required_host_slugs ids actions = collect_slugs (λ a. ids a.reconciler_id) actions []
