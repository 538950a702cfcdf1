-- ===== src/Drift/Converging.antt =====
-- When a target is reported as converging.
use nctl.Prelude.{String, true, false, List, Option, none, some, contains, ◌≡◌}
use nctl.Prelude.Value.{Value, Fields, Items, bool, arr, lookup, items_texts}
use nctl.Prelude.Result.{Result, ok, ◌>>=◌}
use nctl.Drift.Model.{DiffRecord, is_error, Status}
use nctl.Drift.Operations.{
  Moment, after, LogError, LogFile, Event, latest_convergent_actuation_for_target,
}
use nctl.Drift.ActuationEvents.{IsActuation, IsAfter}
use nctl.Drift.Status.{error_records, actuated}
use mathlib.Core.List.{Memᴰ}
use mathlib.Core.List.Memᴰ

-- the latest of the events seen
abbrev IsLatest : List Event → Option Event → Type 0
IsLatest seen none = (e : Event) → Memᴰ e seen → ⊥
IsLatest seen (some l) = Memᴰ l seen × ((e : Event) → Memᴰ e seen → after e.0 l.0 ≡ ok false)

module _ (fromisoformat : String → Option Moment) (slug : String) where
  -- the newest actuation that names the target, which explains every error
  abbrev pub Supports : List DiffRecord → Option Moment → List LogFile → Type 0
  Supports records observed_at files =
      (t : Moment) × (payload : Fields) × (claimed : Items) × IsActuation fromisoformat slug files t
        payload
      × ((u : Moment) (p : Fields)
          → IsActuation fromisoformat slug files u p
          → after u t ≡ ok false)
      × (lookup "success" payload ≡ some (bool true))
      × (lookup "requires_observation" payload ≡ some (bool true))
      × (lookup "claimed_diff_codes" payload ≡ some (arr claimed))
      × IsAfter t observed_at
      × ((d : DiffRecord)
          → Memᴰ d records
          → is_error d ≡ true
          → contains d.code (items_texts claimed) ≡ true)

  abbrev consult : List DiffRecord → Option Moment → List LogFile → Result LogError Status
  consult records observed_at files =
      latest_convergent_actuation_for_target fromisoformat (some files) slug >>= λ a.
      actuated (error_records records) observed_at a
