-- ===== src/Drift/Engine/Readable.antt =====
-- When the status of a target is derived at all.
use nctl.Prelude.{
  String, Bool, true, false, ◌&&◌, all, List, [], ◌∷◌, Option, none, some, All, ltb, ◌≡◌, refl, sym,
  inl, inr, Option-cases, if◌then◌else◌,
}
use nctl.Prelude.Value.{Value, Fields, str, obj, lookup}
use nctl.Prelude.Result.{Result, ok, err, ◌>>=◌}
use nctl.Drift.Model.{DiffRecord, Status}
use mathlib.Core.Path.{subst}
use nctl.Drift.Operations.{
  LogError, Moment, naive, aware, after, LogFile, unreadable, garbled, readable, Event,
  ConvergentActuation, event_of, keep_latest, scan_lines, scan_files, qualify,
  latest_convergent_actuation_for_target,
}
use nctl.Drift.ActuationEvents.{event_of-Says, qualify-IsQualified}
use nctl.Drift.Status.{derive_status, error_records, is_claimed, actuated}
use nctl.Drift.Engine.{ActualDevice, parse_timestamp}

abbrev pub Returns {ℓ} : {E A : Type ℓ} → Result E A → Type ℓ
Returns {A} r = (a : A) × (r ≡ ok a)

if_total {ℓ} :
    {E A : Type ℓ} (b : Bool) (x y : Result E A)
    → Returns x
    → Returns y
    → Returns (if b then x else y)
if_total true x y h k = h
if_total false x y h k = k

pub bind_total {ℓ} :
    {E A B : Type ℓ} (run : Result E A) (f : A → B) → Returns run → Returns (run >>= λ a. ok (f a))
bind_total (ok a) f h = (f a, refl)
bind_total (err e) f h = absurd (cc h.1)

-- the moment, if there is one, has an offset
abbrev pub IsAware : Option Moment → Type 0
IsAware none = Unit
IsAware (some (naive t)) = ⊥
IsAware (some (aware t)) = Unit

abbrev pub IsAwareEvent : Option Event → Type 0
IsAwareEvent none = Unit
IsAwareEvent (some e) = IsAware (some e.0)

pub after_total : (t u : Moment) → IsAware (some t) → IsAware (some u) → Returns (after t u)
after_total (naive t) u h k = absurd h
after_total (aware t) (naive u) h k = absurd k
after_total (aware t) (aware u) h k = (ltb u t, refl)

-- it returns something of which P holds
abbrev pub Gives : {A : Type 0} → (A → Type 0) → Result LogError A → Type 0
Gives {A} P r = (a : A) × (r ≡ ok a) × P a

module _ (fromisoformat : String → Option Moment) where
  -- the time of a record, if it has one, has an offset
  abbrev IsTimed : Fields → Type 0
  IsTimed r = (raw : String) → lookup "ts" r ≡ some (str raw) → IsAware (fromisoformat raw)

  -- a line that is no JSON, or a JSON object
  abbrev IsRecord : Option Value → Type 0
  IsRecord none = Unit
  IsRecord (some (obj r)) = IsTimed r
  IsRecord (some v) = ⊥

  abbrev IsReadableFile : LogFile → Type 0
  IsReadableFile unreadable = Unit
  IsReadableFile garbled = ⊥
  IsReadableFile (readable lines) = All IsRecord lines

  -- every file that can be read is text, no line is JSON other than an object, and times have an offset
  abbrev pub IsReadable : Option (Option (List LogFile)) → Type 0
  IsReadable none = Unit
  IsReadable (some none) = Unit
  IsReadable (some (some files)) = All IsReadableFile files

  -- the two times of a device, if they parse, have an offset
  abbrev pub IsTimedDevice : ActualDevice → Type 0
  IsTimedDevice a =
      IsAware (parse_timestamp fromisoformat a.collected_at)
      × IsAware (parse_timestamp fromisoformat a.service_inventory_updated_at)

  module _ (slug : String) where
    event_of-IsAware : (r : Fields) → IsTimed r → IsAwareEvent (event_of fromisoformat slug r)
    event_of-IsAware r h = elim (Option-cases (event_of fromisoformat slug r)) [
      | inl q ↦ rw q tt
      | inr ((t, p), q) ↦
          let (named, data_of, names, (raw, ts, moment)) =
            event_of-Says fromisoformat slug r t p q in
          rw q (subst IsAware moment (h raw ts))
    ]

    keep_latest-Gives :
        (e latest : Option Event)
        → IsAwareEvent e
        → IsAwareEvent latest
        → Gives IsAwareEvent (keep_latest e latest)
    keep_latest-Gives none latest h k = (latest, refl, k)
    keep_latest-Gives (some e) none h k = (some e, refl, h)
    keep_latest-Gives (some (t, p)) (some (u, q)) h k =
        let (b, compared) = after_total t u h k in
        rw (compared, ◌>>=◌)
          (elim b as (λ x. Gives IsAwareEvent (ok (if x then some (t, p) else some (u, q)))) [
            | true ↦ (some (t, p), refl, h)
            | false ↦ (some (u, q), refl, k)
          ])

    scan_lines-Gives :
        (lines : List (Option Value)) (latest : Option Event)
        → All IsRecord lines
        → IsAwareEvent latest
        → Gives IsAwareEvent (scan_lines fromisoformat slug lines latest)
    unfolding scan_lines
    scan_lines-Gives [] latest h k = (latest, refl, k)
    scan_lines-Gives (none ∷ rest) latest h k = scan_lines-Gives rest latest h.1 k
    scan_lines-Gives (some (obj r) ∷ rest) latest h k =
        let (mid, e, m) =
          keep_latest-Gives (event_of fromisoformat slug r) latest (event_of-IsAware r h.0) k in
        rw (e, ◌>>=◌) (scan_lines-Gives rest mid h.1 m)
    scan_lines-Gives (some v ∷ rest) latest h k = absurd h.0

    scan_files-Gives :
        (files : List LogFile) (latest : Option Event)
        → All IsReadableFile files
        → IsAwareEvent latest
        → Gives IsAwareEvent (scan_files fromisoformat slug files latest)
    unfolding scan_files
    scan_files-Gives [] latest h k = (latest, refl, k)
    scan_files-Gives (unreadable ∷ rest) latest h k = scan_files-Gives rest latest h.1 k
    scan_files-Gives (garbled ∷ rest) latest h k = absurd h.0
    scan_files-Gives (readable lines ∷ rest) latest h k =
        let (mid, e, m) = scan_lines-Gives lines latest h.0 k in
        rw (e, ◌>>=◌) (scan_files-Gives rest mid h.1 m)

    abbrev IsAwareActuation : Option ConvergentActuation → Type 0
    IsAwareActuation none = Unit
    IsAwareActuation (some a) = IsAware (some a.ts)

    qualify-IsAware :
        (latest : Option Event) → IsAwareEvent latest → IsAwareActuation (qualify latest)
    unfolding qualify
    qualify-IsAware none h = tt
    qualify-IsAware (some (t, p)) h = elim (Option-cases (qualify (some (t, p)))) [
      | inl q ↦ rw q tt
      | inr (a, q) ↦
          let (claimed, success, wants, listed, time, codes) = qualify-IsQualified t p a q in
          rw q (subst (λ x. IsAware (some x)) (sym time) h)
    ]

    latest-Gives :
        (files : Option (List LogFile))
        → IsReadable (some files)
        → Gives IsAwareActuation (latest_convergent_actuation_for_target fromisoformat files slug)
    unfolding latest_convergent_actuation_for_target
    latest-Gives none h = (none, refl, tt)
    latest-Gives (some files) h =
        let (mid, e, m) = scan_files-Gives files none h tt in
        rw (e, ◌>>=◌) (qualify mid, refl, qualify-IsAware mid m)

    actuated_total :
        (errors : List DiffRecord) (observed_at : Option Moment) (a : Option ConvergentActuation)
        → IsAware observed_at
        → IsAwareActuation a
        → Returns (actuated errors observed_at a)
    unfolding actuated
    actuated_total errors observed_at none h k = (Status.drifting, refl)
    actuated_total errors none (some a) h k =
        (if all (is_claimed a) errors then Status.converging else Status.drifting, refl)
    actuated_total errors (some o) (some a) h k =
        bind_total (after a.ts o)
          (λ newer.
            if newer && all (is_claimed a) errors then Status.converging else Status.drifting)
          (after_total a.ts o k h)

    consult_total :
        (errors : List DiffRecord) (observed_at : Option Moment) (files : Option (List LogFile))
        → IsReadable (some files)
        → IsAware observed_at
        → Returns (
            latest_convergent_actuation_for_target fromisoformat files slug >>= λ a.
            actuated errors observed_at a)
    consult_total errors observed_at files h k =
        let (a, e, m) = latest-Gives files h in
        rw (e, ◌>>=◌) (actuated_total errors observed_at a k m)

  pub derive_status_total :
      (records : List DiffRecord) (slug : Option String) (observed_at : Option Moment)
      (events_dir : Option (Option (List LogFile)))
      → IsReadable events_dir
      → IsAware observed_at
      → Returns (derive_status fromisoformat records slug observed_at events_dir)
  unfolding derive_status
  derive_status_total records none observed_at events_dir h k =
      if_total _ _ _ (Status.converged, refl)
        (if_total _ _ _ (Status.unknown, refl) (Status.drifting, refl))
  derive_status_total records (some s) observed_at none h k =
      if_total _ _ _ (Status.converged, refl)
        (if_total _ _ _ (Status.unknown, refl)
          (if_total _ _ _ (Status.drifting, refl) (Status.drifting, refl)))
  derive_status_total records (some s) observed_at (some files) h k =
      if_total _ _ _ (Status.converged, refl)
        (if_total _ _ _ (Status.unknown, refl)
          (if_total _ _ _ (Status.drifting, refl)
            (consult_total s (error_records records) observed_at files h k)))
