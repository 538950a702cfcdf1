-- ===== src/Drift/ActuationEvents.antt =====
-- The records of the event log that count as actuations of a target.
use nctl.Prelude.{
  String, Bool, true, false, List, [], ◌∷◌, ◌++◌, Option, none, some, contains, ◌≡◌, inl, inr, refl,
  sym, ap, ◌∙◌, ◌&&◌, arith, eq_iff, Option-cases, if◌then◌else◌,
}
use nctl.Prelude.Value.{Value, Items, Fields, bool, str, arr, obj, lookup, items_texts}
use nctl.Prelude.Result.{ok}
use nctl.Drift.Operations.{
  Moment, after, LogFile, readable, Event, ConvergentActuation, value_is_text, is_true, on_object,
  on_text, on_list, all_texts, some_item, names_slug, at_time, event_of, qualify,
}
use mathlib.Core.Path.{subst}
use mathlib.Core.List.{Memᴰ}
use mathlib.Core.List.Memᴰ

-- the record is an object in a line of a file that could be read
abbrev pub Logged : Fields → List LogFile → Type 0
Logged r files =
    (lines : List (Option Value)) × Memᴰ (readable lines) files × Memᴰ (some (obj r)) lines

abbrev pub Names : String → Fields → Type 0
Names slug payload =
    (slugs : Items) × (lookup "target_slugs" payload ≡ some (arr slugs))
    × (contains slug (items_texts slugs) ≡ true)

-- the moment is after the other one, if there is one
abbrev pub IsAfter : Moment → Option Moment → Type 0
IsAfter t none = Unit
IsAfter t (some o) = after t o ≡ ok true

pub Option-none-some {ℓ} : {A : Type ℓ} {x : A} → some x ≡ none → ⊥
Option-none-some e = absurd (cc e)

if-some {ℓ} :
    {A : Type ℓ} (b : Bool) {o : Option A} {x : A}
    → (if b then o else none) ≡ some x
    → (b ≡ true) × (o ≡ some x)
if-some true e = (refl, e)
if-some false e = absurd (Option-none-some (sym e))

value_is_text-str : (s : String) (v : Option Value) → value_is_text s v ≡ true → v ≡ some (str s)
value_is_text-str s (some (str t)) e = ap (λ x. some (str x)) (ground (arith, eq_iff t s))
value_is_text-str s v e = absurd (cc e)

is_true-bool : (v : Option Value) → is_true v ≡ true → v ≡ some (bool true)
is_true-bool (some (bool b)) e = ap (λ x. some (bool x)) e
is_true-bool v e = absurd (cc e)

on_object-some {ℓ} :
    {A : Type ℓ} (v : Option Value) (f : Fields → Option A) {x : A}
    → on_object v f ≡ some x
    → (r : Fields) × (v ≡ some (obj r)) × (f r ≡ some x)
on_object-some (some (obj r)) f e = (r, refl, e)
on_object-some v f e = absurd (Option-none-some (sym e))

on_text-some {ℓ} :
    {A : Type ℓ} (v : Option Value) (f : String → Option A) {x : A}
    → on_text v f ≡ some x
    → (s : String) × (v ≡ some (str s)) × (f s ≡ some x)
on_text-some (some (str s)) f e = (s, refl, e)
on_text-some v f e = absurd (Option-none-some (sym e))

on_list-some {ℓ} :
    {A : Type ℓ} (v : Option Value) (f : Items → Option A) {x : A}
    → on_list v f ≡ some x
    → (l : Items) × (v ≡ some (arr l)) × (f l ≡ some x)
on_list-some (some (arr l)) f e = (l, refl, e)
on_list-some v f e = absurd (Option-none-some (sym e))

names_slug-list :
    (slug : String) (v : Option Value)
    → names_slug slug v ≡ true
    → (l : Items) × (v ≡ some (arr l)) × (contains slug (items_texts l) ≡ true)
unfolding names_slug
names_slug-list slug (some (arr l)) e = (l, refl, e)
names_slug-list slug v e = absurd (cc e)

at_time-some :
    (p : Fields) (o : Option Moment) {t : Moment} {payload : Fields}
    → at_time p o ≡ some (t, payload)
    → (o ≡ some t) × (p ≡ payload)
at_time-some p none e = absurd (Option-none-some (sym e))
at_time-some p (some u) {t} {payload} e =
    let back : Option Event → Event = λ o. elim o [ none ↦ (t, payload) | some x ↦ x ] in
    (ap (λ o. some (back o).0) e, ap (λ o. (back o).1) e)

-- a success that wants an observation and claims codes
pub qualify-IsQualified :
    (t : Moment) (payload : Fields) (a : ConvergentActuation)
    → qualify (some (t, payload)) ≡ some a
    → (claimed : Items) × (lookup "success" payload ≡ some (bool true))
      × (lookup "requires_observation" payload ≡ some (bool true))
      × (lookup "claimed_diff_codes" payload ≡ some (arr claimed))
      × (a.ts ≡ t)
      × (a.claimed_diff_codes ≡ items_texts claimed)
unfolding qualify
qualify-IsQualified t payload a e =
    let (good, listed) =
      if-some
        (is_true (lookup "success" payload) && is_true (lookup "requires_observation" payload)) e in
    let (claimed, q, f) = on_list-some (lookup "claimed_diff_codes" payload) _ listed in
    let (texts, made) = if-some (some_item claimed && all_texts claimed) f in
    let back : Option ConvergentActuation → ConvergentActuation =
      λ o. elim o [ none ↦ a | some x ↦ x ] in
    (
      claimed,
      is_true-bool (lookup "success" payload) (ground arith),
      is_true-bool (lookup "requires_observation" payload) (ground arith),
      q,
      sym (ap (λ o. (back o).ts) made),
      sym (ap (λ o. (back o).claimed_diff_codes) made),
    )

module _ (fromisoformat : String → Option Moment) (slug : String) where
  abbrev pub line_events : List (Option Value) → List Event
  line_events [] = []
  line_events (none ∷ rest) = line_events rest
  line_events (some (obj r) ∷ rest) =
      let more = line_events rest in
      elim (event_of fromisoformat slug r) [ none ↦ more | some e ↦ e ∷ more ]
  line_events (some v ∷ rest) = line_events rest

  -- the events of the files that are actuations of the target at a time
  abbrev pub events : List LogFile → List Event
  events [] = []
  events (readable lines ∷ rest) = line_events lines ++ events rest
  events (f ∷ rest) = events rest

module _ (fromisoformat : String → Option Moment) (slug : String) where
  -- what a record says, if it is an actuation of the target
  abbrev pub Says : Fields → Moment → Fields → Type 0
  Says r t payload =
      (lookup "event" r ≡ some (str "actuation_completed"))
      × (lookup "data" r ≡ some (obj payload))
      × Names slug payload
      × ((raw : String) × (lookup "ts" r ≡ some (str raw)) × (fromisoformat raw ≡ some t))

  -- a record in the log says that an actuation with the payload was completed at the moment
  abbrev pub IsActuation : List LogFile → Moment → Fields → Type 0
  IsActuation files t payload = (r : Fields) × Logged r files × Says r t payload

  pub event_of-Says :
      (r : Fields) (t : Moment) (payload : Fields)
      → event_of fromisoformat slug r ≡ some (t, payload)
      → Says r t payload
  unfolding event_of
  event_of-Says r t payload e =
      let (named, there) = if-some (value_is_text "actuation_completed" (lookup "event" r)) e in
      let (p, data_of, here) = on_object-some (lookup "data" r) _ there in
      let (has, timed) = if-some (names_slug slug (lookup "target_slugs" p)) here in
      let (raw, ts, parsed) = on_text-some (lookup "ts" r) _ timed in
      let (moment, same) = at_time-some p (fromisoformat raw) parsed in
      (
        value_is_text-str "actuation_completed" (lookup "event" r) named,
        data_of ∙ ap (λ x. some (obj x)) same,
        subst (Names slug) same (names_slug-list slug (lookup "target_slugs" p) has),
        (raw, ts, moment),
      )

  Says-event_of :
      (r : Fields) (t : Moment) (payload : Fields)
      → Says r t payload
      → event_of fromisoformat slug r ≡ some (t, payload)
  unfolding event_of names_slug
  Says-event_of r t payload (named, data_of, (slugs, q, has), (raw, ts, moment)) =
      rw (named, data_of, q, has, ts, moment) refl

  line_events-Says :
      (lines : List (Option Value)) (t : Moment) (payload : Fields)
      → Memᴰ (t, payload) (line_events fromisoformat slug lines)
      → (r : Fields) × Memᴰ (some (obj r)) lines × Says r t payload
  line_events-Says [] t payload m = absurd (Memᴰ.not-nil m)
  line_events-Says (none ∷ rest) t payload m =
      let (r, n, s) = line_events-Says rest t payload m in (r, Memᴰ.tail n, s)
  line_events-Says (some (obj r) ∷ rest) t payload m =
      elim (Option-cases (event_of fromisoformat slug r)) [
        | inl q ↦
            let (x, n, s) = line_events-Says rest t payload (rw (q, line_events) at m) in
            (x, Memᴰ.tail n, s)
        | inr (e, q) ↦ elim (Memᴰ.cases_cons (rw (q, line_events) at m)) [
          | inl here ↦ (r, Memᴰ.head refl, event_of-Says r t payload (q ∙ ap some (sym here)))
          | inr later ↦ let (x, n, s) = line_events-Says rest t payload later in (x, Memᴰ.tail n, s)
        ]
      ]
  line_events-Says (some v ∷ rest) t payload m =
      let (r, n, s) = line_events-Says rest t payload m in (r, Memᴰ.tail n, s)

  Says-line_events :
      (lines : List (Option Value)) (r : Fields) (t : Moment) (payload : Fields)
      → Memᴰ (some (obj r)) lines
      → Says r t payload
      → Memᴰ (t, payload) (line_events fromisoformat slug lines)
  Says-line_events [] r t payload m s = absurd (Memᴰ.not-nil m)
  Says-line_events (none ∷ rest) r t payload m s = elim (Memᴰ.cases_cons m) [
    | inl here ↦ absurd (Option-none-some here)
    | inr later ↦ Says-line_events rest r t payload later s
  ]
  Says-line_events (some (obj x) ∷ rest) r t payload m s = elim (Memᴰ.cases_cons m) [
    | inl here ↦
        let fields : Option Value → Fields = λ o. elim o [ some (obj y) ↦ y | _ ↦ x ] in
        let same : r ≡ x = ap fields here in
        let q = Says-event_of x t payload (subst (λ y. Says y t payload) same s) in
        rw (q, line_events) (Memᴰ.head refl)
    | inr later ↦
        let n = Says-line_events rest r t payload later s in
        elim (Option-cases (event_of fromisoformat slug x)) [
          | inl q ↦ rw (q, line_events) n
          | inr (e, q) ↦ rw (q, line_events) (Memᴰ.tail n)
        ]
  ]
  Says-line_events (some v ∷ rest) r t payload m s = elim (Memᴰ.cases_cons m) [
    | inl here ↦ absurd (cc here)
    | inr later ↦ Says-line_events rest r t payload later s
  ]

  pub events-IsActuation :
      (files : List LogFile) (t : Moment) (payload : Fields)
      → Memᴰ (t, payload) (events fromisoformat slug files)
      → IsActuation files t payload
  events-IsActuation [] t payload m = absurd (Memᴰ.not-nil m)
  events-IsActuation (readable lines ∷ rest) t payload m =
      elim (Memᴰ.append_cases (line_events fromisoformat slug lines) m) [
        | inl here ↦
            let (r, n, s) = line_events-Says lines t payload here in
            (r, (lines, Memᴰ.head refl, n), s)
        | inr later ↦
            let (r, (l, n, k), s) = events-IsActuation rest t payload later in
            (r, (l, Memᴰ.tail n, k), s)
      ]
  events-IsActuation (f ∷ rest) t payload m =
      let (r, (l, n, k), s) = events-IsActuation rest t payload m in (r, (l, Memᴰ.tail n, k), s)

  pub IsActuation-events :
      (files : List LogFile) (t : Moment) (payload : Fields)
      → IsActuation files t payload
      → Memᴰ (t, payload) (events fromisoformat slug files)
  IsActuation-events [] t payload (r, (l, n, k), s) = absurd (Memᴰ.not-nil n)
  IsActuation-events (readable lines ∷ rest) t payload (r, (l, n, k), s) =
      elim (Memᴰ.cases_cons n) [
        | inl here ↦
            let lines_of : LogFile → List (Option Value) = λ f. elim f [ readable x ↦ x | _ ↦ l ] in
            Memᴰ.append_left (events fromisoformat slug rest) (
              Says-line_events lines r t payload
                (subst (λ x. Memᴰ (some (obj r)) x) (ap lines_of here) k) s)
        | inr later ↦
            Memᴰ.append_right (line_events fromisoformat slug lines)
              (IsActuation-events rest t payload (r, (l, later, k), s))
      ]
  IsActuation-events (f ∷ rest) t payload (r, (l, n, k), s) = elim (Memᴰ.cases_cons n) [
    | inl here ↦ absurd (cc here)
    | inr later ↦ IsActuation-events rest t payload (r, (l, later, k), s)
  ]
