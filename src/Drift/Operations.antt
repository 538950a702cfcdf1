-- ===== src/Drift/Operations.antt =====
-- src/nctl_core/drift/operations.py: the last actuation that names a target in the event log.
use nctl.Prelude.{
  ℕ, String, Bool, true, false, ◌&&◌, List, [], ◌∷◌, Option, none, some, contains, ltb, ◌==◌,
  if◌then◌else◌,
}
use nctl.Prelude.Value.{Value, Items, Fields, bool, str, arr, obj, nil, cons, lookup, items_texts}
use nctl.Prelude.Result.{Result, ok, err, ◌>>=◌}

-- `AttributeError`: a line that is JSON but not an object; `UnicodeDecodeError`: a file that is no text;
-- `TypeError`: the comparison of a moment with an offset and one without
pub data LogError : Type 0 where
  not_an_object : LogError
  undecodable : LogError
  incomparable : LogError

-- a datetime without an offset, or with one, as the instant
pub data Moment : Type 0 where
  naive : ℕ → Moment
  aware : ℕ → Moment

-- `t > u`
abbrev pub after : Moment → Moment → Result LogError Bool
after (naive t) (naive u) = ok (ltb u t)
after (naive t) (aware u) = err incomparable
after (aware t) (naive u) = err incomparable
after (aware t) (aware u) = ok (ltb u t)

-- A file of the log: reading it raises OSError or UnicodeDecodeError, or gives what `json.loads` makes of
-- each line, `none` where it raises.
pub data LogFile : Type 0 where
  unreadable : LogFile
  garbled : LogFile
  readable : List (Option Value) → LogFile

pub record ConvergentActuation : Type 0 where
  pub ts : Moment
  pub claimed_diff_codes : List String

-- an event with its time
abbrev pub Event : Type 0
Event = Moment × Fields

abbrev pub value_is_text : String → Option Value → Bool
value_is_text s (some (str t)) = t == s
value_is_text s v = false

abbrev pub is_true : Option Value → Bool
is_true (some (bool b)) = b
is_true v = false

-- `isinstance(value, dict)`, `isinstance(value, str)` and `isinstance(value, list)`, with `none` otherwise
abbrev pub on_object {ℓ} : {A : Type ℓ} → Option Value → (Fields → Option A) → Option A
on_object (some (obj r)) f = f r
on_object v f = none

abbrev pub on_text {ℓ} : {A : Type ℓ} → Option Value → (String → Option A) → Option A
on_text (some (str s)) f = f s
on_text v f = none

abbrev pub on_list {ℓ} : {A : Type ℓ} → Option Value → (Items → Option A) → Option A
on_list (some (arr items)) f = f items
on_list v f = none

unfoldable pub all_texts : Items → Bool
all_texts nil = true
all_texts (cons v rest) = let later = all_texts rest in elim v [ str s ↦ later | _ ↦ false ]

abbrev pub some_item : Items → Bool
some_item nil = false
some_item (cons v rest) = true

-- `slug in value`, where the value is a list
unfoldable pub names_slug : String → Option Value → Bool
unfolding items_texts
names_slug slug (some (arr items)) = contains slug (items_texts items)
names_slug slug v = false

abbrev pub later : Event → Option Event → Result LogError (Option Event)
later e none = ok (some e)
later (t, payload) (some (u, old)) =
    after t u >>= λ newer. ok (if newer then some (t, payload) else some (u, old))

abbrev pub keep_latest : Option Event → Option Event → Result LogError (Option Event)
keep_latest none latest = ok latest
keep_latest (some e) latest = later e latest

abbrev pub at_time : Fields → Option Moment → Option Event
at_time payload none = none
at_time payload (some t) = some (t, payload)

-- `fromisoformat` is `datetime.fromisoformat`, with `none` for a ValueError
module _ (fromisoformat : String → Option Moment) (slug : String) where
  -- the event of a record, if it is an actuation that names the target at a time
  unfoldable pub event_of : Fields → Option Event
  unfolding lookup names_slug
  event_of r =
      if value_is_text "actuation_completed" (lookup "event" r)
      then on_object (lookup "data" r) (λ payload.
        if names_slug slug (lookup "target_slugs" payload)
        then on_text (lookup "ts" r) (λ raw. at_time payload (fromisoformat raw))
        else none)
      else none

  -- the loop over the lines
  unfoldable pub scan_lines : List (Option Value) → Option Event → Result LogError (Option Event)
  unfolding event_of
  scan_lines [] latest = ok latest
  scan_lines (none ∷ rest) latest = scan_lines rest latest
  scan_lines (some (obj r) ∷ rest) latest = keep_latest (event_of r) latest >>= scan_lines rest
  scan_lines (some v ∷ rest) latest = err not_an_object

  -- the loop over the files
  unfoldable pub scan_files : List LogFile → Option Event → Result LogError (Option Event)
  unfolding scan_lines
  scan_files [] latest = ok latest
  scan_files (unreadable ∷ rest) latest = scan_files rest latest
  scan_files (garbled ∷ rest) latest = err undecodable
  scan_files (readable lines ∷ rest) latest = scan_lines lines latest >>= scan_files rest

-- what the latest event says, if it was a success that wants an observation
unfoldable pub qualify : Option Event → Option ConvergentActuation
unfolding lookup all_texts items_texts
qualify none = none
qualify (some (ts, payload)) =
    if is_true (lookup "success" payload) && is_true (lookup "requires_observation" payload)
    then on_list (lookup "claimed_diff_codes" payload) (λ claimed.
      if some_item claimed && all_texts claimed
      then some (record { ts = ts; claimed_diff_codes = items_texts claimed })
      else none)
    else none

-- the files of the directory in the order of their names; `none` if it is no directory
unfoldable pub latest_convergent_actuation_for_target :
    (String → Option Moment)
    → Option (List LogFile)
    → String
    → Result LogError (Option ConvergentActuation)
unfolding scan_files qualify
latest_convergent_actuation_for_target fromisoformat none slug = ok none
latest_convergent_actuation_for_target fromisoformat (some files) slug =
    scan_files fromisoformat slug files none >>= λ latest. ok (qualify latest)
