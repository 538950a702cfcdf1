-- ===== src/Reconcile/ProfileChecks/Resolved.antt =====
-- What the probe of a placement is told to look at.
use nctl.Prelude.{
  true, false, List, [], ◌∷◌, Option, none, some, All, ◌≡◌, ◌⊎◌, refl, arith, Bool-cases, inl, inr,
  if◌then◌else◌,
}
use nctl.Prelude.Value.{Value, Fields, str, lookup}
use nctl.Prelude.Result.{Result, ok, err, ◌>>=◌}
use nctl.Reconcile.ProfileChecks.{
  CheckSpec, path_check, http_check, Hint, path_hint, http_hint, ResolutionError, unresolved,
  is_rooted, validate_check, is_usable, text_of, resolve_check_path, hint_of, resolve_check_hints,
}

-- the hint of a check: of its kind, with its own path or the configured one, which is absolute or in the
-- home
abbrev pub IsHintOf : Fields → CheckSpec → Hint → Type 0
IsHintOf config (path_check kind (some path) source) (path_hint k p) =
    (k ≡ kind) × (p ≡ path) × (is_rooted p ≡ true)
IsHintOf config (path_check kind none (some key)) (path_hint k p) =
    (k ≡ kind) × (lookup key config ≡ some (str p)) × (is_rooted p ≡ true)
IsHintOf config (http_check paths) (http_hint ps) = ps ≡ paths
IsHintOf config check hint = ⊥

-- the check takes its path from a key of the configuration that is missing or has no usable path
abbrev pub IsUnusable : Fields → CheckSpec → Type 0
IsUnusable config (path_check kind none (some key)) = is_usable (lookup key config) ≡ false
IsUnusable config check = ⊥

abbrev IsHint : Fields → CheckSpec → Result ResolutionError Hint → Type 0
IsHint config check (ok h) = IsHintOf config check h
IsHint config check (err e) = (e ≡ unresolved) × IsUnusable config check

usable_text :
    (v : Option Value)
    → is_usable v ≡ true
    → (v ≡ some (str (text_of v))) × (is_rooted (text_of v) ≡ true)
unfolding is_usable
usable_text (some (str s)) h = (refl, ground arith)
usable_text v h = absurd (cc h)

hint_of-IsHint :
    (config : Fields) (check : CheckSpec)
    → validate_check check ≡ true
    → IsHint config check (hint_of check config)
unfolding validate_check resolve_check_path
hint_of-IsHint config (path_check kind (some path) source) h = (refl, refl, ground arith)
hint_of-IsHint config (path_check kind none none) h = absurd (cc h)
hint_of-IsHint config (path_check kind none (some key)) h =
    elim (Bool-cases (is_usable (lookup key config))) [
      | inl good ↦
          let (found, rooted) = usable_text (lookup key config) good in
          rw (good, if◌then◌else◌, ◌>>=◌) (refl, found, rooted)
      | inr bad ↦ rw (bad, if◌then◌else◌, ◌>>=◌) (refl, bad)
    ]
hint_of-IsHint config (http_check paths) h = refl

abbrev AreHintsOf : Fields → List CheckSpec → List Hint → Type 0
AreHintsOf config [] [] = Unit
AreHintsOf config (c ∷ cs) (h ∷ hs) = IsHintOf config c h × AreHintsOf config cs hs
AreHintsOf config checks hints = ⊥

abbrev SomeUnusable : Fields → List CheckSpec → Type 0
SomeUnusable config [] = ⊥
SomeUnusable config (c ∷ cs) = IsUnusable config c ⊎ SomeUnusable config cs

-- one hint for each check, in order; or an unresolved check with an unusable key
abbrev pub AreHints : Fields → List CheckSpec → Result ResolutionError (List Hint) → Type 0
AreHints config checks (ok hints) = AreHintsOf config checks hints
AreHints config checks (err e) = (e ≡ unresolved) × SomeUnusable config checks

-- The checks of a validated profile resolve to one hint each, in order, of the check's kind and with a
-- path that is absolute or in the home; if they do not, a check takes its path from a key of the
-- placement's configuration that is missing or has no usable path, and the error says that it is unresolved.
pub resolve_check_hints-AreHints :
    (config : Fields) (checks : List CheckSpec)
    → All (λ c. validate_check c ≡ true) checks
    → AreHints config checks (resolve_check_hints checks config)
unfolding resolve_check_hints
resolve_check_hints-AreHints config [] v = tt
resolve_check_hints-AreHints config (c ∷ cs) v =
    go (hint_of c config) (resolve_check_hints cs config) (hint_of-IsHint config c v.0)
      (resolve_check_hints-AreHints config cs v.1)
  where
    go :
        (r : Result ResolutionError Hint) (s : Result ResolutionError (List Hint))
        → IsHint config c r
        → AreHints config cs s
        → AreHints config (c ∷ cs) (r >>= λ h. s >>= λ hs. ok (h ∷ hs))
    go (err e) s (q, bad) later = (q, inl bad)
    go (ok h) (err e) good (q, bad) = (q, inr bad)
    go (ok h) (ok hs) good later = (good, later)
