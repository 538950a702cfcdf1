-- ===== src/Compute/Text.antt =====
-- Python's `str.strip` and `len`.
use Prim.Native.Char.{code}
use Prim.Native.String as Text
use nctl.Prelude.{
  ℕ, suc, String, Bool, true, false, ◌&&◌, ◌||◌, [], ◌∷◌, any, leb, nat_eq, if◌then◌else◌, ◌≡◌,
  refl, arith, Bool-cases, inl, inr,
}

abbrev pub between : ℕ → ℕ → ℕ → Bool
between low high n = leb low n && leb n high

-- `c.isspace()`
unfoldable pub is_space : ℕ → Bool
is_space n =
    between 9 13 n
    || (between 28 32 n
        || (between 8192 8202 n
            || any (nat_eq n) (133 ∷ 160 ∷ 5760 ∷ 8232 ∷ 8233 ∷ 8239 ∷ 8287 ∷ 12288 ∷ [])))

unfoldable pub lstrip : String → String
unfolding is_space
lstrip Text.[] = Text.[]
lstrip (Text.◌∷◌ c s) = let rest = lstrip s in if is_space (code c) then rest else Text.◌∷◌ c s

abbrev is_empty : String → Bool
is_empty Text.[] = true
is_empty (Text.◌∷◌ c s) = false

unfoldable pub rstrip : String → String
unfolding is_space
rstrip Text.[] = Text.[]
rstrip (Text.◌∷◌ c s) =
    let rest = rstrip s in if is_empty rest && is_space (code c) then Text.[] else Text.◌∷◌ c rest

unfoldable pub strip : String → String
unfolding lstrip rstrip
strip s = rstrip (lstrip s)

abbrev pub text_length : String → ℕ
text_length Text.[] = 0
text_length (Text.◌∷◌ c s) = suc (text_length s)

rstrip-rstrip : (s : String) → rstrip (rstrip s) ≡ rstrip s
unfolding rstrip
rstrip-rstrip Text.[] = refl
rstrip-rstrip (Text.◌∷◌ c s) = elim (Bool-cases (is_empty (rstrip s) && is_space (code c))) [
  | inl gone ↦ rw gone refl
  | inr stays ↦ rw (stays, rstrip-rstrip s, stays) refl
]

lstrip-strip : (s : String) → lstrip (rstrip (lstrip s)) ≡ rstrip (lstrip s)
unfolding lstrip rstrip
lstrip-strip Text.[] = refl
lstrip-strip (Text.◌∷◌ c s) = elim (Bool-cases (is_space (code c))) [
  | inl blank ↦ rw blank (lstrip-strip s)
  | inr solid ↦ ground (arith)
]

-- A stripped text is left as it is by another strip.
pub strip-strip : (s : String) → strip (strip s) ≡ strip s
unfolding strip
strip-strip s = rw (lstrip-strip s) (rstrip-rstrip (lstrip s))
