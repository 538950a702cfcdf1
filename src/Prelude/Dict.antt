-- ===== src/Prelude/Dict.antt =====
-- Python's `dict` with text keys, in insertion order: a write to a key that is there keeps its place.
use Prim.Native.String.{String}
use mathlib.Core.Path.{◌≡◌, refl}
use mathlib.Core.Bool.{Bool, true, false}
use mathlib.Core.Option.{Option, none, some}
use mathlib.Core.List.{List, [], ◌∷◌}
use native.Mathlib.Omega.{arith}
use text.Mathlib.Text.{◌==◌}
use text.Mathlib.TextEquality.{eq_iff}
use nctl.Prelude.Tests.{if◌then◌else◌}
use nctl.Prelude.Lists.{contains}

abbrev pub Dict {ℓ} : Type ℓ → Type ℓ
Dict V = List (String × V)

abbrev pub is_some {ℓ} : {V : Type ℓ} → Option V → Bool
is_some none = false
is_some (some v) = true

module _ {ℓ} {V : Type ℓ} where
  -- d.get(k)
  unfoldable pub get : Dict V → String → Option V
  get [] k = none
  get ((j, v) ∷ d) k = if k == j then some v else get d k

  -- d[k] = v
  unfoldable pub put : Dict V → String → V → Dict V
  put [] k v = (k, v) ∷ []
  put ((j, w) ∷ d) k v = let rest = put d k v in if k == j then (j, v) ∷ d else (j, w) ∷ rest

  unfoldable pub keys : Dict V → List String
  keys [] = []
  keys ((j, v) ∷ d) = j ∷ keys d

  pub get-put :
      (entries : Dict V) (key other : String) (value : V)
      → get (put entries key value) other ≡ (if other == key then some value else get entries other)
  unfolding get put
  get-put [] key other value = refl
  get-put ((first, old) ∷ entries) key other value = ground (
    arith,
    eq_iff key first,
    eq_iff other first,
    eq_iff other key,
    get-put entries key other value,
  )

  pub contains-keys : (d : Dict V) (k : String) → contains k (keys d) ≡ is_some (get d k)
  unfolding get keys
  contains-keys [] k = refl
  contains-keys ((i, w) ∷ d) k = ground (arith, contains-keys d k)
