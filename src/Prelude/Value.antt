-- ===== src/Prelude/Value.antt =====
-- The JSON values that rows and plans carry where the source says `Any` or `dict`. An integer is
-- `int n`, or `neg n` for -(n + 1); a float is kept by its text, since only its type is looked at.
use Prim.Native.Nat.{ℕ}
use Prim.Native.String.{String}
use mathlib.Core.Path.{◌≡◌, refl}
use mathlib.Core.Bool.{Bool, true, false, not, ◌&&◌}
use mathlib.Core.Option.{Option, none, some}
use mathlib.Core.List.{List, [], ◌∷◌}
use native.Mathlib.Omega.{arith}
use text.Mathlib.Text.{◌==◌}
use text.Mathlib.TextEquality.{eq_iff}
use nctl.Prelude.Tests.{ltb, if◌then◌else◌}

mutual
  pub data Value : Type 0 where
    null : Value
    obj : Fields → Value
    arr : Items → Value
    str float : String → Value
    int neg : ℕ → Value
    bool : Bool → Value

  pub data Fields : Type 0 where
    field : String → Value → Fields → Fields
    end : Fields

  pub data Items : Type 0 where
    cons : Value → Items → Items
    nil : Items

-- d.get(k)
unfoldable pub lookup : String → Fields → Option Value
lookup k end = none
lookup k (field j v fs) = if k == j then some v else lookup k fs

-- d[k] = v
unfoldable pub store : String → Value → Fields → Fields
store k v end = field k v end
store k v (field j w fs) =
    let rest = store k v fs in if k == j then field j v fs else field j w rest

-- {**d, **e}
unfoldable pub merge : Fields → Fields → Fields
unfolding store
merge d end = d
merge d (field k v e) = merge (store k v d) e

unfoldable pub texts : List String → Items
texts [] = nil
texts (x ∷ xs) = cons (str x) (texts xs)

-- the texts of a list of texts
unfoldable pub items_texts : Items → List String
items_texts nil = []
items_texts (cons (str s) rest) = s ∷ items_texts rest
items_texts (cons v rest) = items_texts rest

-- d.get(k, []), where the value is a list of texts
unfoldable pub text_list : String → Fields → List String
unfolding lookup items_texts
text_list k fs = elim (lookup k fs) [ some (arr xs) ↦ items_texts xs | _ ↦ [] ]

-- d.get(k), where the value is a text or is missing
unfoldable pub text_field : String → Fields → Option String
unfolding lookup
text_field k fs = elim (lookup k fs) [ some (str s) ↦ some s | _ ↦ none ]

-- d.get(k, {}), where the value is an object
unfoldable pub fields_of : String → Fields → Fields
unfolding lookup
fields_of k fs = elim (lookup k fs) [ some (obj gs) ↦ gs | _ ↦ end ]

-- bool(value); a float is false if its text is that of zero
unfoldable pub truthy : Value → Bool
truthy null = false
truthy (obj end) = false
truthy (obj (field k v fs)) = true
truthy (arr nil) = false
truthy (arr (cons v vs)) = true
truthy (str s) = not (s == "")
truthy (float s) = not (s == "0.0") && not (s == "-0.0")
truthy (int n) = ltb 0 n
truthy (neg n) = true
truthy (bool b) = b

-- d.get(k), with null for a missing key
unfoldable pub get : String → Fields → Value
unfolding lookup
get k fs = elim (lookup k fs) [ none ↦ null | some v ↦ v ]

pub items_texts-texts : (xs : List String) → items_texts (texts xs) ≡ xs
unfolding items_texts texts
items_texts-texts [] = refl
items_texts-texts (x ∷ xs) = cc (items_texts-texts xs)

pub lookup-store :
    (k j : String) (v : Value) (fs : Fields)
    → lookup j (store k v fs) ≡ (if j == k then some v else lookup j fs)
unfolding lookup store
lookup-store k j v end = refl
lookup-store k j v (field i w fs) =
    ground (arith, eq_iff k i, eq_iff j i, eq_iff j k, lookup-store k j v fs)
