-- ===== src/Prelude/Order.antt =====
-- Python's order on texts, by code points, and `sorted`.
use Prim.Native.Char.{code}
use Prim.Native.Nat.{ℕ}
use Prim.Native.String.{String}
use mathlib.Core.Path.{◌≡◌, refl}
use mathlib.Core.Bool.{Bool, true, false, not, ◌||◌, ◌&&◌}
use mathlib.Core.List.{List, [], ◌∷◌}
use native.Mathlib.Omega.{arith}
use text.Mathlib.Text.{◌==◌}
use text.Mathlib.TextEquality.{Char-path}
use nctl.Prelude.Tests.{leb, if◌then◌else◌}
use nctl.Prelude.Lists.{contains}

abbrev pub codes : String → List ℕ
codes String.[] = []
codes (String.◌∷◌ c s) = code c ∷ codes s

pub codes_inj : (s t : String) → codes s ≡ codes t → s ≡ t
codes_inj String.[] String.[] h = refl
codes_inj String.[] (String.◌∷◌ d t) h = cc
codes_inj (String.◌∷◌ c s) String.[] h = cc
codes_inj (String.◌∷◌ c s) (String.◌∷◌ d t) h =
    let first : c ≡ d = Char-path c d (cc) in
    let rest : s ≡ t = codes_inj s t (cc) in λ i. String.◌∷◌ (first i) (rest i)

-- the lexicographic order of two sequences, by an order of their members
unfoldable pub lex {ℓ} : {A : Type ℓ} → (A → A → Bool) → List A → List A → Bool
lex le [] ys = true
lex le (x ∷ xs) [] = false
lex le (x ∷ xs) (y ∷ ys) = not (le y x) || (le x y && lex le xs ys)

unfoldable pub str_le : String → String → Bool
unfolding lex
str_le s t = lex leb (codes s) (codes t)

module _ {ℓ} {A : Type ℓ} (le : A → A → Bool) where
  unfoldable pub insert_sorted : A → List A → List A
  insert_sorted a [] = a ∷ []
  insert_sorted a (x ∷ xs) =
      let rest = insert_sorted a xs in if le a x then a ∷ x ∷ xs else x ∷ rest

  -- a stable sort
  unfoldable pub sort : List A → List A
  unfolding insert_sorted
  sort [] = []
  sort (x ∷ xs) = insert_sorted x (sort xs)

unfoldable pub sorted : List String → List String
unfolding sort str_le
sorted xs = sort str_le xs

contains-insert_sorted :
    (a x : String) (xs : List String)
    → contains a (insert_sorted str_le x xs) ≡ ((a == x) || contains a xs)
unfolding insert_sorted
contains-insert_sorted a x [] = refl
contains-insert_sorted a x (y ∷ ys) = ground (arith, contains-insert_sorted a x ys)

contains-sort : (a : String) (xs : List String) → contains a (sort str_le xs) ≡ contains a xs
unfolding sort
contains-sort a [] = refl
contains-sort a (x ∷ xs) =
    ground (arith, contains-insert_sorted a x (sort str_le xs), contains-sort a xs)

pub contains-sorted : (a : String) (xs : List String) → contains a (sorted xs) ≡ contains a xs
unfolding sorted
contains-sorted a xs = contains-sort a xs
