-- ===== src/Prelude/Sets.antt =====
-- Lists of texts read as sets: distinct members, inclusion, and counting.
use nctl.Prelude.{
  suc, String, true, false, ◌||◌, List, [], ◌∷◌, ◌++◌, reverse, ◌≡◌, ◌≤◌, refl, ◌∙◌, length,
  contains, contains-append, arith, ◌==◌, eq_iff, eq_refl, if◌then◌else◌,
}
use mathlib.Core.List.{reverse-append, reverse-cons}

-- no text occurs twice
abbrev pub Distinct : List String → Type 0
Distinct [] = Unit
Distinct (x ∷ xs) = (contains x xs ≡ false) × Distinct xs

abbrev pub Within : List String → List String → Type 0
Within xs ys = (a : String) → contains a xs ≡ true → contains a ys ≡ true

pub contains-reverse : (a : String) (xs : List String) → contains a (reverse xs) ≡ contains a xs
contains-reverse a [] = refl
contains-reverse a (x ∷ xs) =
    rw (reverse-append (x ∷ []) xs)
      (ground (arith, contains-append a (reverse xs) (x ∷ []), contains-reverse a xs))

-- xs without the first a
drop_one : String → List String → List String
drop_one a [] = []
drop_one a (x ∷ xs) = let rest = drop_one a xs in if a == x then xs else x ∷ rest

length-drop_one :
    (a : String) (xs : List String)
    → contains a xs ≡ true
    → length xs ≡ suc (length (drop_one a xs))
unfolding drop_one
length-drop_one a [] h = cc
length-drop_one a (x ∷ xs) h = ground (arith, length-drop_one a xs)

contains-drop_one :
    (a b : String) (xs : List String)
    → (b == a) ≡ false
    → contains b (drop_one a xs) ≡ contains b xs
unfolding drop_one
contains-drop_one a b [] n = refl
contains-drop_one a b (x ∷ xs) n =
    ground (arith, contains-drop_one a b xs, eq_iff a x, eq_iff b x, eq_iff b a)

ne_of_contains :
    (a b : String) (xs : List String)
    → contains a xs ≡ false
    → contains b xs ≡ true
    → (b == a) ≡ false
ne_of_contains a b xs h k = ground (arith, eq_iff b a)

-- Distinct members of ys are no more than the members of ys.
pub length-le_of_Within : (xs ys : List String) → Distinct xs → Within xs ys → length xs ≤ length ys
length-le_of_Within [] ys d w = omega arith
length-le_of_Within (x ∷ xs) ys d w =
    let here : contains x ys ≡ true = w x (ground (arith, eq_refl x)) in
    let rest : Within xs (drop_one x ys) =
      λ a m. contains-drop_one x a ys (ne_of_contains x a xs d.0 m) ∙ w a (ground (arith, m)) in
    omega (arith, length-drop_one x ys here, length-le_of_Within xs (drop_one x ys) d.1 rest)

Distinct-concat :
    (xs : List String) (x : String) → Distinct xs → contains x xs ≡ false → Distinct (xs ++ x ∷ [])
Distinct-concat [] x d n = (refl, tt)
Distinct-concat (y ∷ ys) x d n = (
  contains-append y ys (x ∷ []) ∙ ground (arith, eq_iff x y, eq_iff y x),
  Distinct-concat ys x d.1 (ground arith),
)

pub Distinct-reverse : (xs : List String) → Distinct xs → Distinct (reverse xs)
Distinct-reverse [] d = tt
Distinct-reverse (x ∷ xs) d =
    rw reverse-cons
      (Distinct-concat (reverse xs) x (Distinct-reverse xs d.1) (contains-reverse x xs ∙ d.0))

-- A Python set of texts, as a list without repeats: `s.add(a)`, `s.update(xs)`, `set(xs)`.
unfoldable pub add : String → List String → List String
add a s = if contains a s then s else s ++ a ∷ []

unfoldable pub update : List String → List String → List String
unfolding add
update [] s = s
update (x ∷ xs) s = update xs (add x s)

unfoldable pub set_of : List String → List String
unfolding update
set_of xs = update xs []

pub contains-add :
    (b a : String) (s : List String) → contains b (add a s) ≡ ((b == a) || contains b s)
unfolding add
contains-add b a s = ground (arith, contains-append b s (a ∷ []), eq_iff b a)

pub contains-update :
    (b : String) (xs s : List String) → contains b (update xs s) ≡ (contains b xs || contains b s)
unfolding update
contains-update b [] s = refl
contains-update b (x ∷ xs) s = ground (arith, contains-update b xs (add x s), contains-add b x s)

pub contains-set_of : (b : String) (xs : List String) → contains b (set_of xs) ≡ contains b xs
unfolding set_of
contains-set_of b xs = ground (arith, contains-update b xs [])
