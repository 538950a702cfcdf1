-- ===== src/Prelude/Sorting.antt =====
-- What Python's `sorted` promises: an ascending permutation, which depends on the order of its input
-- only between members that the order does not tell apart.
use nctl.Prelude.{
  ℕ, Bool, true, false, List, [], ◌∷◌, ◌++◌, All, leb, ◌≡◌, refl, ◌∙◌, arith, Bool-cases, inl, inr,
}
use nctl.Prelude.Order.{lex, insert_sorted, sort}
use mathlib.Core.Path.{subst}
use mathlib.Core.List.{Memᴰ, Permᴰ}
use mathlib.Core.List.Permᴰ

-- a total preorder
pub record IsPreorder {ℓ} {A : Type ℓ} (le : A → A → Bool) : Type ℓ where
  pub total : (a b : A) → le a b ≡ false → le b a ≡ true
  pub transitive : (a b c : A) → le a b ≡ true → le b c ≡ true → le a c ≡ true

abbrev pub IsAntisymmetric {ℓ} : {A : Type ℓ} → (A → A → Bool) → Type ℓ
IsAntisymmetric {A} le = (a b : A) → le a b ≡ true → le b a ≡ true → a ≡ b

leb-total : (a b : ℕ) → leb a b ≡ false → leb b a ≡ true
leb-total a b h = ground arith

leb_trans : (a b c : ℕ) → leb a b ≡ true → leb b c ≡ true → leb a c ≡ true
leb_trans a b c h k = ground arith

pub leb-IsPreorder : IsPreorder leb
leb-IsPreorder = record { total = leb-total; transitive = leb_trans }

pub leb-IsAntisymmetric : IsAntisymmetric leb
leb-IsAntisymmetric a b h k = ground arith

module _ {ℓ} {A : Type ℓ} {le : A → A → Bool} (order : IsPreorder le) where
  lex-total : (xs ys : List A) → lex le xs ys ≡ false → lex le ys xs ≡ true
  unfolding lex
  lex-total [] ys h = cc
  lex-total (x ∷ xs) [] h = refl
  lex-total (x ∷ xs) (y ∷ ys) h = ground (arith, lex-total xs ys, order.total x y, order.total y x)

  lex_trans : (xs ys zs : List A) → lex le xs ys ≡ true → lex le ys zs ≡ true → lex le xs zs ≡ true
  unfolding lex
  lex_trans [] ys zs h k = refl
  lex_trans (x ∷ xs) [] zs h k = cc
  lex_trans (x ∷ xs) (y ∷ ys) [] h k = cc
  lex_trans (x ∷ xs) (y ∷ ys) (z ∷ zs) h k = ground (
    arith,
    lex_trans xs ys zs,
    order.transitive x y z,
    order.transitive z x y,
    order.transitive y z x,
    order.total x y,
    order.total y z,
    order.total x z,
    order.total z x,
  )

  pub lex-IsPreorder : IsPreorder (lex le)
  lex-IsPreorder = record { total = lex-total; transitive = lex_trans }

  pub lex-IsAntisymmetric : IsAntisymmetric le → IsAntisymmetric (lex le)
  unfolding lex
  lex-IsAntisymmetric anti [] [] h k = refl
  lex-IsAntisymmetric anti [] (y ∷ ys) h k = cc
  lex-IsAntisymmetric anti (x ∷ xs) [] h k = cc
  lex-IsAntisymmetric anti (x ∷ xs) (y ∷ ys) h k =
      let same : x ≡ y =
        anti x y (ground (arith, order.total y x)) (ground (arith, order.total x y)) in
      let rest : xs ≡ ys =
        lex-IsAntisymmetric anti xs ys (ground (arith, order.total y x))
          (ground (arith, order.total x y)) in
      cc

-- The order of the keys of two values.
abbrev pub by_key {ℓ κ} : {A : Type ℓ} {K : Type κ} → (K → K → Bool) → (A → K) → A → A → Bool
by_key le key a b = le (key a) (key b)

module _ {ℓ κ} {A : Type ℓ} {K : Type κ} {le : K → K → Bool} (key : A → K) where
  pub by_key-IsPreorder : IsPreorder le → IsPreorder (by_key le key)
  by_key-IsPreorder order = record {
    total = λ a b. order.total (key a) (key b);
    transitive = λ a b c. order.transitive (key a) (key b) (key c);
  }

-- every member is at most each later one
abbrev pub Ascending {ℓ} : {A : Type ℓ} → (A → A → Bool) → List A → Type ℓ
Ascending le [] = Unit
Ascending le (x ∷ xs) = All (λ y. le x y ≡ true) xs × Ascending le xs

module _ {ℓ} {A : Type ℓ} where
  pub All-map_lem {κ μ} :
      {P : A → Type κ} {Q : A → Type μ} (f : (a : A) → P a → Q a) (xs : List A)
      → All P xs
      → All Q xs
  All-map_lem f [] h = tt
  All-map_lem f (x ∷ xs) h = (f x h.0, All-map_lem f xs h.1)

  pub All-append {κ} : (P : A → Type κ) (xs ys : List A) → All P xs → All P ys → All P (xs ++ ys)
  All-append P [] ys h k = k
  All-append P (x ∷ xs) ys h k = (h.0, All-append P xs ys h.1 k)

  -- the members of a list, with what holds of each
  pub All-self {κ} : (P : A → Type κ) (xs : List A) → All P xs → All (λ x. Memᴰ x xs × P x) xs
  All-self P [] h = tt
  All-self P (x ∷ xs) h =
      ((Memᴰ.head refl, h.0), All-map_lem (λ y q. (Memᴰ.tail q.0, q.1)) xs (All-self P xs h.1))

  pub All-members : (xs : List A) → All (λ x. Memᴰ x xs) xs
  All-members [] = tt
  All-members (x ∷ xs) = (Memᴰ.head refl, All-map_lem (λ y m. Memᴰ.tail m) xs (All-members xs))

  pub All-Permᴰ {κ} : (P : A → Type κ) {xs ys : List A} → Permᴰ xs ys → All P xs → All P ys
  All-Permᴰ P Permᴰ.nil h = tt
  All-Permᴰ P (Permᴰ.cons q p) h = (subst P q h.0, All-Permᴰ P p h.1)
  All-Permᴰ P (Permᴰ.swap q r) h = (subst P r h.1.0, (subst P q h.0, h.1.1))
  All-Permᴰ P (Permᴰ.trans p q) h = All-Permᴰ P q (All-Permᴰ P p h)

module _ {ℓ} {A : Type ℓ} (le : A → A → Bool) where
  pub All-insert_sorted {κ} :
      (P : A → Type κ) (a : A) (xs : List A) → P a → All P xs → All P (insert_sorted le a xs)
  unfolding insert_sorted
  All-insert_sorted P a [] p h = (p, tt)
  All-insert_sorted P a (x ∷ xs) p h = elim (Bool-cases (le a x)) [
    | inl first ↦ rw (first, All) (p, h)
    | inr after ↦ rw (after, All) (h.0, All-insert_sorted P a xs p h.1)
  ]

  pub All-sort {κ} : (P : A → Type κ) (xs : List A) → All P xs → All P (sort le xs)
  unfolding sort
  All-sort P [] h = tt
  All-sort P (x ∷ xs) h = All-insert_sorted P x (sort le xs) h.0 (All-sort P xs h.1)

  insert_sorted-Permᴰ : (a : A) (xs : List A) → Permᴰ (insert_sorted le a xs) (a ∷ xs)
  unfolding insert_sorted
  insert_sorted-Permᴰ a [] = Permᴰ.refl (a ∷ [])
  insert_sorted-Permᴰ a (x ∷ xs) = elim (Bool-cases (le a x)) [
    | inl first ↦ rw first (Permᴰ.refl (a ∷ x ∷ xs))
    | inr after ↦
        rw after (Permᴰ.trans (Permᴰ.cons refl (insert_sorted-Permᴰ a xs)) (Permᴰ.swap refl refl))
  ]

  pub sort-Permᴰ : (xs : List A) → Permᴰ (sort le xs) xs
  unfolding sort
  sort-Permᴰ [] = Permᴰ.nil
  sort-Permᴰ (x ∷ xs) =
      Permᴰ.trans (insert_sorted-Permᴰ x (sort le xs)) (Permᴰ.cons refl (sort-Permᴰ xs))

  module _ (order : IsPreorder le) where
    insert_sorted-Ascending :
        (a : A) (xs : List A) → Ascending le xs → Ascending le (insert_sorted le a xs)
    unfolding insert_sorted
    insert_sorted-Ascending a [] h = (tt, tt)
    insert_sorted-Ascending a (x ∷ xs) h = elim (Bool-cases (le a x)) [
      | inl first ↦
          rw (first, Ascending)
            ((first, All-map_lem (λ y q. order.transitive a x y first q) xs h.0), h)
      | inr after ↦
          rw (after, Ascending)
            (
              All-insert_sorted (λ y. le x y ≡ true) a xs (order.total a x after) h.0,
              insert_sorted-Ascending a xs h.1,
            )
    ]

    pub sort-Ascending : (xs : List A) → Ascending le (sort le xs)
    unfolding sort
    sort-Ascending [] = tt
    sort-Ascending (x ∷ xs) = insert_sorted-Ascending x (sort le xs) (sort-Ascending xs)

    insert_sorted_comm :
        (a b : A)
        → (le a b ≡ true → le b a ≡ true → a ≡ b)
        → (xs : List A)
        → insert_sorted le a (insert_sorted le b xs) ≡ insert_sorted le b (insert_sorted le a xs)
    unfolding insert_sorted
    insert_sorted_comm a b anti [] = ground (arith, anti, order.total a b, order.total b a)
    insert_sorted_comm a b anti (x ∷ xs) = ground (
      arith,
      anti,
      order.total a b,
      order.total b a,
      order.transitive a b x,
      order.transitive b a x,
      insert_sorted_comm a b anti xs,
    )

    -- A sort does not see the order of its input where the order tells its members apart.
    pub sort-eq_of_Permᴰ {κ} :
        {P : A → Type κ}
        → ((a b : A) → P a → P b → le a b ≡ true → le b a ≡ true → a ≡ b)
        → {xs ys : List A} → Permᴰ xs ys
        → All P xs
        → sort le xs ≡ sort le ys
    unfolding sort
    sort-eq_of_Permᴰ anti Permᴰ.nil h = refl
    sort-eq_of_Permᴰ anti (Permᴰ.cons {a} {b} {l₂} q p) h = rw (q, sort-eq_of_Permᴰ anti p h.1) refl
    sort-eq_of_Permᴰ anti (Permᴰ.swap {a} {b} {l} q r) h =
        rw (← q, ← r) (insert_sorted_comm a b (anti a b h.0 h.1.0) (sort le l))
    sort-eq_of_Permᴰ {P} anti (Permᴰ.trans p q) h =
        sort-eq_of_Permᴰ anti p h ∙ sort-eq_of_Permᴰ anti q (All-Permᴰ P p h)
