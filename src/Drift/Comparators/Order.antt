-- ===== src/Drift/Comparators/Order.antt =====
-- The order of registration does not show in what run_comparators returns.
use nctl.Prelude.{
  String, true, false, ◌||◌, List, [], ◌∷◌, ◌++◌, contains, ◌≡◌, refl, sym, ◌∙◌, arith, ◌==◌,
  eq_iff, Bool-cases, inl, inr, append_assoc,
}
use nctl.Prelude.Dict
use nctl.Prelude.Dict.{Dict}
use nctl.Prelude.Sets.{Distinct}
use nctl.Prelude.Order.{str_le, sorted}
use nctl.Prelude.Sorting.{
  IsPreorder, Ascending, by_key-IsPreorder, lex-IsPreorder, leb-IsPreorder, sort-Permᴰ,
  sort-Ascending, sort-eq_of_Permᴰ, All-Permᴰ, All-members,
}
use nctl.Drift.Model.{DiffRecord}
use nctl.Drift.Comparators.{
  record_key, record_le, Comparator, comparators_of, register, registered_resource_types, run_each,
  run_types, run_comparators,
}
use mathlib.Core.Path.{subst}
use mathlib.Core.List.{Memᴰ, Permᴰ}
use mathlib.Core.List.Permᴰ

record_le-IsPreorder : IsPreorder record_le
record_le-IsPreorder = by_key-IsPreorder record_key (lex-IsPreorder (lex-IsPreorder leb-IsPreorder))

module _ (S : Type 0) (s : S) where
  run_each-append :
      (cs ds : List (Comparator S)) → run_each S (cs ++ ds) s ≡ run_each S cs s ++ run_each S ds s
  unfolding run_each
  run_each-append [] ds = refl
  run_each-append (c ∷ cs) ds =
      rw (run_each-append cs ds) (sym (append_assoc (c s) (run_each S cs s) (run_each S ds s)))

  -- what all the comparators of a registry report
  abbrev all_records : Dict (List (Comparator S)) → List DiffRecord
  all_records [] = []
  all_records ((t, cs) ∷ registry) = run_each S cs s ++ all_records registry

  -- the registry after a sequence of registrations
  abbrev pub registry_of :
      List (String × Comparator S) → Dict (List (Comparator S)) → Dict (List (Comparator S))
  registry_of [] registry = registry
  registry_of ((t, c) ∷ rest) registry = registry_of rest (register S t c registry)

  -- what the registered comparators report, in the order of their registration
  abbrev pub registered : List (String × Comparator S) → List DiffRecord
  registered [] = []
  registered ((t, c) ∷ rest) = c s ++ registered rest

  all_records-register :
      (t : String) (c : Comparator S) (registry : Dict (List (Comparator S)))
      → Permᴰ (all_records (register S t c registry)) (all_records registry ++ c s)
  unfolding register run_each
  all_records-register t c [] = Permᴰ.trans (Permᴰ.append-nil (c s ++ [])) (Permᴰ.append-nil (c s))
  all_records-register t c ((j, cs) ∷ registry) =
      let before = run_each S cs s in
      let after = all_records registry in
      elim (Bool-cases (t == j)) [
        | inl here ↦
            rw (here, comparators_of, run_each-append cs (c ∷ []))
              (Permᴰ.trans
                (Permᴰ.append_right after (Permᴰ.append_left before (Permᴰ.append-nil (c s))))
                (rw (append_assoc before (c s) after, append_assoc before after (c s))
                  (Permᴰ.append_left before (Permᴰ.append_comm (c s) after))))
        | inr later ↦
            rw (later, append_assoc before after (c s))
              (Permᴰ.append_left before (all_records-register t c registry))
      ]

  all_records-registry_of :
      (l : List (String × Comparator S)) (registry : Dict (List (Comparator S)))
      → Permᴰ (all_records (registry_of l registry)) (all_records registry ++ registered l)
  all_records-registry_of [] registry = Permᴰ.symm (Permᴰ.append-nil (all_records registry))
  all_records-registry_of ((t, c) ∷ rest) registry =
      Permᴰ.trans (all_records-registry_of rest (register S t c registry)) (
        rw (← append_assoc (all_records registry) (c s) (registered rest))
          (Permᴰ.append_right (registered rest) (all_records-register t c registry)))

  run_types-other :
      (j : String) (cs : List (Comparator S)) (registry : Dict (List (Comparator S)))
      (ts : List String)
      → contains j ts ≡ false
      → run_types S ((j, cs) ∷ registry) ts s ≡ run_types S registry ts s
  unfolding run_types
  run_types-other j cs registry [] h = refl
  run_types-other j cs registry (t ∷ ts) h =
      let differs : (t == j) ≡ false = ground (arith, eq_iff j t, eq_iff t j) in
      rw (differs, run_types-other j cs registry ts (ground arith)) refl

  run_types-keys :
      (registry : Dict (List (Comparator S)))
      → Distinct (Dict.keys registry)
      → run_types S registry (Dict.keys registry) s ≡ all_records registry
  unfolding run_types Dict.keys
  run_types-keys [] h = refl
  run_types-keys ((j, cs) ∷ registry) h =
      let same : (j == j) ≡ true = (eq_iff j j).1 refl in
      rw (same, comparators_of, run_types-other j cs registry (Dict.keys registry) h.0)
        (rw (run_types-keys registry h.1) refl)

  Permᴰ-run_types :
      (registry : Dict (List (Comparator S))) {ts us : List String}
      → Permᴰ ts us
      → Permᴰ (run_types S registry ts s) (run_types S registry us s)
  unfolding run_types
  Permᴰ-run_types registry Permᴰ.nil = Permᴰ.nil
  Permᴰ-run_types registry (Permᴰ.cons {a} {l₁} {l₂} q p) =
      subst
        (λ (t : String). Permᴰ (run_types S registry (a ∷ l₁) s) (run_types S registry (t ∷ l₂) s))
        q
        (Permᴰ.append_left (run_each S (comparators_of S (Dict.get registry a)) s)
          (Permᴰ-run_types registry p))
  Permᴰ-run_types registry (Permᴰ.swap {a} {b} {b'} {l} q r) =
      let first = run_each S (comparators_of S (Dict.get registry a)) s in
      let second = run_each S (comparators_of S (Dict.get registry b)) s in
      let rest = run_types S registry l s in
      subst
        (λ (t : String).
          Permᴰ (run_types S registry (a ∷ b ∷ l) s) (run_types S registry (t ∷ b' ∷ l) s))
        r
        (subst
          (λ (t : String).
            Permᴰ (run_types S registry (a ∷ b ∷ l) s) (run_types S registry (b ∷ t ∷ l) s))
          q
          (rw (← append_assoc first second rest, ← append_assoc second first rest)
            (Permᴰ.append_right rest (Permᴰ.append_comm first second))))
  Permᴰ-run_types registry (Permᴰ.trans p q) =
      Permᴰ.trans (Permᴰ-run_types registry p) (Permᴰ-run_types registry q)

  contains-register :
      (j t : String) (c : Comparator S) (registry : Dict (List (Comparator S)))
      → contains j (Dict.keys (register S t c registry))
        ≡ ((j == t) || contains j (Dict.keys registry))
  unfolding register Dict.keys
  contains-register j t c [] = refl
  contains-register j t c ((k, cs) ∷ registry) =
      ground (arith, eq_iff t k, eq_iff j k, eq_iff j t, contains-register j t c registry)

  register-Distinct :
      (t : String) (c : Comparator S) (registry : Dict (List (Comparator S)))
      → Distinct (Dict.keys registry)
      → Distinct (Dict.keys (register S t c registry))
  unfolding register Dict.keys
  register-Distinct t c [] h = (refl, tt)
  register-Distinct t c ((k, cs) ∷ registry) h = elim (Bool-cases (t == k)) [
    | inl here ↦ rw (here, Dict.keys, Distinct) h
    | inr later ↦
        rw (later, Dict.keys, Distinct)
          (
            contains-register k t c registry ∙ ground (arith, eq_iff t k, eq_iff k t),
            register-Distinct t c registry h.1,
          )
  ]

  registry_of-Distinct :
      (l : List (String × Comparator S)) (registry : Dict (List (Comparator S)))
      → Distinct (Dict.keys registry)
      → Distinct (Dict.keys (registry_of l registry))
  registry_of-Distinct [] registry h = h
  registry_of-Distinct ((t, c) ∷ rest) registry h =
      registry_of-Distinct rest (register S t c registry) (register-Distinct t c registry h)

  run_types-Permᴰ :
      (l : List (String × Comparator S))
      → Permᴰ
          (run_types S (registry_of l []) (registered_resource_types S (registry_of l [])) s)
          (registered l)
  unfolding registered_resource_types sorted
  run_types-Permᴰ l =
      let registry = registry_of l [] in
      Permᴰ.trans (Permᴰ-run_types registry (sort-Permᴰ str_le (Dict.keys registry))) (
        subst (λ rs. Permᴰ rs (registered l))
          (sym (run_types-keys registry (registry_of-Distinct l [] tt)))
          (all_records-registry_of l []))

  -- no two different records of the list have one sort key
  abbrev pub AreTold : List DiffRecord → Type 0
  AreTold rs =
      (a b : DiffRecord)
      → Memᴰ a rs
      → Memᴰ b rs
      → record_le a b ≡ true
      → record_le b a ≡ true
      → a ≡ b

  -- Two sequences of registrations whose comparators report the same records up to order, no two of them
  -- different with one sort key, give the same list, which has all the records, in the order of their keys.
  pub run_comparators_lem :
      (before after : List (String × Comparator S))
      → AreTold (registered before)
      → Permᴰ (registered before) (registered after)
      → (run_comparators S (registry_of before []) s ≡ run_comparators S (registry_of after []) s)
        × Permᴰ (run_comparators S (registry_of before []) s) (registered before)
        × Ascending record_le (run_comparators S (registry_of before []) s)
  unfolding run_comparators
  run_comparators_lem before after told p =
      let found =
        run_types S (registry_of before []) (registered_resource_types S (registry_of before []))
          s in
      (
        sort-eq_of_Permᴰ record_le record_le-IsPreorder {P = λ r. Memᴰ r (registered before)}
            (λ a b m n. told a b m n)
            (Permᴰ.trans (run_types-Permᴰ before)
              (Permᴰ.trans p (Permᴰ.symm (run_types-Permᴰ after))))
            (All-Permᴰ (λ r. Memᴰ r (registered before)) (Permᴰ.symm (run_types-Permᴰ before))
              (All-members (registered before))),
        Permᴰ.trans (sort-Permᴰ record_le found) (run_types-Permᴰ before),
        sort-Ascending record_le record_le-IsPreorder found,
      )
