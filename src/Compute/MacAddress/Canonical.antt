-- ===== src/Compute/MacAddress/Canonical.antt =====
-- A normalised MAC address is its own normal form.
use nctl.Prelude.{
  ℕ, zero, suc, String, true, false, ◌&&◌, List, [], ◌∷◌, Option, some, map, nat_eq, ◌≡◌, ◌⊎◌, refl,
  ap, ◌∙◌, arith, Bool-cases, Option-cases, inl, inr, ◌==◌, eq_iff,
}
use nctl.Prelude.Value.{Value, str}
use nctl.Prelude.Result.{Result, ok}
use nctl.Compute.Text.{is_space, lstrip, rstrip, strip}
use nctl.Compute.Contract.{ComputeContractError}
use nctl.Compute.MacAddress.{Octet, is_hex, octets, lower, lower_octet, join, normalize_mac_address}
use mathlib.Core.Path.{subst}
use Prim.Native.Char.{Char, code}
use Prim.Native.String as Text

-- a lower-case digit, which lower leaves alone
abbrev IsLower : Char → Type 0
IsLower c = (is_hex c ≡ true) × (lower c ≡ c)

lower-IsLower : (c : Char) → is_hex c ≡ true → IsLower (lower c)
unfolding lower is_hex
lower-IsLower c h = elim (Bool-cases (nat_eq (code c) 65)) [
  | inl a ↦ rw a (refl, refl)
  | inr not_a ↦ elim (Bool-cases (nat_eq (code c) 66)) [
    | inl b ↦ rw (not_a, b) (refl, refl)
    | inr not_b ↦ elim (Bool-cases (nat_eq (code c) 67)) [
      | inl d ↦ rw (not_a, not_b, d) (refl, refl)
      | inr not_c ↦ elim (Bool-cases (nat_eq (code c) 68)) [
        | inl e ↦ rw (not_a, not_b, not_c, e) (refl, refl)
        | inr not_d ↦ elim (Bool-cases (nat_eq (code c) 69)) [
          | inl f ↦ rw (not_a, not_b, not_c, not_d, f) (refl, refl)
          | inr not_e ↦ elim (Bool-cases (nat_eq (code c) 70)) [
            | inl g ↦ rw (not_a, not_b, not_c, not_d, not_e, g) (refl, refl)
            | inr not_f ↦
                rw (not_a, not_b, not_c, not_d, not_e, not_f)
                  (h, rw (not_a, not_b, not_c, not_d, not_e, not_f) refl)
          ]
        ]
      ]
    ]
  ]
]

abbrev AreLower : List Octet → Type 0
AreLower [] = Unit
AreLower ((a, b) ∷ os) = IsLower a × IsLower b × AreLower os

-- the octets that octets finds: n + 1 of them, of digits
abbrev AreOctets : ℕ → List Octet → Type 0
AreOctets zero ((a, b) ∷ []) = (is_hex a ≡ true) × (is_hex b ≡ true)
AreOctets (suc n) ((a, b) ∷ os) = (is_hex a ≡ true) × (is_hex b ≡ true) × AreOctets n os
AreOctets n os = ⊥

octets-AreOctets :
    (sep n : ℕ) (s : String) (os : List Octet) → octets sep n s ≡ some os → AreOctets n os
unfolding octets
octets-AreOctets sep zero (Text.◌∷◌ a (Text.◌∷◌ b Text.[])) os h =
    elim (Bool-cases (is_hex a && is_hex b)) [
      | inl good ↦
          let h' = rw good at h in
          let q : ◌≡◌ {A = List Octet} ((a, b) ∷ []) os = cc h' in
          subst (AreOctets 0) q (ground arith, ground arith)
      | inr bad ↦ absurd (ground arith)
    ]
octets-AreOctets sep (suc n) (Text.◌∷◌ a (Text.◌∷◌ b (Text.◌∷◌ c s))) os h =
    elim (Bool-cases (is_hex a && (is_hex b && nat_eq (code c) sep))) [
      | inl good ↦ elim (Option-cases (octets sep n s)) [
        | inl short ↦ let h' = rw (good, short) at h in absurd (cc h')
        | inr (rest, q) ↦
            let h' = rw (good, q) at h in
            let p : ◌≡◌ {A = List Octet} ((a, b) ∷ rest) os = cc h' in
            subst (AreOctets (suc n)) p
              (ground arith, ground arith, octets-AreOctets sep n s rest q)
      ]
      | inr bad ↦ absurd (ground arith)
    ]
octets-AreOctets sep n s os h = absurd (cc h)

not-AreOctets-nil : (n : ℕ) → AreOctets n [] → ⊥
not-AreOctets-nil zero h = h
not-AreOctets-nil (suc n) h = h

octets-join :
    (n : ℕ) (os : List Octet)
    → AreOctets n os
    → octets b':' n (join (map lower_octet os)) ≡ some (map lower_octet os)
unfolding octets join
octets-join zero [] h = absurd h
octets-join zero ((a, b) ∷ []) h = rw ((lower-IsLower a h.0).0, (lower-IsLower b h.1).0) refl
octets-join zero ((a, b) ∷ (o ∷ os)) h = absurd h
octets-join (suc n) [] h = absurd h
octets-join (suc n) ((a, b) ∷ []) h = absurd (not-AreOctets-nil n h.2)
octets-join (suc n) ((a, b) ∷ (o ∷ os)) h =
    rw ((lower-IsLower a h.0).0, (lower-IsLower b h.1).0, octets-join n (o ∷ os) h.2) refl

lower_octet-lower_octet :
    (n : ℕ) (os : List Octet)
    → AreOctets n os
    → map lower_octet (map lower_octet os) ≡ map lower_octet os
lower_octet-lower_octet zero [] h = absurd h
lower_octet-lower_octet zero ((a, b) ∷ []) h =
    rw ((lower-IsLower a h.0).1, (lower-IsLower b h.1).1) refl
lower_octet-lower_octet zero ((a, b) ∷ (o ∷ os)) h = absurd h
lower_octet-lower_octet (suc n) [] h = absurd h
lower_octet-lower_octet (suc n) ((a, b) ∷ os) h =
    rw ((lower-IsLower a h.0).1, (lower-IsLower b h.1).1, lower_octet-lower_octet n os h.2) refl

-- no character is white space
abbrev IsSolid : String → Type 0
IsSolid Text.[] = Unit
IsSolid (Text.◌∷◌ c s) = (is_space (code c) ≡ false) × IsSolid s

lstrip-IsSolid : (s : String) → IsSolid s → lstrip s ≡ s
unfolding lstrip
lstrip-IsSolid Text.[] h = refl
lstrip-IsSolid (Text.◌∷◌ c s) h = rw h.0 refl

rstrip-IsSolid : (s : String) → IsSolid s → rstrip s ≡ s
unfolding rstrip
rstrip-IsSolid Text.[] h = refl
rstrip-IsSolid (Text.◌∷◌ c s) h = rw (rstrip-IsSolid s h.1, h.0) (ground arith)

strip-IsSolid : (s : String) → IsSolid s → strip s ≡ s
unfolding strip
strip-IsSolid s h = rw (lstrip-IsSolid s h) (rstrip-IsSolid s h)

is_hex-solid : (c : Char) → is_hex c ≡ true → is_space (code c) ≡ false
unfolding is_hex is_space
is_hex-solid c h = ground arith

join-IsSolid : (n : ℕ) (os : List Octet) → AreOctets n os → IsSolid (join (map lower_octet os))
unfolding join is_space
join-IsSolid zero [] h = absurd h
join-IsSolid zero ((a, b) ∷ []) h = (
  is_hex-solid (lower a) (lower-IsLower a h.0).0,
  (is_hex-solid (lower b) (lower-IsLower b h.1).0, tt),
)
join-IsSolid zero ((a, b) ∷ (o ∷ os)) h = absurd h
join-IsSolid (suc n) [] h = absurd h
join-IsSolid (suc n) ((a, b) ∷ []) h = absurd (not-AreOctets-nil n h.2)
join-IsSolid (suc n) ((a, b) ∷ (o ∷ os)) h = (
  is_hex-solid (lower a) (lower-IsLower a h.0).0,
  (is_hex-solid (lower b) (lower-IsLower b h.1).0, (refl, join-IsSolid n (o ∷ os) h.2)),
)

-- the text reads back as its octets, which are in lower case, and is its own normal form
abbrev pub IsNormal : List Octet → String → Type 0
IsNormal os t =
    (octets b':' 5 t ≡ some (map lower_octet os)) × (normalize_mac_address (str t) ≡ ok (some t))

join-ne-empty : (os : List Octet) (t : String) → octets b':' 5 t ≡ some os → (t == "") ≡ false
unfolding octets
join-ne-empty os t h = elim (Bool-cases (t == "")) [
  | inl empty ↦
      let e : t ≡ "" = (eq_iff t "").0 empty in
      absurd (cc (subst (λ u. octets b':' 5 u ≡ some os) e h))
  | inr full ↦ full
]

join-IsNormal : (os : List Octet) → AreOctets 5 os → IsNormal os (join (map lower_octet os))
unfolding normalize_mac_address
join-IsNormal os h =
    let lowered : List Octet = map lower_octet os in
    let t : String = join lowered in
    let reads : octets b':' 5 t ≡ some lowered = octets-join 5 os h in
    let same : strip t ≡ t = strip-IsSolid t (join-IsSolid 5 os h) in
    (
      reads,
      normalized t lowered same (join-ne-empty lowered t reads) reads
          ∙ ap (λ l. ok (some (join l))) (lower_octet-lower_octet 5 os h),
    )
  where
    normalized :
        (t : String) (os : List Octet)
        → strip t ≡ t
        → (t == "") ≡ false
        → octets b':' 5 t ≡ some os
        → normalize_mac_address (str t) ≡ ok (some (join (map lower_octet os)))
    normalized t os same full reads = rw (same, full, reads) refl

-- the text was read, with one of the separators, as the octets
abbrev pub Spells : Value → List Octet → Type 0
Spells value os =
    (text : String) × (value ≡ str text)
    × ((octets b':' 5 (strip text) ≡ some os) ⊎ (octets b'-' 5 (strip text) ≡ some os))

-- A normalised MAC address has the octets of the value, in lower case: it reads back as them, and
-- normalising it once more changes nothing.
pub normalize_mac_address-IsNormal :
    (value : Value) (t : String)
    → normalize_mac_address value ≡ ok (some t)
    → (os : List Octet) × Spells value os × IsNormal os t
unfolding normalize_mac_address
normalize_mac_address-IsNormal (str text) t h = elim (Bool-cases (strip text == "")) [
  | inl empty ↦ let h' = rw empty at h in absurd (cc h')
  | inr full ↦ elim (Option-cases (octets b':' 5 (strip text))) [
    | inr (os, q) ↦
        let h' = rw (full, q) at h in
        (os, (text, refl, inl q), settled os t (octets-AreOctets b':' 5 (strip text) os q) h')
    | inl mixed ↦ elim (Option-cases (octets b'-' 5 (strip text))) [
      | inr (os, q) ↦
          let h' = rw (full, mixed, q) at h in
          (os, (text, refl, inr q), settled os t (octets-AreOctets b'-' 5 (strip text) os q) h')
      | inl wrong ↦ let h' = rw (full, mixed, wrong) at h in absurd (cc h')
    ]
  ]
]
  where
    settled :
        (os : List Octet) (t : String)
        → AreOctets 5 os
        → ◌≡◌ {A = Result ComputeContractError (Option String)}
            (ok (some (join (map lower_octet os))))
            (ok (some t))
        → IsNormal os t
    settled os t a e =
        let p : join (map lower_octet os) ≡ t = cc e in subst (IsNormal os) p (join-IsNormal os a)
normalize_mac_address-IsNormal value t h = absurd (cc h)
