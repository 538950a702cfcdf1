-- ===== src/Drift/IpRanges/Common.antt =====
-- Which pairs of ranges overlap, by the addresses that they hold.
use nctl.Prelude.{
  String, true, ◌⊎◌, ltb, List, [], ◌∷◌, map, select, All, ◌≤◌, ◌≡◌, ◌↔◌, refl, sym, arith,
  Bool-cases, inl, inr, if◌then◌else◌,
}
use nctl.Prelude.Order.{sort}
use nctl.Prelude.Sorting.{All-sort, All-append, All-self}
use nctl.Drift.IpRanges.{
  Address, NormalizedIpRange, Overlap, later_of, earlier_of, overlap_of, overlap_le, range_le,
  overlap_records,
}
use nctl.Drift.IpRanges.Overlaps.{overlaps, all_pairs, overlap_records_lem}
use mathlib.Core.Path.{subst}
use mathlib.Core.List.{Memᴰ}

-- the address is one of the range
abbrev pub Holds : NormalizedIpRange → Address → Type 0
Holds r a =
    (a.version ≡ r.start_ip.version) × (r.start_ip.value ≤ a.value) × (a.value ≤ r.end_ip.value)

-- both ends are of one version, in order
abbrev pub IsProper : NormalizedIpRange → Type 0
IsProper r = (r.start_ip.version ≡ r.end_ip.version) × (r.start_ip.value ≤ r.end_ip.value)

-- Two proper ranges overlap exactly if they share an address, and then share the addresses from the later
-- start to the earlier end.
pub overlaps_iff :
    (a b : NormalizedIpRange)
    → IsProper a
    → IsProper b
    → ((overlaps a b ≡ true) ↔ ((x : Address) × Holds a x × Holds b x))
      × (overlaps a b ≡ true
          → (x : Address)
          → (Holds a x × Holds b x) ↔ (
              (x.version ≡ a.start_ip.version)
              × ((later_of a.start_ip b.start_ip).value ≤ x.value)
              × (x.value ≤ (earlier_of a.end_ip b.end_ip).value)))
unfolding later_of earlier_of
overlaps_iff a b p q = (
  (λ h. (later_of a.start_ip b.start_ip, ground arith, ground arith), λ m. ground arith),
  λ h x. (λ m. ground arith, λ m. ground arith),
)

-- the addresses that lie in both ranges are those from `low` to `high`, which lie in both
abbrev pub SharesExactly : NormalizedIpRange → NormalizedIpRange → Address → Address → Type 0
SharesExactly a b low high =
    Holds a low
    × Holds b low
    × Holds a high
    × Holds b high
    × ((x : Address)
        → (Holds a x × Holds b x)
          ↔ ((x.version ≡ a.start_ip.version) × (low.value ≤ x.value) × (x.value ≤ high.value)))

-- `a` stands before `b`
abbrev pub Before : NormalizedIpRange → NormalizedIpRange → List NormalizedIpRange → Type 0
Before a b [] = ⊥
Before a b (x ∷ rest) = ((a ≡ x) × Memᴰ b rest) ⊎ Before a b rest

later_of-start : (a b : Address) → (later_of a b ≡ a) ⊎ (later_of a b ≡ b)
unfolding later_of
later_of-start a b = elim (Bool-cases (ltb b.value a.value)) [
  | inl q ↦ inl (rw q refl)
  | inr q ↦ inr (rw q refl)
]

earlier_of-end : (a b : Address) → (earlier_of a b ≡ a) ⊎ (earlier_of a b ≡ b)
unfolding earlier_of
earlier_of-end a b = elim (Bool-cases (ltb b.value a.value)) [
  | inl q ↦ inr (rw q refl)
  | inr q ↦ inl (rw q refl)
]

overlaps-SharesExactly :
    (a b : NormalizedIpRange)
    → IsProper a
    → IsProper b
    → overlaps a b ≡ true
    → SharesExactly a b (later_of a.start_ip b.start_ip) (earlier_of a.end_ip b.end_ip)
unfolding later_of earlier_of
overlaps-SharesExactly a b p q h =
    (ground arith, ground arith, ground arith, ground arith, (overlaps_iff a b p q).1 h)

module _ (show : Address → String) where
  -- a record of two of the ranges, one before the other, with the texts of the first and of the last
  -- address that they share, each of which is an end of one of them
  abbrev pub IsCommon : List NormalizedIpRange → Overlap → Type 0
  IsCommon ranges o =
      (a b : NormalizedIpRange) × (low high : Address) × Before a b ranges
      × (o.first ≡ a.facts)
      × (o.second ≡ b.facts)
      × (o.overlap_start_address ≡ show low)
      × (o.overlap_end_address ≡ show high)
      × ((low ≡ a.start_ip) ⊎ (low ≡ b.start_ip))
      × ((high ≡ a.end_ip) ⊎ (high ≡ b.end_ip))
      × SharesExactly a b low high

  overlap_of-IsCommon :
      (a b : NormalizedIpRange) (ranges : List NormalizedIpRange)
      → Before a b ranges
      → IsProper a
      → IsProper b
      → overlaps a b ≡ true
      → IsCommon ranges (overlap_of show a b)
  overlap_of-IsCommon a b ranges m p q meet = (
    a,
    b,
    later_of a.start_ip b.start_ip,
    earlier_of a.end_ip b.end_ip,
    m,
    refl,
    refl,
    refl,
    refl,
    later_of-start a.start_ip b.start_ip,
    earlier_of-end a.end_ip b.end_ip,
    overlaps-SharesExactly a b p q meet,
  )

  select-IsCommon :
      (a : NormalizedIpRange) (rest ranges : List NormalizedIpRange)
      → IsProper a
      → All (λ b. Before a b ranges × IsProper b) rest
      → All (IsCommon ranges) (map (overlap_of show a) (select (overlaps a) rest))
  select-IsCommon a [] ranges p h = tt
  select-IsCommon a (b ∷ rest) ranges p ((m, q), h) = elim (Bool-cases (overlaps a b)) [
    | inl meet ↦
        rw (meet, if◌then◌else◌, All)
          (overlap_of-IsCommon a b ranges m p q meet, select-IsCommon a rest ranges p h)
    | inr apart ↦ rw (apart, if◌then◌else◌) (select-IsCommon a rest ranges p h)
  ]

  later-IsCommon :
      (x : NormalizedIpRange) (ranges : List NormalizedIpRange) (o : Overlap)
      → IsCommon ranges o
      → IsCommon (x ∷ ranges) o
  later-IsCommon x ranges o (a, b, low, high, m, f, g, start, end_, p, q, shares) =
      (a, b, low, high, inr m, f, g, start, end_, p, q, shares)

  All-later :
      (x : NormalizedIpRange) (ranges : List NormalizedIpRange) (os : List Overlap)
      → All (IsCommon ranges) os
      → All (IsCommon (x ∷ ranges)) os
  All-later x ranges [] h = tt
  All-later x ranges (o ∷ os) (c, h) = (later-IsCommon x ranges o c, All-later x ranges os h)

  behind :
      (a : NormalizedIpRange) (rest : List NormalizedIpRange)
      → All (λ b. Memᴰ b rest × IsProper b) rest
      → All (λ b. Before a b (a ∷ rest) × IsProper b) rest
  behind a rest h = go rest h
    where
      go :
          (bs : List NormalizedIpRange)
          → All (λ b. Memᴰ b rest × IsProper b) bs
          → All (λ b. Before a b (a ∷ rest) × IsProper b) bs
      go [] h = tt
      go (b ∷ bs) ((m, q), h) = ((inl (refl, m), q), go bs h)

  all_pairs-IsCommon :
      (ranges : List NormalizedIpRange)
      → All IsProper ranges
      → All (IsCommon ranges) (all_pairs show ranges)
  all_pairs-IsCommon [] h = tt
  all_pairs-IsCommon (a ∷ rest) (p, h) =
      All-append (IsCommon (a ∷ rest)) (map (overlap_of show a) (select (overlaps a) rest))
        (all_pairs show rest)
        (select-IsCommon a rest (a ∷ rest) p (behind a rest (All-self IsProper rest h)))
        (All-later a rest (all_pairs show rest) (all_pairs-IsCommon rest h))

  -- If the ranges have ends of one version, in order, then each overlap record is of two of the ranges, one
  -- of which stands before the other when they are sorted; it has their facts, and the texts of a start and
  -- of an end of theirs that lie in both and between which lie exactly the addresses that lie in both.
  pub overlap_records-IsCommon :
      (ranges : List NormalizedIpRange)
      → All IsProper ranges
      → All (IsCommon (sort range_le ranges)) (overlap_records show ranges)
  overlap_records-IsCommon ranges proper =
      let sorted_ranges = sort range_le ranges in
      subst (All (IsCommon sorted_ranges)) (sym (overlap_records_lem show ranges)) (
        All-sort overlap_le (IsCommon sorted_ranges) (all_pairs show sorted_ranges)
          (all_pairs-IsCommon sorted_ranges (All-sort range_le IsProper ranges proper)))
