-- ===== src/Drift/IpRanges/Overlaps.antt =====
-- The sweep of _overlap_records, which stops at the first range that starts too late, against the
-- comparison of all pairs.
use nctl.Prelude.{
  String, Bool, true, false, ◌&&◌, List, [], ◌∷◌, ◌++◌, map, select, All, ltb, leb, nat_eq, ◌≤◌,
  ◌≡◌, refl, ap, arith, Bool-cases, inl, inr, if◌then◌else◌,
}
use nctl.Prelude.Order.{lex, sort}
use nctl.Prelude.Sorting.{
  IsPreorder, Ascending, sort-Ascending, by_key-IsPreorder, lex-IsPreorder, leb-IsPreorder,
}
use nctl.Drift.IpRanges.{
  Address, NormalizedIpRange, Overlap, range_sort_key, range_le, overlap_le, overlap_of, sweep,
  sweep_all, overlap_records,
}

pub range_le-IsPreorder : IsPreorder range_le
range_le-IsPreorder =
    by_key-IsPreorder range_sort_key (lex-IsPreorder (lex-IsPreorder leb-IsPreorder))

-- both ranges are of one version, and neither starts after the other's end
abbrev pub overlaps : NormalizedIpRange → NormalizedIpRange → Bool
overlaps a b =
    nat_eq a.start_ip.version b.start_ip.version
    && (leb a.start_ip.value b.end_ip.value && leb b.start_ip.value a.end_ip.value)

range_le-start :
    (a b : NormalizedIpRange)
    → range_le a b ≡ true
    → a.start_ip.version ≡ b.start_ip.version
    → a.start_ip.value ≤ b.start_ip.value
unfolding range_sort_key lex
range_le-start a b h v = ground arith

module _ (first second : NormalizedIpRange)
    (same : nat_eq first.start_ip.version second.start_ip.version ≡ true)
    (after : ltb first.end_ip.value second.start_ip.value ≡ true) where
  apart : (third : NormalizedIpRange) → range_le second third ≡ true → overlaps first third ≡ false
  apart third h = ground (arith, range_le-start second third)

  select-apart :
      (rest : List NormalizedIpRange)
      → All (λ third. range_le second third ≡ true) rest
      → select (overlaps first) rest ≡ []
  select-apart [] h = refl
  select-apart (third ∷ rest) h = rw (apart third h.0, if◌then◌else◌) (select-apart rest h.1)

module _ (show : Address → String) where
  sweep_lem :
      (first : NormalizedIpRange) (rest : List NormalizedIpRange)
      → Ascending range_le rest
      → sweep show first rest ≡ map (overlap_of show first) (select (overlaps first) rest)
  unfolding sweep
  sweep_lem first [] h = refl
  sweep_lem first (second ∷ rest) h =
      elim (Bool-cases (nat_eq first.start_ip.version second.start_ip.version)) [
        | inr other ↦ rw other (sweep_lem first rest h.1)
        | inl same ↦ elim (Bool-cases (ltb first.end_ip.value second.start_ip.value)) [
          | inl after ↦
              rw (same, after, select-apart first second same after rest h.0) (ground arith)
          | inr near ↦ rw (same, near, sweep_lem first rest h.1) (ground arith)
        ]
      ]

  -- every range against every later one
  abbrev pub all_pairs : List NormalizedIpRange → List Overlap
  all_pairs [] = []
  all_pairs (first ∷ rest) =
      map (overlap_of show first) (select (overlaps first) rest) ++ all_pairs rest

  sweep_all_lem :
      (ranges : List NormalizedIpRange)
      → Ascending range_le ranges
      → sweep_all show ranges ≡ all_pairs ranges
  unfolding sweep_all
  sweep_all_lem [] h = refl
  sweep_all_lem (first ∷ rest) h = rw (sweep_lem first rest h.1, sweep_all_lem rest h.1) refl

  -- The overlap records are those of all the pairs of ranges that overlap, in the order of their keys: the sweep's early
  -- break loses none.
  pub overlap_records_lem :
      (ranges : List NormalizedIpRange)
      → overlap_records show ranges ≡ sort overlap_le (all_pairs (sort range_le ranges))
  unfolding overlap_records
  overlap_records_lem ranges =
      ap (sort overlap_le)
        (sweep_all_lem (sort range_le ranges) (sort-Ascending range_le range_le-IsPreorder ranges))
