-- ===== src/Drift/IpRanges/Bounded.antt =====
-- What the classification of the desired ranges keeps of them.
use nctl.Prelude.{
  String, true, false, List, [], ◌∷◌, ◌++◌, Option, none, some, map, nonempty, All, ◌≤◌, ◌≡◌, refl,
  arith, Bool-cases, inl, inr,
}
use nctl.Prelude.Order.{sort}
use nctl.Prelude.Sorting.{All-sort, sort-Permᴰ}
use nctl.Compute.Text.{strip}
use nctl.Sources.{DesiredIpRange}
use nctl.Drift.IpRanges.{
  Address, NormalizedIpRange, RangeFacts, Classified, range_le, invalid_le, strict_host_address,
  classify_range, classify_ranges, classified_ip_ranges, end_errors, order_errors,
}
use nctl.Drift.IpRanges.Common.{IsProper}
use mathlib.Core.List.{Permᴰ}
use mathlib.Core.List.Permᴰ

abbrev range_ids : List DesiredIpRange → List String
range_ids [] = []
range_ids (r ∷ rest) = r.id ∷ range_ids rest

abbrev valid_ids : List NormalizedIpRange → List String
valid_ids = map (λ r. r.facts.desired_ip_range_id)

abbrev invalid_ids : List RangeFacts → List String
invalid_ids = map (λ f. f.desired_ip_range_id)

-- the facts say that the range is not valid
abbrev pub HasErrors : RangeFacts → Type 0
HasErrors f = (es : List String) × (f.errors ≡ some es) × (nonempty es ≡ true)

abbrev pub IsSplit : List String → Classified → Type 0
IsSplit ids c =
    Permᴰ ids (valid_ids c.valid ++ invalid_ids c.invalid)
    × All IsProper c.valid
    × All HasErrors c.invalid

module _ (ip_address ip_interface : String → Option Address) (show : Address → String)
    -- what `str` makes of an address reads as the address
    (reads : (t : String) (a : Address)
      → strict_host_address ip_address ip_interface show t ≡ some a
      → strict_host_address ip_address ip_interface show (show a) ≡ some a) where
  abbrev host : String → Option Address
  host = strict_host_address ip_address ip_interface show

  abbrev errors_of : String → String → Option Address → Option Address → List String
  errors_of t u s e =
      end_errors ip_address ip_interface show "missing_start_address" "invalid_start_address" t s
      ++ (end_errors ip_address ip_interface show "missing_end_address" "invalid_end_address" u e
          ++ order_errors ip_address ip_interface show s e)

  abbrev Ordered : Option Address → Option Address → Type 0
  Ordered s e =
      (a b : Address) × (s ≡ some a) × (e ≡ some b) × (a.version ≡ b.version) × (a.value ≤ b.value)

  -- Without an error both ends are addresses, of one version and in order.
  errors_of-Ordered :
      (t u : String) (s e : Option Address) → nonempty (errors_of t u s e) ≡ false → Ordered s e
  errors_of-Ordered t u none e h = absurd (ground arith)
  errors_of-Ordered t u (some a) none h = absurd (ground arith)
  errors_of-Ordered t u (some a) (some b) h = (a, b, refl, refl, ground arith, ground arith)

  classify_range-IsSplit :
      (ids : List String) (r : DesiredIpRange) (c : Classified)
      → IsSplit ids c
      → IsSplit (r.id ∷ ids) (classify_range ip_address ip_interface show r c)
  unfolding classify_range
  classify_range-IsSplit ids r c (p, v, i) =
      elim (Bool-cases (
        nonempty (
          errors_of (strip r.start_address) (strip r.end_address) (host (strip r.start_address))
            (host (strip r.end_address))))) [
              | inl bad ↦ rw bad (
                Permᴰ.trans (Permᴰ.cons refl p)
                    (Permᴰ.symm (Permᴰ.middle r.id (valid_ids c.valid) (invalid_ids c.invalid))),
                v,
                (
                  (
                    errors_of (strip r.start_address) (strip r.end_address)
                        (host (strip r.start_address)) (host (strip r.end_address)),
                    refl,
                    bad,
                  ),
                  i,
                ),
              )
              | inr good ↦
                  let (a, b, q, w, version, value) =
                    errors_of-Ordered (strip r.start_address) (strip r.end_address)
                      (host (strip r.start_address)) (host (strip r.end_address)) good in
                  rw
                    (good, q, w, reads (strip r.start_address) a q, reads (strip r.end_address) b w)
                    (Permᴰ.cons refl p, ((version, value), v), i)
            ]

  classify_ranges-IsSplit :
      (candidates : List DesiredIpRange)
      → IsSplit (range_ids candidates) (classify_ranges ip_address ip_interface show candidates)
  unfolding classify_ranges
  classify_ranges-IsSplit [] = (Permᴰ.nil, tt, tt)
  classify_ranges-IsSplit (r ∷ rest) =
      classify_range-IsSplit (range_ids rest) r (classify_ranges ip_address ip_interface show rest)
        (classify_ranges-IsSplit rest)

  -- If an address reads back from its text, the classification keeps each candidate once, as a valid or as
  -- an invalid range; the valid ones have ends of one version, in order, and the invalid ones say what is
  -- wrong with them.
  pub classified_ip_ranges-IsSplit :
      (candidates : List DesiredIpRange)
      → IsSplit
          (range_ids candidates)
          (classified_ip_ranges ip_address ip_interface show candidates)
  unfolding classified_ip_ranges
  classified_ip_ranges-IsSplit candidates =
      let c = classify_ranges ip_address ip_interface show candidates in
      let (p, v, i) = classify_ranges-IsSplit candidates in
      (
        Permᴰ.trans p (
            Permᴰ.trans
              (Permᴰ.append_right (invalid_ids c.invalid) (
                Permᴰ.map (λ (r : NormalizedIpRange). r.facts.desired_ip_range_id)
                  (Permᴰ.symm (sort-Permᴰ range_le c.valid))))
              (Permᴰ.append_left (valid_ids (sort range_le c.valid)) (
                Permᴰ.map (λ (f : RangeFacts). f.desired_ip_range_id)
                  (Permᴰ.symm (sort-Permᴰ invalid_le c.invalid))))),
        All-sort range_le IsProper c.valid v,
        All-sort invalid_le HasErrors c.invalid i,
      )
