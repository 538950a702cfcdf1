-- ===== src/Drift/IpRanges/Examples.antt =====
-- Three ranges, of which two overlap and one is written backwards.
use nctl.Prelude.{
  ℕ, String, false, List, [], ◌∷◌, Option, none, some, All, ◌≡◌, ◌⊎◌, inl, inr, refl, arith, nat_eq,
  ◌==◌, Bool-cases, if◌then◌else◌,
}
use nctl.Prelude.Order.{sort, lex}
use nctl.Compute.Text.{strip}
use nctl.Sources.{DesiredIpRange}
use nctl.Drift.IpRanges.{
  Address, NormalizedIpRange, Overlap, RangeFacts, overlap_le, range_le, strict_host_address,
  classified_ip_ranges, overlap_records, classify_endpoint_ip_ranges, range_sort_key, later_of,
  earlier_of,
}
use nctl.Drift.IpRanges.Overlaps.{all_pairs, overlap_records_lem}
use nctl.Drift.IpRanges.Common.{IsCommon, overlap_records-IsCommon}
use nctl.Drift.IpRanges.Bounded.{IsSplit, classified_ip_ranges-IsSplit}

abbrev at : ℕ → Address
at n = record { version = 4; value = n; scope_id = none }

-- a reader of three addresses
abbrev read : String → Option Address
read t =
    if t == "10.0.0.1"
    then some (at 1)
    else if t == "10.0.0.5"
    then some (at 5)
    else if t == "10.0.0.9"
    then some (at 9)
    else none

abbrev show : Address → String
show a =
    if nat_eq a.value 1 then "10.0.0.1" else if nat_eq a.value 5 then "10.0.0.5" else "10.0.0.9"

abbrev host : String → Option Address
host = strict_host_address read read show

read_cases : (t : String) (a : Address) → read t ≡ some a → (at 1 ≡ a) ⊎ ((at 5 ≡ a) ⊎ (at 9 ≡ a))
read_cases t a h = elim (Bool-cases (t == "10.0.0.1")) [
  | inl one ↦ inl (ground arith)
  | inr n ↦ elim (Bool-cases (t == "10.0.0.5")) [
    | inl five ↦ inr (inl (ground arith))
    | inr m ↦ inr (inr (ground arith))
  ]
]

host-read : (t : String) (a : Address) → host t ≡ some a → read (strip t) ≡ some a
unfolding strict_host_address
host-read t a h = ground arith

reads : (t : String) (a : Address) → host t ≡ some a → host (show a) ≡ some a
unfolding strict_host_address strip
reads t a h = elim (read_cases (strip t) a (host-read t a h)) [
  | inl q ↦ rw (← q) refl
  | inr (inl q) ↦ rw (← q) refl
  | inr (inr q) ↦ rw (← q) refl
]

abbrev range : String → String → String → DesiredIpRange
range slug start end = record {
  id = slug;
  name = slug;
  slug = slug;
  start_address = start;
  end_address = end;
  range_policy = "static";
  lifecycle = "active";
  generate_dnsmasq = false;
}

abbrev ranges : List DesiredIpRange
ranges =
    range "lab" "10.0.0.5" "10.0.0.9"
    ∷ range "odd" "10.0.0.9" "10.0.0.1"
    ∷ range "lan" " 10.0.0.1" "10.0.0.5"
    ∷ []

classified_ip_ranges-IsSplit_example :
    IsSplit ("lab" ∷ "odd" ∷ "lan" ∷ []) (classified_ip_ranges read read show ranges)
classified_ip_ranges-IsSplit_example = classified_ip_ranges-IsSplit read read show reads ranges

abbrev facts : String → RangeFacts
facts slug = record {
  desired_ip_range_id = slug;
  name = slug;
  slug = slug;
  start_address = "";
  end_address = "";
  range_policy = "static";
  lifecycle = "active";
  generate_dnsmasq = false;
  errors = none;
}

abbrev valid : List NormalizedIpRange
valid =
    record { facts = facts "lab"; start_ip = at 5; end_ip = at 9 }
    ∷ record { facts = facts "lan"; start_ip = at 1; end_ip = at 5 }
    ∷ []

overlap_records_lem_example :
    overlap_records show valid ≡ sort overlap_le (all_pairs show (sort range_le valid))
overlap_records_lem_example = overlap_records_lem show valid

overlap_records-IsCommon_example :
    All (IsCommon show (sort range_le valid)) (overlap_records show valid)
overlap_records-IsCommon_example = overlap_records-IsCommon show valid (omega arith)

ends : List Overlap → List (String × String)
ends [] = []
ends (o ∷ os) = (o.overlap_start_address, o.overlap_end_address) ∷ ends os

-- the two ranges share one address
ends-overlap_records : ends (overlap_records show valid) ≡ ("10.0.0.5", "10.0.0.5") ∷ []
unfolding ends overlap_records lex range_sort_key later_of earlier_of
ends-overlap_records = refl

slugs : List RangeFacts → List String
slugs [] = []
slugs (f ∷ fs) = f.slug ∷ slugs fs

slugs-classify_endpoint_ip_ranges :
    slugs (classify_endpoint_ip_ranges read read show (some "10.0.0.5") ranges).matching_ranges
    ≡ "lan" ∷ "lab" ∷ []
unfolding slugs classify_endpoint_ip_ranges lex range_sort_key
slugs-classify_endpoint_ip_ranges = refl
