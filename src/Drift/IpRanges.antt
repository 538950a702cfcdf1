-- ===== src/Drift/IpRanges.antt =====
-- src/nctl_core/drift/ip_ranges.py: desired IP ranges, their overlaps, and the ranges of an address.
mod Overlaps
mod Common
mod Bounded
mod Examples
use nctl.Prelude.{
  ℕ, String, Bool, true, false, not, ◌&&◌, ◌||◌, List, [], ◌∷◌, ◌++◌, Option, none, some, map,
  select, any, nonempty, contains, ltb, leb, nat_eq, ◌==◌, if◌then◌else◌,
}
use nctl.Prelude.Order.{codes, lex, sort}
use nctl.Prelude.Sorting.{by_key}
use nctl.Compute.Text.{strip}
use nctl.Sources.{DesiredIpRange}

-- an address of Python's `ipaddress`: its version, its value as an integer, and an IPv6 address's scope
pub record Address : Type 0 where
  pub version : ℕ
  pub value : ℕ
  pub scope_id : Option String

-- the facts of a range; `errors` is there if the range is not valid
pub record RangeFacts : Type 0 where
  pub desired_ip_range_id : String
  pub name : String
  pub slug : String
  pub start_address : String
  pub end_address : String
  pub range_policy : String
  pub lifecycle : String
  pub generate_dnsmasq : Bool
  pub errors : Option (List String)

pub record NormalizedIpRange : Type 0 where
  pub facts : RangeFacts
  pub start_ip : Address
  pub end_ip : Address

pub record Normalized : Type 0 where
  pub start_address : String
  pub end_address : String
  pub errors : List String

pub record Overlap : Type 0 where
  pub first : RangeFacts
  pub second : RangeFacts
  pub overlap_start_address : String
  pub overlap_end_address : String

pub record Classified : Type 0 where
  pub valid : List NormalizedIpRange
  pub invalid : List RangeFacts

pub record EndpointRanges : Type 0 where
  pub endpoint_ip : String
  pub endpoint_ip_valid : Bool
  pub matching_ranges : List RangeFacts
  pub invalid_ranges : List RangeFacts
  pub overlapping_ranges : List Overlap
  pub overlapping_matching_ranges : List Overlap

abbrev text : Option String → String
text none = ""
text (some s) = strip s

-- a component of a sort key: an integer by itself, a text by its code points
abbrev number : ℕ → List ℕ
number n = n ∷ []

unfoldable pub range_sort_key : NormalizedIpRange → List (List ℕ)
range_sort_key r =
    number r.start_ip.version
    ∷ number r.start_ip.value
    ∷ number r.end_ip.value
    ∷ codes (strip r.facts.slug)
    ∷ codes (strip r.facts.name)
    ∷ codes (strip r.facts.desired_ip_range_id)
    ∷ []

abbrev pub range_le : NormalizedIpRange → NormalizedIpRange → Bool
range_le = by_key (lex (lex leb)) range_sort_key

abbrev invalid_range_sort_key : RangeFacts → List (List ℕ)
invalid_range_sort_key f =
    codes (strip f.start_address)
    ∷ codes (strip f.end_address)
    ∷ codes (strip f.slug)
    ∷ codes (strip f.name)
    ∷ codes (strip f.desired_ip_range_id)
    ∷ []

abbrev pub invalid_le : RangeFacts → RangeFacts → Bool
invalid_le = by_key (lex (lex leb)) invalid_range_sort_key

abbrev range_identity_key : RangeFacts → List String
range_identity_key f = strip f.desired_ip_range_id ∷ strip f.slug ∷ strip f.name ∷ []

-- the nested tuple, laid flat
abbrev overlap_sort_key : Overlap → List (List ℕ)
overlap_sort_key o =
    map codes (range_identity_key o.first ++ range_identity_key o.second)
    ++ codes o.overlap_start_address ∷ codes o.overlap_end_address ∷ []

abbrev pub overlap_le : Overlap → Overlap → Bool
overlap_le = by_key (lex (lex leb)) overlap_sort_key

-- `max(a, b)` and `min(a, b)`, of two addresses of one version: of equal values `max` takes the second, since
-- `>` also tells scopes apart, and `min` the first
unfoldable pub later_of : Address → Address → Address
later_of a b = if ltb b.value a.value then a else b

unfoldable pub earlier_of : Address → Address → Address
earlier_of a b = if ltb b.value a.value then b else a

abbrev same_key : List String → List String → Bool
same_key [] ys = not (nonempty ys)
same_key (x ∷ xs) [] = false
same_key (x ∷ xs) (y ∷ ys) = (x == y) && same_key xs ys

-- `show` is `str` of an address
module _ (show : Address → String) where
  abbrev pub overlap_of : NormalizedIpRange → NormalizedIpRange → Overlap
  overlap_of a b = record {
    first = a.facts;
    second = b.facts;
    overlap_start_address = show (later_of a.start_ip b.start_ip);
    overlap_end_address = show (earlier_of a.end_ip b.end_ip);
  }

  -- the inner loop of _overlap_records, with its break
  unfoldable pub sweep : NormalizedIpRange → List NormalizedIpRange → List Overlap
  sweep first [] = []
  sweep first (second ∷ rest) =
      let later = sweep first rest in
      if not (nat_eq first.start_ip.version second.start_ip.version)
      then later
      else if ltb first.end_ip.value second.start_ip.value
      then []
      else if leb first.start_ip.value second.end_ip.value
          && leb second.start_ip.value first.end_ip.value
      then overlap_of first second ∷ later
      else later

  unfoldable pub sweep_all : List NormalizedIpRange → List Overlap
  unfolding sweep
  sweep_all [] = []
  sweep_all (first ∷ rest) = sweep first rest ++ sweep_all rest

  unfoldable pub overlap_records : List NormalizedIpRange → List Overlap
  unfolding sweep_all sort
  overlap_records valid_ranges = sort overlap_le (sweep_all (sort range_le valid_ranges))

-- `ip_address` and `ip_interface(text).ip` are those of `ipaddress`, with `none` for a ValueError, and
-- `show` is `str` of an address
module _ (ip_address ip_interface : String → Option Address) (show : Address → String) where
  unfoldable pub strict_host_address : String → Option Address
  unfolding strip
  strict_host_address value =
      if strip value == ""
      then none
      else if any (nat_eq b'/') (codes (strip value))
      then ip_interface (strip value)
      else ip_address (strip value)

  unfoldable pub normalize_endpoint_ip_string : Option String → String
  unfolding strict_host_address
  normalize_endpoint_ip_string value = elim (strict_host_address (text value)) [
    | none ↦ ""
    | some a ↦ show a
  ]

  abbrev end_errors : String → String → String → Option Address → List String
  end_errors missing invalid value (some a) = if value == "" then missing ∷ [] else []
  end_errors missing invalid value none = if value == "" then missing ∷ [] else invalid ∷ []

  abbrev order_errors : Option Address → Option Address → List String
  order_errors none e = []
  order_errors (some s) none = []
  order_errors (some s) (some e) =
      if not (nat_eq s.version e.version)
      then "address_family_mismatch" ∷ []
      else if ltb e.value s.value
      then "range_start_after_end" ∷ []
      else []

  abbrev shown : Option Address → String → String
  shown none value = value
  shown (some a) value = show a

  unfoldable pub normalize_desired_range_addresses : DesiredIpRange → Normalized
  unfolding strict_host_address
  normalize_desired_range_addresses r =
      let start_text = strip r.start_address in
      let end_text = strip r.end_address in
      let start_ip = strict_host_address start_text in
      let end_ip = strict_host_address end_text in
      record {
        start_address = shown start_ip start_text;
        end_address = shown end_ip end_text;
        errors =
            end_errors "missing_start_address" "invalid_start_address" start_text start_ip
            ++ (end_errors "missing_end_address" "invalid_end_address" end_text end_ip
                ++ order_errors start_ip end_ip);
      }

  unfoldable pub desired_ip_range_facts : DesiredIpRange → RangeFacts
  unfolding normalize_desired_range_addresses
  desired_ip_range_facts r =
      let normalized = normalize_desired_range_addresses r in
      record {
        desired_ip_range_id = r.id;
        name = strip r.name;
        slug = strip r.slug;
        start_address = normalized.start_address;
        end_address = normalized.end_address;
        range_policy = strip r.range_policy;
        lifecycle = strip r.lifecycle;
        generate_dnsmasq = r.generate_dnsmasq;
        errors = if nonempty normalized.errors then some normalized.errors else none;
      }

  abbrev pub unnormalized : RangeFacts → RangeFacts
  unnormalized f = record f { errors = some ("invalid_range_normalization" ∷ []) }

  abbrev pub keep_valid : RangeFacts → Option Address → Option Address → Classified → Classified
  keep_valid f (some s) (some e) c = record c {
    valid = record { facts = f; start_ip = s; end_ip = e } ∷ c.valid;
  }
  keep_valid f none e c = record c { invalid = unnormalized f ∷ c.invalid }
  keep_valid f (some s) none c = record c { invalid = unnormalized f ∷ c.invalid }

  -- one round of the loop of _classified_ip_ranges, in front of what the later rounds append
  unfoldable pub classify_range : DesiredIpRange → Classified → Classified
  unfolding desired_ip_range_facts normalize_desired_range_addresses strict_host_address
  classify_range r c =
      let f = desired_ip_range_facts r in
      let normalized = normalize_desired_range_addresses r in
      if nonempty normalized.errors
      then record c { invalid = f ∷ c.invalid }
      else keep_valid f (strict_host_address normalized.start_address)
          (strict_host_address normalized.end_address) c

  unfoldable pub classify_ranges : List DesiredIpRange → Classified
  unfolding classify_range
  classify_ranges [] = record { valid = []; invalid = [] }
  classify_ranges (r ∷ rest) = classify_range r (classify_ranges rest)

  unfoldable pub classified_ip_ranges : List DesiredIpRange → Classified
  unfolding classify_ranges sort
  classified_ip_ranges candidates =
      let c = classify_ranges candidates in
      record { valid = sort range_le c.valid; invalid = sort invalid_le c.invalid }

  unfoldable pub overlapping_desired_ip_ranges : List DesiredIpRange → List Overlap
  unfolding overlap_records classified_ip_ranges
  overlapping_desired_ip_ranges candidates =
      overlap_records show (classified_ip_ranges candidates).valid

  unfoldable pub invalid_desired_ip_ranges : List DesiredIpRange → List RangeFacts
  unfolding classified_ip_ranges
  invalid_desired_ip_ranges candidates = (classified_ip_ranges candidates).invalid

  abbrev pub in_range : Address → NormalizedIpRange → Bool
  in_range a r =
      nat_eq a.version r.start_ip.version
      && (leb r.start_ip.value a.value && leb a.value r.end_ip.value)

  abbrev matches : Option Address → List NormalizedIpRange → List NormalizedIpRange
  matches none ranges = []
  matches (some a) ranges = select (in_range a) ranges

  abbrev touches : List NormalizedIpRange → Overlap → Bool
  touches matching o =
      any (λ r. r.facts.desired_ip_range_id == o.first.desired_ip_range_id) matching
      || (any (λ r. r.facts.desired_ip_range_id == o.second.desired_ip_range_id) matching
          || (any (λ r. same_key (range_identity_key r.facts) (range_identity_key o.first)) matching
              || any (λ r. same_key (range_identity_key r.facts) (range_identity_key o.second))
                  matching))

  abbrev is_some_address : Option Address → Bool
  is_some_address none = false
  is_some_address (some a) = true

  unfoldable pub classify_endpoint_ip_ranges : Option String → List DesiredIpRange → EndpointRanges
  unfolding strict_host_address classified_ip_ranges overlap_records sort
  classify_endpoint_ip_ranges value candidates =
      let endpoint = strict_host_address (text value) in
      let classified = classified_ip_ranges candidates in
      let matching = matches endpoint classified.valid in
      let overlaps = overlap_records show classified.valid in
      record {
        endpoint_ip = shown endpoint (text value);
        endpoint_ip_valid = is_some_address endpoint || (text value == "");
        matching_ranges = map (λ r. r.facts) (sort range_le matching);
        invalid_ranges = classified.invalid;
        overlapping_ranges = overlaps;
        overlapping_matching_ranges = select (touches matching) overlaps;
      }

  unfoldable pub matching_desired_ip_ranges : Option String → List DesiredIpRange → List RangeFacts
  unfolding classify_endpoint_ip_ranges
  matching_desired_ip_ranges value candidates =
      (classify_endpoint_ip_ranges value candidates).matching_ranges
