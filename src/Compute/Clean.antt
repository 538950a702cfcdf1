-- ===== src/Compute/Clean.antt =====
-- What a validated instance configuration holds.
use nctl.Prelude.{
  ℕ, String, Bool, true, false, not, ◌&&◌, List, [], ◌∷◌, some, leb, ◌==◌, ◌≡◌, ◌≤◌, refl, arith,
  eq_iff, Option-cases, Bool-cases, inl, inr, sym,
}
use mathlib.Core.Path.{subst}
use nctl.Prelude.Value.{
  Value, Fields, null, obj, arr, str, float, int, neg, bool, end, lookup, store, lookup-store,
}
use nctl.Prelude.Result.{Result, ok, err, ok_inj, ◌>>=◌, >>=-eq-ok}
use nctl.Compute.Text.{between, strip, strip-strip, text_length}
use nctl.Compute.Contract.{
  ComputeContractError, ◌/◌, require_non_empty_string, validate_vmid, copy_texts, copy_template,
  copy_vmid, copy_unprivileged, require_flag, instance_keys, only_keys, require_json_object,
  validate_instance_config,
}

-- whether a value may stand under a key of a configuration
unfoldable pub fits : String → Value → Bool
unfolding strip
fits key (str s) =
    not (key == "vmid")
    && (not (key == "unprivileged")
        && ((strip s == s) && (not (s == "") && leb (text_length s) 512)))
fits key (int n) = (key == "vmid") && between 100 999999999 n
fits key (bool b) = key == "unprivileged"
fits key null = false
fits key (neg n) = false
fits key (float s) = false
fits key (arr items) = false
fits key (obj fs) = false

Clean : Fields → Type 0
Clean fs = (key : String) (v : Value) → lookup key fs ≡ some v → fits key v ≡ true

Clean-end : Clean end
unfolding Clean lookup
Clean-end key v e = absurd (ground arith)

Clean-store :
    (fs : Fields) (k : String) (v : Value) → Clean fs → fits k v ≡ true → Clean (store k v fs)
unfolding Clean
Clean-store fs k v h f key w e = elim (Bool-cases (key == k)) [
  | inl same ↦
      let q : some v ≡ some w = ground (arith, lookup-store k key v fs) in
      let r : v ≡ w = cc in let s : key ≡ k = ground (arith, eq_iff key k) in rw (s, sym r) f
  | inr other ↦ h key w (ground (arith, lookup-store k key v fs))
]

require_non_empty_string-fits :
    (max_length : ℕ) (key : String) (v : Value) (path : String) {s : String}
    → max_length ≤ 512
    → (key == "vmid") ≡ false
    → (key == "unprivileged") ≡ false
    → require_non_empty_string max_length v path ≡ ok s
    → fits key (str s) ≡ true
unfolding require_non_empty_string fits
require_non_empty_string-fits max_length key (str t) path {s} le a b e =
    let q : strip t ≡ s = ground arith in ground (arith, strip-strip t, eq_iff (strip s) s)
require_non_empty_string-fits max_length key null path le a b e = absurd (ground arith)
require_non_empty_string-fits max_length key (int n) path le a b e = absurd (ground arith)
require_non_empty_string-fits max_length key (neg n) path le a b e = absurd (ground arith)
require_non_empty_string-fits max_length key (float t) path le a b e = absurd (ground arith)
require_non_empty_string-fits max_length key (bool t) path le a b e = absurd (ground arith)
require_non_empty_string-fits max_length key (arr t) path le a b e = absurd (ground arith)
require_non_empty_string-fits max_length key (obj t) path le a b e = absurd (ground arith)

validate_vmid-fits :
    (v : Value) (path : String) {n : ℕ} → validate_vmid v path ≡ ok n → fits "vmid" (int n) ≡ true
unfolding validate_vmid fits
validate_vmid-fits (int m) path {n} e = let q : m ≡ n = ground arith in ground arith
validate_vmid-fits null path e = absurd (ground arith)
validate_vmid-fits (str n) path e = absurd (ground arith)
validate_vmid-fits (neg n) path e = absurd (ground arith)
validate_vmid-fits (float t) path e = absurd (ground arith)
validate_vmid-fits (bool t) path e = absurd (ground arith)
validate_vmid-fits (arr t) path e = absurd (ground arith)
validate_vmid-fits (obj t) path e = absurd (ground arith)

-- what a step returns is clean
CleanResult : Result ComputeContractError Fields → Type 0
CleanResult r = (out : Fields) → r ≡ ok out → Clean out

ok-CleanResult : (fs : Fields) → Clean fs → CleanResult (ok fs)
unfolding CleanResult
ok-CleanResult fs h out e = subst Clean (ok_inj ComputeContractError Fields fs out e) h

err-CleanResult : (e : ComputeContractError) → CleanResult (err e)
unfolding CleanResult
err-CleanResult x out e = absurd (ground arith)

bind-CleanResult :
    {A : Type 0} (m : Result ComputeContractError A) (f : A → Result ComputeContractError Fields)
    → ((a : A) → m ≡ ok a → CleanResult (f a))
    → CleanResult (m >>= f)
unfolding CleanResult
bind-CleanResult m f h out e = let (a, first, rest) = >>=-eq-ok m f e in h a first out rest

copy_template-CleanResult : (path : String) (fs : Fields) → CleanResult (copy_template path fs)
unfolding copy_template
copy_template-CleanResult path fs = elim (Option-cases (lookup "template" fs)) [
  | inl q ↦
      rw (q, copy_template)
        (err-CleanResult (record { code = "missing_config_value"; path = path / "template" }))
  | inr (v, q) ↦
      rw (q, copy_template)
        (bind-CleanResult (require_non_empty_string 512 v (path / "template"))
          (λ s. ok (store "template" (str s) end))
          λ s e. ok-CleanResult (store "template" (str s) end) (
            Clean-store end "template" (str s) Clean-end (
              require_non_empty_string-fits 512 "template" v (path / "template") (omega arith) refl
                refl e)))
]

copy_vmid-CleanResult :
    (path : String) (fs result : Fields) → Clean result → CleanResult (copy_vmid path fs result)
unfolding copy_vmid
copy_vmid-CleanResult path fs result h = elim (Option-cases (lookup "vmid" fs)) [
  | inl q ↦ rw (q, copy_vmid) (ok-CleanResult result h)
  | inr (v, q) ↦
      rw (q, copy_vmid)
        (bind-CleanResult (validate_vmid v (path / "vmid")) (λ n. ok (store "vmid" (int n) result))
          λ n e.
            ok-CleanResult (store "vmid" (int n) result)
              (Clean-store result "vmid" (int n) h (validate_vmid-fits v (path / "vmid") e)))
]

copy_text-CleanResult :
    (key path : String) (fs result : Fields) (rest : Fields → Result ComputeContractError Fields)
    → (key == "vmid") ≡ false
    → (key == "unprivileged") ≡ false
    → ((next : Fields) → Clean next → CleanResult (rest next))
    → Clean result
    → (v : Value)
    → CleanResult
        (require_non_empty_string 255 v (path / key) >>= λ s. rest (store key (str s) result))
copy_text-CleanResult key path fs result rest a b k h v =
    bind-CleanResult (require_non_empty_string 255 v (path / key))
      (λ s. rest (store key (str s) result))
      λ s e. k (store key (str s) result) (
        Clean-store result key (str s) h
          (require_non_empty_string-fits 255 key v (path / key) (omega arith) a b e))

-- none of the keys is of another type
abbrev TextKeys : List String → Type 0
TextKeys [] = Unit
TextKeys (k ∷ ks) = ((k == "vmid") ≡ false) × ((k == "unprivileged") ≡ false) × TextKeys ks

copy_texts-CleanResult :
    (path : String) (fs : Fields) (keys : List String) (result : Fields)
    → TextKeys keys
    → Clean result
    → CleanResult (copy_texts 255 path fs keys result)
unfolding copy_texts
copy_texts-CleanResult path fs [] result t h = ok-CleanResult result h
copy_texts-CleanResult path fs (key ∷ rest) result (a, b, t) h =
    elim (Option-cases (lookup key fs)) [
      | inl q ↦ rw (q, copy_texts) (copy_texts-CleanResult path fs rest result t h)
      | inr (v, q) ↦
          rw (q, copy_texts)
            (copy_text-CleanResult key path fs result (copy_texts 255 path fs rest) a b
              (λ next c. copy_texts-CleanResult path fs rest next t c) h v)
    ]

flag-fits : (b : Bool) → fits "unprivileged" (bool b) ≡ true
unfolding fits
flag-fits b = refl

copy_unprivileged-CleanResult :
    (instance_kind path : String) (fs result : Fields)
    → Clean result
    → CleanResult (copy_unprivileged instance_kind path fs result)
unfolding copy_unprivileged
copy_unprivileged-CleanResult instance_kind path fs result h =
    elim (Bool-cases (instance_kind == "container")) [
      | inl container ↦ elim (Option-cases (lookup "unprivileged" fs)) [
        | inl q ↦
            rw (container, q, copy_unprivileged)
              (err-CleanResult
                (record { code = "missing_config_value"; path = path / "unprivileged" }))
        | inr (v, q) ↦
            rw (container, q, copy_unprivileged)
              (bind-CleanResult (require_flag v (path / "unprivileged"))
                (λ b. ok (store "unprivileged" (bool b) result))
                λ b e.
                  ok-CleanResult (store "unprivileged" (bool b) result)
                    (Clean-store result "unprivileged" (bool b) h (flag-fits b)))
      ]
      | inr machine ↦ elim (Option-cases (lookup "unprivileged" fs)) [
        | inl q ↦ rw (machine, q, copy_unprivileged) (ok-CleanResult result h)
        | inr (v, q) ↦
            rw (machine, q, copy_unprivileged)
              (err-CleanResult
                (record { code = "invalid_config_key"; path = path / "unprivileged" }))
      ]
    ]

chain-CleanResult :
    (instance_kind path : String) (fs : Fields)
    → CleanResult (
        copy_template path fs
        >>= copy_vmid path fs
        >>= copy_texts 255 path fs ("storage" ∷ "bridge" ∷ [])
        >>= copy_unprivileged instance_kind path fs)
unfolding CleanResult
chain-CleanResult instance_kind path fs out e =
    let (c, before, last) =
      >>=-eq-ok
        (copy_template path fs
          >>= copy_vmid path fs
          >>= copy_texts 255 path fs ("storage" ∷ "bridge" ∷ []))
        (copy_unprivileged instance_kind path fs) e in
    let (b, middle, third) =
      >>=-eq-ok (copy_template path fs >>= copy_vmid path fs)
        (copy_texts 255 path fs ("storage" ∷ "bridge" ∷ [])) before in
    let (a, first, second) = >>=-eq-ok (copy_template path fs) (copy_vmid path fs) middle in
    let clean_a = copy_template-CleanResult path fs a first in
    let clean_b = copy_vmid-CleanResult path fs a clean_a b second in
    let clean_c =
      copy_texts-CleanResult path fs ("storage" ∷ "bridge" ∷ []) b (refl, refl, (refl, refl, tt))
        clean_b c third in
    copy_unprivileged-CleanResult instance_kind path fs c clean_c out last

config-CleanResult :
    (instance_kind : String) (v : Value) (path : String)
    → CleanResult (validate_instance_config instance_kind v path)
unfolding validate_instance_config
config-CleanResult instance_kind v path = bind-CleanResult (require_json_object v path) _ λ fs e.
    elim (Bool-cases (only_keys instance_keys fs)) [
      | inl known ↦ rw known (chain-CleanResult instance_kind path fs)
      | inr unknown ↦
          rw unknown (err-CleanResult (record { code = "unknown_config_key"; path = path }))
    ]

-- Whatever is validated, each value of a configuration that validate_instance_config returns fits its key:
-- a vmid is a number from 100 to 999999999, an unprivileged flag is a Boolean, and every other
-- value is a text that is not empty, has nothing left to strip, and has at most 512 characters.
pub validate_instance_config-fits :
    (instance_kind : String) (v : Value) (path : String) {out : Fields} (key : String)
    (value : Value)
    → validate_instance_config instance_kind v path ≡ ok out
    → lookup key out ≡ some value
    → fits key value ≡ true
unfolding CleanResult Clean
validate_instance_config-fits instance_kind v path {out} key value e found =
    config-CleanResult instance_kind v path out e key value found
