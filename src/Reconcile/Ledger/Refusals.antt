-- ===== src/Reconcile/Ledger/Refusals.antt =====
-- What the write actions raise before a write, and what the client raises for a batch.
use nctl.Prelude.{
  Bool, inl, inr, String, true, false, Option, none, some, List, ◌≡◌, Bool-cases, ◌==◌, nat_eq, ℕ,
  if◌then◌else◌,
}
use nctl.Prelude.Value.{Value, Fields, get, truthy, obj, arr, str, float, int, neg, bool, null}
use nctl.Prelude.Result.{Result, ok, err}
use nctl.Reconcile.Ledger.{
  Raised, ledger, write_failed, client_failed, crashed, Response, Client, committed, transacted,
  answered, accept, submit_batch, action_of, action_in, operation_action, nth,
}

-- what is raised before any write
abbrev pub Early : Raised → Type 0
Early (ledger code m) = m ≡ false
Early (write_failed n) = ⊥
Early client_failed = ⊥
Early crashed = Unit

-- what the query of a row raises
abbrev pub Missing : Raised → Type 0
Missing e = (code : String) × (e ≡ ledger code false)

-- what an artifact without the operation's result raises
abbrev pub Omission : Raised → Type 0
Omission (ledger code m) = ⊥
Omission (write_failed n) = Unit
Omission client_failed = ⊥
Omission crashed = Unit

-- what the client raises for a batch
abbrev pub Refusal : Raised → Type 0
Refusal (ledger code m) = ⊥
Refusal (write_failed n) = Unit
Refusal client_failed = Unit
Refusal crashed = ⊥

abbrev pub Raises : {A : Type 0} → (Raised → Type 0) → Result Raised A → Type 0
Raises P (ok a) = Unit
Raises P (err e) = P e

committed-Refusal : (artifact : Fields) (v : Value) → Raises Refusal (committed artifact v)
unfolding committed
committed-Refusal artifact null = tt
committed-Refusal artifact (obj fs) = tt
committed-Refusal artifact (arr vs) = tt
committed-Refusal artifact (str s) = elim (Bool-cases (s == "committed")) [
  | inl q ↦ rw (q, Raises) tt
  | inr q ↦ rw (q, Raises) tt
]
committed-Refusal artifact (float s) = tt
committed-Refusal artifact (int n) = tt
committed-Refusal artifact (neg n) = tt
committed-Refusal artifact (bool b) = tt

transacted-Refusal : (artifact : Fields) (v : Value) → Raises Refusal (transacted artifact v)
unfolding transacted
transacted-Refusal artifact null = tt
transacted-Refusal artifact (obj fs) = committed-Refusal artifact (get "status" fs)
transacted-Refusal artifact (arr vs) = tt
transacted-Refusal artifact (str s) = tt
transacted-Refusal artifact (float s) = tt
transacted-Refusal artifact (int n) = tt
transacted-Refusal artifact (neg n) = tt
transacted-Refusal artifact (bool b) = tt

answered-Refusal : (body : Option Value) → Raises Refusal (answered body)
unfolding answered
answered-Refusal none = tt
answered-Refusal (some null) = tt
answered-Refusal (some (obj fs)) = transacted-Refusal fs (get "transaction" fs)
answered-Refusal (some (arr vs)) = tt
answered-Refusal (some (str s)) = tt
answered-Refusal (some (float s)) = tt
answered-Refusal (some (int n)) = tt
answered-Refusal (some (neg n)) = tt
answered-Refusal (some (bool b)) = tt

accept-Refusal : (r : Response) → Raises Refusal (accept r)
unfolding accept
accept-Refusal r = elim (Bool-cases (nat_eq r.status_code 200)) [
  | inl q ↦ rw q (answered-Refusal r.body)
  | inr q ↦ rw (q, Raises) tt
]

pub submit_batch-Refusal :
    (client : Client) (operations : List Fields) (s : client.Server)
    → Raises Refusal (submit_batch client operations s).0
unfolding submit_batch
submit_batch-Refusal client operations s = on_answer (client.rest_post operations s).0
  where
    on_answer :
        (o : Option Response)
        → Raises Refusal (elim o [ none ↦ err client_failed | some r ↦ accept r ])
    on_answer none = tt
    on_answer (some r) = accept-Refusal r

module _ (render : Value → String) where
  action_of-Omission : (o : Option Value) → Raises Omission (action_of render o)
  unfolding action_of
  action_of-Omission none = tt
  action_of-Omission (some null) = tt
  action_of-Omission (some (obj fs)) = tt
  action_of-Omission (some (arr vs)) = tt
  action_of-Omission (some (str s)) = tt
  action_of-Omission (some (float s)) = tt
  action_of-Omission (some (int n)) = tt
  action_of-Omission (some (neg n)) = tt
  action_of-Omission (some (bool b)) = tt

  either :
      (b : Bool) → Raises {A = String} Omission (if b then err crashed else err (write_failed 200))
  either true = tt
  either false = tt

  action_in-Omission : (n : ℕ) (v : Value) → Raises Omission (action_in render n v)
  unfolding action_in
  action_in-Omission n null = either (truthy null)
  action_in-Omission n (obj fs) = either (truthy (obj fs))
  action_in-Omission n (arr vs) = action_of-Omission (nth n vs)
  action_in-Omission n (str s) = tt
  action_in-Omission n (float s) = either (truthy (float s))
  action_in-Omission n (int i) = either (truthy (int i))
  action_in-Omission n (neg i) = either (truthy (neg i))
  action_in-Omission n (bool b) = either (truthy (bool b))

  pub operation_action-Omission :
      (artifact : Fields) (n : ℕ) → Raises Omission (operation_action render artifact n)
  unfolding operation_action
  operation_action-Omission artifact n = action_in-Omission n (get "operations" artifact)
