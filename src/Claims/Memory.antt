-- ===== src/Claims/Memory.antt =====
-- claim_store.py: `InMemoryClaimStore`.
use vice_ceo_proof_carrying.Claims.Scope.{
  ClaimResult, ClaimStore, Request, Scope, already, claim_key, scope_eq, won,
}
use vice_ceo_proof_carrying.Dict.{Dict, insert, lookup, lookup-insert_ne, lookup-insert_self}
use vice_ceo_proof_carrying.Outcome.{Action, Error, Result, ok, proceed, raise}
use vice_ceo_proof_carrying.Prelude.{Option, String, nat_eq, none, some, string_eq, ◌≡◌, ◌≢◌}

abbrev pub Records : Type 0
Records = Dict Scope String

-- `claim_once`, with the entry that stands under the key.
file_claim : Records → Scope → String → Option String → Result ClaimResult × Records
file_claim s k r none = (ok (won r), insert s k r)
file_claim s k r (some old) = (ok (already old), s)

unfoldable pub claim_once : Request → Action Records ClaimResult
unfolding file_claim
claim_once r s =
    proceed (claim_key r.tenant r.claim_kind r.idempotency_key)
      (λ k s'. file_claim s' k r.record_id (lookup s' k)) s

module _ (r : Request) (s : Records) (k : Scope)
    (valid : claim_key r.tenant r.claim_kind r.idempotency_key ≡ ok k) where
  pub memory_taken : (old : String) → lookup s k ≡ some old → claim_once r s ≡ (ok (already old), s)
  unfolding claim_once
  memory_taken old h = rw (valid, h)

  pub memory_fresh : lookup s k ≡ none → (claim_once r s).0 ≡ ok (won r.record_id)
  unfolding claim_once
  memory_fresh h = rw (valid, h)

  pub memory_records : lookup s k ≡ none → lookup (claim_once r s).1 k ≡ some r.record_id
  unfolding claim_once
  memory_records h = rw (valid, h) (lookup-insert_self s k r.record_id)

  pub memory_keeps :
      (j : Scope) → lookup s k ≡ none → j ≢ k → lookup (claim_once r s).1 j ≡ lookup s j
  unfolding claim_once
  memory_keeps j h other = rw (valid, h) (lookup-insert_ne s k j r.record_id other)

pub memory_invalid :
    (r : Request) (s : Records) (e : Error)
    → claim_key r.tenant r.claim_kind r.idempotency_key ≡ raise e
    → claim_once r s ≡ (raise e, s)
unfolding claim_once
memory_invalid r s e h = rw h

abbrev pub memory_store : ClaimStore
memory_store = record {
  State = Records;
  Key = Scope;
  key_of = λ k. k;
  recorded = lookup;
  claim_once = claim_once;
  claim_invalid = memory_invalid;
  claim_taken = λ r s k old v. memory_taken r s k v old;
  claim_fresh = λ r s k v. memory_fresh r s k v;
  claim_records = λ r s k v. memory_records r s k v;
  claim_keeps = λ r s k j v. memory_keeps r s k v j;
}
