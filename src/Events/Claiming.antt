-- ===== src/Events/Claiming.antt =====
-- event_contracts.py: `InMemoryEventClaims.claim`, over any claim store.
use vice_ceo_proof_carrying.Claims.Scope.{ClaimResult, ClaimStore, Request}
use vice_ceo_proof_carrying.Events.Types.{SyntheticEvent, case_tenant, idempotency_key}
use vice_ceo_proof_carrying.Fixtures.{read_synthetic_case}
use vice_ceo_proof_carrying.Outcome.{Action, Result, event_contract_error, ok, proceed, raise}
use vice_ceo_proof_carrying.Prelude.{String, if◌then◌else◌, nat_eq, none, some, string_eq, ◌==◌}
use vice_ceo_proof_carrying.Runtime.{Runtime}

-- The claim of an event, by the tenant of its case.
unfoldable pub event_claim : Runtime → SyntheticEvent → String → String → Request
event_claim rt e tenant run_id = record {
  tenant = tenant;
  claim_kind = "synthetic_event";
  idempotency_key = idempotency_key rt e;
  record_id = run_id;
}

-- The tenant of the event's case, which may not be missing or empty.
unfoldable pub claim_tenant : SyntheticEvent → Result String
claim_tenant e = elim (case_tenant (read_synthetic_case e.case_id)) [
  | none ↦ raise (event_contract_error "synthetic_case_tenant_unavailable")
  | some tenant ↦
      if tenant == ""
      then raise (event_contract_error "synthetic_case_tenant_unavailable")
      else ok tenant
]

module _ (store : ClaimStore) where
  open store use {State, claim_once}

  -- `claim`: whether the event was won, and the run id that stands for it.
  unfoldable pub claim_event : Runtime → SyntheticEvent → String → Action State ClaimResult
  unfolding claim_tenant event_claim
  claim_event rt e run_id s =
      proceed (claim_tenant e) (λ tenant. claim_once (event_claim rt e tenant run_id)) s
