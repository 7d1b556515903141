-- ===== src/Events/Types.antt =====
-- event_contracts.py: the event with its canonical payload, the policy decision and the run.
use vice_ceo_proof_carrying.Fixtures.{
  CaseResult, SyntheticFixtureDigest, case_allowed, case_denied, digest_of,
  get_synthetic_fixture_digest, password_reset_case, password_reset_id, read_synthetic_case,
  registered_digest, synthetic_fixture_manifest_version,
}
use vice_ceo_proof_carrying.Json.{Fields, dumps, object, texts}
use vice_ceo_proof_carrying.Outcome.{Result, ok, ◌>>=◌}
use vice_ceo_proof_carrying.Prelude.{Bool, Option, String, [], false, none, some, true, ◌∷◌, ◌≡◌}
use vice_ceo_proof_carrying.Runtime.{Runtime}
use vice_ceo_proof_carrying.Text.{append, first}

abbrev pub event_schema_version : String
event_schema_version = "vice-ceo-demo-event-v1"

abbrev pub policy_version : String
policy_version = "vice-ceo-demo-policy-v1"

abbrev pub demo_source : String
demo_source = "vice_ceo_demo_fixture"

abbrev pub support_event_type : String
support_event_type = "support.requested"

pub record SyntheticEvent : Type 0 where
  pub event_id : String
  pub event_type : String
  pub source : String
  pub case_id : String
  pub occurred_at : String
  pub schema_version : String

-- The fields of an event, as `sort_keys` orders them.
unfoldable pub event_fields : SyntheticEvent → Fields
event_fields e = texts (
    ("case_id", e.case_id)
    ∷ ("event_id", e.event_id)
    ∷ ("event_type", e.event_type)
    ∷ ("occurred_at", e.occurred_at)
    ∷ ("schema_version", e.schema_version)
    ∷ ("source", e.source)
    ∷ [])

unfoldable pub canonical_payload : SyntheticEvent → String
unfolding event_fields
canonical_payload e = dumps (object (event_fields e))

unfoldable pub idempotency_key : Runtime → SyntheticEvent → String
unfolding append
idempotency_key rt e = append "vice-ceo-demo-" (rt.sha256 (canonical_payload e))

pub record PolicyDecision : Type 0 where
  pub result : String
  pub reason_code : String
  pub proposed_tool : Option String
  pub requires_action_warrant : Bool
  pub policy_version : String

-- `evaluate_sprint_two_policy`
unfoldable pub evaluate_sprint_two_policy : SyntheticEvent → PolicyDecision
evaluate_sprint_two_policy e = elim (read_synthetic_case e.case_id) [
  | case_denied reason message ↦ record {
    result = "escalate";
    reason_code = "synthetic_case_evidence_unavailable";
    proposed_tool = none;
    requires_action_warrant = true;
    policy_version = policy_version;
  }
  | case_allowed c ↦ record {
    result = "allow";
    reason_code = "synthetic_read_and_simulation_only";
    proposed_tool = some "prepare_simulated_ticket_transition";
    requires_action_warrant = true;
    policy_version = policy_version;
  }
]

pub record CaseFile : Type 0 where
  pub case_id : String
  pub tenant : Option String
  pub event_type : String
  pub source_reference_sha256 : String
  pub fixture_manifest_version : String
  pub fixture_reference_sha256 : String

pub record PlannedAttempt : Type 0 where
  pub state : String
  pub external_effect : Bool
  pub persistent_write : Bool
  pub reason_code : String

pub record SyntheticRun : Type 0 where
  pub run_id : String
  pub event_id : String
  pub idempotency_key : String
  pub case_file : CaseFile
  pub decision : PolicyDecision
  pub action_attempt : PlannedAttempt

-- `case_result.get("case", {}).get("tenant")`
abbrev pub case_tenant : CaseResult → Option String
case_tenant (case_denied reason message) = none
case_tenant (case_allowed c) = some c.tenant

unfoldable pub run_id_of : Runtime → SyntheticEvent → String
run_id_of rt e = append "run_" (first 20 (rt.sha256 (idempotency_key rt e)))

-- The record that `build_synthetic_run` returns.
unfoldable pub run_record : Runtime → SyntheticEvent → SyntheticFixtureDigest → SyntheticRun
run_record rt e fixture = record {
  run_id = run_id_of rt e;
  event_id = e.event_id;
  idempotency_key = idempotency_key rt e;
  case_file = record {
    case_id = e.case_id;
    tenant = case_tenant (read_synthetic_case e.case_id);
    event_type = e.event_type;
    source_reference_sha256 = rt.sha256 (canonical_payload e);
    fixture_manifest_version = synthetic_fixture_manifest_version;
    fixture_reference_sha256 = fixture.fixture_sha256;
  };
  decision = evaluate_sprint_two_policy e;
  action_attempt = record {
    state = "simulated";
    external_effect = false;
    persistent_write = false;
    reason_code = "sprint_2_contract_only";
  };
}

-- `build_synthetic_run`
unfoldable pub build_synthetic_run : Runtime → SyntheticEvent → Result SyntheticRun
build_synthetic_run rt e = do
  fixture ← get_synthetic_fixture_digest rt e.case_id
  ok (run_record rt e fixture)

-- The run of an event of the registered case.
abbrev pub registered_run : Runtime → SyntheticEvent → SyntheticRun
registered_run rt e = run_record rt e (digest_of rt e.case_id password_reset_case)

pub build_synthetic_run-registered :
    (rt : Runtime) (e : SyntheticEvent)
    → e.case_id ≡ password_reset_id
    → build_synthetic_run rt e ≡ ok (registered_run rt e)
unfolding build_synthetic_run
build_synthetic_run-registered rt e h = rw (registered_digest rt e.case_id h)
