-- ===== src/Specialists.antt =====
-- specialist_protocol.py: the roles, their routes, and the handoffs between them.
pub mod Chains
use vice_ceo_proof_carrying.Dict.{Dict, lookup}
use vice_ceo_proof_carrying.Events.Types.{SyntheticEvent, canonical_payload}
use vice_ceo_proof_carrying.Fixtures.{
  Case, CaseResult, case_allowed, case_denied, get_synthetic_fixture_digest, read_synthetic_case,
}
use vice_ceo_proof_carrying.Json.{is_listed}
use vice_ceo_proof_carrying.Outcome.{
  Result, ok, or_raise, raise, require, specialist_protocol_error, ◌>>=◌, ◌>>◌,
}
use vice_ceo_proof_carrying.Prelude.{
  Bool, List, Option, String, [], false, nat_eq, not, string_eq, true, ◌∷◌,
}
use vice_ceo_proof_carrying.Runtime.{Runtime}
use vice_ceo_proof_carrying.Text.{append, concat, first, is_blank, join, str_option}

abbrev pub specialist_contract_version : String
specialist_contract_version = "vice-ceo-demo-specialist-v1"

abbrev pub support_intake : String
support_intake = "support_intake"

abbrev pub policy_guard : String
policy_guard = "policy_guard"

abbrev pub owner_escalation : String
owner_escalation = "owner_escalation"

pub record SpecialistDefinition : Type 0 where
  pub name : String
  pub version : String
  pub purpose : String
  pub can_read_synthetic_case : Bool
  pub allowed_handoff_targets : List String
  pub action_authority : String

-- `SPECIALISTS`
unfoldable pub specialists : Dict String SpecialistDefinition
specialists = record {
  entries =
      (
        support_intake,
        record {
          name = support_intake;
          version = specialist_contract_version;
          purpose = "Classify the named synthetic support case for deterministic review.";
          can_read_synthetic_case = true;
          allowed_handoff_targets = policy_guard ∷ [];
          action_authority = "none";
        },
      )
      ∷ (
        policy_guard,
        record {
          name = policy_guard;
          version = specialist_contract_version;
          purpose = "Check whether a simulated action remains within the registered policy.";
          can_read_synthetic_case = false;
          allowed_handoff_targets = owner_escalation ∷ [];
          action_authority = "none";
        },
      )
      ∷ (
        owner_escalation,
        record {
          name = owner_escalation;
          version = specialist_contract_version;
          purpose = "Prepare a redacted owner-review item when policy denies or escalates.";
          can_read_synthetic_case = false;
          allowed_handoff_targets = [];
          action_authority = "none";
        },
      )
      ∷ [];
}

pub record SpecialistHandoff : Type 0 where
  pub handoff_id : String
  pub run_id : String
  pub event_id : String
  pub case_id : String
  pub tenant : String
  pub source_agent : String
  pub target_agent : String
  pub specialist_contract_version : String
  pub source_reference_sha256 : String
  pub fixture_reference_sha256 : String
  pub policy_result : String
  pub reason_code : String
  pub proposed_tool : Option String

-- `_specialist`
unfoldable pub specialist : String → Result SpecialistDefinition
unfolding specialists lookup
specialist name =
    or_raise (lookup specialists name) (specialist_protocol_error "unknown_specialist")

-- The arguments of `build_specialist_handoff`.
pub record HandoffRequest : Type 0 where
  pub event : SyntheticEvent
  pub run_id : String
  pub source_agent : String
  pub target_agent : String
  pub policy_result : String
  pub reason_code : String
  pub proposed_tool : Option String

-- The checks of roles, route and reason.
unfoldable pub check_route : HandoffRequest → Result (Unit {0})
unfolding specialist is_listed
check_route q = do
  source ← specialist q.source_agent
  target ← specialist q.target_agent
  require (is_listed q.target_agent source.allowed_handoff_targets)
      (specialist_protocol_error "specialist_handoff_route_not_allowed")
  require (is_listed q.policy_result ("allow" ∷ "deny" ∷ "escalate" ∷ []))
      (specialist_protocol_error "specialist_policy_result_invalid")
  require (not (is_blank q.reason_code))
      (specialist_protocol_error "specialist_reason_code_required")

-- The case that a handoff is about.
abbrev pub readable_case : CaseResult → Result Case
readable_case (case_denied reason message) =
    raise (specialist_protocol_error "synthetic_case_evidence_unavailable")
readable_case (case_allowed c) = ok c

-- `build_specialist_handoff`
unfoldable pub build_specialist_handoff : Runtime → HandoffRequest → Result SpecialistHandoff
unfolding check_route append concat first str_option
build_specialist_handoff rt q = do
  check_route q
  c ← readable_case (read_synthetic_case q.event.case_id)
  fixture ← get_synthetic_fixture_digest rt q.event.case_id
  let source_reference = rt.sha256 (canonical_payload q.event)
  let seed = join "|" (
      q.run_id
      ∷ q.event.event_id
      ∷ q.source_agent
      ∷ q.target_agent
      ∷ source_reference
      ∷ fixture.fixture_sha256
      ∷ q.policy_result
      ∷ q.reason_code
      ∷ str_option q.proposed_tool
      ∷ [])
  ok (record {
    handoff_id = append "handoff_" (first 20 (rt.sha256 seed));
    run_id = q.run_id;
    event_id = q.event.event_id;
    case_id = q.event.case_id;
    tenant = c.tenant;
    source_agent = q.source_agent;
    target_agent = q.target_agent;
    specialist_contract_version = specialist_contract_version;
    source_reference_sha256 = source_reference;
    fixture_reference_sha256 = fixture.fixture_sha256;
    policy_result = q.policy_result;
    reason_code = q.reason_code;
    proposed_tool = q.proposed_tool;
  })

-- `can_specialist_read_case`
unfoldable pub can_specialist_read_case : String → Result Bool
can_specialist_read_case name = do s ← specialist name; ok s.can_read_synthetic_case
