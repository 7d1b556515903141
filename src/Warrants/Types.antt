-- ===== src/Warrants/Types.antt =====
-- warrant_gateway.py: contracts, controls, warrants and the answers of the gateway.
use vice_ceo_proof_carrying.Json.{dumps, is_listed, object, texts}
use vice_ceo_proof_carrying.Prelude.{
  Bool, List, Option, String, [], false, nat_eq, none, not, string_eq, true, ℕ, ◌&&◌, ◌*◌, ◌∷◌,
}
use vice_ceo_proof_carrying.Runtime.{microseconds}

abbrev pub tool_contract_version : String
tool_contract_version = "vice-ceo-demo-tool-contract-v1"

abbrev pub simulated_ticket_capability : String
simulated_ticket_capability = "simulated_ticket_transition"

abbrev pub simulated_ticket_tool : String
simulated_ticket_tool = "prepare_simulated_ticket_transition"

abbrev pub warrant_ttl_seconds : ℕ
warrant_ttl_seconds = 300

-- The life of a warrant on the clock's scale.
abbrev pub warrant_ttl : ℕ
warrant_ttl = warrant_ttl_seconds * microseconds

pub record ToolContract : Type 0 where
  pub name : String
  pub version : String
  pub capability : String
  pub effect_class : String
  pub requires_action_warrant : Bool

-- `TOOL_CONTRACTS[SIMULATED_TICKET_TOOL]`, the only entry.
abbrev pub ticket_contract : ToolContract
ticket_contract = record {
  name = simulated_ticket_tool;
  version = tool_contract_version;
  capability = simulated_ticket_capability;
  effect_class = "simulation_only";
  requires_action_warrant = true;
}

pub record CapabilityControlState : Type 0 where
  pub global_kill_switch_engaged : Bool
  pub disabled_capabilities : List String

-- `CapabilityControlState.allows`
unfoldable pub allows : CapabilityControlState → String → Bool
allows c capability =
    not c.global_kill_switch_engaged && not (is_listed capability c.disabled_capabilities)

pub record ActionWarrant : Type 0 where
  pub warrant_id : String
  pub event_id : String
  pub run_id : String
  pub tenant : String
  pub tool_name : String
  pub tool_contract_version : String
  pub policy_version : String
  pub normalized_arguments_sha256 : String
  pub idempotency_key : String
  pub issued_at : String
  pub expires_at : String
  pub signature : String

-- `unsigned_payload`: every field but the signature.
unfoldable pub unsigned_payload : ActionWarrant → String
unsigned_payload w = dumps (
    object (
      texts (
        ("event_id", w.event_id)
        ∷ ("expires_at", w.expires_at)
        ∷ ("idempotency_key", w.idempotency_key)
        ∷ ("issued_at", w.issued_at)
        ∷ ("normalized_arguments_sha256", w.normalized_arguments_sha256)
        ∷ ("policy_version", w.policy_version)
        ∷ ("run_id", w.run_id)
        ∷ ("tenant", w.tenant)
        ∷ ("tool_contract_version", w.tool_contract_version)
        ∷ ("tool_name", w.tool_name)
        ∷ ("warrant_id", w.warrant_id)
        ∷ [])))

-- `result` of a `WarrantResult`.
pub data Verdict : Type 0 where
  allow deny escalate : Verdict

-- `reason_code` of a `WarrantResult`.
pub data Reason : Type 0 where
  global_kill_switch_engaged capability_kill_switch_engaged : Reason
  policy_does_not_authorize_registered_tool synthetic_case_evidence_unavailable : Reason
  synthetic_transition_not_allowed action_warrant_issued unregistered_or_wrong_tool : Reason
  tool_contract_version_mismatch policy_version_mismatch : Reason
  invalid_action_warrant_signature action_warrant_expired action_warrant_scope_mismatch : Reason
  action_warrant_already_consumed action_warrant_consumed : Reason

-- The texts of the two enumerations, where they are stored or printed.
unfoldable pub verdict_text : Verdict → String
verdict_text allow = "allow"
verdict_text deny = "deny"
verdict_text escalate = "escalate"

unfoldable pub reason_text : Reason → String
reason_text global_kill_switch_engaged = "global_kill_switch_engaged"
reason_text capability_kill_switch_engaged = "capability_kill_switch_engaged"
reason_text policy_does_not_authorize_registered_tool = "policy_does_not_authorize_registered_tool"
reason_text synthetic_case_evidence_unavailable = "synthetic_case_evidence_unavailable"
reason_text synthetic_transition_not_allowed = "synthetic_transition_not_allowed"
reason_text action_warrant_issued = "action_warrant_issued"
reason_text unregistered_or_wrong_tool = "unregistered_or_wrong_tool"
reason_text tool_contract_version_mismatch = "tool_contract_version_mismatch"
reason_text policy_version_mismatch = "policy_version_mismatch"
reason_text invalid_action_warrant_signature = "invalid_action_warrant_signature"
reason_text action_warrant_expired = "action_warrant_expired"
reason_text action_warrant_scope_mismatch = "action_warrant_scope_mismatch"
reason_text action_warrant_already_consumed = "action_warrant_already_consumed"
reason_text action_warrant_consumed = "action_warrant_consumed"

pub record WarrantResult : Type 0 where
  pub result : Verdict
  pub reason_code : Reason
  pub warrant : Option ActionWarrant

abbrev pub answer : Verdict → Reason → WarrantResult
answer v r = record { result = v; reason_code = r; warrant = none }

-- The dictionary that `execute_warranted_simulation` returns; `none` where a key is absent.
pub record ActionAttempt : Type 0 where
  pub status : String
  pub reason_code : String
  pub external_effect : Bool
  pub persistent_write : Bool
  pub case_id : Option String
  pub tenant : Option String
  pub transition : Option String
  pub warrant_id : Option String
  pub tool_contract_version : Option String
  pub policy_version : Option String

-- The attempt that a refusal is recorded as.
abbrev pub refused_attempt : WarrantResult → ActionAttempt
refused_attempt r = record {
  status = verdict_text r.result;
  reason_code = reason_text r.reason_code;
  external_effect = false;
  persistent_write = false;
  case_id = none;
  tenant = none;
  transition = none;
  warrant_id = none;
  tool_contract_version = none;
  policy_version = none;
}
