-- ===== src/Warrants/Gateway.antt =====
-- warrant_gateway.py: `ActionWarrantGateway`. The clock's reading is an argument of each method.
pub mod Use
pub mod Once
pub mod Lifetime
pub mod Simulates
use vice_ceo_proof_carrying.Claims.Memory.{claim_once}
use vice_ceo_proof_carrying.Claims.Scope.{ClaimStore, Request}
use vice_ceo_proof_carrying.Events.Types.{
  PolicyDecision, SyntheticEvent, idempotency_key, policy_version,
}
use vice_ceo_proof_carrying.Fixtures.{
  Case, CaseResult, Simulation, case_allowed, case_denied, prepare_simulated_ticket_transition,
  read_synthetic_case, simulated, simulation_denied,
}
use vice_ceo_proof_carrying.Json.{dumps, is_listed, object, texts}
use vice_ceo_proof_carrying.Outcome.{
  Action, Error, Result, andthen, ok, proceed, raise, type_error, value_error, ◌>>=◌, ◌>>◌,
}
use vice_ceo_proof_carrying.Prelude.{
  Bool, Option, String, [], false, if◌then◌else◌, leb, nat_eq, none, not, some, string_eq, true, ℕ,
  ◌&&◌, ◌+◌, ◌==◌, ◌∷◌,
}
use vice_ceo_proof_carrying.Runtime.{Datetime, Runtime, as_utc, parse_timestamp}
use vice_ceo_proof_carrying.Text.{append, first, is_ascii, join}
use vice_ceo_proof_carrying.Warrants.Types.{
  ActionAttempt, ActionWarrant, CapabilityControlState, Reason, WarrantResult,
  action_warrant_already_consumed, action_warrant_consumed, action_warrant_expired,
  action_warrant_issued, action_warrant_scope_mismatch, allow, allows, answer,
  capability_kill_switch_engaged, deny, escalate, global_kill_switch_engaged,
  invalid_action_warrant_signature, policy_does_not_authorize_registered_tool,
  policy_version_mismatch, refused_attempt, simulated_ticket_capability, simulated_ticket_tool,
  synthetic_case_evidence_unavailable, synthetic_transition_not_allowed, ticket_contract,
  tool_contract_version, tool_contract_version_mismatch, unregistered_or_wrong_tool,
  unsigned_payload, warrant_ttl,
}

abbrev pub clock_error : Error
clock_error = value_error "action_warrant_clock_must_be_timezone_aware"

-- `__init__`: the signing key may not be empty.
unfoldable pub open_gateway : String → Result String
open_gateway signing_key =
    if signing_key == ""
    then raise (value_error "action_warrant_signing_key_required")
    else ok signing_key

-- `_arguments_hash`
unfoldable pub arguments_hash : Runtime → String → String → String
arguments_hash rt case_id transition =
    rt.sha256 (dumps (object (texts (("case_id", case_id) ∷ ("transition", transition) ∷ []))))

-- `_sign`
unfoldable pub sign : Runtime → String → ActionWarrant → ActionWarrant
sign rt key w = record w { signature = rt.hmac_sha256 key (unsigned_payload w) }

-- `_signature_is_valid`: `compare_digest` raises on a text that is not ASCII.
unfoldable pub signature_is_valid : Runtime → String → ActionWarrant → Result Bool
unfolding sign
signature_is_valid rt key w =
    let expected = (sign rt key (record w { signature = "" })).signature in
    if is_ascii expected && is_ascii w.signature
    then ok (expected == w.signature)
    else raise (type_error "comparing strings with non-ASCII characters is not supported")

names_tool : Option String → Bool
names_tool none = false
names_tool (some name) = name == simulated_ticket_tool

-- The policy decision authorises the registered tool.
unfoldable pub authorizes : PolicyDecision → Bool
unfolding names_tool
authorizes d =
    d.result == "allow"
    && (names_tool d.proposed_tool
        && (d.requires_action_warrant && d.policy_version == policy_version))

-- The warrant that `issue_simulated_ticket_warrant` signs.
unfoldable pub draft_warrant :
    Runtime → Case → SyntheticEvent → String → PolicyDecision → String → ℕ → ActionWarrant
unfolding arguments_hash append first join
draft_warrant rt c e run_id d transition issued_at =
    let arguments = arguments_hash rt e.case_id transition in
    let seed = join "|" (idempotency_key rt e ∷ run_id ∷ arguments ∷ rt.isoformat issued_at ∷ []) in
    record {
      warrant_id = append "warrant_" (first 20 (rt.sha256 seed));
      event_id = e.event_id;
      run_id = run_id;
      tenant = c.tenant;
      tool_name = ticket_contract.name;
      tool_contract_version = ticket_contract.version;
      policy_version = d.policy_version;
      normalized_arguments_sha256 = arguments;
      idempotency_key = idempotency_key rt e;
      issued_at = rt.format_utc issued_at;
      expires_at = rt.format_utc (issued_at + warrant_ttl);
      signature = "";
    }

-- What a caller asks of the gateway.
pub record Order : Type 0 where
  pub event : SyntheticEvent
  pub run_id : String
  pub transition : String
  pub controls : CapabilityControlState

-- The last part of the issue, once the case has been read.
issue_for_case :
    Runtime → String → Datetime → Order → PolicyDecision → CaseResult → Result WarrantResult
unfolding draft_warrant sign
issue_for_case rt key now o d (case_denied reason message) =
    ok (answer escalate synthetic_case_evidence_unavailable)
issue_for_case rt key now o d (case_allowed c) =
    if not (is_listed o.transition c.allowed_transitions)
    then ok (answer deny synthetic_transition_not_allowed)
    else (do
      issued_at ← as_utc clock_error now
      ok (record {
        result = allow;
        reason_code = action_warrant_issued;
        warrant = some (sign rt key (draft_warrant rt c o.event o.run_id d o.transition issued_at));
      }))

-- `issue_simulated_ticket_warrant`
unfoldable pub issue_simulated_ticket_warrant :
    Runtime → String → Datetime → Order → PolicyDecision → Result WarrantResult
unfolding issue_for_case
issue_simulated_ticket_warrant rt key now o d =
    if o.controls.global_kill_switch_engaged
    then ok (answer deny global_kill_switch_engaged)
    else if not (allows o.controls simulated_ticket_capability)
    then ok (answer deny capability_kill_switch_engaged)
    else if not (authorizes d)
    then ok (answer deny policy_does_not_authorize_registered_tool)
    else issue_for_case rt key now o d (read_synthetic_case o.event.case_id)

-- The checks of `validate_and_consume` before the claim: a refusal, or the way is free.
pub data Checked : Type 0 where
  denied escalated : Reason → Checked
  passed : Checked

check_scope : Runtime → ActionWarrant → Order → CaseResult → Checked
check_scope rt w o (case_denied reason message) = escalated synthetic_case_evidence_unavailable
check_scope rt w o (case_allowed c) =
    if w.event_id == o.event.event_id
      && (w.run_id == o.run_id
          && (w.tenant == c.tenant
              && (w.idempotency_key == idempotency_key rt o.event
                  && w.normalized_arguments_sha256
                    == arguments_hash rt o.event.case_id o.transition)))
    then passed
    else denied action_warrant_scope_mismatch

check_time : Runtime → Datetime → ActionWarrant → Order → Result Checked
check_time rt now w o = do
  expires_at ← parse_timestamp rt w.expires_at
  moment ← as_utc clock_error now
  ok (
      if leb expires_at moment
      then denied action_warrant_expired
      else check_scope rt w o (read_synthetic_case o.event.case_id))

pub check_signature : Runtime → Bool → Datetime → ActionWarrant → Order → Result Checked
check_signature rt false now w o = ok (denied invalid_action_warrant_signature)
check_signature rt true now w o = check_time rt now w o

unfoldable pub check_use : Runtime → String → Datetime → ActionWarrant → Order → Result Checked
unfolding check_signature check_time check_scope
check_use rt key now w o =
    if o.controls.global_kill_switch_engaged
    then ok (denied global_kill_switch_engaged)
    else if not (allows o.controls simulated_ticket_capability)
    then ok (denied capability_kill_switch_engaged)
    else if not (w.tool_name == simulated_ticket_tool)
    then ok (denied unregistered_or_wrong_tool)
    else if not (w.tool_contract_version == tool_contract_version)
    then ok (denied tool_contract_version_mismatch)
    else if not (w.policy_version == policy_version)
    then ok (denied policy_version_mismatch)
    else signature_is_valid rt key w >>= λ valid. check_signature rt valid now w o

-- The claim that consumes a warrant.
unfoldable pub consumption : ActionWarrant → Request
consumption w = record {
  tenant = w.tenant;
  claim_kind = "action_warrant";
  idempotency_key = w.warrant_id;
  record_id = w.warrant_id;
}

-- `{**simulation, ...}`: the keys of the simulation, some of them written over.
warranted_attempt : ActionWarrant → Simulation → ActionAttempt
warranted_attempt w (simulation_denied reason) = record {
  status = "denied";
  reason_code = "sprint_3_warranted_simulation_only";
  external_effect = false;
  persistent_write = false;
  case_id = none;
  tenant = none;
  transition = none;
  warrant_id = some w.warrant_id;
  tool_contract_version = some w.tool_contract_version;
  policy_version = some w.policy_version;
}
warranted_attempt w (simulated r) = record {
  status = "simulated";
  reason_code = "sprint_3_warranted_simulation_only";
  external_effect = false;
  persistent_write = false;
  case_id = some r.case_id;
  tenant = some r.tenant;
  transition = some r.transition;
  warrant_id = some w.warrant_id;
  tool_contract_version = some w.tool_contract_version;
  policy_version = some w.policy_version;
}

attempt_after : ActionWarrant → Order → WarrantResult → ActionAttempt
unfolding warranted_attempt
attempt_after w o v = elim v.result [
  | allow ↦ warranted_attempt w (prepare_simulated_ticket_transition o.event.case_id o.transition)
  | deny ↦ refused_attempt v
  | escalate ↦ refused_attempt v
]

module _ (store : ClaimStore) where
  open store use {State, claim_once}

  consume : ActionWarrant → Checked → Action State WarrantResult
  unfolding consumption
  consume w (denied r) s = (ok (answer deny r), s)
  consume w (escalated r) s = (ok (answer escalate r), s)
  consume w passed s =
      andthen (claim_once (consumption w))
        (λ claim s'. (
          ok (
              if claim.claimed
              then record {
                result = allow;
                reason_code = action_warrant_consumed;
                warrant = some w;
              }
              else answer deny action_warrant_already_consumed),
          s',
        ))
        s

  -- `validate_and_consume`
  unfoldable pub validate_and_consume :
      Runtime → String → Datetime → ActionWarrant → Order → Action State WarrantResult
  unfolding consume
  validate_and_consume rt key now w o s = proceed (check_use rt key now w o) (consume w) s

  -- `execute_warranted_simulation`
  unfoldable pub execute_warranted_simulation :
      Runtime → String → Datetime → ActionWarrant → Order → Action State ActionAttempt
  unfolding validate_and_consume attempt_after
  execute_warranted_simulation rt key now w o s =
      andthen (validate_and_consume rt key now w o) (λ v s'. (ok (attempt_after w o v), s')) s
