-- ===== src/Support/Loop.antt =====
-- support_loop.py: `SyntheticSupportLoop.process` and its receipts.
pub mod Once
pub mod Stopped
pub mod Outcome
use vice_ceo_proof_carrying.Claims.Scope.{ClaimResult, ClaimStore}
use vice_ceo_proof_carrying.Events.Claiming.{claim_event}
use vice_ceo_proof_carrying.Events.Types.{SyntheticEvent, SyntheticRun, build_synthetic_run}
use vice_ceo_proof_carrying.Json.{Fields, Json, dumps, end, field, flag, object, text}
use vice_ceo_proof_carrying.Outcome.{
  Action, Error, Result, andthen, ok, proceed, value_error, ◌>>=◌, ◌>>◌,
}
use vice_ceo_proof_carrying.Prelude.{
  Bool, Option, String, [], false, if◌then◌else◌, none, not, some, ◌∷◌,
}
use vice_ceo_proof_carrying.Runtime.{Datetime, Runtime, as_utc}
use vice_ceo_proof_carrying.Specialists.{
  HandoffRequest, SpecialistHandoff, build_specialist_handoff, policy_guard, support_intake,
}
use vice_ceo_proof_carrying.Text.{append, first, join, str_option}
use vice_ceo_proof_carrying.Warrants.Gateway.{
  Order, execute_warranted_simulation, issue_simulated_ticket_warrant,
}
use vice_ceo_proof_carrying.Warrants.Types.{
  ActionAttempt, ActionWarrant, CapabilityControlState, WarrantResult, allow, deny, escalate,
  refused_attempt,
}

abbrev pub outcome_receipt_version : String
outcome_receipt_version = "vice-ceo-demo-outcome-receipt-v1"

pub record OutcomeReceipt : Type 0 where
  pub receipt_id : String
  pub run_id : String
  pub event_id : String
  pub tenant : String
  pub outcome_receipt_version : String
  pub policy_result : String
  pub reason_code : String
  pub action_state : String
  pub action_warrant_id : Option String
  pub action_attempt_sha256 : String
  pub source_reference_sha256 : String
  pub fixture_reference_sha256 : String
  pub external_effect : Bool
  pub persistent_write : Bool
  pub business_outcome : String
  pub reconciliation_state : String
  pub recorded_at : String

pub record SupportLoopResult : Type 0 where
  pub status : String
  pub run_id : String
  pub receipt : Option OutcomeReceipt
  pub handoff : Option SpecialistHandoff
  pub reason_code : String

optional_field : String → Option String → Fields → Fields
optional_field name none rest = rest
optional_field name (some value) rest = field name (text value) rest

-- `dumps(action_attempt, sort_keys=True, ...)`
attempt_json : ActionAttempt → Json
unfolding optional_field
attempt_json a = object (
    optional_field "case_id" a.case_id (
      field "external_effect" (flag a.external_effect) (
        field "persistent_write" (flag a.persistent_write) (
          optional_field "policy_version" a.policy_version (
            field "reason_code" (text a.reason_code) (
              field "status" (text a.status) (
                optional_field "tenant" a.tenant (
                  optional_field "tool_contract_version" a.tool_contract_version (
                    optional_field "transition" a.transition
                      (optional_field "warrant_id" a.warrant_id end))))))))))

abbrev pub receipt_clock_error : Error
receipt_clock_error = value_error "support_loop_clock_must_be_timezone_aware"

-- `_build_receipt`
unfoldable pub build_receipt :
    Runtime → SyntheticRun → ActionAttempt → Option String → Datetime → Result OutcomeReceipt
unfolding attempt_json append first str_option
build_receipt rt run a warrant_id now = do
  let attempt_sha256 = rt.sha256 (dumps (attempt_json a))
  let seed = join "|" (run.run_id ∷ attempt_sha256 ∷ str_option warrant_id ∷ [])
  moment ← as_utc receipt_clock_error now
  ok (record {
    receipt_id = append "receipt_" (first 20 (rt.sha256 seed));
    run_id = run.run_id;
    event_id = run.event_id;
    tenant = str_option run.case_file.tenant;
    outcome_receipt_version = outcome_receipt_version;
    policy_result = run.decision.result;
    reason_code = a.reason_code;
    action_state = a.status;
    action_warrant_id = warrant_id;
    action_attempt_sha256 = attempt_sha256;
    source_reference_sha256 = run.case_file.source_reference_sha256;
    fixture_reference_sha256 = run.case_file.fixture_reference_sha256;
    external_effect = false;
    persistent_write = false;
    business_outcome = "not_measured_synthetic_only";
    reconciliation_state = "not_applicable_no_external_effect";
    recorded_at = rt.format_utc moment;
  })

-- The three readings of the clock in one call: at the issue, at the use, and at the receipt. A
-- reading that a branch does not reach is not made.
pub record Readings : Type 0 where
  pub at_issue : Datetime
  pub at_use : Datetime
  pub at_receipt : Datetime

-- The two claim stores of a loop: the events' and the gateway's own.
module _ (events warrants : ClaimStore) where
  pub record LoopState : Type 0 where
    pub claimed : events.State
    pub consumed : warrants.State

  module _ (rt : Runtime) (key : String) where
    unfoldable pub handoff_request : SyntheticEvent → SyntheticRun → HandoffRequest
    handoff_request e run = record {
      event = e;
      run_id = run.run_id;
      source_agent = support_intake;
      target_agent = policy_guard;
      policy_result = run.decision.result;
      reason_code = run.decision.reason_code;
      proposed_tool = run.decision.proposed_tool;
    }

    -- The receipt of an attempt and the result of the call.
    unfoldable pub finish :
        SyntheticRun
        → SpecialistHandoff
        → ActionAttempt
        → Option String
        → Datetime
        → Result SupportLoopResult
    finish run handoff a warrant_id now = do
      receipt ← build_receipt rt run a warrant_id now
      ok (record {
        status = a.status;
        run_id = run.run_id;
        receipt = some receipt;
        handoff = some handoff;
        reason_code = a.reason_code;
      })

    -- `if issued.result != "allow" or issued.warrant is None`, and the simulation otherwise.
    unfoldable pub act_on :
        SyntheticRun
        → SpecialistHandoff
        → Order
        → Readings
        → WarrantResult
        → Option ActionWarrant
        → Action warrants.State SupportLoopResult
    unfolding finish
    act_on run handoff o at answered none s =
        (finish run handoff (refused_attempt answered) none at.at_receipt, s)
    act_on run handoff o at answered (some w) s =
        andthen (execute_warranted_simulation warrants rt key at.at_use w o)
          (λ a s'. (finish run handoff a (some w.warrant_id) at.at_receipt, s')) s

    abbrev pub granted : WarrantResult → Option ActionWarrant
    granted r = elim r.result [ allow ↦ r.warrant | deny ↦ none | escalate ↦ none ]

    -- The call after a won claim.
    unfoldable pub work : SyntheticRun → Order → Readings → Action warrants.State SupportLoopResult
    unfolding act_on handoff_request
    work run o at s =
        proceed (build_specialist_handoff rt (handoff_request o.event run))
          (λ handoff.
            proceed (issue_simulated_ticket_warrant rt key at.at_issue o run.decision)
              (λ answered. act_on run handoff o at answered (granted answered)))
          s

    unfoldable pub duplicate_of : String → SupportLoopResult
    duplicate_of run_id = record {
      status = "duplicate";
      run_id = run_id;
      receipt = none;
      handoff = none;
      reason_code = "synthetic_event_already_claimed";
    }

    -- The call after the claim was answered.
    abbrev pub after_claim :
        SyntheticRun → Order → Readings → ClaimResult → Action LoopState SupportLoopResult
    after_claim run o at c s =
        if not c.claimed
        then (ok (duplicate_of c.record_id), s)
        else (let (r, consumed) = work run o at s.consumed in
            (r, record { claimed = s.claimed; consumed = consumed }))

    -- `process`, of an event with a transition and controls.
    unfoldable pub process :
        SyntheticEvent
        → String
        → CapabilityControlState
        → Readings
        → Action LoopState SupportLoopResult
    unfolding work duplicate_of
    process e transition controls at s =
        proceed (build_synthetic_run rt e)
          (λ run s1.
            let (claim, claimed) = claim_event events rt e run.run_id s1.claimed in
            let s2 : LoopState = record { claimed = claimed; consumed = s1.consumed } in
            proceed claim
              (after_claim run
                (record {
                  event = e;
                  run_id = run.run_id;
                  transition = transition;
                  controls = controls;
                })
                at)
              s2)
          s
