-- ===== src/Approval.antt =====
-- human_approval.py: the reviewer's decision on the fixed simulation.
pub mod Decision
use vice_ceo_proof_carrying.Claims.Memory.{memory_store}
use vice_ceo_proof_carrying.Dict.{no_entries}
use vice_ceo_proof_carrying.Events.Types.{
  SyntheticEvent, demo_source, event_schema_version, support_event_type,
}
use vice_ceo_proof_carrying.Fixtures.{password_reset_id}
use vice_ceo_proof_carrying.Json.{is_listed}
use vice_ceo_proof_carrying.Outcome.{
  Result, human_approval_error, ok, or_raise, require, runtime_error, ◌>>=◌, ◌>>◌,
}
use vice_ceo_proof_carrying.Prelude.{
  Bool, List, Option, String, [], false, if◌then◌else◌, nat_eq, none, some, string_eq, true, ◌==◌,
  ◌∷◌,
}
use vice_ceo_proof_carrying.Runtime.{Datetime, Runtime}
use vice_ceo_proof_carrying.Support.Loop.{OutcomeReceipt, SupportLoopResult, process}
use vice_ceo_proof_carrying.Text.{append, first, join}
use vice_ceo_proof_carrying.Warrants.Types.{CapabilityControlState, global_kill_switch_engaged}

abbrev pub approve_simulation : String
approve_simulation = "approve_simulation"

abbrev pub decline_simulation : String
decline_simulation = "decline_simulation"

abbrev pub human_approval_version : String
human_approval_version = "vice-ceo-demo-human-approval-v1"

pub record HumanApprovalPreview : Type 0 where
  pub approval_id : String
  pub approval_version : String
  pub decision_required : Bool
  pub allowed_decisions : List String
  pub scope : String
  pub case_id : String
  pub proposed_transition : String
  pub identity_verification_performed : Bool
  pub external_effect : Bool
  pub persistent_write : Bool
  pub production_authority : Bool

pub record HumanApprovalResolution : Type 0 where
  pub approval_id : String
  pub approval_version : String
  pub reviewer_decision : String
  pub decision_status : String
  pub simulation_status : String
  pub simulation_executed : Bool
  pub run_id : Option String
  pub action_warrant_id : Option String
  pub outcome_receipt_id : Option String
  pub reason_code : String
  pub identity_verification_performed : Bool
  pub external_effect : Bool
  pub persistent_write : Bool
  pub production_authority : Bool

-- `_approval_id`
unfoldable pub approval_id_of : Runtime → String
unfolding append first join
approval_id_of rt = append "human_approval_" (
    first 20 (
      rt.sha256 (
        join "|" (
          human_approval_version ∷ password_reset_id ∷ "resolution_prepared"
          ∷ "fixed_synthetic_support_transition_only" ∷ []))))

-- `build_human_approval_preview`
unfoldable pub build_human_approval_preview : Runtime → HumanApprovalPreview
unfolding approval_id_of
build_human_approval_preview rt = record {
  approval_id = approval_id_of rt;
  approval_version = human_approval_version;
  decision_required = true;
  allowed_decisions = approve_simulation ∷ decline_simulation ∷ [];
  scope = "fixed_synthetic_support_transition_only";
  case_id = password_reset_id;
  proposed_transition = "resolution_prepared";
  identity_verification_performed = false;
  external_effect = false;
  persistent_write = false;
  production_authority = false;
}

-- `_human_approval_event`
unfoldable pub human_approval_event : SyntheticEvent
human_approval_event = record {
  event_id = "human_approval_demo_support_request";
  event_type = support_event_type;
  source = demo_source;
  case_id = password_reset_id;
  occurred_at = "2026-08-12T00:00:00Z";
  schema_version = event_schema_version;
}

-- The fixed clock, 2026-08-12 12:00 UTC, in microseconds since the first day of year 1.
abbrev pub approval_clock : Datetime
approval_clock = record { aware = true; instant = 63922132800000000 }

abbrev pub no_controls : CapabilityControlState
no_controls = record { global_kill_switch_engaged = false; disabled_capabilities = [] }

-- The loop of an approval: new stores, the fixed key and clock.
unfoldable pub approved_run : Runtime → Result SupportLoopResult
unfolding human_approval_event
approved_run rt =
    (process memory_store memory_store rt "human-approval-demo-key" human_approval_event
      "resolution_prepared" no_controls
      (record { at_issue = approval_clock; at_use = approval_clock; at_receipt = approval_clock })
      (record { claimed = no_entries; consumed = no_entries })).0

unfoldable pub declined_resolution : HumanApprovalPreview → String → HumanApprovalResolution
declined_resolution p decision = record {
  approval_id = p.approval_id;
  approval_version = p.approval_version;
  reviewer_decision = decision;
  decision_status = "declined";
  simulation_status = "not_started";
  simulation_executed = false;
  run_id = none;
  action_warrant_id = none;
  outcome_receipt_id = none;
  reason_code = "synthetic_simulation_declined_by_reviewer";
  identity_verification_performed = false;
  external_effect = false;
  persistent_write = false;
  production_authority = false;
}

unfoldable pub approved_resolution :
    HumanApprovalPreview → String → SupportLoopResult → OutcomeReceipt → HumanApprovalResolution
approved_resolution p decision r receipt = record {
  approval_id = p.approval_id;
  approval_version = p.approval_version;
  reviewer_decision = decision;
  decision_status = "approved_for_synthetic_simulation_only";
  simulation_status = r.status;
  simulation_executed = true;
  run_id = some r.run_id;
  action_warrant_id = receipt.action_warrant_id;
  outcome_receipt_id = some receipt.receipt_id;
  reason_code = r.reason_code;
  identity_verification_performed = false;
  external_effect = false;
  persistent_write = false;
  production_authority = false;
}

resolution_of : Runtime → HumanApprovalPreview → String → Result HumanApprovalResolution
unfolding approved_run declined_resolution approved_resolution
resolution_of rt preview decision =
    if decision == decline_simulation then ok (declined_resolution preview decision) else (do
      result ← approved_run rt
      receipt ← or_raise result.receipt (runtime_error "approved_demo_simulation_receipt_missing")
      ok (approved_resolution preview decision result receipt))

-- `resolve_human_approval`
unfoldable pub resolve_human_approval : Runtime → String → Result HumanApprovalResolution
unfolding build_human_approval_preview resolution_of is_listed
resolve_human_approval rt decision =
    require (is_listed decision (approve_simulation ∷ decline_simulation ∷ []))
      (human_approval_error "unsupported_demo_approval_decision")
    >> resolution_of rt (build_human_approval_preview rt) decision
