-- ===== src/Timeline.antt =====
-- business_time_machine.py: the replay of supplied evidence as a timeline.
pub mod Linked
pub mod Evidence
pub mod Composed
use vice_ceo_proof_carrying.Events.Types.{SyntheticEvent, canonical_payload}
use vice_ceo_proof_carrying.Fixtures.{get_synthetic_fixture_digest}
use vice_ceo_proof_carrying.Outcome.{
  Error, Result, ok, or_raise, require, timeline_integrity_error, ◌>>=◌, ◌>>◌,
}
use vice_ceo_proof_carrying.Prelude.{
  Bool, List, Option, String, [], false, if◌then◌else◌, map, nat_eq, none, not, some, string_eq,
  true, ◌==◌, ◌||◌, ◌∷◌,
}
use vice_ceo_proof_carrying.Runtime.{Runtime}
use vice_ceo_proof_carrying.Specialists.{SpecialistHandoff}
use vice_ceo_proof_carrying.Support.Loop.{OutcomeReceipt, SupportLoopResult}
use vice_ceo_proof_carrying.Text.{append, first, join}
use vice_ceo_proof_carrying.Twin.{OperationalTwinAnalysis}

abbrev pub business_time_machine_version : String
business_time_machine_version = "vice-ceo-demo-business-time-machine-v1"

pub record TimelineEntry : Type 0 where
  pub stage : String
  pub reference_id : String
  pub result : String
  pub reason_code : String
  pub external_effect : Bool

pub record CounterfactualExplanation : Type 0 where
  pub transition : String
  pub availability : String
  pub reason_code : String
  pub requires_action_warrant : Bool
  pub external_effect : Bool

pub record BusinessTimeline : Type 0 where
  pub timeline_id : String
  pub business_time_machine_version : String
  pub run_id : String
  pub event_id : String
  pub tenant : String
  pub replay_status : String
  pub source_reference_sha256 : String
  pub fixture_reference_sha256 : String
  pub entries : List TimelineEntry
  pub counterfactuals : List CounterfactualExplanation

abbrev entry : String → String → String → String → TimelineEntry
entry stage reference result reason = record {
  stage = stage;
  reference_id = reference;
  result = result;
  reason_code = reason;
  external_effect = false;
}

-- `_explain_option`
unfoldable pub explain_option : OperationalTwinAnalysis → String → CounterfactualExplanation
explain_option twin transition =
    if transition == twin.recommended_transition
    then record {
      transition = transition;
      availability = "selected";
      reason_code = twin.recommendation_reason_code;
      requires_action_warrant = true;
      external_effect = false;
    }
    else record {
      transition = transition;
      availability = "available_not_selected";
      reason_code = "lower_synthetic_progression_than_recommended_option";
      requires_action_warrant = true;
      external_effect = false;
    }

unfoldable pub explain_unregistered_transition : String → CounterfactualExplanation
explain_unregistered_transition transition = record {
  transition = transition;
  availability = "unavailable";
  reason_code = "not_in_registered_synthetic_transition_contract";
  requires_action_warrant = true;
  external_effect = false;
}

-- `a != b or c != d or ...`
unfoldable pub any_differ : List (String × String) → Bool
any_differ [] = false
any_differ ((a, b) ∷ rest) = not (a == b) || any_differ rest

-- The pairs that the evidence is compared on.
abbrev pub linkage_pairs :
    SyntheticEvent
    → SupportLoopResult
    → OutcomeReceipt
    → SpecialistHandoff
    → OperationalTwinAnalysis
    → String
    → String
    → List (String × String)
linkage_pairs e v receipt handoff twin source fixture =
    (v.run_id, receipt.run_id)
    ∷ (v.run_id, handoff.run_id)
    ∷ (v.run_id, twin.run_id)
    ∷ (e.event_id, receipt.event_id)
    ∷ (e.event_id, handoff.event_id)
    ∷ (e.event_id, twin.event_id)
    ∷ (source, receipt.source_reference_sha256)
    ∷ (source, handoff.source_reference_sha256)
    ∷ (source, twin.source_reference_sha256)
    ∷ (fixture, receipt.fixture_reference_sha256)
    ∷ (fixture, handoff.fixture_reference_sha256)
    ∷ (fixture, twin.fixture_reference_sha256)
    ∷ (receipt.tenant, handoff.tenant)
    ∷ (receipt.tenant, twin.tenant)
    ∷ []

-- `receipt.action_warrant_id or absent`: an empty text counts as absent.
or_absent : Option String → String → String
or_absent none absent = absent
or_absent (some s) absent = if s == "" then absent else s

-- `"consumed" if receipt.action_warrant_id else "not_issued"`
consumed_or_not : Option String → String
consumed_or_not none = "not_issued"
consumed_or_not (some s) = if s == "" then "not_issued" else "consumed"

timeline_entries :
    SyntheticEvent → SupportLoopResult → OutcomeReceipt → SpecialistHandoff → List TimelineEntry
unfolding or_absent consumed_or_not
timeline_entries e v receipt handoff =
    entry "event_received" e.event_id "accepted" "synthetic_event_validated"
    ∷ entry "policy_decision" v.run_id receipt.policy_result receipt.reason_code
    ∷ entry "specialist_handoff" handoff.handoff_id "routed" handoff.reason_code
    ∷ entry "action_warrant" (or_absent receipt.action_warrant_id "not_issued")
        (consumed_or_not receipt.action_warrant_id) receipt.reason_code
    ∷ entry "outcome_receipt" receipt.receipt_id receipt.action_state receipt.reason_code
    ∷ []

-- The timeline of linked evidence.
unfoldable pub timeline_of :
    Runtime
    → SyntheticEvent
    → SupportLoopResult
    → OutcomeReceipt
    → SpecialistHandoff
    → OperationalTwinAnalysis
    → String
    → String
    → BusinessTimeline
unfolding append first join timeline_entries explain_option
timeline_of rt e v receipt handoff twin source fixture =
    let seed = join "|" (v.run_id ∷ receipt.receipt_id ∷ twin.analysis_id ∷ []) in
    record {
      timeline_id = append "timeline_" (first 20 (rt.sha256 seed));
      business_time_machine_version = business_time_machine_version;
      run_id = v.run_id;
      event_id = e.event_id;
      tenant = receipt.tenant;
      replay_status = "replayed_from_supplied_synthetic_evidence";
      source_reference_sha256 = source;
      fixture_reference_sha256 = fixture;
      entries = timeline_entries e v receipt handoff;
      counterfactuals = map (λ option. explain_option twin option.transition) twin.alternatives;
    }

abbrev pub incomplete_evidence : Error
incomplete_evidence = timeline_integrity_error "complete_synthetic_evidence_required"

abbrev pub linkage_mismatch : Error
linkage_mismatch = timeline_integrity_error "synthetic_evidence_linkage_mismatch"

-- `replay_synthetic_evidence`
unfoldable pub replay_synthetic_evidence :
    Runtime → SyntheticEvent → SupportLoopResult → OperationalTwinAnalysis → Result BusinessTimeline
replay_synthetic_evidence rt e v twin = do
  receipt ← or_raise v.receipt incomplete_evidence
  handoff ← or_raise v.handoff incomplete_evidence
  let source = rt.sha256 (canonical_payload e)
  fixture ← get_synthetic_fixture_digest rt e.case_id
  require (not (any_differ (linkage_pairs e v receipt handoff twin source fixture.fixture_sha256)))
      linkage_mismatch
  ok (timeline_of rt e v receipt handoff twin source fixture.fixture_sha256)
