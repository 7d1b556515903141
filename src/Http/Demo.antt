-- ===== src/Http/Demo.antt =====
-- fast_api_app.py: the demo's routes that may refuse.
use vice_ceo_proof_carrying.Approval.{
  HumanApprovalResolution, approve_simulation, decline_simulation, resolve_human_approval,
}
use vice_ceo_proof_carrying.Business.Service.{
  BusinessRequest, customer_reply, outreach_follow_up, send,
}
use vice_ceo_proof_carrying.Business.Types.{BusinessActionReceipt, record_delivery}
use vice_ceo_proof_carrying.Http.Types.{Response, business_answer, crashed, http_error, http_ok}
use vice_ceo_proof_carrying.Json.{Fields}
use vice_ceo_proof_carrying.Outcome.{
  Result, human_approval_error, ok, provider_canary_error, provider_evidence_error, raise,
}
use vice_ceo_proof_carrying.Prelude.{String, [], false, if◌then◌else◌, nat_eq, string_eq, ◌==◌}
use vice_ceo_proof_carrying.Provider.Canary.{
  CanaryCall, CanaryProcess, CanaryReceipt, run_fixed_provider_canary,
}
use vice_ceo_proof_carrying.Provider.Evidence.{
  ProviderConnectivityEvidence, verify_provider_receipt,
}
use vice_ceo_proof_carrying.Runtime.{Datetime, Runtime}

-- `DemoApprovalDecision.decision`
pub data DemoDecision : Type 0 where
  approve decline : DemoDecision

abbrev demo_decision_name : DemoDecision → String
demo_decision_name approve = approve_simulation
demo_decision_name decline = decline_simulation

approval_answer {ℓ} : {A : Type ℓ} → Result A → Response A
approval_answer (ok a) = http_ok a
approval_answer (raise (human_approval_error m)) = http_error 422 m
approval_answer (raise e) = crashed e

-- `resolve_demo_human_approval`
unfoldable pub resolve_demo_human_approval :
    Runtime → DemoDecision → Response HumanApprovalResolution
unfolding resolve_human_approval approval_answer
resolve_demo_human_approval rt decision =
    approval_answer (resolve_human_approval rt (demo_decision_name decision))

canary_answer {ℓ} : {A : Type ℓ} → Result A → Response A
canary_answer (ok a) = http_ok a
canary_answer (raise (provider_canary_error m)) =
    http_error (if m == "provider_canary_disabled" then 403 else 409) m
canary_answer (raise e) = crashed e

-- `run_provider_canary`
unfoldable pub run_provider_canary :
    Runtime → CanaryCall → CanaryProcess → Response CanaryReceipt × CanaryProcess
unfolding run_fixed_provider_canary canary_answer
run_provider_canary rt c p = let (r, p') = run_fixed_provider_canary rt c p in (canary_answer r, p')

evidence_answer {ℓ} : {A : Type ℓ} → Result A → Response A
evidence_answer (ok a) = http_ok a
evidence_answer (raise (provider_evidence_error m)) = http_error 422 m
evidence_answer (raise e) = crashed e

-- `verify_exported_provider_receipt`
unfoldable pub verify_exported_provider_receipt :
    Runtime → Fields → Response ProviderConnectivityEvidence
unfolding verify_provider_receipt evidence_answer
verify_exported_provider_receipt rt entry = evidence_answer (verify_provider_receipt rt entry)

-- `DemoBusinessActionRequest.action`
pub data DemoBusinessAction : Type 0 where
  send_customer_reply send_outreach_follow_up : DemoBusinessAction

-- The fixed work item of an action.
unfoldable pub demo_work_item : DemoBusinessAction → BusinessRequest
demo_work_item send_customer_reply = customer_reply (record {
  case_id = "demo-customer-password-reset";
  customer_email = "customer@example.invalid";
  customer_name = "Alex";
  intent = "password_reset";
  inbound_message_id = "demo-inbound-password-reset-001";
  source_policy = "support-low-risk-v1";
})
demo_work_item send_outreach_follow_up = outreach_follow_up (record {
  campaign_id = "demo-epr-readiness-follow-up";
  campaign_name = "EPR readiness follow-up";
  contact = record {
    contact_id = "demo-consented-lead";
    email = "lead@example.invalid";
    display_name = "Jordan";
    consent_record_id = "demo-consent-001";
    unsubscribed = false;
  };
  subject = "A practical EPR readiness question";
  body =
      "Hi Jordan, based on the information you asked for, would a short EPR readiness conversation be useful this week?\n\nBest,\nWestover EPR";
})

-- `run_demo_business_action`, at a reading of the clock.
unfoldable pub run_demo_business_action :
    Runtime → Datetime → DemoBusinessAction → Response BusinessActionReceipt
unfolding send record_delivery business_answer demo_work_item
run_demo_business_action rt now action =
    business_answer 409
      (send (record_delivery rt now) rt "Westover EPR" (demo_work_item action)
        (record { completed_keys = []; channel = [] })).0
