-- ===== src/Trust/Engine.antt =====
-- trust_engine.py: `assess_synthetic_trust`, with the receipts of support_loop.py.
pub mod Suspended
pub mod Earned
use vice_ceo_proof_carrying.Json.{
  Json, dumps, end, field, flag, is_listed, object, optional_text, text,
}
use vice_ceo_proof_carrying.Prelude.{
  Bool, List, Option, String, [], false, if◌then◌else◌, leb, length, ltb, nat_eq, none, not, some,
  string_eq, ℕ, ◌&&◌, ◌++◌, ◌+◌, ◌==◌, ◌∷◌,
}
use vice_ceo_proof_carrying.Runtime.{Runtime}
use vice_ceo_proof_carrying.Support.Loop.{OutcomeReceipt, outcome_receipt_version}
use vice_ceo_proof_carrying.Text.{append, first, join}

abbrev pub trust_engine_version : String
trust_engine_version = "vice-ceo-demo-trust-engine-v1"

abbrev pub simulation_only_ceiling : String
simulation_only_ceiling = "simulation_only"

pub data Classification : Type 0 where
  ignored verified_simulation integrity_failure : Classification

pub record TrustEvidence : Type 0 where
  pub receipt_id : String
  pub receipt_sha256 : String
  pub classification : Classification
  pub reason_code : String

pub data TrustState : Type 0 where
  suspended earned_for_synthetic_simulation observing_synthetic_evidence unproven : TrustState

pub record TrustAssessment : Type 0 where
  pub assessment_id : String
  pub trust_engine_version : String
  pub tenant : Option String
  pub trust_state : TrustState
  pub evidence_count : ℕ
  pub verified_simulation_count : ℕ
  pub integrity_failure_count : ℕ
  pub authorization_ceiling : String
  pub production_authority_granted : Bool
  pub evidence : List TrustEvidence
  pub reason_codes : List String

-- `OutcomeReceipt.canonical_payload`
receipt_json : OutcomeReceipt → Json
receipt_json r = object (
    field "action_attempt_sha256" (text r.action_attempt_sha256) (
      field "action_state" (text r.action_state) (
        field "action_warrant_id" (optional_text r.action_warrant_id) (
          field "business_outcome" (text r.business_outcome) (
            field "event_id" (text r.event_id) (
              field "external_effect" (flag r.external_effect) (
                field "fixture_reference_sha256" (text r.fixture_reference_sha256) (
                  field "outcome_receipt_version" (text r.outcome_receipt_version) (
                    field "persistent_write" (flag r.persistent_write) (
                      field "policy_result" (text r.policy_result) (
                        field "reason_code" (text r.reason_code) (
                          field "receipt_id" (text r.receipt_id) (
                            field "reconciliation_state" (text r.reconciliation_state) (
                              field "recorded_at" (text r.recorded_at) (
                                field "run_id" (text r.run_id) (
                                  field "source_reference_sha256" (text r.source_reference_sha256)
                                    (field "tenant" (text r.tenant) end)))))))))))))))))

-- `_is_verified_simulation`
unfoldable pub is_verified_simulation : OutcomeReceipt → Bool
is_verified_simulation r =
    r.action_state == "simulated"
    && not r.external_effect
    && not r.persistent_write
    && r.business_outcome == "not_measured_synthetic_only"
    && r.reconciliation_state == "not_applicable_no_external_effect"

abbrev pub is_supported : OutcomeReceipt → Bool
is_supported r = r.outcome_receipt_version == outcome_receipt_version

-- `_evidence`
unfoldable pub trust_evidence : Runtime → OutcomeReceipt → Classification → String → TrustEvidence
unfolding receipt_json
trust_evidence rt r classification reason = record {
  receipt_id = r.receipt_id;
  receipt_sha256 = rt.sha256 (dumps (receipt_json r));
  classification = classification;
  reason_code = reason;
}

-- The evidence and the tenants that the loop has collected.
pub record Tally : Type 0 where
  pub evidence : List TrustEvidence
  pub tenants : List String

-- `tenants.add(tenant)`
abbrev pub add_tenant : String → List String → List String
add_tenant t ts = if is_listed t ts then ts else ts ++ t ∷ []

-- One round of the loop.
unfoldable pub note_receipt : Runtime → OutcomeReceipt → Tally → Tally
unfolding trust_evidence
note_receipt rt r t =
    if not (is_supported r)
    then record {
      evidence =
          t.evidence ++ trust_evidence rt r ignored "unsupported_outcome_receipt_version" ∷ [];
      tenants = t.tenants;
    }
    else if is_verified_simulation r
    then record {
      evidence =
          t.evidence ++ trust_evidence rt r verified_simulation "synthetic_receipt_verified" ∷ [];
      tenants = add_tenant r.tenant t.tenants;
    }
    else record {
      evidence =
          t.evidence
          ++ trust_evidence rt r integrity_failure "unexpected_receipt_effect_claim" ∷ [];
      tenants = add_tenant r.tenant t.tenants;
    }

unfoldable pub scan_receipts : Runtime → List OutcomeReceipt → Tally → Tally
scan_receipts rt [] t = t
scan_receipts rt (r ∷ rs) t = scan_receipts rt rs (note_receipt rt r t)

abbrev pub nothing_noted : Tally
nothing_noted = record { evidence = []; tenants = [] }

abbrev pub verified_weight : Classification → ℕ
verified_weight c = elim c [ verified_simulation ↦ 1 | _ ↦ 0 ]

abbrev pub failure_weight : Classification → ℕ
failure_weight c = elim c [ integrity_failure ↦ 1 | _ ↦ 0 ]

-- `sum(item.classification == ... for item in evidence)`
unfoldable pub tally_of : (Classification → ℕ) → List TrustEvidence → ℕ
tally_of weight [] = 0
tally_of weight (e ∷ es) = weight e.classification + tally_of weight es

-- The state of the assessment, by the tenants and the counts.
unfoldable pub judged : ℕ → ℕ → ℕ → TrustState × String
judged tenants verified failures =
    if ltb 1 tenants
    then (suspended, "mixed_tenant_receipts_not_comparable")
    else if ltb 0 failures
    then (suspended, "integrity_failure_requires_human_review")
    else if leb 3 verified
    then (earned_for_synthetic_simulation, "three_or_more_verified_synthetic_receipts")
    else if ltb 0 verified
    then (observing_synthetic_evidence, "more_verified_synthetic_receipts_required")
    else (unproven, "no_verified_synthetic_receipts")

abbrev sole : List String → Option String
sole [] = none
sole (t ∷ []) = some t
sole (t ∷ u ∷ ts) = none

abbrev digests : List TrustEvidence → List String
digests [] = []
digests (e ∷ es) = e.receipt_sha256 ∷ digests es

-- `assess_synthetic_trust`
unfoldable pub assess_synthetic_trust : Runtime → List OutcomeReceipt → TrustAssessment
unfolding scan_receipts judged tally_of
assess_synthetic_trust rt rs =
    let t = scan_receipts rt rs nothing_noted in
    let verified = tally_of verified_weight t.evidence in
    let failures = tally_of failure_weight t.evidence in
    let (state, reason) = judged (length t.tenants) verified failures in
    record {
      assessment_id = append "trust_" (first 20 (rt.sha256 (join "|" (digests t.evidence))));
      trust_engine_version = trust_engine_version;
      tenant = sole t.tenants;
      trust_state = state;
      evidence_count = length t.evidence;
      verified_simulation_count = verified;
      integrity_failure_count = failures;
      authorization_ceiling = simulation_only_ceiling;
      production_authority_granted = false;
      evidence = t.evidence;
      reason_codes = reason ∷ [];
    }

-- `can_trust_assessment_enable_production`
unfoldable pub can_trust_assessment_enable_production : TrustAssessment → Bool
can_trust_assessment_enable_production a = false
