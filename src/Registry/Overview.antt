-- ===== src/Registry/Overview.antt =====
-- registry_watch.py: the owner's overview, and the probe of the internal channel.
use vice_ceo_proof_carrying.Claims.Scope.{ClaimStore}
use vice_ceo_proof_carrying.Dict.{Dict, values}
use vice_ceo_proof_carrying.Outcome.{Result, ok, registry_watch_error, require, ◌>>=◌, ◌>>◌}
use vice_ceo_proof_carrying.Prelude.{
  Bool, List, Option, String, [], false, if◌then◌else◌, length, map, nat_eq, none, some, string_eq,
  ℕ, ◌==◌, ◌∷◌,
}
use vice_ceo_proof_carrying.Registry.Listing.{QueueCounts, owner_action_queue, str_le}
use vice_ceo_proof_carrying.Registry.Store.{WatchState, latest_snapshot}
use vice_ceo_proof_carrying.Registry.Types.{
  InternalDeliveryReceipt, RegistryImpactBrief, RegistrySnapshot, RegistrySource,
}
use vice_ceo_proof_carrying.Runtime.{Runtime}
use vice_ceo_proof_carrying.Text.{append, first}

pub record LatestEvidence : Type 0 where
  pub source_version : String
  pub captured_at : String
  pub evidence_sha256 : String
  pub normalization_version : String
  pub content_segment_count : ℕ

pub record SourceOverview : Type 0 where
  pub source_id : String
  pub display_name : String
  pub canonical_url : String
  pub jurisdiction : String
  pub source_owner : String
  pub refresh_schedule : String
  pub operational_focus : String
  pub latest_evidence : Option LatestEvidence

abbrev evidence_in : Option RegistrySnapshot → Option LatestEvidence
evidence_in none = none
evidence_in (some p) = some (record {
  source_version = p.source_version;
  captured_at = p.captured_at;
  evidence_sha256 = p.evidence_sha256;
  normalization_version = p.normalization_version;
  content_segment_count = length p.content_segment_hashes;
})

-- One step of a stable sort by `display_name`.
insert_named : RegistrySource → List RegistrySource → List RegistrySource
unfolding str_le
insert_named source [] = source ∷ []
insert_named source (other ∷ rest) =
    let placed = insert_named source rest in
    if str_le source.display_name other.display_name then source ∷ other ∷ rest else other ∷ placed

by_display_name : List RegistrySource → List RegistrySource
unfolding insert_named
by_display_name [] = []
by_display_name (source ∷ rest) = insert_named source (by_display_name rest)

pub record OwnerOverview : Type 0 where
  pub source_portfolio : List SourceOverview
  pub action_queue : QueueCounts
  pub untrusted_source_safety_version : String
  pub model_input : String
  pub raw_source_persisted : Bool
  pub suspicious_content_behavior : String
  pub external_business_actions_enabled : Bool
  pub customer_record_mutation : Bool
  pub legal_or_regulatory_conclusion : Bool

module _ (claims : ClaimStore) where
  -- The entry of one source.
  source_overview : WatchState claims → RegistrySource → SourceOverview
  unfolding latest_snapshot
  source_overview t s = record {
    source_id = s.source_id;
    display_name = s.display_name;
    canonical_url = s.canonical_url;
    jurisdiction = s.jurisdiction;
    source_owner = s.source_owner;
    refresh_schedule = s.refresh_schedule;
    operational_focus = s.operational_focus;
    latest_evidence = evidence_in (latest_snapshot claims t s.source_id);
  }

  -- `build_owner_operations_overview`
  unfoldable pub build_owner_operations_overview :
      Dict String RegistrySource → WatchState claims → OwnerOverview
  unfolding source_overview by_display_name owner_action_queue
  build_owner_operations_overview sources t = record {
    source_portfolio = map (source_overview t) (by_display_name (values sources));
    action_queue = owner_action_queue t.candidates;
    untrusted_source_safety_version = "registry_source_prompt_injection_gate_v1";
    model_input = "bounded changed public-source excerpts only";
    raw_source_persisted = false;
    suspicious_content_behavior = "deterministic_owner_review_fallback";
    external_business_actions_enabled = false;
    customer_record_mutation = false;
    legal_or_regulatory_conclusion = false;
  }

-- `build_internal_delivery_probe`
unfoldable pub build_internal_delivery_probe : Runtime → RegistryImpactBrief
unfolding append first
build_internal_delivery_probe rt =
    let evidence = rt.sha256 "vice-ceo controlled internal delivery probe v1" in
    record {
      brief_id = append "internal_delivery_probe_" (first 20 evidence);
      source_id = "controlled_internal_delivery_probe";
      source_display_name = "Controlled internal delivery probe (non-production)";
      source_citation_url = "https://vice-ceo.invalid/internal-delivery-probe";
      prior_version = "not_applicable";
      current_version = "controlled_probe_v1";
      source_evidence_sha256 = evidence;
      change_summary =
          "This is a controlled internal delivery verification. It does not report an EPR registry change, evaluate an obligation, alter a customer record, or contact a prospect.";
      recommended_next_action =
          "Confirm this message arrived in the allowlisted Westover owner inbox and retain the provider receipt as delivery evidence.";
      legal_or_regulatory_conclusion = false;
      model_mode = "controlled_internal_delivery_probe";
      jurisdiction = "non_production";
      source_owner = "Vice CEO controlled delivery fixture";
      operational_focus = "verify configured owner-only briefing delivery";
      changed_content_excerpt_sha256 = evidence;
      changed_segment_count = 0;
    }

-- `deliver_internal_delivery_probe`, over the configured channel.
unfoldable pub deliver_internal_delivery_probe :
    Runtime
    → (RegistryImpactBrief → Result InternalDeliveryReceipt)
    → Result (RegistryImpactBrief × InternalDeliveryReceipt)
unfolding build_internal_delivery_probe first
deliver_internal_delivery_probe rt deliver = do
  let brief = build_internal_delivery_probe rt
  receipt ← deliver brief
  require (first 9 receipt.state == "delivered")
      (registry_watch_error "internal_delivery_probe_not_delivered")
  ok (brief, receipt)
