-- ===== src/Registry/Types.antt =====
-- registry_watch.py: sources, events, captures, snapshots, briefs, receipts and runs.
use vice_ceo_proof_carrying.Json.{dumps, object, texts}
use vice_ceo_proof_carrying.Outcome.{Result, require, value_error, ◌>>◌}
use vice_ceo_proof_carrying.Prelude.{
  Bool, List, Option, String, [], nat_eq, not, string_eq, ℕ, ◌==◌, ◌||◌, ◌∷◌,
}
use vice_ceo_proof_carrying.Runtime.{Runtime}
use vice_ceo_proof_carrying.Text.{append, first, is_blank}

abbrev pub registry_event_schema_version : String
registry_event_schema_version = "vice-ceo-registry-watch-event-v1"

abbrev pub registry_run_schema_version : String
registry_run_schema_version = "vice-ceo-registry-watch-run-v1"

abbrev pub registry_event_type : String
registry_event_type = "registry.watch.requested"

abbrev pub registry_watch_source : String
registry_watch_source = "vice_ceo_registry_watch"

pub record RegistrySource : Type 0 where
  pub source_id : String
  pub display_name : String
  pub canonical_url : String
  pub jurisdiction : String
  pub source_owner : String
  pub refresh_schedule : String
  pub operational_focus : String

-- `RegistrySource.__post_init__`; the prefix test is `canonical_url.startswith("https://")`.
unfoldable pub check_source : RegistrySource → Result (Unit {0})
unfolding is_blank first
check_source s = do
  require
      (not (
        is_blank s.source_id
        || is_blank s.display_name
        || is_blank s.jurisdiction
        || is_blank s.source_owner
        || is_blank s.refresh_schedule
        || is_blank s.operational_focus))
      (value_error "registry_source_identity_required")
  require (first 8 s.canonical_url == "https://") (value_error "registry_source_requires_https")

pub record RegistryWatchEvent : Type 0 where
  pub event_id : String
  pub source_id : String
  pub scheduled_for : String
  pub event_type : String
  pub source : String
  pub schema_version : String

-- `RegistryWatchEvent.canonical_payload`
unfoldable pub registry_event_payload : RegistryWatchEvent → String
registry_event_payload e = dumps (
    object (
      texts (
        ("event_id", e.event_id)
        ∷ ("event_type", e.event_type)
        ∷ ("scheduled_for", e.scheduled_for)
        ∷ ("schema_version", e.schema_version)
        ∷ ("source", e.source)
        ∷ ("source_id", e.source_id)
        ∷ [])))

-- `RegistryWatchEvent.idempotency_key`
unfoldable pub registry_event_key : Runtime → RegistryWatchEvent → String
unfolding append
registry_event_key rt e = append "registry-watch-" (rt.sha256 (registry_event_payload e))

pub record RegistrySourceCapture : Type 0 where
  pub source_id : String
  pub canonical_url : String
  pub source_version : String
  pub captured_at : String
  pub normalized_content : String
  pub normalization_version : String

pub record RegistrySnapshot : Type 0 where
  pub source_id : String
  pub canonical_url : String
  pub source_version : String
  pub captured_at : String
  pub evidence_sha256 : String
  pub byte_count : ℕ
  pub normalization_version : String
  pub content_segment_hashes : List String

pub record RegistryChange : Type 0 where
  pub source : RegistrySource
  pub prior_snapshot : RegistrySnapshot
  pub current_snapshot : RegistrySnapshot
  pub current_capture : RegistrySourceCapture
  pub changed_content_excerpt : String
  pub changed_segment_count : ℕ

pub record RegistryImpactBrief : Type 0 where
  pub brief_id : String
  pub source_id : String
  pub source_display_name : String
  pub source_citation_url : String
  pub prior_version : String
  pub current_version : String
  pub source_evidence_sha256 : String
  pub change_summary : String
  pub recommended_next_action : String
  pub legal_or_regulatory_conclusion : Bool
  pub model_mode : String
  pub jurisdiction : String
  pub source_owner : String
  pub operational_focus : String
  pub changed_content_excerpt_sha256 : String
  pub changed_segment_count : ℕ

pub record InternalDeliveryReceipt : Type 0 where
  pub state : String
  pub provider : String
  pub recipient_sha256 : Option String
  pub receipt_id : Option String
  pub reason_code : String
  pub external_prospect_effect : Bool

pub record RegistryActionCandidate : Type 0 where
  pub candidate_id : String
  pub brief_id : String
  pub source_id : String
  pub jurisdiction : String
  pub evidence_sha256 : String
  pub action_type : String
  pub status : String
  pub requires_owner_decision : Bool
  pub external_business_effect : Bool
  pub customer_record_mutation : Bool
  pub created_at : String
  pub review_summary : String
  pub recommended_next_action : String
  pub source_citation_url : String
  pub owner_decision : String
  pub owner_decision_at : Option String

pub record RegistryWatchRun : Type 0 where
  pub run_id : String
  pub event_id : String
  pub source_id : String
  pub status : String
  pub reason_code : String
  pub idempotency_key : String
  pub schema_version : String
  pub started_at : String
  pub completed_at : String
  pub snapshot : Option RegistrySnapshot
  pub brief : Option RegistryImpactBrief
  pub internal_delivery : Option InternalDeliveryReceipt
  pub external_prospect_effect : Bool
  pub customer_record_mutation : Bool
  pub legal_or_regulatory_conclusion : Bool
  pub action_candidate : Option RegistryActionCandidate
