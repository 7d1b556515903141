-- ===== src/Registry/Records.antt =====
-- registry_watch.py: the runs and the action candidates of `FirestoreRegistryWatchStore`. A document
-- is what this version or an earlier one of the code wrote: the fields that came later may be
-- missing, and every field that is there has its declared type.
pub mod Refines
use mathlib.Core.Option
use vice_ceo_proof_carrying.Dict.{Dict, insert, lookup}
use vice_ceo_proof_carrying.Outcome.{Action, ok, proceed, raise}
use vice_ceo_proof_carrying.Prelude.{
  Bool, List, Option, String, [], nat_eq, none, some, string_eq, ℕ,
}
use vice_ceo_proof_carrying.Registry.Actions.{
  candidate_not_found, resolved_action_candidate, unresolved,
}
use vice_ceo_proof_carrying.Registry.Documents.{legacy_normalization_version}
use vice_ceo_proof_carrying.Registry.Types.{
  InternalDeliveryReceipt, RegistryActionCandidate, RegistryImpactBrief, RegistrySnapshot,
  RegistryWatchRun,
}
use vice_ceo_proof_carrying.Runtime.{Runtime}

-- `mapping.setdefault(name, default)`
set_default {ℓ} : {A : Type ℓ} → A → Option A → A
set_default default none = default
set_default default (some a) = a

pub record StoredCandidate : Type 0 where
  pub candidate_id : String
  pub brief_id : String
  pub source_id : String
  pub jurisdiction : String
  pub evidence_sha256 : String
  pub action_type : String
  pub status : String
  pub requires_owner_decision : Bool
  pub external_business_effect : Bool
  pub customer_record_mutation : Bool
  pub created_at : String
  pub review_summary : Option String
  pub recommended_next_action : Option String
  pub source_citation_url : Option String
  pub owner_decision : Option String
  pub owner_decision_at : Option (Option String)

pub record StoredSnapshot : Type 0 where
  pub source_id : String
  pub canonical_url : String
  pub source_version : String
  pub captured_at : String
  pub evidence_sha256 : String
  pub byte_count : ℕ
  pub normalization_version : Option String
  pub content_segment_hashes : Option (List String)

pub record StoredBrief : Type 0 where
  pub brief_id : String
  pub source_id : String
  pub source_display_name : String
  pub source_citation_url : String
  pub prior_version : String
  pub current_version : String
  pub source_evidence_sha256 : String
  pub change_summary : String
  pub recommended_next_action : String
  pub legal_or_regulatory_conclusion : Bool
  pub model_mode : String
  pub jurisdiction : Option String
  pub source_owner : Option String
  pub operational_focus : Option String
  pub changed_content_excerpt_sha256 : Option String
  pub changed_segment_count : Option ℕ

pub record StoredRun : Type 0 where
  pub run_id : String
  pub event_id : String
  pub source_id : String
  pub status : String
  pub reason_code : String
  pub idempotency_key : String
  pub schema_version : String
  pub started_at : String
  pub completed_at : String
  pub snapshot : Option StoredSnapshot
  pub brief : Option StoredBrief
  pub internal_delivery : Option InternalDeliveryReceipt
  pub external_prospect_effect : Bool
  pub customer_record_mutation : Bool
  pub legal_or_regulatory_conclusion : Bool
  pub action_candidate : Option StoredCandidate

-- `_action_candidate_from_mapping`
unfoldable pub candidate_from_mapping : StoredCandidate → RegistryActionCandidate
unfolding set_default
candidate_from_mapping c = record {
  candidate_id = c.candidate_id;
  brief_id = c.brief_id;
  source_id = c.source_id;
  jurisdiction = c.jurisdiction;
  evidence_sha256 = c.evidence_sha256;
  action_type = c.action_type;
  status = c.status;
  requires_owner_decision = c.requires_owner_decision;
  external_business_effect = c.external_business_effect;
  customer_record_mutation = c.customer_record_mutation;
  created_at = c.created_at;
  review_summary = set_default "" c.review_summary;
  recommended_next_action = set_default "" c.recommended_next_action;
  source_citation_url = set_default "" c.source_citation_url;
  owner_decision = set_default unresolved c.owner_decision;
  owner_decision_at = set_default none c.owner_decision_at;
}

-- `asdict(candidate)`
unfoldable pub candidate_as_dict : RegistryActionCandidate → StoredCandidate
candidate_as_dict c = record {
  candidate_id = c.candidate_id;
  brief_id = c.brief_id;
  source_id = c.source_id;
  jurisdiction = c.jurisdiction;
  evidence_sha256 = c.evidence_sha256;
  action_type = c.action_type;
  status = c.status;
  requires_owner_decision = c.requires_owner_decision;
  external_business_effect = c.external_business_effect;
  customer_record_mutation = c.customer_record_mutation;
  created_at = c.created_at;
  review_summary = some c.review_summary;
  recommended_next_action = some c.recommended_next_action;
  source_citation_url = some c.source_citation_url;
  owner_decision = some c.owner_decision;
  owner_decision_at = some c.owner_decision_at;
}

-- The snapshot of `_run_from_mapping`.
unfoldable pub snapshot_from_mapping : StoredSnapshot → RegistrySnapshot
unfolding set_default
snapshot_from_mapping p = record {
  source_id = p.source_id;
  canonical_url = p.canonical_url;
  source_version = p.source_version;
  captured_at = p.captured_at;
  evidence_sha256 = p.evidence_sha256;
  byte_count = p.byte_count;
  normalization_version = set_default legacy_normalization_version p.normalization_version;
  content_segment_hashes = set_default [] p.content_segment_hashes;
}

-- The snapshot of `RegistryWatchRun.as_dict`.
unfoldable pub snapshot_as_dict : RegistrySnapshot → StoredSnapshot
snapshot_as_dict p = record {
  source_id = p.source_id;
  canonical_url = p.canonical_url;
  source_version = p.source_version;
  captured_at = p.captured_at;
  evidence_sha256 = p.evidence_sha256;
  byte_count = p.byte_count;
  normalization_version = some p.normalization_version;
  content_segment_hashes = some p.content_segment_hashes;
}

-- The brief of `_run_from_mapping`.
unfoldable pub brief_from_mapping : StoredBrief → RegistryImpactBrief
unfolding set_default
brief_from_mapping b = record {
  brief_id = b.brief_id;
  source_id = b.source_id;
  source_display_name = b.source_display_name;
  source_citation_url = b.source_citation_url;
  prior_version = b.prior_version;
  current_version = b.current_version;
  source_evidence_sha256 = b.source_evidence_sha256;
  change_summary = b.change_summary;
  recommended_next_action = b.recommended_next_action;
  legal_or_regulatory_conclusion = b.legal_or_regulatory_conclusion;
  model_mode = b.model_mode;
  jurisdiction = set_default "" b.jurisdiction;
  source_owner = set_default "" b.source_owner;
  operational_focus = set_default "" b.operational_focus;
  changed_content_excerpt_sha256 = set_default "" b.changed_content_excerpt_sha256;
  changed_segment_count = set_default 0 b.changed_segment_count;
}

-- The brief of `RegistryWatchRun.as_dict`.
unfoldable pub brief_as_dict : RegistryImpactBrief → StoredBrief
brief_as_dict b = record {
  brief_id = b.brief_id;
  source_id = b.source_id;
  source_display_name = b.source_display_name;
  source_citation_url = b.source_citation_url;
  prior_version = b.prior_version;
  current_version = b.current_version;
  source_evidence_sha256 = b.source_evidence_sha256;
  change_summary = b.change_summary;
  recommended_next_action = b.recommended_next_action;
  legal_or_regulatory_conclusion = b.legal_or_regulatory_conclusion;
  model_mode = b.model_mode;
  jurisdiction = some b.jurisdiction;
  source_owner = some b.source_owner;
  operational_focus = some b.operational_focus;
  changed_content_excerpt_sha256 = some b.changed_content_excerpt_sha256;
  changed_segment_count = some b.changed_segment_count;
}

-- `_run_from_mapping`
unfoldable pub run_from_mapping : StoredRun → RegistryWatchRun
unfolding snapshot_from_mapping brief_from_mapping candidate_from_mapping
run_from_mapping r = record {
  run_id = r.run_id;
  event_id = r.event_id;
  source_id = r.source_id;
  status = r.status;
  reason_code = r.reason_code;
  idempotency_key = r.idempotency_key;
  schema_version = r.schema_version;
  started_at = r.started_at;
  completed_at = r.completed_at;
  snapshot = Option.map snapshot_from_mapping r.snapshot;
  brief = Option.map brief_from_mapping r.brief;
  internal_delivery = r.internal_delivery;
  external_prospect_effect = r.external_prospect_effect;
  customer_record_mutation = r.customer_record_mutation;
  legal_or_regulatory_conclusion = r.legal_or_regulatory_conclusion;
  action_candidate = Option.map candidate_from_mapping r.action_candidate;
}

-- `RegistryWatchRun.as_dict`
unfoldable pub run_as_dict : RegistryWatchRun → StoredRun
unfolding snapshot_as_dict brief_as_dict candidate_as_dict
run_as_dict r = record {
  run_id = r.run_id;
  event_id = r.event_id;
  source_id = r.source_id;
  status = r.status;
  reason_code = r.reason_code;
  idempotency_key = r.idempotency_key;
  schema_version = r.schema_version;
  started_at = r.started_at;
  completed_at = r.completed_at;
  snapshot = Option.map snapshot_as_dict r.snapshot;
  brief = Option.map brief_as_dict r.brief;
  internal_delivery = r.internal_delivery;
  external_prospect_effect = r.external_prospect_effect;
  customer_record_mutation = r.customer_record_mutation;
  legal_or_regulatory_conclusion = r.legal_or_regulatory_conclusion;
  action_candidate = Option.map candidate_as_dict r.action_candidate;
}

-- The two collections, by document id.
pub record FirestoreRecords : Type 0 where
  pub run_documents : Dict String StoredRun
  pub action_documents : Dict String StoredCandidate

-- `save_run`
unfoldable pub firestore_save_run : RegistryWatchRun → FirestoreRecords → FirestoreRecords
unfolding run_as_dict insert
firestore_save_run r docs = record docs {
  run_documents = insert docs.run_documents r.run_id (run_as_dict r);
}

-- `get_run`
unfoldable pub firestore_get_run : FirestoreRecords → String → Option RegistryWatchRun
unfolding run_from_mapping lookup
firestore_get_run docs run_id = Option.map run_from_mapping (lookup docs.run_documents run_id)

-- `save_action_candidate`
unfoldable pub firestore_save_candidate :
    RegistryActionCandidate → FirestoreRecords → FirestoreRecords
unfolding candidate_as_dict insert
firestore_save_candidate c docs = record docs {
  action_documents = insert docs.action_documents c.candidate_id (candidate_as_dict c);
}

-- The body of the transaction, after the read.
unfoldable pub transition :
    Runtime
    → String
    → Option StoredCandidate
    → String
    → String
    → Action FirestoreRecords RegistryActionCandidate
unfolding resolved_action_candidate candidate_from_mapping candidate_as_dict insert
transition rt id none decision decided_at docs = (raise candidate_not_found, docs)
transition rt id (some stored) decision decided_at docs =
    proceed (resolved_action_candidate rt (candidate_from_mapping stored) decision decided_at)
      (λ done d. (
        ok done,
        record d { action_documents = insert d.action_documents id (candidate_as_dict done) },
      ))
      docs

-- `resolve_action_candidate`
unfoldable pub firestore_resolve :
    Runtime → String → String → String → Action FirestoreRecords RegistryActionCandidate
unfolding transition lookup
firestore_resolve rt id decision decided_at docs =
    transition rt id (lookup docs.action_documents id) decision decided_at docs
