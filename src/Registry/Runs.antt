-- ===== src/Registry/Runs.antt =====
-- registry_watch.py: the checks of `RegistryWatchEngine.process` and the parts of a run.
use vice_ceo_proof_carrying.Dict.{Dict, lookup}
use vice_ceo_proof_carrying.Outcome.{
  Result, ok, or_raise, raise, registry_watch_error, require, value_error, ◌>>=◌, ◌>>◌,
}
use vice_ceo_proof_carrying.Prelude.{
  Option, String, [], false, if◌then◌else◌, nat_eq, none, not, some, string_eq, true, ◌&&◌, ◌==◌,
  ◌∷◌,
}
use vice_ceo_proof_carrying.Registry.Actions.{awaiting_owner_review, unresolved}
use vice_ceo_proof_carrying.Registry.Decode.{watch_timestamp}
use vice_ceo_proof_carrying.Registry.Segments.{TextTools, content_segment_hashes}
use vice_ceo_proof_carrying.Registry.Types.{
  InternalDeliveryReceipt, RegistryActionCandidate, RegistryChange, RegistryImpactBrief,
  RegistrySnapshot, RegistrySource, RegistrySourceCapture, RegistryWatchEvent, RegistryWatchRun,
  registry_event_key, registry_event_schema_version, registry_event_type,
  registry_run_schema_version, registry_watch_source,
}
use vice_ceo_proof_carrying.Runtime.{Datetime, Runtime, as_utc}
use vice_ceo_proof_carrying.Text.{append, concat, first, is_blank}

pub record Watch : Type 0 where
  pub sources : Dict String RegistrySource
  -- `self._fetcher.fetch(source)`, of the call's moment
  pub fetch : RegistrySource → Result RegistrySourceCapture
  -- `self._brief_generator.generate(change)`
  pub generate : RegistryChange → Result RegistryImpactBrief
  -- `self._internal_delivery.deliver(brief)`
  pub deliver : RegistryImpactBrief → Result InternalDeliveryReceipt
  -- the readings of the clock: at the start (or of the duplicate), and at the end
  pub started : Datetime
  pub completed : Datetime

-- `_timestamp`
unfoldable pub watch_clock : Runtime → Datetime → Result String
unfolding as_utc
watch_clock rt d = do
  moment ← as_utc (value_error "registry_watch_clock_must_be_timezone_aware") d
  ok (rt.format_utc moment)

-- `_validate_event`
unfoldable pub validate_event : Runtime → Watch → RegistryWatchEvent → Result RegistrySource
unfolding is_blank watch_timestamp
validate_event rt w e = do
  require (not (is_blank e.event_id)) (registry_watch_error "registry_watch_event_id_required")
  require (e.event_type == registry_event_type)
      (registry_watch_error "unsupported_registry_watch_event_type")
  require (e.source == registry_watch_source)
      (registry_watch_error "untrusted_registry_watch_source")
  require (e.schema_version == registry_event_schema_version)
      (registry_watch_error "unsupported_registry_watch_schema")
  moment ← watch_timestamp rt e.scheduled_for
  or_raise (lookup w.sources e.source_id) (registry_watch_error "unregistered_registry_source")

-- `_validated_snapshot`
unfoldable pub validated_snapshot :
    Runtime → TextTools → RegistrySource → RegistrySourceCapture → Result RegistrySnapshot
unfolding watch_timestamp content_segment_hashes
validated_snapshot rt tools source c = do
  require (c.source_id == source.source_id && c.canonical_url == source.canonical_url)
      (registry_watch_error "registry_capture_source_mismatch")
  captured_at ← watch_timestamp rt c.captured_at
  ok (record {
    source_id = c.source_id;
    canonical_url = c.canonical_url;
    source_version = c.source_version;
    captured_at = captured_at;
    evidence_sha256 = rt.sha256 c.normalized_content;
    byte_count = tools.byte_length c.normalized_content;
    normalization_version = c.normalization_version;
    content_segment_hashes = content_segment_hashes rt tools c.normalized_content;
  })

-- `_duplicate_run`
unfoldable pub duplicate_run : Runtime → RegistryWatchEvent → String → String → RegistryWatchRun
unfolding registry_event_key
duplicate_run rt e run_id timestamp = record {
  run_id = run_id;
  event_id = e.event_id;
  source_id = e.source_id;
  status = "duplicate";
  reason_code = "registry_watch_event_already_claimed";
  idempotency_key = registry_event_key rt e;
  schema_version = registry_run_schema_version;
  started_at = timestamp;
  completed_at = timestamp;
  snapshot = none;
  brief = none;
  internal_delivery = none;
  external_prospect_effect = false;
  customer_record_mutation = false;
  legal_or_regulatory_conclusion = false;
  action_candidate = none;
}

-- The arguments of `_run` that depend on the outcome.
pub record WatchOutcome : Type 0 where
  pub status : String
  pub reason_code : String
  pub brief : Option RegistryImpactBrief
  pub internal_delivery : Option InternalDeliveryReceipt
  pub action_candidate : Option RegistryActionCandidate

-- `_run`
unfoldable pub watch_run :
    Runtime
    → RegistryWatchEvent
    → String
    → String
    → String
    → RegistrySnapshot
    → WatchOutcome
    → RegistryWatchRun
unfolding registry_event_key
watch_run rt e run_id started_at completed_at snapshot o = record {
  run_id = run_id;
  event_id = e.event_id;
  source_id = e.source_id;
  status = o.status;
  reason_code = o.reason_code;
  idempotency_key = registry_event_key rt e;
  schema_version = registry_run_schema_version;
  started_at = started_at;
  completed_at = completed_at;
  snapshot = some snapshot;
  brief = o.brief;
  internal_delivery = o.internal_delivery;
  external_prospect_effect = false;
  customer_record_mutation = false;
  legal_or_regulatory_conclusion = false;
  action_candidate = o.action_candidate;
}

-- `_action_candidate`
unfoldable pub action_candidate_of :
    Runtime → RegistryImpactBrief → RegistrySource → String → RegistryActionCandidate
unfolding append first concat
action_candidate_of rt b source created_at = record {
  candidate_id = append "registry_action_" (
      first 20 (
        rt.sha256 (
          concat
            (b.brief_id ∷ "|" ∷ b.source_evidence_sha256 ∷ "|prepare_internal_impact_memo" ∷ []))));
  brief_id = b.brief_id;
  source_id = source.source_id;
  jurisdiction = source.jurisdiction;
  evidence_sha256 = b.source_evidence_sha256;
  action_type = "prepare_internal_impact_memo";
  status = awaiting_owner_review;
  requires_owner_decision = true;
  external_business_effect = false;
  customer_record_mutation = false;
  created_at = created_at;
  review_summary = b.change_summary;
  recommended_next_action = b.recommended_next_action;
  source_citation_url = b.source_citation_url;
  owner_decision = unresolved;
  owner_decision_at = none;
}

unfoldable pub failed_delivery : InternalDeliveryReceipt
failed_delivery = record {
  state = "failed";
  provider = "configured_internal_channel";
  recipient_sha256 = none;
  receipt_id = none;
  reason_code = "internal_brief_delivery_failed";
  external_prospect_effect = false;
}

-- `except RegistryWatchError` around the delivery.
unfoldable pub caught : Result InternalDeliveryReceipt → Result InternalDeliveryReceipt
unfolding failed_delivery
caught (raise (registry_watch_error message)) = ok failed_delivery
caught r = r

unfoldable pub baseline_outcome : String → WatchOutcome
baseline_outcome reason = record {
  status = "baseline_captured";
  reason_code = reason;
  brief = none;
  internal_delivery = none;
  action_candidate = none;
}

unfoldable pub unchanged_outcome : WatchOutcome
unchanged_outcome = record {
  status = "no_change";
  reason_code = "source_evidence_hash_unchanged";
  brief = none;
  internal_delivery = none;
  action_candidate = none;
}

unfoldable pub brief_outcome :
    RegistryImpactBrief → RegistryActionCandidate → InternalDeliveryReceipt → WatchOutcome
unfolding first
brief_outcome b c d = record {
  status = if first 9 d.state == "delivered" then "brief_delivered" else "brief_prepared";
  reason_code = d.reason_code;
  brief = some b;
  internal_delivery = some d;
  action_candidate = some c;
}

-- `registry_run_` and the digest of the event's key.
unfoldable pub watch_run_id : Runtime → RegistryWatchEvent → String
unfolding append first registry_event_key
watch_run_id rt e = append "registry_run_" (first 20 (rt.sha256 (registry_event_key rt e)))
