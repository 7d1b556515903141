-- ===== src/Registry/Briefs.antt =====
-- registry_watch.py: the brief generators, the two local delivery channels, and the fixture fetcher.
pub mod Guard
use vice_ceo_proof_carrying.Dict.{Dict, lookup}
use vice_ceo_proof_carrying.Json.{decimal}
use vice_ceo_proof_carrying.Outcome.{
  Result, ok, or_raise, registry_watch_error, require, value_error, ◌>>=◌, ◌>>◌,
}
use vice_ceo_proof_carrying.Prelude.{
  Bool, String, [], false, if◌then◌else◌, nat_eq, none, not, string_eq, ◌==◌, ◌||◌, ◌∷◌,
}
use vice_ceo_proof_carrying.Registry.Decode.{watch_timestamp}
use vice_ceo_proof_carrying.Registry.Segments.{TextTools, changed_segment_count}
use vice_ceo_proof_carrying.Registry.Types.{
  InternalDeliveryReceipt, RegistryChange, RegistryImpactBrief, RegistrySource,
  RegistrySourceCapture,
}
use vice_ceo_proof_carrying.Runtime.{Runtime}
use vice_ceo_proof_carrying.Text.{append, concat, first, is_blank, join}

-- `" ".join(value.lower().split())` and the search for one of the patterns: the regular expressions
-- are a parameter.
pub record SafetyTools : Type 0 where
  pub lower : String → String
  -- a pattern of `assess_untrusted_registry_excerpt` is found in the text
  pub matches_signal : String → Bool

pub record SafetyAssessment : Type 0 where
  pub allowed : Bool
  pub reason_code : String
  pub safety_version : String

-- `assess_untrusted_registry_excerpt`
unfoldable pub assess_untrusted_registry_excerpt :
    TextTools → SafetyTools → String → SafetyAssessment
assess_untrusted_registry_excerpt tools safety value =
    let matched = safety.matches_signal (tools.collapse (safety.lower value)) in
    record {
      allowed = not matched;
      reason_code =
          if matched
          then "untrusted_source_instruction_signal"
          else "untrusted_source_content_allowed";
      safety_version = "registry_source_prompt_injection_gate_v1";
    }

-- `DeterministicRegistryBriefGenerator.generate`
unfoldable pub deterministic_brief : Runtime → RegistryChange → RegistryImpactBrief
unfolding append concat first join decimal
deterministic_brief rt change =
    let seed = join "|" (
      change.source.source_id ∷ change.prior_snapshot.evidence_sha256
      ∷ change.current_snapshot.evidence_sha256 ∷ []) in
    record {
      brief_id = append "registry_brief_" (first 20 (rt.sha256 seed));
      source_id = change.source.source_id;
      source_display_name = change.source.display_name;
      source_citation_url = change.source.canonical_url;
      prior_version = change.prior_snapshot.source_version;
      current_version = change.current_snapshot.source_version;
      source_evidence_sha256 = change.current_snapshot.evidence_sha256;
      change_summary = concat (
          "The monitored source advanced from "
          ∷ change.prior_snapshot.source_version
          ∷ " to "
          ∷ change.current_snapshot.source_version
          ∷ "; "
          ∷ decimal change.changed_segment_count
          ∷ " newly observed public-content segment(s) were isolated for review."
          ∷ []);
      recommended_next_action = concat (
          "Review the cited " ∷ change.source.jurisdiction ∷ " change for "
          ∷ change.source.operational_focus
          ∷ ", compare it to the retained evidence, and decide whether an internal Westover impact memo is needed."
          ∷ []);
      legal_or_regulatory_conclusion = false;
      model_mode = "deterministic_evidence_summary";
      jurisdiction = change.source.jurisdiction;
      source_owner = change.source.source_owner;
      operational_focus = change.source.operational_focus;
      changed_content_excerpt_sha256 = rt.sha256 change.changed_content_excerpt;
      changed_segment_count = change.changed_segment_count;
    }

-- `replace(fallback, ...)` of the guard.
unfoldable pub blocked_brief : RegistryImpactBrief → RegistryImpactBrief
blocked_brief b = record b {
  change_summary =
      "A public-source content safety signal blocked model processing for this change. The evidence hash and official source link were retained for owner review; no source text was treated as an instruction.";
  recommended_next_action =
      "Review the cited official source directly and determine whether an internal Westover impact memo is needed.";
  model_mode = "deterministic_public_source_safety_fallback";
}

abbrev pub Generator : Type 0
Generator = RegistryChange → Result RegistryImpactBrief

-- `GuardedRegistryBriefGenerator.generate`
unfoldable pub guarded_brief : TextTools → SafetyTools → Generator → Generator → Generator
unfolding assess_untrusted_registry_excerpt blocked_brief
guarded_brief tools safety generator fallback change =
    if (assess_untrusted_registry_excerpt tools safety change.changed_content_excerpt).allowed
    then generator change
    else (do b ← fallback change; ok (blocked_brief b))

-- `DisabledInternalBriefDelivery.deliver`
unfoldable pub disabled_delivery : RegistryImpactBrief → Result InternalDeliveryReceipt
disabled_delivery b = ok (record {
  state = "not_configured";
  provider = "disabled";
  recipient_sha256 = none;
  receipt_id = none;
  reason_code = "internal_brief_delivery_disabled";
  external_prospect_effect = false;
})

-- `RegistrySourceCapture.__post_init__`
unfoldable pub check_capture : Runtime → RegistrySourceCapture → Result RegistrySourceCapture
unfolding is_blank first watch_timestamp
check_capture rt c = do
  require (not (is_blank c.source_id || is_blank c.source_version))
      (value_error "registry_capture_identity_required")
  require (first 8 c.canonical_url == "https://") (value_error "registry_capture_requires_https")
  require (not (is_blank c.normalized_content)) (value_error "registry_capture_content_required")
  moment ← watch_timestamp rt c.captured_at
  ok c

-- `FixtureRegistrySourceFetcher.fetch`, of the named revisions.
unfoldable pub fixture_fetch :
    Runtime → Dict String (String × String) → RegistrySource → Result RegistrySourceCapture
unfolding check_capture
fixture_fetch rt revisions source = do
  (version, content) ←
      or_raise (lookup revisions source.source_id)
        (registry_watch_error "registry_source_fixture_unavailable")
  check_capture rt (record {
    source_id = source.source_id;
    canonical_url = source.canonical_url;
    source_version = version;
    captured_at = "2026-08-23T12:00:00Z";
    normalized_content = content;
    normalization_version = "fixture_normalized_content_v1";
  })
