-- ===== src/Registry/Gemini.antt =====
-- registry_watch.py: `GeminiRegistryBriefGenerator`, over what the provider answers to its prompt.
-- `json.loads` is a parameter: `none` is its `ValueError`.
pub mod Confined
use vice_ceo_proof_carrying.Json.{
  Fields, Json, array, flag, has_exactly, member, null, number, object, text,
}
use vice_ceo_proof_carrying.Outcome.{
  Error, Result, ok, or_raise, raise, registry_watch_error, require, value_error, ◌>>=◌, ◌>>◌,
}
use vice_ceo_proof_carrying.Prelude.{
  Bool, Option, String, [], code, false, if◌then◌else◌, leb, nat_eq, none, not, some, string_eq, ℕ,
  ◌&&◌, ◌==◌, ◌∷◌,
}
use vice_ceo_proof_carrying.Registry.Segments.{TextTools, changed_segment_count}
use vice_ceo_proof_carrying.Registry.Types.{RegistryChange, RegistryImpactBrief}
use vice_ceo_proof_carrying.Runtime.{Runtime}
use vice_ceo_proof_carrying.Text.{append, char_count, first, join}

-- The end of the provider's stream: an exception, no final text, or the last final text.
pub data ProviderReply : Type 0 where
  provider_raised no_response : ProviderReply
  final_text : String → ProviderReply

-- `text[text.find("{"):]`, if there is a brace.
from_brace : String → Option String
from_brace String.[] = none
from_brace (String.◌∷◌ c s) =
    let rest = from_brace s in if code c == 123 then some (String.◌∷◌ c s) else rest

-- The text up to its last closing brace, if there is one.
upto_brace : String → Option String
upto_brace String.[] = none
upto_brace (String.◌∷◌ c s) = elim (upto_brace s) [
  | some p ↦ some (String.◌∷◌ c p)
  | none ↦ if code c == 125 then some (String.◌∷◌ c String.[]) else none
]

abbrev json_missing : Error
json_missing = value_error "registry_brief_model_json_missing"

abbrev bad_schema : Error
bad_schema = value_error "schema"

-- `_model_json_object`. A closing brace after the first opening brace is one of the suffix.
unfoldable pub model_json_object : (String → Option Json) → String → Result Json
unfolding from_brace upto_brace
model_json_object loads response_text = do
  opened ← or_raise (from_brace response_text) json_missing
  enclosed ← or_raise (upto_brace opened) json_missing
  or_raise (loads enclosed) (value_error "json_decode_error")

-- A text between one and `limit` characters long.
unfoldable pub fits : String → ℕ → Bool
unfolding char_count
fits s limit = not (s == "") && leb (char_count s) limit

-- `_bounded_model_string`
unfoldable pub bounded_model_string : TextTools → Json → ℕ → Result String
unfolding fits
bounded_model_string tools (text value) limit = do
  require (fits (tools.collapse value) limit) (value_error "registry_brief_model_value_invalid")
  ok (tools.collapse value)
bounded_model_string tools (number n) limit =
    raise (value_error "registry_brief_model_value_not_string")
bounded_model_string tools (flag b) limit =
    raise (value_error "registry_brief_model_value_not_string")
bounded_model_string tools (array items) limit =
    raise (value_error "registry_brief_model_value_not_string")
bounded_model_string tools (object fs) limit =
    raise (value_error "registry_brief_model_value_not_string")
bounded_model_string tools null limit = raise (value_error "registry_brief_model_value_not_string")

-- `output[name]`, bounded.
unfoldable pub bounded_at : TextTools → Fields → String → ℕ → Result String
unfolding member bounded_model_string
bounded_at tools output name limit = do
  value ← or_raise (member name output) (value_error name)
  bounded_model_string tools value limit

-- The summary and the next action of an answer that is an object.
unfoldable pub read_output : TextTools → Json → Result (String × String)
unfolding has_exactly bounded_at
read_output tools (object output) = do
  require (has_exactly output ("change_summary" ∷ "recommended_next_action" ∷ [])) bad_schema
  summary ← bounded_at tools output "change_summary" 500
  next_action ← bounded_at tools output "recommended_next_action" 300
  ok (summary, next_action)
read_output tools (text s) = raise bad_schema
read_output tools (number n) = raise bad_schema
read_output tools (flag b) = raise bad_schema
read_output tools (array items) = raise bad_schema
read_output tools null = raise bad_schema

-- `except (TypeError, ValueError)`: the parsing raises nothing else.
abbrev schema_checked {ℓ} : {A : Type ℓ} → Result A → Result A
schema_checked (ok a) = ok a
schema_checked (raise e) = raise (registry_watch_error "registry_brief_provider_schema_invalid")

-- The brief of the two texts.
unfoldable pub model_brief : Runtime → RegistryChange → String → String → RegistryImpactBrief
unfolding append first join
model_brief rt change summary next_action =
    let seed = join "|" (
      change.source.source_id ∷ change.prior_snapshot.evidence_sha256
      ∷ change.current_snapshot.evidence_sha256 ∷ []) in
    record {
      brief_id = append "registry_brief_" (first 20 (rt.sha256 seed));
      source_id = change.source.source_id;
      source_display_name = change.source.display_name;
      source_citation_url = change.source.canonical_url;
      prior_version = change.prior_snapshot.source_version;
      current_version = change.current_snapshot.source_version;
      source_evidence_sha256 = change.current_snapshot.evidence_sha256;
      change_summary = summary;
      recommended_next_action = next_action;
      legal_or_regulatory_conclusion = false;
      model_mode = "gemini_3_5_flash_adk";
      jurisdiction = change.source.jurisdiction;
      source_owner = change.source.source_owner;
      operational_focus = change.source.operational_focus;
      changed_content_excerpt_sha256 = rt.sha256 change.changed_content_excerpt;
      changed_segment_count = change.changed_segment_count;
    }

module _ (rt : Runtime) (tools : TextTools) (loads : String → Option Json) where
  -- The two texts of a response.
  unfoldable pub texts_of : String → Result (String × String)
  unfolding model_json_object read_output
  texts_of response_text =
      schema_checked (do output ← model_json_object loads response_text; read_output tools output)

  -- `_generate`, after the provider's stream.
  unfoldable pub gemini_brief : ProviderReply → RegistryChange → Result RegistryImpactBrief
  unfolding texts_of model_brief
  gemini_brief provider_raised change =
      raise (registry_watch_error "registry_brief_provider_failed")
  gemini_brief no_response change =
      raise (registry_watch_error "registry_brief_provider_missing_response")
  gemini_brief (final_text response_text) change = do
    (summary, next_action) ← texts_of response_text
    ok (model_brief rt change summary next_action)
