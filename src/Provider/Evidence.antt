-- ===== src/Provider/Evidence.antt =====
-- provider_evidence.py: the strict checks of an exported log entry.
use vice_ceo_proof_carrying.Json.{
  Fields, Json, array, flag, has_exactly, member, null, number, object, text,
}
use vice_ceo_proof_carrying.Outcome.{
  Error, Result, ok, or_raise, provider_evidence_error, raise, require, ◌>>=◌, ◌>>◌,
}
use vice_ceo_proof_carrying.Prelude.{
  Bool, List, Option, String, [], code, false, if◌then◌else◌, leb, nat_eq, none, not, some,
  string_eq, true, ℕ, ◌&&◌, ◌==◌, ◌||◌, ◌∷◌,
}
use vice_ceo_proof_carrying.Provider.Canary.{
  prompt_hash, provider_canary_id, provider_canary_receipt_event, provider_canary_receipt_version,
  receipt_id_prefix,
}
use vice_ceo_proof_carrying.Provider.Model.{hackathon_gemini_model}
use vice_ceo_proof_carrying.Runtime.{Runtime}
use vice_ceo_proof_carrying.Text.{append, char_count, first, join, starts_with}

abbrev pub provider_evidence_version : String
provider_evidence_version = "vice-ceo-provider-evidence-v1"

-- `_RECEIPT_KEYS`
abbrev receipt_keys : List String
receipt_keys =
    "receipt_id" ∷ "receipt_version" ∷ "canary_id" ∷ "outcome" ∷ "reason_code" ∷ "model"
    ∷ "prompt_sha256" ∷ "response_sha256" ∷ "response_character_count" ∷ "tool_calls"
    ∷ "customer_data" ∷ "external_business_effect" ∷ "persistent_business_write"
    ∷ "audit_log_emitted" ∷ []

pub record ProviderConnectivityEvidence : Type 0 where
  pub evidence_id : String
  pub evidence_version : String
  pub receipt_id : String
  pub receipt_timestamp : String
  pub model : String
  pub prompt_sha256 : String
  pub response_sha256 : String
  pub response_character_count : ℕ
  pub provider_connectivity_verified : Bool
  pub tools_verified_absent : Bool
  pub customer_data_verified_absent : Bool
  pub external_business_effect : Bool
  pub persistent_business_write : Bool
  pub production_authority : Bool

abbrev refusal : String → Error
refusal = provider_evidence_error

-- `_mapping`
unfoldable pub mapping : Option Json → String → Result Fields
mapping (some (object fs)) reason = ok fs
mapping (some (array items)) reason = raise (refusal reason)
mapping (some (text s)) reason = raise (refusal reason)
mapping (some (number n)) reason = raise (refusal reason)
mapping (some (flag b)) reason = raise (refusal reason)
mapping (some null) reason = raise (refusal reason)
mapping none reason = raise (refusal reason)

-- `isinstance(value, str)`
unfoldable pub text_of : Option Json → Option String
text_of (some (text s)) = some s
text_of (some (object fs)) = none
text_of (some (array items)) = none
text_of (some (number n)) = none
text_of (some (flag b)) = none
text_of (some null) = none
text_of none = none

-- `value == expected`, for a text
unfoldable pub is_text : String → Option Json → Bool
unfolding text_of
is_text expected value = elim (text_of value) [ none ↦ false | some s ↦ s == expected ]

-- `value is expected`, for a truth value
unfoldable pub is_flag : Bool → Option Json → Bool
is_flag true (some (flag b)) = b
is_flag false (some (flag b)) = not b
is_flag expected (some (object fs)) = false
is_flag expected (some (array items)) = false
is_flag expected (some (number n)) = false
is_flag expected (some (text s)) = false
is_flag expected (some null) = false
is_flag expected none = false

-- `value is None`, of `receipt.get(name)`
unfoldable pub is_none : Option Json → Bool
is_none (some null) = true
is_none (some (object fs)) = false
is_none (some (array items)) = false
is_none (some (number n)) = false
is_none (some (text s)) = false
is_none (some (flag b)) = false
is_none none = true

-- The number that a value stands for where `isinstance(value, int)` holds: in Python the truth values
-- are integers too.
unfoldable pub integer_of : Option Json → Option ℕ
integer_of (some (number n)) = some n
integer_of (some (flag true)) = some 1
integer_of (some (flag false)) = some 0
integer_of (some (object fs)) = none
integer_of (some (array items)) = none
integer_of (some (text s)) = none
integer_of (some null) = none
integer_of none = none

-- `value == 0`
unfoldable pub equals_zero : Option Json → Bool
unfolding integer_of
equals_zero value = elim (integer_of value) [ none ↦ false | some n ↦ n == 0 ]

abbrev positive : ℕ → Option ℕ
positive n = if leb 1 n then some n else none

-- The count of a receipt, if it is an integer of at least one.
unfoldable pub character_count : Option Json → Option ℕ
unfolding integer_of
character_count value = elim (integer_of value) [ none ↦ none | some n ↦ positive n ]

is_hex_digit : ℕ → Bool
is_hex_digit c = (leb 48 c && leb c 57) || (leb 97 c && leb c 102)

all_hex : String → Bool
unfolding is_hex_digit
all_hex String.[] = true
all_hex (String.◌∷◌ c s) = is_hex_digit (code c) && all_hex s

-- `fullmatch(r"[0-9a-f]{64}", value)`
unfoldable pub is_hash : String → Bool
unfolding all_hex char_count
is_hash s = char_count s == 64 && all_hex s

-- `_is_hash`, with the text that it accepts
unfoldable pub hash_of : Option Json → Option String
unfolding text_of is_hash
hash_of value = elim (text_of value) [ none ↦ none | some s ↦ if is_hash s then some s else none ]

-- The receipt of a log entry.
unfoldable pub receipt_of_entry : Fields → Result Fields
unfolding mapping is_text member has_exactly
receipt_of_entry entry = do
  payload ← mapping (member "jsonPayload" entry) "missing_provider_receipt_json_payload"
  require (is_text provider_canary_receipt_event (member "event" payload))
      (refusal "unexpected_provider_receipt_event")
  receipt ← mapping (member "provider_canary_receipt" payload) "missing_provider_canary_receipt"
  require (has_exactly receipt receipt_keys) (refusal "provider_receipt_schema_mismatch")
  ok receipt

-- The checks of the constant fields, before the response.
unfoldable pub check_identity : Runtime → Fields → Result (Unit {0})
unfolding is_text is_none member
check_identity rt r = do
  require (is_text provider_canary_receipt_version (member "receipt_version" r))
      (refusal "provider_receipt_version_mismatch")
  require (is_text provider_canary_id (member "canary_id" r))
      (refusal "provider_receipt_canary_mismatch")
  require (is_text "completed" (member "outcome" r) && is_none (member "reason_code" r))
      (refusal "provider_receipt_not_completed")
  require (is_text hackathon_gemini_model (member "model" r))
      (refusal "provider_receipt_model_mismatch")
  require (is_text (prompt_hash rt) (member "prompt_sha256" r))
      (refusal "provider_receipt_prompt_mismatch")

-- The checks of the boundary fields, after the response.
unfoldable pub check_boundary : Fields → Result (Unit {0})
unfolding equals_zero is_flag member
check_boundary r = do
  require (equals_zero (member "tool_calls" r) && is_flag false (member "customer_data" r))
      (refusal "provider_receipt_tool_or_customer_boundary_failed")
  require
      (is_flag false (member "external_business_effect" r)
        && is_flag false (member "persistent_business_write" r))
      (refusal "provider_receipt_effect_boundary_failed")
  require (is_flag true (member "audit_log_emitted" r))
      (refusal "provider_receipt_audit_boundary_failed")

abbrev pub shown : Option String → Option String
shown none = none
shown (some s) = if s == "" then none else some s

abbrev pub prefixed : Option String → Option String
prefixed none = none
prefixed (some s) = if starts_with receipt_id_prefix s then some s else none

-- The evidence of a receipt that passed.
unfoldable pub evidence_of : Runtime → String → String → String → ℕ → ProviderConnectivityEvidence
unfolding append first join
evidence_of rt receipt_id timestamp response count =
    let seed = join "|" (receipt_id ∷ timestamp ∷ response ∷ []) in
    record {
      evidence_id = append "provider_evidence_" (first 20 (rt.sha256 seed));
      evidence_version = provider_evidence_version;
      receipt_id = receipt_id;
      receipt_timestamp = timestamp;
      model = hackathon_gemini_model;
      prompt_sha256 = prompt_hash rt;
      response_sha256 = response;
      response_character_count = count;
      provider_connectivity_verified = true;
      tools_verified_absent = true;
      customer_data_verified_absent = true;
      external_business_effect = false;
      persistent_business_write = false;
      production_authority = false;
    }

-- `verify_provider_receipt`
unfoldable pub verify_provider_receipt : Runtime → Fields → Result ProviderConnectivityEvidence
unfolding receipt_of_entry check_identity check_boundary hash_of character_count join member text_of
    starts_with
verify_provider_receipt rt entry = do
  r ← receipt_of_entry entry
  check_identity rt r
  response ←
      or_raise (hash_of (member "response_sha256" r))
        (refusal "provider_receipt_response_hash_invalid")
  count ←
      or_raise (character_count (member "response_character_count" r))
        (refusal "provider_receipt_response_length_invalid")
  check_boundary r
  timestamp ←
      or_raise (shown (text_of (member "timestamp" entry)))
        (refusal "provider_receipt_timestamp_missing")
  receipt_id ←
      or_raise (prefixed (text_of (member "receipt_id" r))) (refusal "provider_receipt_id_invalid")
  ok (evidence_of rt receipt_id timestamp response count)
