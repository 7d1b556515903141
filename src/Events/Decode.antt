-- ===== src/Events/Decode.antt =====
-- event_contracts.py: the strict decoder of Pub/Sub envelopes and the encoder of fixtures.
pub mod Strict
pub mod Refusal
pub mod RoundTrip
use vice_ceo_proof_carrying.Events.Types.{
  SyntheticEvent, canonical_payload, demo_source, event_schema_version, support_event_type,
}
use vice_ceo_proof_carrying.Fixtures.{CaseResult, case_allowed, case_denied, read_synthetic_case}
use vice_ceo_proof_carrying.Json.{
  Fields, Json, end, field, has_exactly, member, object, text, texts,
}
use vice_ceo_proof_carrying.Outcome.{
  Error, Result, event_contract_error, ok, raise, require, type_error, value_error, ◌>>=◌, ◌>>◌,
}
use vice_ceo_proof_carrying.Prelude.{
  Bool, List, Option, String, [], false, if◌then◌else◌, nat_eq, none, some, string_eq, true, ◌==◌,
  ◌∷◌,
}
use vice_ceo_proof_carrying.Runtime.{Runtime, normalize_timestamp}
use vice_ceo_proof_carrying.Text.{append, is_blank, strip}

unfoldable pub missing : String → Error
unfolding append
missing name = event_contract_error (append "missing_or_invalid_" name)

unfoldable pub string_value : String → Option Json → Result String
string_value name (some (text value)) =
    if is_blank value then raise (missing name) else ok (strip value)
string_value name _ = raise (missing name)

-- `_require_string`
unfoldable pub require_string : Fields → String → Result String
unfolding string_value missing
require_string payload name = string_value name (member name payload)

-- `_require_timestamp`
unfoldable pub require_timestamp : Runtime → Fields → String → Result String
unfolding normalize_timestamp missing
require_timestamp rt payload name = do
  value ← require_string payload name
  normalize_timestamp rt (missing name) value

abbrev pub expected_fields : List String
expected_fields =
    "event_id" ∷ "event_type" ∷ "source" ∷ "case_id" ∷ "occurred_at" ∷ "schema_version" ∷ []

-- `value[name]`; `none` is a `KeyError` or a `TypeError`.
unfoldable pub index : Json → String → Option Json
index (object fs) name = member name fs
index _ name = none

-- `except (Base64DecodeError, KeyError, TypeError, ValueError, UnicodeDecodeError)`: the first and the
-- last are kinds of `ValueError`. Another exception goes on.
unfoldable pub caught_as : Error → Result Json → Result Json
caught_as e (ok j) = ok j
caught_as e (raise (value_error m)) = raise e
caught_as e (raise (type_error m)) = raise e
caught_as e (raise x) = raise x

-- `loads(b64decode(envelope["message"]["data"], validate=True).decode("utf-8"))`, with the exception
-- that stands for the ones that are caught.
unfoldable pub open_envelope : Runtime → Error → Json → Result Json
unfolding caught_as
open_envelope rt e envelope = elim (index envelope "message") [
  | none ↦ raise e
  | some message ↦ elim (index message "data") [
    | none ↦ raise e
    | some encoded ↦ caught_as e (rt.decode_data encoded)
  ]
]

unfoldable pub event_of_payload : Runtime → Fields → Result SyntheticEvent
event_of_payload rt payload = do
  event_id ← require_string payload "event_id"
  event_type ← require_string payload "event_type"
  source ← require_string payload "source"
  case_id ← require_string payload "case_id"
  occurred_at ← require_timestamp rt payload "occurred_at"
  schema_version ← require_string payload "schema_version"
  ok (record {
    event_id = event_id;
    event_type = event_type;
    source = source;
    case_id = case_id;
    occurred_at = occurred_at;
    schema_version = schema_version;
  })

abbrev pub is_allowed : CaseResult → Bool
is_allowed (case_denied reason message) = false
is_allowed (case_allowed c) = true

unfoldable pub accept_event : SyntheticEvent → Result SyntheticEvent
accept_event e = do
  require (e.schema_version == event_schema_version)
      (event_contract_error "unsupported_synthetic_event_schema")
  require (e.source == demo_source) (event_contract_error "only_synthetic_demo_source_allowed")
  require (e.event_type == support_event_type)
      (event_contract_error "unsupported_synthetic_event_type")
  require (is_allowed (read_synthetic_case e.case_id))
      (event_contract_error "unknown_or_non_synthetic_case")
  ok e

unfoldable pub decode_payload : Runtime → Json → Result SyntheticEvent
unfolding event_of_payload accept_event
decode_payload rt (object payload) =
    if has_exactly payload expected_fields
    then (do event ← event_of_payload rt payload; accept_event event)
    else raise (event_contract_error "unrecognized_synthetic_event_fields")
decode_payload rt _ = raise (event_contract_error "synthetic_event_payload_must_be_object")

abbrev pub malformed : Error
malformed = event_contract_error "malformed_synthetic_pubsub_envelope"

-- `decode_synthetic_pubsub_event`
unfoldable pub decode_synthetic_pubsub_event : Runtime → Json → Result SyntheticEvent
unfolding decode_payload open_envelope
decode_synthetic_pubsub_event rt envelope =
    open_envelope rt malformed envelope >>= decode_payload rt

-- `encode_synthetic_pubsub_event`
unfoldable pub encode_synthetic_pubsub_event : Runtime → SyntheticEvent → Json
encode_synthetic_pubsub_event rt e = object (
    field "message"
      (object
        (texts (("data", rt.encode_data (canonical_payload e)) ∷ ("messageId", e.event_id) ∷ [])))
      end)
