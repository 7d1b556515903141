-- ===== src/Registry/Decode.antt =====
-- registry_watch.py: the strict decoder of scheduled events and its helpers.
use vice_ceo_proof_carrying.Events.Decode.{index, open_envelope}
use vice_ceo_proof_carrying.Json.{
  Fields, Json, end, field, has_exactly, member, object, text, texts,
}
use vice_ceo_proof_carrying.Outcome.{Error, Result, ok, raise, registry_watch_error, ◌>>=◌}
use vice_ceo_proof_carrying.Prelude.{List, Option, String, [], if◌then◌else◌, some, ◌∷◌}
use vice_ceo_proof_carrying.Registry.Types.{RegistryWatchEvent, registry_event_payload}
use vice_ceo_proof_carrying.Runtime.{Runtime, normalize_timestamp}
use vice_ceo_proof_carrying.Text.{concat, is_blank, strip}

abbrev pub timestamp_error : Error
timestamp_error = registry_watch_error "registry_watch_timestamp_invalid"

-- `_normalize_timestamp` of registry_watch.py.
unfoldable pub watch_timestamp : Runtime → String → Result String
watch_timestamp rt value = normalize_timestamp rt timestamp_error value

field_value : String → Option Json → Result String
unfolding concat
field_value name (some (text value)) =
    if is_blank value
    then raise (registry_watch_error (concat ("registry_watch_" ∷ name ∷ "_invalid" ∷ [])))
    else ok (strip value)
field_value name _ =
    raise (registry_watch_error (concat ("registry_watch_" ∷ name ∷ "_invalid" ∷ [])))

-- `_require_nonempty_string`
unfoldable pub require_nonempty_string : Fields → String → Result String
unfolding field_value
require_nonempty_string payload name = field_value name (member name payload)

abbrev watch_fields : List String
watch_fields =
    "event_id" ∷ "source_id" ∷ "scheduled_for" ∷ "event_type" ∷ "source" ∷ "schema_version" ∷ []

abbrev scheduler_fields : List String
scheduler_fields = "source_id" ∷ "event_type" ∷ "source" ∷ "schema_version" ∷ []

abbrev envelope_error : Error
envelope_error = registry_watch_error "malformed_registry_watch_pubsub_envelope"

-- The event, with the id and the time under the given names of the given object.
read_watch_event :
    Runtime
    → Fields
    → (identity : Fields × String) → (time : Fields × String) → Result RegistryWatchEvent
read_watch_event rt payload (owner, id_name) (clock, time_name) = do
  event_id ← require_nonempty_string owner id_name
  source_id ← require_nonempty_string payload "source_id"
  written ← require_nonempty_string clock time_name
  scheduled_for ← watch_timestamp rt written
  event_type ← require_nonempty_string payload "event_type"
  source ← require_nonempty_string payload "source"
  schema_version ← require_nonempty_string payload "schema_version"
  ok (record {
    event_id = event_id;
    source_id = source_id;
    scheduled_for = scheduled_for;
    event_type = event_type;
    source = source;
    schema_version = schema_version;
  })

-- The event of a scheduler, whose id and time are the message's.
scheduled_event : Runtime → Fields → Option Json → Result RegistryWatchEvent
unfolding read_watch_event
scheduled_event rt payload (some (object message)) =
    read_watch_event rt payload (message, "messageId") (message, "publishTime")
scheduled_event rt payload _ = raise envelope_error

watch_event_of : Runtime → Json → Json → Result RegistryWatchEvent
unfolding scheduled_event read_watch_event index
watch_event_of rt envelope (object payload) =
    if has_exactly payload scheduler_fields
    then scheduled_event rt payload (index envelope "message")
    else if has_exactly payload watch_fields
    then read_watch_event rt payload (payload, "event_id") (payload, "scheduled_for")
    else raise (registry_watch_error "unrecognized_registry_watch_event_fields")
watch_event_of rt envelope _ = raise (registry_watch_error "registry_watch_event_must_be_object")

-- `decode_registry_watch_pubsub_event`
unfoldable pub decode_registry_watch_pubsub_event : Runtime → Json → Result RegistryWatchEvent
unfolding watch_event_of
decode_registry_watch_pubsub_event rt envelope =
    open_envelope rt envelope_error envelope >>= watch_event_of rt envelope

-- `encode_registry_watch_pubsub_event`
unfoldable pub encode_registry_watch_pubsub_event : Runtime → RegistryWatchEvent → Json
encode_registry_watch_pubsub_event rt e = object (
    field "message"
      (object (
        texts
          (("data", rt.encode_data (registry_event_payload e)) ∷ ("messageId", e.event_id) ∷ [])))
      end)
