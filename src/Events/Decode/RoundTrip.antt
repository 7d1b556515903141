-- ===== src/Events/Decode/RoundTrip.antt =====
-- event_contracts.py: an accepted event survives `encode_synthetic_pubsub_event` and the decoder.
use vice_ceo_proof_carrying.Events.Decode.{
  accept_event, decode_payload, decode_synthetic_pubsub_event, encode_synthetic_pubsub_event,
  event_of_payload, expected_fields, index, is_allowed, malformed, open_envelope, require_string,
  require_timestamp, string_value,
}
use vice_ceo_proof_carrying.Events.Decode.Strict.{IsAccepted}
use vice_ceo_proof_carrying.Events.Types.{
  SyntheticEvent, canonical_payload, demo_source, event_fields, event_schema_version,
  support_event_type,
}
use vice_ceo_proof_carrying.Fixtures.{password_reset_id, read_synthetic_case}
use vice_ceo_proof_carrying.Json.{Fields, has_exactly, is_listed, member, object, text}
use vice_ceo_proof_carrying.Outcome.{ok}
use vice_ceo_proof_carrying.Prelude.{
  String, arith, eq_iff, false, nat_eq, refl, some, string_eq, true, ◌≡◌,
}
use vice_ceo_proof_carrying.Runtime.{IsRuntime, Runtime, normalize_timestamp-format_utc}
use vice_ceo_proof_carrying.Text.{is_blank, is_space, lstrip, rstrip, strip}

require_string_field :
    (payload : Fields) (name v : String)
    → member name payload ≡ some (text v)
    → is_blank v ≡ false
    → strip v ≡ v
    → require_string payload name ≡ ok v
unfolding require_string string_value
require_string_field payload name v found shown kept = rw (found, shown, kept)

-- `json.loads` undoes `json.dumps` through the base64 text of this event.
abbrev pub Carries : Runtime → SyntheticEvent → Type 0
Carries rt e =
    rt.decode_data (text (rt.encode_data (canonical_payload e))) ≡ ok (object (event_fields e))

open_envelope-encode :
    (rt : Runtime) (e : SyntheticEvent)
    → Carries rt e
    → open_envelope rt malformed (encode_synthetic_pubsub_event rt e) ≡ ok (object (event_fields e))
unfolding open_envelope encode_synthetic_pubsub_event index member
open_envelope-encode rt e carried = rw carried refl

event_fields_exact : (e : SyntheticEvent) → has_exactly (event_fields e) expected_fields ≡ true
unfolding has_exactly event_fields is_listed
event_fields_exact e = refl

-- A field that holds one of the contract's constants.
require_string_constant :
    (payload : Fields) (name v k : String)
    → member name payload ≡ some (text v)
    → v ≡ k
    → is_blank k ≡ false
    → strip k ≡ k
    → require_string payload name ≡ ok v
require_string_constant payload name v k found e shown kept =
    require_string_field payload name v found (rw e shown) (rw e kept)

registered_allowed :
    (i : String) → i ≡ password_reset_id → is_allowed (read_synthetic_case i) ≡ true
unfolding read_synthetic_case
registered_allowed i h = rw h

module _ (rt : Runtime) (laws : IsRuntime rt) (e : SyntheticEvent) (good : IsAccepted rt e) where
  occurred_at_kept : require_timestamp rt (event_fields e) "occurred_at" ≡ ok e.occurred_at
  unfolding require_timestamp event_fields member
  occurred_at_kept =
      rw
        (require_string_field (event_fields e) "occurred_at" e.occurred_at refl
          (rw good.in_utc (laws.format_shown good.moment))
          (rw good.in_utc (laws.strip-format good.moment)))
        (rw good.in_utc (normalize_timestamp-format_utc rt laws _ good.moment))

  event_of_payload-event_fields : event_of_payload rt (event_fields e) ≡ ok e
  unfolding event_of_payload event_fields member strip lstrip rstrip is_blank is_space
  event_of_payload-event_fields = rw (
    require_string_field (event_fields e) "event_id" e.event_id refl good.identified good.stripped,
    require_string_constant (event_fields e) "event_type" e.event_type _ refl good.support refl
        refl,
    require_string_constant (event_fields e) "source" e.source _ refl good.demo refl refl,
    require_string_constant (event_fields e) "case_id" e.case_id _ refl good.registered refl refl,
    occurred_at_kept,
    require_string_constant (event_fields e) "schema_version" e.schema_version _ refl good.schema
        refl refl,
  )

  accept_event-IsAccepted : accept_event e ≡ ok e
  unfolding accept_event
  accept_event-IsAccepted = ground (
    arith,
    eq_iff e.schema_version event_schema_version,
    eq_iff e.source demo_source,
    eq_iff e.event_type support_event_type,
    registered_allowed e.case_id good.registered,
    good.schema,
    good.demo,
    good.support,
  )

  -- With the documented laws of the libraries, and a decoder that reads the event's own base64 text
  -- as its fields, an event that meets the contract comes back unchanged from its own envelope.
  pub decode-encode :
      Carries rt e → decode_synthetic_pubsub_event rt (encode_synthetic_pubsub_event rt e) ≡ ok e
  unfolding decode_synthetic_pubsub_event
  decode-encode carried = rw (open_envelope-encode rt e carried) (
      unfold decode_payload in
      rw (event_fields_exact e, event_of_payload-event_fields) accept_event-IsAccepted)
