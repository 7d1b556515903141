-- ===== src/Events/Decode/Strict.antt =====
-- event_contracts.py: what an accepted event is, and how a refused envelope fails.
use vice_ceo_proof_carrying.Events.Decode.{
  accept_event, decode_payload, decode_synthetic_pubsub_event, event_of_payload, expected_fields,
  is_allowed, malformed, missing, open_envelope, require_string, require_timestamp, string_value,
}
use vice_ceo_proof_carrying.Events.Types.{
  SyntheticEvent, demo_source, event_schema_version, support_event_type,
}
use vice_ceo_proof_carrying.Fixtures.{password_reset_id, read_synthetic_case}
use vice_ceo_proof_carrying.Json.{Fields, Json, has_exactly, member, object, text}
use vice_ceo_proof_carrying.Outcome.{>>=-eq-ok, ok, ok_of_bind}
use vice_ceo_proof_carrying.Prelude.{
  Bool-cases, Option, String, arith, eq_iff, false, inl, inr, some, true, ℕ, ◌∙◌, ◌≡◌,
}
use vice_ceo_proof_carrying.Runtime.{Runtime, normalize_timestamp, normalize_timestamp_ok}
use vice_ceo_proof_carrying.Strips.{is_blank-strip, strip-strip}
use vice_ceo_proof_carrying.Text.{is_blank, strip}

-- What the contract promises of an event.
pub record IsAccepted (rt : Runtime) (e : SyntheticEvent) : Type 0 where
  pub schema : e.schema_version ≡ event_schema_version
  pub demo : e.source ≡ demo_source
  pub support : e.event_type ≡ support_event_type
  pub registered : e.case_id ≡ password_reset_id
  pub identified : is_blank e.event_id ≡ false
  pub stripped : strip e.event_id ≡ e.event_id
  pub moment : ℕ
  pub in_utc : e.occurred_at ≡ rt.format_utc moment

string_value_ok :
    (name : String) (o : Option Json) {v : String}
    → string_value name o ≡ ok v
    → (s : String) × (is_blank s ≡ false) × (v ≡ strip s)
unfolding string_value
string_value_ok name (some (text value)) h = (value, ground arith, ground arith)
string_value_ok name o h = absurd (cc h)

-- A text that `_require_string` returns is stripped and not blank.
pub require_string_ok :
    (payload : Fields) (name : String) {v : String}
    → require_string payload name ≡ ok v
    → (is_blank v ≡ false) × (strip v ≡ v)
unfolding require_string
require_string_ok payload name h =
    let (s, shown, e) = string_value_ok name (member name payload) h in
    (rw e (is_blank-strip s ∙ shown), rw e (strip-strip s))

pub require_timestamp_ok :
    (rt : Runtime) (payload : Fields) (name : String) {v : String}
    → require_timestamp rt payload name ≡ ok v
    → (t : ℕ) × (v ≡ rt.format_utc t)
unfolding require_timestamp
require_timestamp_ok rt payload name h =
    ok_of_bind (require_string payload name) (normalize_timestamp rt (missing name)) h
      λ s _ rest. normalize_timestamp_ok rt (missing name) s rest

record IsRead (rt : Runtime) (e : SyntheticEvent) : Type 0 where
  shown : is_blank e.event_id ≡ false
  kept : strip e.event_id ≡ e.event_id
  moment : ℕ
  in_utc : e.occurred_at ≡ rt.format_utc moment

event_of_payload-IsRead :
    (rt : Runtime) (payload : Fields) {e : SyntheticEvent}
    → event_of_payload rt payload ≡ ok e
    → IsRead rt e
unfolding event_of_payload
event_of_payload-IsRead rt payload h = ok_of_bind (require_string payload "event_id") _ h λ a ha h1.
    ok_of_bind (require_string payload "event_type") _ h1 λ b _ h2.
      ok_of_bind (require_string payload "source") _ h2 λ c _ h3.
        ok_of_bind (require_string payload "case_id") _ h3 λ d _ h4.
          ok_of_bind (require_timestamp rt payload "occurred_at") _ h4 λ t ht h5.
            ok_of_bind (require_string payload "schema_version") _ h5 λ s _ h6.
              let (shown, kept) = require_string_ok payload "event_id" ha in
              let (m, utc) = require_timestamp_ok rt payload "occurred_at" ht in
              record {
                shown = ground arith;
                kept = ground arith;
                moment = m;
                in_utc = ground arith;
              }

accept_event_ok :
    (e : SyntheticEvent) {r : SyntheticEvent}
    → accept_event e ≡ ok r
    → (r ≡ e)
      × (e.schema_version ≡ event_schema_version)
      × (e.source ≡ demo_source)
      × (e.event_type ≡ support_event_type)
      × (is_allowed (read_synthetic_case e.case_id) ≡ true)
unfolding accept_event
accept_event_ok e h = ground (
  arith,
  eq_iff e.schema_version event_schema_version,
  eq_iff e.source demo_source,
  eq_iff e.event_type support_event_type,
)

is_allowed_registered :
    (i : String) → is_allowed (read_synthetic_case i) ≡ true → i ≡ password_reset_id
unfolding read_synthetic_case
is_allowed_registered i h = ground (arith, eq_iff password_reset_id i)

decode_payload_ok :
    (rt : Runtime) (o : Json) {e : SyntheticEvent}
    → decode_payload rt o ≡ ok e
    → (payload : Fields) × (r : SyntheticEvent) × (event_of_payload rt payload ≡ ok r)
      × (accept_event r ≡ ok e)
unfolding decode_payload
decode_payload_ok rt (object payload) h = elim (Bool-cases (has_exactly payload expected_fields)) [
  | inl exact ↦
      let (r, read, accepted) =
        >>=-eq-ok (event_of_payload rt payload) accept_event (rw exact at h) in
      (payload, r, read, accepted)
  | inr other ↦ absurd (cc (rw other at h))
]
decode_payload_ok rt o h = absurd (cc h)

-- An event that the decoder accepts meets the contract.
pub decode-IsAccepted :
    (rt : Runtime) (envelope : Json) {e : SyntheticEvent}
    → decode_synthetic_pubsub_event rt envelope ≡ ok e
    → IsAccepted rt e
unfolding decode_synthetic_pubsub_event
decode-IsAccepted rt envelope {e} h =
    let (o, opened, decoded) = >>=-eq-ok (open_envelope rt malformed envelope) _ h in
    let (payload, r, read, accepted) = decode_payload_ok rt o decoded in
    let w : IsRead rt r = event_of_payload-IsRead rt payload read in
    let (same, schema, demo, support, allowed) = accept_event_ok r accepted in
    rw same (record {
      schema = schema;
      demo = demo;
      support = support;
      registered = is_allowed_registered r.case_id allowed;
      identified = w.shown;
      stripped = w.kept;
      moment = w.moment;
      in_utc = w.in_utc;
    })
