-- ===== src/Events/Decode/Refusal.antt =====
-- event_contracts.py: a refused envelope fails with an `EventContractError` and nothing else.
use vice_ceo_proof_carrying.Events.Decode.{
  accept_event, caught_as, decode_payload, decode_synthetic_pubsub_event, event_of_payload,
  expected_fields, index, is_allowed, malformed, missing, open_envelope, require_string,
  require_timestamp, string_value,
}
use vice_ceo_proof_carrying.Events.Types.{
  SyntheticEvent, demo_source, event_schema_version, support_event_type,
}
use vice_ceo_proof_carrying.Fixtures.{read_synthetic_case}
use vice_ceo_proof_carrying.Json.{Fields, Json, has_exactly, member, object, text}
use vice_ceo_proof_carrying.Outcome.{
  Error, Result, error_of_bind, event_contract_error, ok, raise, require, type_error, value_error,
}
use vice_ceo_proof_carrying.Prelude.{
  Bool, Bool-cases, Option, Option-cases, String, ap, arith, false, inl, inr, nat_eq, refl, some,
  string_eq, sym, true, ◌==◌, ◌≡◌, ◌⊎◌,
}
use vice_ceo_proof_carrying.Runtime.{Runtime, date_overflow, iso_beyond, normalize_timestamp_error}
use vice_ceo_proof_carrying.Text.{append}

abbrev pub IsContractError : Error → Type 0
IsContractError x = (message : String) × (x ≡ event_contract_error message)

string_value_error :
    (name : String) (o : Option Json) {x : Error} → string_value name o ≡ raise x → x ≡ missing name
unfolding string_value
string_value_error name (some (text value)) h = ground arith
string_value_error name o h = cc h

require_string_error :
    (payload : Fields) (name : String) {x : Error}
    → require_string payload name ≡ raise x
    → IsContractError x
unfolding require_string missing
require_string_error payload name h =
    (append "missing_or_invalid_" name, string_value_error name (member name payload) h)

-- The time of a payload has a zone, and its UTC form is out of range.
abbrev pub IsBeyond : Runtime → Fields → Error → Type 0
IsBeyond rt payload x =
    (written : String) × (require_string payload "occurred_at" ≡ ok written)
    × (rt.parse_iso written ≡ iso_beyond true)
    × (x ≡ date_overflow)

require_timestamp_error :
    (rt : Runtime) (payload : Fields) {x : Error}
    → require_timestamp rt payload "occurred_at" ≡ raise x
    → IsContractError x ⊎ IsBeyond rt payload x
unfolding require_timestamp missing
require_timestamp_error rt payload h =
    error_of_bind (λ y. IsContractError y ⊎ IsBeyond rt payload y)
      (require_string payload "occurred_at") _ h
      (λ bad. inl (require_string_error payload "occurred_at" bad))
      (λ s read bad. elim (normalize_timestamp_error rt _ s bad) [
        | inl same ↦ inl (append "missing_or_invalid_" "occurred_at", same)
        | inr (beyond, unread) ↦ inr (s, read, unread, beyond)
      ])

event_of_payload_error :
    (rt : Runtime) (payload : Fields) {x : Error}
    → event_of_payload rt payload ≡ raise x
    → IsContractError x ⊎ IsBeyond rt payload x
unfolding event_of_payload
event_of_payload_error rt payload h =
    error_of_bind P (require_string payload "event_id") _ h (bad "event_id") λ a _ h1.
      error_of_bind P (require_string payload "event_type") _ h1 (bad "event_type") λ b _ h2.
        error_of_bind P (require_string payload "source") _ h2 (bad "source") λ c _ h3.
          error_of_bind P (require_string payload "case_id") _ h3 (bad "case_id") λ d _ h4.
            error_of_bind P (require_timestamp rt payload "occurred_at") _ h4
              (require_timestamp_error rt payload)
              λ t _ h5.
                error_of_bind P (require_string payload "schema_version") _ h5
                  (bad "schema_version") λ s _ h6. absurd (cc h6)
  where
    P : Error → Type 0
    P y = IsContractError y ⊎ IsBeyond rt payload y

    bad : (name : String) {y : Error} → require_string payload name ≡ raise y → P y
    bad name h = inl (require_string_error payload name h)

accept_event_error : (e : SyntheticEvent) {x : Error} → accept_event e ≡ raise x → IsContractError x
unfolding accept_event
accept_event_error e h =
    error_of_bind P (require (e.schema_version == event_schema_version) _) _ h (one _ _) λ _ _ h1.
      error_of_bind P (require (e.source == demo_source) _) _ h1 (one _ _) λ _ _ h2.
        error_of_bind P (require (e.event_type == support_event_type) _) _ h2 (one _ _) λ _ _ h3.
          error_of_bind P (require (is_allowed (read_synthetic_case e.case_id)) _) _ h3 (one _ _)
            λ _ _ h4. absurd (cc h4)
  where
    P : Error → Type 0
    P = IsContractError

    one :
        (b : Bool) (m : String) {y : Error}
        → require b (event_contract_error m) ≡ raise y
        → IsContractError y
    one true m bad = absurd (cc bad)
    one false m bad = (m, cc bad)

-- The payload is an object whose time is out of range.
IsOutOfRange : Runtime → Json → Error → Type 0
IsOutOfRange rt o x = (payload : Fields) × (o ≡ object payload) × IsBeyond rt payload x

decode_payload_error :
    (rt : Runtime) (o : Json) {x : Error}
    → decode_payload rt o ≡ raise x
    → IsContractError x ⊎ IsOutOfRange rt o x
unfolding decode_payload IsOutOfRange
decode_payload_error rt (object payload) {x} h =
    elim (Bool-cases (has_exactly payload expected_fields)) [
      | inl exact ↦
          error_of_bind (λ y. IsContractError y ⊎ IsOutOfRange rt (object payload) y)
            (event_of_payload rt payload) accept_event (rw exact at h)
            (λ bad. elim (event_of_payload_error rt payload bad) [
              | inl contract ↦ inl contract
              | inr beyond ↦ inr (payload, refl, beyond)
            ])
            (λ r _ bad. inl (accept_event_error r bad))
      | inr other ↦ inl ("unrecognized_synthetic_event_fields", cc (rw other at h))
    ]
decode_payload_error rt o h = inl ("synthetic_event_payload_must_be_object", cc h)

-- An exception that the `except` clause of the decoder names.
abbrev pub is_caught : Error → Bool
is_caught (value_error m) = true
is_caught (type_error m) = true
is_caught x = false

-- Reading the data of the envelope raised an exception that is not caught.
abbrev pub IsUncaught : Runtime → Json → Error → Type 0
IsUncaught rt envelope x =
    (message : Json) × (encoded : Json) × (index envelope "message" ≡ some message)
    × (index message "data" ≡ some encoded)
    × (rt.decode_data encoded ≡ raise x)
    × (is_caught x ≡ false)

caught_split :
    (e : Error)
    → (caught_as malformed (raise e) ≡ raise malformed)
      ⊎ ((is_caught e ≡ false) × (caught_as malformed (raise e) ≡ raise e))
unfolding caught_as
caught_split (value_error m) = inl refl
caught_split (type_error m) = inl refl
caught_split e = inr (refl, refl)

caught_as_error :
    (r : Result Json) {x : Error}
    → caught_as malformed r ≡ raise x
    → IsContractError x ⊎ ((r ≡ raise x) × (is_caught x ≡ false))
unfolding caught_as
caught_as_error (ok j) h = absurd (cc h)
caught_as_error (raise e) {x} h = elim (caught_split e) [
  | inl same ↦ inl ("malformed_synthetic_pubsub_envelope", cc (h, same))
  | inr (free, same) ↦ let back : e ≡ x = cc (h, same) in inr (ap raise back, rw (sym back) free)
]

open_envelope_error :
    (rt : Runtime) (envelope : Json) {x : Error}
    → open_envelope rt malformed envelope ≡ raise x
    → IsContractError x ⊎ IsUncaught rt envelope x
unfolding open_envelope
open_envelope_error rt envelope {x} h = elim (Option-cases (index envelope "message")) [
  | inl absent ↦ inl ("malformed_synthetic_pubsub_envelope", cc (rw (open_envelope, absent) at h))
  | inr (message, there) ↦ elim (Option-cases (index message "data")) [
    | inl absent ↦
        inl ("malformed_synthetic_pubsub_envelope", cc (rw (open_envelope, there, absent) at h))
    | inr (encoded, sent) ↦
        elim (caught_as_error (rt.decode_data encoded) (rw (open_envelope, there, sent) at h)) [
          | inl contract ↦ inl contract
          | inr (raised, free) ↦ inr (message, encoded, there, sent, raised, free)
        ]
  ]
]

-- The decoder of an envelope raises `EventContractError`, but for two cases: the payload's time has a
-- zone and its UTC form is out of the range of years, which raises `OverflowError`, or reading the
-- data raises an exception that the decoder does not catch, which goes on as it is.
pub decode_error :
    (rt : Runtime) (envelope : Json) {x : Error}
    → decode_synthetic_pubsub_event rt envelope ≡ raise x
    → IsContractError x
      ⊎ ((payload : Fields) × (open_envelope rt malformed envelope ≡ ok (object payload))
          × IsBeyond rt payload x)
      ⊎ IsUncaught rt envelope x
unfolding decode_synthetic_pubsub_event IsOutOfRange
decode_error rt envelope {x} h =
    error_of_bind
      (λ y.
        IsContractError y
        ⊎ ((payload : Fields) × (open_envelope rt malformed envelope ≡ ok (object payload))
            × IsBeyond rt payload y)
        ⊎ IsUncaught rt envelope y)
      (open_envelope rt malformed envelope) _ h
      (λ bad. elim (open_envelope_error rt envelope bad) [
        | inl contract ↦ inl contract
        | inr uncaught ↦ inr (inr uncaught)
      ])
      (λ o opened bad. elim (decode_payload_error rt o bad) [
        | inl contract ↦ inl contract
        | inr (payload, is_object, beyond) ↦ inr (inl (payload, rw (sym is_object) opened, beyond))
      ])
