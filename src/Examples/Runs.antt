-- ===== src/Examples/Runs.antt =====
-- The theorems on claims, events, warrants and the support loop, at concrete inputs.
use vice_ceo_proof_carrying.Claims.Firestore.{ClaimDocument, firestore_store, local_documents}
use vice_ceo_proof_carrying.Claims.Memory.{memory_store}
use vice_ceo_proof_carrying.Claims.Once.{any_asks, responses, wins, wins-any_asks, wins-le-one}
use vice_ceo_proof_carrying.Claims.Refine.{document_id_ambiguous, responses-firestore_store}
use vice_ceo_proof_carrying.Claims.Scope.{Request, Scope, document_id, scope_eq}
use vice_ceo_proof_carrying.Dict.{lookup-no_entries, no_entries}
use vice_ceo_proof_carrying.Events.Decode.{
  caught_as, decode_payload, decode_synthetic_pubsub_event, encode_synthetic_pubsub_event,
  event_of_payload, index, malformed, open_envelope, require_string, require_timestamp,
  string_value,
}
use vice_ceo_proof_carrying.Events.Decode.Refusal.{
  IsBeyond, IsContractError, IsUncaught, decode_error,
}
use vice_ceo_proof_carrying.Events.Decode.RoundTrip.{decode-encode}
use vice_ceo_proof_carrying.Events.Decode.Strict.{IsAccepted, decode-IsAccepted}
use vice_ceo_proof_carrying.Events.Types.{PolicyDecision, event_fields, policy_version}
use vice_ceo_proof_carrying.Examples.{
  all_off, all_on, demo-IsAccepted, demo_event, demo_runtime, demo_runtime-IsRuntime, no_collision,
  noon, one_past,
}
use vice_ceo_proof_carrying.Fixtures.{password_reset_case, read_synthetic_case}
use vice_ceo_proof_carrying.Json.{Fields, Json, has_exactly, is_listed, member, object}
use vice_ceo_proof_carrying.Outcome.{ok, raise}
use vice_ceo_proof_carrying.Prelude.{
  List, String, [], false, if◌then◌else◌, ltb, nat_eq, none, refl, some, string_eq, true, ◌++◌, ◌+◌,
  ◌↔◌, ◌∷◌, ◌≡◌, ◌≤◌, ◌⊎◌,
}
use vice_ceo_proof_carrying.Runtime.{Runtime, date_overflow, iso_beyond, normalize_timestamp}
use vice_ceo_proof_carrying.Support.Loop.{
  LoopState, OutcomeReceipt, Readings, duplicate_of, outcome_receipt_version, process,
}
use vice_ceo_proof_carrying.Support.Loop.Once.{process_twice, run_call}
use vice_ceo_proof_carrying.Support.Loop.Stopped.{process_stopped, reports_simulation}
use vice_ceo_proof_carrying.Text.{append, has_code, is_blank, is_space, lstrip, rstrip, strip}
use vice_ceo_proof_carrying.Trust.Engine.{
  assess_synthetic_trust, earned_for_synthetic_simulation, is_verified_simulation, judged,
  note_receipt, scan_receipts, suspended, tally_of,
}
use vice_ceo_proof_carrying.Trust.Engine.Earned.{all_trusted, earned_iff, supported_count}
use vice_ceo_proof_carrying.Trust.Engine.Suspended.{suspended-append}
use vice_ceo_proof_carrying.Warrants.Gateway.{
  Order, authorizes, check_use, denied, draft_warrant, issue_simulated_ticket_warrant, passed, sign,
}
use vice_ceo_proof_carrying.Warrants.Gateway.Lifetime.{
  IsIssuable, grants, issue-IsIssuable, issue-check_use, issue_iff, issued,
}
use vice_ceo_proof_carrying.Warrants.Gateway.Once.{Attempt, allowed_uses, allowed_uses-le-one}
use vice_ceo_proof_carrying.Warrants.Gateway.Use.{IsAuthorized, check_use_iff}
use vice_ceo_proof_carrying.Warrants.Types.{
  ActionWarrant, WarrantResult, action_warrant_expired, allows, simulated_ticket_tool, warrant_ttl,
}

abbrev demo_request : Request
demo_request = record { tenant = "t"; claim_kind = "k"; idempotency_key = "1"; record_id = "a" }

abbrev rival_request : Request
rival_request = record { tenant = "t"; claim_kind = "k"; idempotency_key = "1"; record_id = "b" }

abbrev demo_scope : Scope
demo_scope = record { tenant = "t"; kind = "k"; key = "1" }

abbrev rivals : List Request
rivals = demo_request ∷ rival_request ∷ []

wins-le-one_example : wins memory_store demo_scope no_entries rivals ≤ 1
wins-le-one_example = wins-le-one memory_store demo_scope no_entries rivals

demo_scope_apart :
    (j : Scope) → memory_store.key_of j ≡ memory_store.key_of demo_scope → j ≡ demo_scope
demo_scope_apart j h = h

wins-any_asks_example :
    wins memory_store demo_scope no_entries rivals ≡ (if any_asks rivals demo_scope then 1 else 0)
wins-any_asks_example =
    wins-any_asks memory_store demo_scope demo_scope_apart no_entries rivals
      (lookup-no_entries {V = String} demo_scope)

responses-firestore_store_example :
    responses (firestore_store demo_runtime (local_documents ClaimDocument) "now") no_entries rivals
    ≡ responses memory_store no_entries rivals
unfolding has_code
responses-firestore_store_example =
    responses-firestore_store demo_runtime no_collision (local_documents ClaimDocument) "now" rivals
      (refl, refl, (refl, refl, tt))

document_id_ambiguous_example :
    document_id demo_runtime
      (record { tenant = append "a" (append "|" "b"); kind = "c"; key = "k" })
    ≡ document_id demo_runtime
        (record { tenant = "a"; kind = append "b" (append "|" "c"); key = "k" })
document_id_ambiguous_example = document_id_ambiguous demo_runtime "a" "b" "c" "k"

decode-encode_example :
    decode_synthetic_pubsub_event demo_runtime
      (encode_synthetic_pubsub_event demo_runtime demo_event)
    ≡ ok demo_event
decode-encode_example =
    decode-encode demo_runtime demo_runtime-IsRuntime demo_event demo-IsAccepted refl

decode-IsAccepted_example : IsAccepted demo_runtime demo_event
decode-IsAccepted_example =
    decode-IsAccepted demo_runtime (encode_synthetic_pubsub_event demo_runtime demo_event)
      decode-encode_example

-- Every time of this library's has a zone, and its UTC form is out of range.
abbrev early_runtime : Runtime
early_runtime = record demo_runtime { parse_iso = λ s. iso_beyond true }

abbrev early_envelope : Json
early_envelope = encode_synthetic_pubsub_event early_runtime demo_event

early_raises : decode_synthetic_pubsub_event early_runtime early_envelope ≡ raise date_overflow
unfolding decode_synthetic_pubsub_event encode_synthetic_pubsub_event open_envelope caught_as index
    decode_payload event_of_payload require_string string_value require_timestamp
    normalize_timestamp member has_exactly is_listed event_fields is_blank is_space strip lstrip
    rstrip
early_raises = refl

decode_error_example :
    IsContractError date_overflow
    ⊎ ((payload : Fields) × (open_envelope early_runtime malformed early_envelope
          ≡ ok (object payload))
        × IsBeyond early_runtime payload date_overflow)
    ⊎ IsUncaught early_runtime early_envelope date_overflow
decode_error_example = decode_error early_runtime early_envelope early_raises

abbrev Loop : Type 0
Loop = LoopState memory_store memory_store

abbrev idle : Loop
idle = record { claimed = no_entries; consumed = no_entries }

abbrev at_noon : Readings
at_noon = record { at_issue = noon; at_use = noon; at_receipt = noon }

process_twice_example :
    (old : String) × (run_call memory_store memory_store demo_runtime "key" demo_event
        ("resolution_prepared", all_on, at_noon)
        (run_call memory_store memory_store demo_runtime "key" demo_event
          ("resolution_prepared", all_on, at_noon)
          idle).1
      ≡ (
        ok (duplicate_of memory_store memory_store demo_runtime "key" old),
        (run_call memory_store memory_store demo_runtime "key" demo_event
            ("resolution_prepared", all_on, at_noon)
            idle).1,
      ))
process_twice_example =
    process_twice memory_store memory_store demo_runtime "key" demo_event refl
      ("resolution_prepared", all_on, at_noon) ("resolution_prepared", all_on, at_noon) idle

process_stopped_example :
    ((process memory_store memory_store demo_runtime "key" demo_event "resolution_prepared" all_off
        at_noon idle).1.consumed
      ≡ idle.consumed)
    × (reports_simulation
          (process memory_store memory_store demo_runtime "key" demo_event "resolution_prepared"
            all_off at_noon idle).0
        ≡ false)
unfolding allows
process_stopped_example =
    process_stopped memory_store memory_store demo_runtime "key" demo_event "resolution_prepared"
      all_off at_noon idle refl

abbrev demo_order : Order
demo_order = record {
  event = demo_event;
  run_id = "r";
  transition = "resolution_prepared";
  controls = all_on;
}

abbrev demo_decision : PolicyDecision
demo_decision = record {
  result = "allow";
  reason_code = "synthetic_policy_allows_simulation";
  proposed_tool = some simulated_ticket_tool;
  requires_action_warrant = true;
  policy_version = policy_version;
}

demo-IsIssuable : IsIssuable demo_order demo_decision
unfolding allows is_listed authorizes read_synthetic_case
demo-IsIssuable = record {
  permitted = refl;
  allowed = refl;
  tool = refl;
  warranted = refl;
  version = refl;
  case = password_reset_case;
  readable = refl;
  listed = refl;
}

issue_iff_example :
    (grants (issue_simulated_ticket_warrant demo_runtime "key" noon demo_order demo_decision)
      ≡ true)
    ↔ IsIssuable demo_order demo_decision
issue_iff_example = issue_iff demo_runtime "key" noon demo_order demo_decision refl

abbrev demo_answer : WarrantResult
demo_answer = issued demo_runtime "key" noon demo_order demo_decision demo-IsIssuable.case

abbrev demo_warrant : ActionWarrant
demo_warrant = sign demo_runtime "key" (
    draft_warrant demo_runtime demo-IsIssuable.case demo_event "r" demo_decision
      "resolution_prepared" noon.instant)

issue-check_use_example :
    check_use demo_runtime "key" one_past demo_warrant demo_order
    ≡ ok (
        if ltb one_past.instant (noon.instant + warrant_ttl)
        then passed
        else denied action_warrant_expired)
unfolding allows is_listed
issue-check_use_example =
    issue-check_use demo_runtime demo_runtime-IsRuntime "key" noon one_past demo_order demo_decision
      all_on demo_answer demo_warrant refl refl refl
      (issue-IsIssuable demo_runtime "key" noon demo_order demo_decision demo-IsIssuable refl) refl

check_use_iff_example :
    (check_use demo_runtime "key" one_past demo_warrant demo_order ≡ ok passed)
    ↔ IsAuthorized demo_runtime "key" one_past demo_warrant demo_order
check_use_iff_example =
    check_use_iff demo_runtime demo_runtime-IsRuntime "key" one_past demo_warrant demo_order

abbrev demo_attempts : List Attempt
demo_attempts =
    record { now = noon; warrant = demo_warrant; order = demo_order }
    ∷ record { now = one_past; warrant = demo_warrant; order = demo_order }
    ∷ []

allowed_uses-le-one_example :
    allowed_uses memory_store demo_runtime "key" "w" no_entries demo_attempts ≤ 1
allowed_uses-le-one_example =
    allowed_uses-le-one memory_store demo_runtime "key" "w" no_entries demo_attempts

abbrev demo_receipt : OutcomeReceipt
demo_receipt = record {
  receipt_id = "receipt";
  run_id = "r";
  event_id = "e1";
  tenant = "t";
  outcome_receipt_version = outcome_receipt_version;
  policy_result = "allow";
  reason_code = "sprint_3_warranted_simulation_only";
  action_state = "simulated";
  action_warrant_id = none;
  action_attempt_sha256 = "a";
  source_reference_sha256 = "s";
  fixture_reference_sha256 = "f";
  external_effect = false;
  persistent_write = false;
  business_outcome = "not_measured_synthetic_only";
  reconciliation_state = "not_applicable_no_external_effect";
  recorded_at = "Z";
}

abbrev leaking_receipt : OutcomeReceipt
leaking_receipt = record demo_receipt { external_effect = true }

abbrev three_receipts : List OutcomeReceipt
three_receipts = demo_receipt ∷ demo_receipt ∷ demo_receipt ∷ []

earned_iff_example :
    ((assess_synthetic_trust demo_runtime three_receipts).trust_state
      ≡ earned_for_synthetic_simulation)
    ↔ ((x : String) × (all_trusted x three_receipts ≡ true) × (3 ≤ supported_count three_receipts))
earned_iff_example = earned_iff demo_runtime three_receipts

leaking_suspended :
    (assess_synthetic_trust demo_runtime (leaking_receipt ∷ [])).trust_state ≡ suspended
unfolding assess_synthetic_trust scan_receipts note_receipt is_verified_simulation tally_of judged
    is_listed
leaking_suspended = refl

suspended-append_example :
    (assess_synthetic_trust demo_runtime ((leaking_receipt ∷ []) ++ demo_receipt ∷ [])).trust_state
    ≡ suspended
suspended-append_example =
    suspended-append demo_runtime (leaking_receipt ∷ []) (demo_receipt ∷ []) leaking_suspended
