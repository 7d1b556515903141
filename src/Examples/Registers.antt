-- ===== src/Examples/Registers.antt =====
-- The theorems on the owner's list, public pages, configured sources, stored snapshots and
-- handoffs, at concrete inputs.
use mathlib.Core.List.{Perm}
use vice_ceo_proof_carrying.Claims.Memory.{memory_store}
use vice_ceo_proof_carrying.Dict.{no_entries, values}
use vice_ceo_proof_carrying.Examples.{demo_event, demo_runtime}
use vice_ceo_proof_carrying.Examples.Watches.{demo_tools, idle_engine, seen_capture, seen_snapshot}
use vice_ceo_proof_carrying.Fixtures.{get_synthetic_fixture_digest, read_synthetic_case}
use vice_ceo_proof_carrying.Json.{Json, array, cons, dumps, end, field, nil, object, text}
use vice_ceo_proof_carrying.Outcome.{ok}
use vice_ceo_proof_carrying.Prelude.{
  Bool, List, Option, String, [], false, length, none, refl, some, true, ◌∷◌, ◌≡◌, ◌≤◌,
}
use vice_ceo_proof_carrying.Registry.Actions.{ActionQueue, awaiting_owner_review, unresolved}
use vice_ceo_proof_carrying.Registry.Documents.{
  Conversions, firestore_latest_snapshot, firestore_save_snapshot,
}
use vice_ceo_proof_carrying.Registry.Documents.Forgets.{firestore-forgets, without_hashes}
use vice_ceo_proof_carrying.Registry.Html.{feed, new_extractor, visible_text}
use vice_ceo_proof_carrying.Registry.Html.Visible.{
  Nodes, element, events_of_all, no_nodes, shown_in_all, then_node, visible_text-page, words,
}
use vice_ceo_proof_carrying.Registry.Listing.{list_action_candidates}
use vice_ceo_proof_carrying.Registry.Listing.Sorted.{
  IsNewestFirst, list_action_candidates-IsNewestFirst,
}
use vice_ceo_proof_carrying.Registry.Records.{FirestoreRecords, StoredCandidate}
use vice_ceo_proof_carrying.Registry.Records.Refines.{
  RecordCall, as_memory, firestore-refines, firestore_calls, get_a_run, memory_calls,
  resolve_a_candidate, save_a_candidate,
}
use vice_ceo_proof_carrying.Registry.Segments.{
  changed_content_segments, content_segments, take_first,
}
use vice_ceo_proof_carrying.Registry.Sources.{registry_sources_from_environment}
use vice_ceo_proof_carrying.Registry.Sources.Distinct.{IsPortfolio, sources-IsPortfolio}
use vice_ceo_proof_carrying.Registry.Types.{RegistryActionCandidate, RegistrySource}
use vice_ceo_proof_carrying.Specialists.{
  HandoffRequest, SpecialistHandoff, build_specialist_handoff, owner_escalation, policy_guard,
  support_intake,
}
use vice_ceo_proof_carrying.Specialists.Chains.{handoffs-end, handoffs_left, pass, stop}
use vice_ceo_proof_carrying.Text.{is_blank, is_space, join, lstrip, rstrip, strip}

abbrev candidate_at : String → String → Bool → RegistryActionCandidate
candidate_at id time open_yet = record {
  candidate_id = id;
  brief_id = "b";
  source_id = "s1";
  jurisdiction = "demo";
  evidence_sha256 = "h";
  action_type = "prepare_internal_impact_memo";
  status = awaiting_owner_review;
  requires_owner_decision = open_yet;
  external_business_effect = false;
  customer_record_mutation = false;
  created_at = time;
  review_summary = "";
  recommended_next_action = "";
  source_citation_url = "";
  owner_decision = unresolved;
  owner_decision_at = none;
}

abbrev three_candidates : ActionQueue
three_candidates = record {
  entries =
      ("a", candidate_at "a" "2026-08-01" true)
      ∷ ("b", candidate_at "b" "2026-08-02" false)
      ∷ ("c", candidate_at "c" "2026-08-01" true)
      ∷ [];
}

list_action_candidates-IsNewestFirst_example :
    Perm (list_action_candidates three_candidates) (values three_candidates)
    × IsNewestFirst (list_action_candidates three_candidates)
list_action_candidates-IsNewestFirst_example = list_action_candidates-IsNewestFirst three_candidates

abbrev page : Nodes
page = then_node (words "Notice") (
    then_node
      (element "svg" (
        then_node (element "style" (then_node (words "x") no_nodes))
          (then_node (words "y") no_nodes)))
      (then_node (element "p" (then_node (words "Report by May.") no_nodes)) no_nodes))

visible_text-page_example :
    visible_text (feed (events_of_all page) new_extractor) ≡ join " " (shown_in_all page)
visible_text-page_example = visible_text-page page

abbrev source_item : Json
source_item = object (
    field "source_id" (text "s1") (
      field "display_name" (text "Registry") (
        field "canonical_url" (text "https://r.example") (field "jurisdiction" (text "demo") end))))

abbrev loads_one : String → Option Json
loads_one s = some (array (cons source_item nil))

abbrev configured : List RegistrySource
configured =
    record {
      source_id = "s1";
      display_name = "Registry";
      canonical_url = "https://r.example";
      jurisdiction = "demo";
      source_owner = "Unspecified public owner";
      refresh_schedule = "0 9 * * *";
      operational_focus = "public EPR program update";
    }
    ∷ []

sources-IsPortfolio_example : IsPortfolio configured
unfolding registry_sources_from_environment is_blank is_space strip lstrip rstrip
sources-IsPortfolio_example = sources-IsPortfolio loads_one "[...]" configured refl

abbrev to_guard : HandoffRequest
to_guard = record {
  event = demo_event;
  run_id = "r1";
  source_agent = support_intake;
  target_agent = policy_guard;
  policy_result = "escalate";
  reason_code = "review";
  proposed_tool = none;
}

abbrev to_owner : HandoffRequest
to_owner = record {
  event = demo_event;
  run_id = "r1";
  source_agent = policy_guard;
  target_agent = owner_escalation;
  policy_result = "escalate";
  reason_code = "review";
  proposed_tool = none;
}

guard_handoff : (h : SpecialistHandoff) × (build_specialist_handoff demo_runtime to_guard ≡ ok h)
unfolding build_specialist_handoff is_blank is_space read_synthetic_case
    get_synthetic_fixture_digest
guard_handoff = (_, refl)

owner_handoff : (h : SpecialistHandoff) × (build_specialist_handoff demo_runtime to_owner ≡ ok h)
unfolding build_specialist_handoff is_blank is_space read_synthetic_case
    get_synthetic_fixture_digest
owner_handoff = (_, refl)

handoffs-end_example : length (to_guard ∷ to_owner ∷ []) ≤ handoffs_left support_intake
handoffs-end_example = handoffs-end (
    pass to_guard guard_handoff.0 guard_handoff.1
      (pass to_owner owner_handoff.0 owner_handoff.1 (stop owner_escalation)))

abbrev plain_values : Conversions
plain_values = record { str_value = λ j. dumps j; int_value = λ j. none }

firestore-forgets_example :
    (firestore_latest_snapshot plain_values (firestore_save_snapshot seen_snapshot no_entries) "s1"
      ≡ ok (some (without_hashes seen_snapshot)))
    × (changed_content_segments demo_runtime demo_tools (without_hashes seen_snapshot) seen_capture
        ≡ take_first 12 (content_segments demo_runtime demo_tools seen_capture.normalized_content))
firestore-forgets_example =
    firestore-forgets demo_runtime demo_tools plain_values seen_snapshot no_entries seen_capture

-- A candidate of an earlier version: without the fields that came later.
abbrev early_candidate : StoredCandidate
early_candidate = record {
  candidate_id = "a";
  brief_id = "b";
  source_id = "s1";
  jurisdiction = "demo";
  evidence_sha256 = "h";
  action_type = "prepare_internal_impact_memo";
  status = awaiting_owner_review;
  requires_owner_decision = true;
  external_business_effect = false;
  customer_record_mutation = false;
  created_at = "2026-08-01";
  review_summary = none;
  recommended_next_action = none;
  source_citation_url = none;
  owner_decision = none;
  owner_decision_at = none;
}

abbrev early_documents : FirestoreRecords
early_documents = record {
  run_documents = no_entries;
  action_documents = record { entries = ("a", early_candidate) ∷ [] };
}

abbrev owner_calls : List (RecordCall demo_runtime memory_store)
owner_calls =
    save_a_candidate (candidate_at "c" "2026-08-01" true)
    ∷ resolve_a_candidate "a" "archive" "..Z"
    ∷ resolve_a_candidate "a" "acknowledge" "..Z"
    ∷ get_a_run "r"
    ∷ []

firestore-refines_example :
    memory_calls demo_runtime memory_store owner_calls
      (as_memory demo_runtime memory_store idle_engine.store early_documents)
    ≡ (
      (firestore_calls demo_runtime memory_store owner_calls early_documents).0,
      as_memory demo_runtime memory_store idle_engine.store
          (firestore_calls demo_runtime memory_store owner_calls early_documents).1,
    )
firestore-refines_example =
    firestore-refines demo_runtime memory_store owner_calls idle_engine.store early_documents
