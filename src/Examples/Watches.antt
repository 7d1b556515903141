-- ===== src/Examples/Watches.antt =====
-- The theorems on the registry watch and on business messages, at concrete inputs.
use vice_ceo_proof_carrying.Business.Service.{BusinessRequest, customer_reply}
use vice_ceo_proof_carrying.Business.Service.Once.{receipts, receipts-le-one}
use vice_ceo_proof_carrying.Business.Types.{record_delivery}
use vice_ceo_proof_carrying.Claims.Memory.{claim_once, memory_store}
use vice_ceo_proof_carrying.Claims.Scope.{claim_key, scope_eq}
use vice_ceo_proof_carrying.Dict.{insert, lookup, lookup-no_entries, no_entries}
use vice_ceo_proof_carrying.Examples.{
  demo_runtime, noon, one_more, one_past, read_ticks, ticks, zoned,
}
use vice_ceo_proof_carrying.Json.{dumps, is_listed}
use vice_ceo_proof_carrying.Outcome.{Error, Result, ok, raise, registry_watch_error}
use vice_ceo_proof_carrying.Prelude.{
  List, String, [], false, nat_eq, none, refl, some, string_eq, true, ◌∷◌, ◌≡◌, ◌≤◌,
}
use vice_ceo_proof_carrying.Registry.Actions.{
  ActionQueue, awaiting_owner_review, decided, resolve_action_candidate, resolved_action_candidate,
  unresolved,
}
use vice_ceo_proof_carrying.Registry.Actions.Decision.{IsDecision, resolve_effect}
use vice_ceo_proof_carrying.Registry.Actions.Settled.{
  QueueCall, all_spare, decide_candidate, decision_stays, queue_again, queue_calls,
}
use vice_ceo_proof_carrying.Registry.Decode.{watch_timestamp}
use vice_ceo_proof_carrying.Registry.Engine.{EngineState, watch_once, watch_process}
use vice_ceo_proof_carrying.Registry.Engine.Deliveries.{Backed, watch_process-Backed}
use vice_ceo_proof_carrying.Registry.Engine.Lost.{IsVisit, lost_change, saved}
use vice_ceo_proof_carrying.Registry.Engine.Replay.{
  watch_process_replay, watch_process_settled, watch_scope,
}
use vice_ceo_proof_carrying.Registry.Runs.{Watch, validate_event, validated_snapshot, watch_clock}
use vice_ceo_proof_carrying.Registry.Segments.{TextTools}
use vice_ceo_proof_carrying.Registry.Store.{claim_watch_event, latest_snapshot, watch_claim}
use vice_ceo_proof_carrying.Registry.Types.{
  RegistryActionCandidate, RegistrySnapshot, RegistrySource, RegistrySourceCapture,
  RegistryWatchEvent, RegistryWatchRun, registry_event_payload, registry_event_schema_version,
  registry_event_type, registry_watch_source,
}
use vice_ceo_proof_carrying.Runtime.{as_utc, normalize_timestamp}
use vice_ceo_proof_carrying.Text.{append, first, is_blank, is_space, lstrip, rstrip, strip}

abbrev pub demo_tools : TextTools
demo_tools = record {
  split_sentences = λ s. s ∷ [];
  collapse = λ s. s;
  text_length = λ s. 24;
  byte_length = λ s. 24;
}

abbrev pub demo_source_entry : RegistrySource
demo_source_entry = record {
  source_id = "s1";
  display_name = "Demo Packaging Registry";
  canonical_url = "https://registry.example/packaging";
  jurisdiction = "demo";
  source_owner = "owner";
  refresh_schedule = "0 9 * * *";
  operational_focus = "focus";
}

abbrev pub watch_event : RegistryWatchEvent
watch_event = record {
  event_id = "w1";
  source_id = "s1";
  scheduled_for = "..Z";
  event_type = registry_event_type;
  source = registry_watch_source;
  schema_version = registry_event_schema_version;
}

abbrev pub demo_watch : Watch
demo_watch = record {
  sources = record { entries = ("s1", demo_source_entry) ∷ [] };
  fetch = λ source. ok (record {
    source_id = source.source_id;
    canonical_url = source.canonical_url;
    source_version = "v1";
    captured_at = "..Z";
    normalized_content = "Producer registration instructions, revision 1.";
    normalization_version = "fixture_normalized_content_v1";
  });
  generate = λ change. raise (registry_watch_error "brief_generator_unavailable");
  deliver = λ brief. raise (registry_watch_error "delivery_unavailable");
  started = noon;
  completed = one_past;
}

demo_watch_valid : validate_event demo_runtime demo_watch watch_event ≡ ok demo_source_entry
unfolding validate_event is_blank is_space watch_timestamp normalize_timestamp zoned read_ticks
    one_more lookup
demo_watch_valid = refl

abbrev pub Engine : Type 0
Engine = EngineState demo_runtime demo_tools memory_store

abbrev pub idle_engine : Engine
idle_engine = record {
  store = record {
    event_claims = no_entries;
    snapshots = no_entries;
    runs = no_entries;
    candidates = no_entries;
  };
  handed_over = [];
}

abbrev watched : Result RegistryWatchRun × Engine
watched = watch_process demo_runtime demo_tools memory_store demo_watch watch_event idle_engine

watch_process_settled_example :
    (watch_process demo_runtime demo_tools memory_store demo_watch watch_event watched.1).1
    ≡ watched.1
watch_process_settled_example =
    watch_process_settled demo_runtime demo_tools memory_store watch_event demo_watch demo_watch
      demo_source_entry idle_engine demo_watch_valid

watch_process-Backed_example :
    Backed demo_runtime demo_tools memory_store []
      (latest_snapshot memory_store idle_engine.store "s1")
      watched.1
watch_process-Backed_example =
    watch_process-Backed demo_runtime demo_tools memory_store demo_watch watch_event
      demo_source_entry idle_engine demo_watch_valid

abbrev demo_candidate : RegistryActionCandidate
demo_candidate = record {
  candidate_id = "c1";
  brief_id = "b1";
  source_id = "s1";
  jurisdiction = "demo";
  evidence_sha256 = "e";
  action_type = "prepare_internal_impact_memo";
  status = awaiting_owner_review;
  requires_owner_decision = true;
  external_business_effect = false;
  customer_record_mutation = false;
  created_at = "Z";
  review_summary = "";
  recommended_next_action = "";
  source_citation_url = "";
  owner_decision = unresolved;
  owner_decision_at = none;
}

abbrev demo_queue : ActionQueue
demo_queue = record { entries = ("c1", demo_candidate) ∷ [] }

acknowledged :
    (resolve_action_candidate demo_runtime "c1" "acknowledge" "..Z" demo_queue).0
    ≡ ok (decided demo_candidate "acknowledge" "..Z")
unfolding resolve_action_candidate resolved_action_candidate watch_timestamp normalize_timestamp
    zoned read_ticks one_more lookup is_listed ticks
acknowledged = refl

abbrev resolved_queue : ActionQueue
resolved_queue = (resolve_action_candidate demo_runtime "c1" "acknowledge" "..Z" demo_queue).1

abbrev done_candidate : RegistryActionCandidate
done_candidate = decided demo_candidate "acknowledge" "..Z"

-- A decision on the candidate, another candidate, and a decision on that one.
abbrev later_calls : List (QueueCall demo_runtime)
later_calls =
    decide_candidate "c1" "archive" ".Z"
    ∷ queue_again (record demo_candidate { candidate_id = "c2" })
    ∷ decide_candidate "c2" "archive" ".Z"
    ∷ []

abbrev later_queue : ActionQueue
later_queue = queue_calls demo_runtime later_calls resolved_queue

decision_stays_example :
    (lookup later_queue "c1" ≡ some done_candidate)
    × (x : Error) × (resolve_action_candidate demo_runtime "c1" "archive" ".Z" later_queue
        ≡ (raise x, later_queue))
unfolding all_spare
decision_stays_example =
    decision_stays demo_runtime "c1" "acknowledge" "..Z" "archive" ".Z" demo_queue done_candidate
      later_calls acknowledged refl

resolve_effect_example :
    ((resolve_action_candidate demo_runtime "c1" "acknowledge" "..Z" demo_queue).0
        ≡ ok done_candidate
      → IsDecision demo_runtime "c1" demo_queue "acknowledge" "..Z" done_candidate
        × (resolved_queue ≡ insert demo_queue "c1" done_candidate))
    × (IsDecision demo_runtime "c1" demo_queue "acknowledge" "..Z" done_candidate
        → resolve_action_candidate demo_runtime "c1" "acknowledge" "..Z" demo_queue
          ≡ (ok done_candidate, insert demo_queue "c1" done_candidate))
resolve_effect_example =
    resolve_effect demo_runtime "c1" "acknowledge" "..Z" demo_queue done_candidate

abbrev pub demo_reply : BusinessRequest
demo_reply = customer_reply (record {
  case_id = "c";
  customer_email = "a@b";
  customer_name = "Ada";
  intent = "business_hours";
  inbound_message_id = "m";
  source_policy = "p";
})

receipts-le-one_example :
    receipts
      (record_delivery demo_runtime noon)
      demo_runtime
      "Vice CEO"
      "k"
      (demo_reply ∷ demo_reply ∷ [])
      (record { completed_keys = []; channel = [] })
    ≤ 1
receipts-le-one_example =
    receipts-le-one (record_delivery demo_runtime noon) demo_runtime "Vice CEO" "k"
      (demo_reply ∷ demo_reply ∷ []) (record { completed_keys = []; channel = [] })

watched_run : (run : RegistryWatchRun) × (watched.0 ≡ ok run)
unfolding watch_process validate_event is_blank is_space watch_timestamp normalize_timestamp zoned
    read_ticks one_more lookup insert ticks append claim_watch_event watch_claim claim_once
    claim_key strip lstrip rstrip watch_clock as_utc validated_snapshot latest_snapshot
    registry_event_payload dumps
watched_run = (_, refl)

watch_process_replay_example :
    watch_process demo_runtime demo_tools memory_store demo_watch watch_event watched.1
    ≡ (ok watched_run.0, watched.1)
watch_process_replay_example =
    watch_process_replay demo_runtime demo_tools memory_store watch_event demo_watch demo_watch
      demo_source_entry demo_source_entry idle_engine watched_run.0 demo_watch_valid
      demo_watch_valid
      (lookup-no_entries {V = String} ⦃e = scope_eq⦄
        (watch_scope demo_runtime demo_tools memory_store watch_event))
      watched_run.1

abbrev old_snapshot : RegistrySnapshot
old_snapshot = record {
  source_id = "s1";
  canonical_url = "https://registry.example/packaging";
  source_version = "v0";
  captured_at = "..Z";
  evidence_sha256 = "Producer registration instructions, revision 0.";
  byte_count = 24;
  normalization_version = "fixture_normalized_content_v1";
  content_segment_hashes = [];
}

abbrev pub seen_snapshot : RegistrySnapshot
seen_snapshot = record {
  source_id = "s1";
  canonical_url = "https://registry.example/packaging";
  source_version = "v1";
  captured_at = "..Z";
  evidence_sha256 = "Producer registration instructions, revision 1.";
  byte_count = 24;
  normalization_version = "fixture_normalized_content_v1";
  content_segment_hashes = first 800 (strip "Producer registration instructions, revision 1.") ∷ [];
}

abbrev aware_engine : Engine
aware_engine = record {
  store = record {
    event_claims = no_entries;
    snapshots = record { entries = ("s1", old_snapshot) ∷ [] };
    runs = no_entries;
    candidates = no_entries;
  };
  handed_over = [];
}

abbrev pub seen_capture : RegistrySourceCapture
seen_capture = record {
  source_id = "s1";
  canonical_url = "https://registry.example/packaging";
  source_version = "v1";
  captured_at = "..Z";
  normalized_content = "Producer registration instructions, revision 1.";
  normalization_version = "fixture_normalized_content_v1";
}

demo-IsVisit :
    IsVisit demo_runtime demo_tools memory_store demo_watch demo_source_entry seen_snapshot
unfolding validated_snapshot watch_timestamp normalize_timestamp zoned read_ticks one_more ticks
    append
demo-IsVisit = record { capture = seen_capture; fetched = refl; valid = refl }

abbrev lost_engine : Engine
lost_engine = saved demo_runtime demo_tools memory_store seen_snapshot aware_engine

lost_change_example :
    (watch_once demo_runtime demo_tools memory_store demo_watch watch_event demo_source_entry
        aware_engine
      ≡ (raise (registry_watch_error "brief_generator_unavailable"), lost_engine))
    × ((run : RegistryWatchRun) × ((watch_once demo_runtime demo_tools memory_store demo_watch
            watch_event demo_source_entry lost_engine).0
          ≡ ok run)
        × (run.status ≡ "no_change"))
    × ((watch_once demo_runtime demo_tools memory_store demo_watch watch_event demo_source_entry
          lost_engine).1.handed_over
        ≡ [])
unfolding latest_snapshot lookup
lost_change_example =
    lost_change demo_runtime demo_tools memory_store demo_watch demo_watch watch_event watch_event
      demo_source_entry old_snapshot seen_snapshot seen_snapshot
      (registry_watch_error "brief_generator_unavailable") aware_engine demo-IsVisit demo-IsVisit
      refl refl refl refl (λ change. refl) refl refl refl
