-- ===== src/Http/Worker.antt =====
-- fast_api_app.py: the routes of the registry watch and of the owner's review.
pub mod Closed
pub mod Retries
use vice_ceo_proof_carrying.Claims.Scope.{ClaimStore}
use vice_ceo_proof_carrying.Dict.{Dict}
use vice_ceo_proof_carrying.Http.Types.{Response, after, http_error, http_ok, registry_answer}
use vice_ceo_proof_carrying.Json.{Json}
use vice_ceo_proof_carrying.Outcome.{Result, ok, proceed, ◌>>=◌, ◌>>◌}
use vice_ceo_proof_carrying.Prelude.{
  Bool, List, String, [], false, if◌then◌else◌, nat_eq, not, string_eq, ◌==◌, ◌||◌, ◌∷◌,
}
use vice_ceo_proof_carrying.Registry.Actions.{resolve_action_candidate}
use vice_ceo_proof_carrying.Registry.Decode.{decode_registry_watch_pubsub_event}
use vice_ceo_proof_carrying.Registry.Engine.{EngineState, watch_process}
use vice_ceo_proof_carrying.Registry.Listing.{list_action_candidates}
use vice_ceo_proof_carrying.Registry.Overview.{
  OwnerOverview, build_owner_operations_overview, deliver_internal_delivery_probe,
}
use vice_ceo_proof_carrying.Registry.Runs.{Watch, watch_clock}
use vice_ceo_proof_carrying.Registry.Segments.{TextTools}
use vice_ceo_proof_carrying.Registry.Types.{
  InternalDeliveryReceipt, RegistryActionCandidate, RegistrySource, RegistryWatchEvent,
  RegistryWatchRun, registry_event_schema_version, registry_event_type, registry_watch_source,
}
use vice_ceo_proof_carrying.Runtime.{Runtime}
use vice_ceo_proof_carrying.Text.{append, first, join, strip}

-- What the environment tells the service.
pub record ServerConfig : Type 0 where
  pub public_demo_only : Bool
  pub registry_watch_mode : String
  pub delivery_probe_enabled : Bool

pub record WatchAnswer : Type 0 where
  pub status : String
  pub run : RegistryWatchRun
  pub synthetic_only : Bool
  pub scheduled_background_execution : Bool
  pub external_actions_enabled : Bool
  pub reason_code : String

abbrev watch_closed : String
watch_closed = "registry_watch_worker_not_available_on_public_demo"

abbrev owner_closed : String
owner_closed = "owner_review_not_available_on_public_demo"

unfoldable pub watch_answer : ServerConfig → String → RegistryWatchRun → WatchAnswer
watch_answer cfg reason run = record {
  status = run.status;
  run = run;
  synthetic_only = cfg.registry_watch_mode == "fixture";
  scheduled_background_execution = cfg.registry_watch_mode == "configured";
  external_actions_enabled = false;
  reason_code = reason;
}

abbrev worker_reason : ServerConfig → String
worker_reason cfg =
    if cfg.registry_watch_mode == "fixture"
    then "registry_watch_fixture_worker_only"
    else "registry_watch_configured_worker"

-- The headers and the body of a call of the scheduler. Its other fields have one accepted value
-- each.
pub record SchedulerCall : Type 0 where
  pub job_name : String
  pub schedule_time : String
  pub source_id : String

-- `OwnerActionDecision.decision`
pub data OwnerDecision : Type 0 where
  acknowledge archive : OwnerDecision

abbrev decision_name : OwnerDecision → String
decision_name acknowledge = "acknowledge"
decision_name archive = "archive"

pub record ProbeAnswer : Type 0 where
  pub brief_id : String
  pub model_mode : String
  pub receipt : InternalDeliveryReceipt

module _ (rt : Runtime) (tools : TextTools) (claims : ClaimStore) (cfg : ServerConfig) where
  abbrev Engine : Type 0
  Engine = EngineState rt tools claims

  -- The call of the worker, and the answer to its run.
  unfoldable pub process_answer :
      Watch → String → RegistryWatchEvent → Engine → Response WatchAnswer × Engine
  unfolding watch_process registry_answer watch_answer
  process_answer w reason e s =
      let (run, s') = watch_process rt tools claims w e s in
      after (registry_answer 403 run) (λ r t. (http_ok (watch_answer cfg reason r), t)) s'

  -- `accept_registry_watch_event`
  unfoldable pub accept_registry_watch_event : Watch → Json → Engine → Response WatchAnswer × Engine
  unfolding process_answer decode_registry_watch_pubsub_event registry_answer
  accept_registry_watch_event w envelope s =
      if cfg.public_demo_only
      then (http_error 404 watch_closed, s)
      else after (registry_answer 403 (decode_registry_watch_pubsub_event rt envelope))
          (λ e. process_answer w (worker_reason cfg) e) s

  -- The event that the scheduler's headers name.
  unfoldable pub scheduler_event : String → String → String → RegistryWatchEvent
  unfolding append first join
  scheduler_event job_name scheduled_for source_id = record {
    event_id =
        append "scheduler_"
          (first 40 (rt.sha256 (join "|" (job_name ∷ scheduled_for ∷ source_id ∷ []))));
    source_id = source_id;
    scheduled_for = scheduled_for;
    event_type = registry_event_type;
    source = registry_watch_source;
    schema_version = registry_event_schema_version;
  }

  -- `accept_scheduler_registry_watch_event`
  unfoldable pub accept_scheduler_registry_watch_event :
      Watch → SchedulerCall → Engine → Response WatchAnswer × Engine
  unfolding process_answer scheduler_event strip
  accept_scheduler_registry_watch_event w call s =
      let job_name = strip call.job_name in
      let scheduled_for = strip call.schedule_time in
      if cfg.public_demo_only
      then (http_error 404 watch_closed, s)
      else if job_name == "" || scheduled_for == ""
      then (http_error 403 "scheduler_identity_headers_required", s)
      else process_answer w "registry_watch_scheduler_direct_worker"
          (scheduler_event job_name scheduled_for call.source_id) s

  -- `get_owner_registry_actions`
  unfoldable pub get_owner_registry_actions : Engine → Response (List RegistryActionCandidate)
  unfolding list_action_candidates
  get_owner_registry_actions s =
      if cfg.public_demo_only
      then http_error 404 owner_closed
      else http_ok (list_action_candidates s.store.candidates)

  -- `get_owner_registry_operations`
  unfoldable pub get_owner_registry_operations :
      Dict String RegistrySource → Engine → Response OwnerOverview
  unfolding build_owner_operations_overview
  get_owner_registry_operations sources s =
      if cfg.public_demo_only
      then http_error 404 owner_closed
      else http_ok (build_owner_operations_overview claims sources s.store)

  -- `resolve_owner_action`, with the reading of the clock.
  unfoldable pub resolve_owner_action :
      Watch → String → String → Engine → Result RegistryActionCandidate × Engine
  unfolding watch_clock resolve_action_candidate
  resolve_owner_action w id decision s =
      proceed (watch_clock rt w.started)
        (λ decided_at s1.
          let (r, q) = resolve_action_candidate rt id decision decided_at s1.store.candidates in
          (r, record s1 { store = record (s1.store) { candidates = q } }))
        s

  -- `resolve_owner_registry_action`
  unfoldable pub resolve_owner_registry_action :
      Watch → String → OwnerDecision → Engine → Response RegistryActionCandidate × Engine
  unfolding resolve_owner_action registry_answer
  resolve_owner_registry_action w id decision s =
      let (r, s') = resolve_owner_action w id (decision_name decision) s in
      if cfg.public_demo_only then (http_error 404 owner_closed, s) else (registry_answer 409 r, s')

  -- `send_owner_registry_delivery_probe`
  unfoldable pub send_owner_registry_delivery_probe : Watch → Response ProbeAnswer
  unfolding deliver_internal_delivery_probe registry_answer
  send_owner_registry_delivery_probe w =
      if cfg.public_demo_only
      then http_error 404 owner_closed
      else if not (cfg.registry_watch_mode == "configured")
      then http_error 409 "configured_registry_watch_worker_required"
      else if not cfg.delivery_probe_enabled
      then http_error 409 "internal_delivery_probe_not_enabled"
      else registry_answer 502 (do
        (brief, receipt) ← deliver_internal_delivery_probe rt w.deliver
        ok (record { brief_id = brief.brief_id; model_mode = brief.model_mode; receipt = receipt }))
