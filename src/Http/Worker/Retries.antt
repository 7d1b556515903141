-- ===== src/Http/Worker/Retries.antt =====
-- fast_api_app.py: `/scheduler/registry-watch`, called again for one tick of the scheduler.
use vice_ceo_proof_carrying.Claims.Scope.{ClaimStore}
use vice_ceo_proof_carrying.Http.Types.{after_keeps, registry_answer}
use vice_ceo_proof_carrying.Http.Worker.{
  SchedulerCall, ServerConfig, accept_scheduler_registry_watch_event, process_answer,
  scheduler_event, watch_answer,
}
use vice_ceo_proof_carrying.Outcome.{ok}
use vice_ceo_proof_carrying.Prelude.{
  Bool, Bool-cases, String, arith, false, inl, inr, nat_eq, not, refl, string_eq, true, ◌==◌, ◌||◌,
  ◌≡◌,
}
use vice_ceo_proof_carrying.Registry.Engine.{EngineState, watch_process}
use vice_ceo_proof_carrying.Registry.Engine.Replay.{watch_process_settled}
use vice_ceo_proof_carrying.Registry.Runs.{Watch, validate_event}
use vice_ceo_proof_carrying.Registry.Segments.{TextTools}
use vice_ceo_proof_carrying.Registry.Types.{RegistrySource, RegistryWatchEvent}
use vice_ceo_proof_carrying.Runtime.{Runtime}
use vice_ceo_proof_carrying.Text.{strip}

module _ (rt : Runtime) (tools : TextTools) (claims : ClaimStore) (cfg : ServerConfig) where
  -- Whether a call reaches the worker.
  abbrev is_served : SchedulerCall → Bool
  is_served call =
      not (cfg.public_demo_only || strip call.job_name == "" || strip call.schedule_time == "")

  -- The event that a call of the scheduler stands for.
  abbrev pub event_of_call : SchedulerCall → RegistryWatchEvent
  event_of_call call =
      scheduler_event rt tools claims cfg (strip call.job_name) (strip call.schedule_time)
        call.source_id

  -- The state that a call leaves.
  abbrev pub left_by :
      Watch → SchedulerCall → EngineState rt tools claims → EngineState rt tools claims
  left_by w call s = (accept_scheduler_registry_watch_event rt tools claims cfg w call s).1

  process_answer-state :
      (w : Watch) (reason : String) (e : RegistryWatchEvent) (s : EngineState rt tools claims)
      → (process_answer rt tools claims cfg w reason e s).1
        ≡ (watch_process rt tools claims w e s).1
  unfolding process_answer
  process_answer-state w reason e s =
      after_keeps (registry_answer 403 (watch_process rt tools claims w e s).0)
        (watch_answer cfg reason) (watch_process rt tools claims w e s).1

  served_lem :
      (w : Watch) (call : SchedulerCall) (s : EngineState rt tools claims)
      → is_served call ≡ true
      → (accept_scheduler_registry_watch_event rt tools claims cfg w call s).1
        ≡ (watch_process rt tools claims w (event_of_call call) s).1
  unfolding accept_scheduler_registry_watch_event
  served_lem w call s served =
      let reached : cfg.public_demo_only ≡ false = ground (arith, served) in
      let job : (strip call.job_name == "") ≡ false = ground (arith, served) in
      let time : (strip call.schedule_time == "") ≡ false = ground (arith, served) in
      rw (reached, job, time) (process_answer-state w _ (event_of_call call) s)

  unserved_lem :
      (w : Watch) (call : SchedulerCall) (s : EngineState rt tools claims)
      → is_served call ≡ false
      → (accept_scheduler_registry_watch_event rt tools claims cfg w call s).1 ≡ s
  unfolding accept_scheduler_registry_watch_event
  unserved_lem w call s no_call = elim (Bool-cases cfg.public_demo_only) [
    | inl shut ↦ rw shut refl
    | inr reached ↦ elim (Bool-cases (strip call.job_name == "")) [
      | inl anonymous ↦ rw (reached, anonymous) refl
      | inr job ↦
          let time : (strip call.schedule_time == "") ≡ true =
            ground (arith, no_call, reached, job) in
          rw (reached, job, time) refl
    ]
  ]

  -- The scheduler's retry of a tick, with the same job, time and source but for spaces around the headers, at any
  -- later readings of the clock: after a first call whose event names a watched source, also one
  -- that was answered with an error, it changes nothing and hands over no brief.
  pub scheduler_retry :
      (w later : Watch) (call retry : SchedulerCall) (source : RegistrySource)
      (s : EngineState rt tools claims)
      → strip retry.job_name ≡ strip call.job_name
      → strip retry.schedule_time ≡ strip call.schedule_time
      → retry.source_id ≡ call.source_id
      → validate_event rt w (event_of_call call) ≡ ok source
      → left_by later retry (left_by w call s) ≡ left_by w call s
  scheduler_retry w later call retry source s job time named valid =
      elim (Bool-cases (is_served call)) [
        | inr no_call ↦ unserved_lem later retry (left_by w call s) (rw (job, time) no_call)
        | inl served ↦
            rw
              (
                served_lem later retry (left_by w call s) (rw (job, time) served),
                served_lem w call s served,
                job,
                time,
                named,
              )
              (watch_process_settled rt tools claims (event_of_call call) w later source s valid)
      ]
