-- ===== src/Http/Worker/Closed.antt =====
-- fast_api_app.py: the worker's and the owner's routes on the public demo.
use vice_ceo_proof_carrying.Claims.Scope.{ClaimStore}
use vice_ceo_proof_carrying.Dict.{Dict}
use vice_ceo_proof_carrying.Http.Types.{Response, crashed, http_error, http_ok}
use vice_ceo_proof_carrying.Http.Worker.{
  OwnerDecision, SchedulerCall, ServerConfig, accept_registry_watch_event,
  accept_scheduler_registry_watch_event, get_owner_registry_actions, get_owner_registry_operations,
  resolve_owner_registry_action, send_owner_registry_delivery_probe,
}
use vice_ceo_proof_carrying.Json.{Json}
use vice_ceo_proof_carrying.Prelude.{List, String, [], code, refl, true, ℕ, ◌∷◌, ◌≡◌}
use vice_ceo_proof_carrying.Registry.Engine.{EngineState}
use vice_ceo_proof_carrying.Registry.Runs.{Watch}
use vice_ceo_proof_carrying.Registry.Segments.{TextTools}
use vice_ceo_proof_carrying.Registry.Types.{RegistrySource}
use vice_ceo_proof_carrying.Runtime.{Runtime}

module _ (rt : Runtime) (tools : TextTools) (claims : ClaimStore) (cfg : ServerConfig) where
  -- A call of a route that may change the worker's state, or of one that only reads it.
  pub data WorkerCall : Type 0 where
    push_event : Watch → Json → WorkerCall
    schedule_event : Watch → SchedulerCall → WorkerCall
    list_actions : WorkerCall
    show_operations : Dict String RegistrySource → WorkerCall
    resolve_action : Watch → String → OwnerDecision → WorkerCall
    probe_delivery : Watch → WorkerCall

  -- The status code of an answer.
  abbrev status_of {ℓ} : {A : Type ℓ} → Response A → ℕ
  status_of (http_ok a) = 200
  status_of (http_error code m) = code
  status_of (crashed e) = 500

  abbrev status_and_state :
      {A : Type 0} → Response A × EngineState rt tools claims → ℕ × EngineState rt tools claims
  status_and_state (r, s) = (status_of r, s)

  -- One call: the status code of its answer, and the state after it.
  pub serve : WorkerCall → EngineState rt tools claims → ℕ × EngineState rt tools claims
  serve (push_event w envelope) s =
      status_and_state (accept_registry_watch_event rt tools claims cfg w envelope s)
  serve (schedule_event w call) s =
      status_and_state (accept_scheduler_registry_watch_event rt tools claims cfg w call s)
  serve list_actions s = (status_of (get_owner_registry_actions rt tools claims cfg s), s)
  serve (show_operations sources) s =
      (status_of (get_owner_registry_operations rt tools claims cfg sources s), s)
  serve (resolve_action w id decision) s =
      status_and_state (resolve_owner_registry_action rt tools claims cfg w id decision s)
  serve (probe_delivery w) s =
      (status_of (send_owner_registry_delivery_probe rt tools claims cfg w), s)

  -- The calls one after another.
  pub serve_all :
      List WorkerCall → EngineState rt tools claims → List ℕ × EngineState rt tools claims
  serve_all [] s = ([], s)
  serve_all (c ∷ cs) s =
      let (status, s1) = serve c s in let (rest, s2) = serve_all cs s1 in (status ∷ rest, s2)

  pub not_found : List WorkerCall → List ℕ
  not_found [] = []
  not_found (c ∷ cs) = 404 ∷ not_found cs

  serve-closed :
      cfg.public_demo_only ≡ true
      → (c : WorkerCall) (s : EngineState rt tools claims) → serve c s ≡ (404, s)
  unfolding serve accept_registry_watch_event accept_scheduler_registry_watch_event
      get_owner_registry_actions get_owner_registry_operations resolve_owner_registry_action
      send_owner_registry_delivery_probe
  serve-closed closed (push_event w envelope) s = rw closed
  serve-closed closed (schedule_event w call) s = rw closed
  serve-closed closed list_actions s = rw closed
  serve-closed closed (show_operations sources) s = rw closed
  serve-closed closed (resolve_action w id decision) s = rw closed
  serve-closed closed (probe_delivery w) s = rw closed

  -- On the public demo, every call of a worker's or an owner's route is answered with 404, and no
  -- sequence of such calls changes the worker's state.
  pub serve_all-closed :
      cfg.public_demo_only ≡ true
      → (cs : List WorkerCall) (s : EngineState rt tools claims)
      → serve_all cs s ≡ (not_found cs, s)
  unfolding serve_all not_found
  serve_all-closed closed [] s = refl
  serve_all-closed closed (c ∷ cs) s = rw (serve-closed closed c s, serve_all-closed closed cs s)
