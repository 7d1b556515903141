-- ===== src/Http/Ingress.antt =====
-- fast_api_app.py: `/pubsub/synthetic-events` and `/synthetic-events`.
pub mod Once
use vice_ceo_proof_carrying.Claims.Scope.{ClaimResult, ClaimStore}
use vice_ceo_proof_carrying.Events.Claiming.{claim_event}
use vice_ceo_proof_carrying.Events.Decode.{
  decode_synthetic_pubsub_event, encode_synthetic_pubsub_event,
}
use vice_ceo_proof_carrying.Events.Types.{
  SyntheticEvent, SyntheticRun, build_synthetic_run, event_schema_version, support_event_type,
}
use vice_ceo_proof_carrying.Http.Types.{Response, after, event_answer, http_ok, plain_answer}
use vice_ceo_proof_carrying.Json.{Json}
use vice_ceo_proof_carrying.Prelude.{String, if◌then◌else◌, not}
use vice_ceo_proof_carrying.Runtime.{Runtime}

-- The two answers of the ingress.
pub data IngressAnswer : Type 0 where
  ingress_duplicate : String → String → IngressAnswer
  ingress_accepted : SyntheticRun → IngressAnswer

module _ (events : ClaimStore) (rt : Runtime) where
  open events use {State}

  -- The answer to a claim of an event.
  unfoldable pub claimed_answer : SyntheticEvent → SyntheticRun → ClaimResult → IngressAnswer
  claimed_answer e run c =
      if not c.claimed then ingress_duplicate e.event_id c.record_id else ingress_accepted run

  -- The route after the decoding.
  unfoldable pub claim_run : SyntheticEvent → SyntheticRun → State → Response IngressAnswer × State
  unfolding claimed_answer claim_event
  claim_run e run s =
      let (made, s') = claim_event events rt e run.run_id s in
      after (plain_answer made) (λ c t. (http_ok (claimed_answer e run c), t)) s'

  -- `accept_pubsub_synthetic_event`
  unfoldable pub accept_pubsub_synthetic_event : Json → State → Response IngressAnswer × State
  unfolding claim_run event_answer build_synthetic_run
  accept_pubsub_synthetic_event envelope s =
      after (event_answer 403 (decode_synthetic_pubsub_event rt envelope))
        (λ e. after (plain_answer (build_synthetic_run rt e)) (λ run. claim_run e run)) s

  -- `accept_synthetic_event`, of the fields of the request.
  unfoldable pub accept_synthetic_event :
      String → String → String → State → Response IngressAnswer × State
  unfolding accept_pubsub_synthetic_event
  accept_synthetic_event event_id case_id source = accept_pubsub_synthetic_event (
      encode_synthetic_pubsub_event rt (record {
        event_id = event_id;
        event_type = support_event_type;
        source = source;
        case_id = case_id;
        occurred_at = "2026-08-12T00:00:00Z";
        schema_version = event_schema_version;
      }))
