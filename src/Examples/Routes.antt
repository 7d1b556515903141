-- ===== src/Examples/Routes.antt =====
-- The theorems on the routes of the service, at concrete inputs.
use vice_ceo_proof_carrying.Business.Service.{
  business_message, prepare, prepare_reply, reply_library, send,
}
use vice_ceo_proof_carrying.Business.Types.{
  BusinessActionReceipt, PreparedBusinessMessage, business_receipt, record_delivery,
}
use vice_ceo_proof_carrying.Claims.Memory.{memory_store}
use vice_ceo_proof_carrying.Dict.{lookup, no_entries}
use vice_ceo_proof_carrying.Events.Decode.{
  decode_synthetic_pubsub_event, encode_synthetic_pubsub_event,
}
use vice_ceo_proof_carrying.Events.Decode.RoundTrip.{decode-encode}
use vice_ceo_proof_carrying.Events.Decode.Strict.{decode-IsAccepted}
use vice_ceo_proof_carrying.Examples.{
  demo-IsAccepted, demo_event, demo_runtime, demo_runtime-IsRuntime, noon, one_more, read_ticks,
  zoned,
}
use vice_ceo_proof_carrying.Examples.Watches.{
  demo_reply, demo_source_entry, demo_tools, demo_watch, idle_engine,
}
use vice_ceo_proof_carrying.Http.Ingress.{
  IngressAnswer, accept_pubsub_synthetic_event, ingress_duplicate,
}
use vice_ceo_proof_carrying.Http.Ingress.Once.{IsAnswer, accept-twice}
use vice_ceo_proof_carrying.Http.Private.{BusinessConfig, send_private}
use vice_ceo_proof_carrying.Http.Private.Forgets.{IsOpen, send_private-again}
use vice_ceo_proof_carrying.Http.Types.{Response, business_answer, http_ok}
use vice_ceo_proof_carrying.Http.Worker.{SchedulerCall, ServerConfig, scheduler_event}
use vice_ceo_proof_carrying.Http.Worker.Retries.{event_of_call, left_by, scheduler_retry}
use vice_ceo_proof_carrying.Outcome.{business_action_error, ok, raise}
use vice_ceo_proof_carrying.Prelude.{
  List, String, [], false, nat_eq, refl, some, string_eq, true, ◌≡◌,
}
use vice_ceo_proof_carrying.Registry.Decode.{watch_timestamp}
use vice_ceo_proof_carrying.Registry.Runs.{validate_event}
use vice_ceo_proof_carrying.Runtime.{as_utc, normalize_timestamp}
use vice_ceo_proof_carrying.Support.Loop.Once.{event_scope}
use vice_ceo_proof_carrying.Text.{
  append, concat, first, has_code, is_blank, is_space, join, lstrip, rstrip, strip,
}

accepted_envelope :
    decode_synthetic_pubsub_event demo_runtime
      (encode_synthetic_pubsub_event demo_runtime demo_event)
    ≡ ok demo_event
accepted_envelope =
    decode-encode demo_runtime demo_runtime-IsRuntime demo_event demo-IsAccepted refl

abbrev ingress_after : memory_store.State → Response IngressAnswer × memory_store.State
ingress_after =
    accept_pubsub_synthetic_event memory_store demo_runtime
      (encode_synthetic_pubsub_event demo_runtime demo_event)

abbrev first_answer : Response IngressAnswer × memory_store.State
first_answer = ingress_after no_entries

accept-twice_example :
    (old : String) × IsAnswer memory_store demo_runtime demo_event
      (decode-IsAccepted demo_runtime
        (encode_synthetic_pubsub_event demo_runtime demo_event)
        accepted_envelope).registered
      no_entries
      old
      first_answer
    × (memory_store.recorded first_answer.1
          (memory_store.key_of (event_scope demo_runtime demo_event))
        ≡ some old)
    × (ingress_after first_answer.1 ≡ (http_ok (ingress_duplicate "e1" old), first_answer.1))
accept-twice_example =
    accept-twice memory_store demo_runtime (encode_synthetic_pubsub_event demo_runtime demo_event)
      demo_event accepted_envelope no_entries

abbrev configured_server : ServerConfig
configured_server = record {
  public_demo_only = false;
  registry_watch_mode = "configured";
  delivery_probe_enabled = false;
}

abbrev tick : SchedulerCall
tick = record { job_name = "daily"; schedule_time = "..Z"; source_id = "s1" }

abbrev spaced_tick : SchedulerCall
spaced_tick = record { job_name = " daily "; schedule_time = "..Z "; source_id = "s1" }

tick_valid :
    validate_event demo_runtime demo_watch
      (event_of_call demo_runtime demo_tools memory_store configured_server tick)
    ≡ ok demo_source_entry
unfolding validate_event is_blank is_space watch_timestamp normalize_timestamp zoned read_ticks
    one_more lookup scheduler_event strip lstrip rstrip append join first
tick_valid = refl

scheduler_retry_example :
    left_by demo_runtime demo_tools memory_store configured_server demo_watch spaced_tick
      (left_by demo_runtime demo_tools memory_store configured_server demo_watch tick idle_engine)
    ≡ left_by demo_runtime demo_tools memory_store configured_server demo_watch tick idle_engine
unfolding strip lstrip rstrip is_space
scheduler_retry_example =
    scheduler_retry demo_runtime demo_tools memory_store configured_server demo_watch demo_watch
      tick spaced_tick demo_source_entry idle_engine refl refl refl tick_valid

abbrev private_service : BusinessConfig
private_service = record {
  public_demo_only = false;
  actions_enabled = true;
  delivery = "resend";
  api_key = "k";
  sender = "owner@example.invalid";
  business_name = "Westover EPR";
}

private_service-IsOpen : IsOpen (record_delivery demo_runtime noon) demo_runtime private_service
unfolding is_blank is_space has_code
private_service-IsOpen = record { private = refl; enabled = refl; resend = refl; usable = refl }

prepared_reply :
    (m : PreparedBusinessMessage) × (prepare demo_runtime "Westover EPR" demo_reply ≡ ok m)
unfolding prepare prepare_reply reply_library business_message is_blank is_space has_code concat
    append first
prepared_reply = (_, refl)

sent_reply :
    (receipt : BusinessActionReceipt) × ((record_delivery demo_runtime noon prepared_reply.0 []).0
      ≡ ok receipt)
unfolding record_delivery business_receipt as_utc
sent_reply = (_, refl)

abbrev private_call :
    List PreparedBusinessMessage → Response BusinessActionReceipt × List PreparedBusinessMessage
private_call =
    send_private (record_delivery demo_runtime noon) demo_runtime private_service demo_reply

send_private-again_example :
    (private_call (private_call []).1 ≡ (
      business_answer 409
          (record_delivery demo_runtime noon prepared_reply.0
            (record_delivery demo_runtime noon prepared_reply.0 []).1).0,
      (record_delivery demo_runtime noon prepared_reply.0
          (record_delivery demo_runtime noon prepared_reply.0 []).1).1,
    ))
    × ((completed : List String)
        → (send
            (record_delivery demo_runtime noon)
            demo_runtime
            "Westover EPR"
            demo_reply
            (send
              (record_delivery demo_runtime noon)
              demo_runtime
              "Westover EPR"
              demo_reply
              (record { completed_keys = completed; channel = [] })).1).0
          ≡ raise (business_action_error "business_action_already_completed"))
send_private-again_example =
    send_private-again (record_delivery demo_runtime noon) demo_runtime private_service
      private_service-IsOpen demo_reply prepared_reply.0 [] sent_reply.0 prepared_reply.1
      sent_reply.1
