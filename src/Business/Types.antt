-- ===== src/Business/Types.antt =====
-- business_actions.py: cases, contacts, messages, receipts, and the recording channel.
use vice_ceo_proof_carrying.Outcome.{Action, Result, business_action_error, ok, ◌>>=◌}
use vice_ceo_proof_carrying.Prelude.{Bool, List, Option, String, [], false, none, ◌++◌, ◌∷◌}
use vice_ceo_proof_carrying.Runtime.{Datetime, Runtime, as_utc}
use vice_ceo_proof_carrying.Text.{append, concat, first, str_option}

pub record CustomerServiceCase : Type 0 where
  pub case_id : String
  pub customer_email : String
  pub customer_name : String
  pub intent : String
  pub inbound_message_id : String
  pub source_policy : String

pub record OutreachContact : Type 0 where
  pub contact_id : String
  pub email : String
  pub display_name : String
  pub consent_record_id : String
  pub unsubscribed : Bool

pub record PreparedBusinessMessage : Type 0 where
  pub action_id : String
  pub action_kind : String
  pub recipient : String
  pub subject : String
  pub body : String
  pub idempotency_key : String
  pub source_reference : String

pub record BusinessActionReceipt : Type 0 where
  pub receipt_id : String
  pub action_id : String
  pub action_kind : String
  pub state : String
  pub provider : String
  pub provider_message_id : Option String
  pub idempotency_key : String
  pub source_reference : String
  pub external_effect : Bool
  pub recorded_at : String

-- `_receipt`
unfoldable pub business_receipt :
    Runtime
    → PreparedBusinessMessage
    → String
    → String
    → Option String
    → Bool
    → Datetime
    → Result BusinessActionReceipt
unfolding as_utc append first concat str_option
business_receipt rt m state provider provider_message_id external_effect now = do
  moment ← as_utc (business_action_error "business_action_clock_must_be_timezone_aware") now
  let seed = concat (
      m.action_id
      ∷ "|"
      ∷ m.idempotency_key
      ∷ "|"
      ∷ state
      ∷ "|"
      ∷ str_option provider_message_id
      ∷ [])
  ok (record {
    receipt_id = append "business_receipt_" (first 20 (rt.sha256 seed));
    action_id = m.action_id;
    action_kind = m.action_kind;
    state = state;
    provider = provider;
    provider_message_id = provider_message_id;
    idempotency_key = m.idempotency_key;
    source_reference = m.source_reference;
    external_effect = external_effect;
    recorded_at = rt.format_utc moment;
  })

-- `RecordingBusinessEmailDelivery.deliver`: the messages it was handed, oldest first. A message is
-- noted before its receipt is built.
unfoldable pub record_delivery :
    Runtime
    → Datetime
    → PreparedBusinessMessage
    → Action (List PreparedBusinessMessage) BusinessActionReceipt
unfolding business_receipt
record_delivery rt now m messages =
    (business_receipt rt m "simulated" "recording" none false now, messages ++ m ∷ [])
