-- ===== src/Business/Service.antt =====
-- business_actions.py: `BusinessActionService`, over any delivery channel.
pub mod Once
use vice_ceo_proof_carrying.Business.Types.{
  BusinessActionReceipt, CustomerServiceCase, OutreachContact, PreparedBusinessMessage,
}
use vice_ceo_proof_carrying.Events.Types.{idempotency_key}
use vice_ceo_proof_carrying.Http.Types.{after}
use vice_ceo_proof_carrying.Json.{is_listed}
use vice_ceo_proof_carrying.Outcome.{
  Action, Result, business_action_error, ok, or_raise, proceed, raise, require, ◌>>=◌, ◌>>◌,
}
use vice_ceo_proof_carrying.Prelude.{
  Bool, List, Option, String, [], if◌then◌else◌, nat_eq, none, not, some, string_eq, ◌==◌, ◌||◌,
  ◌∷◌,
}
use vice_ceo_proof_carrying.Runtime.{Runtime}
use vice_ceo_proof_carrying.Text.{append, concat, first, has_code, is_blank}

-- `"@" in text`
abbrev has_at : String → Bool
has_at s = has_code 64 s

-- `_REPLY_LIBRARY[intent]`, with the template filled in: `none` for an intent without one.
unfoldable pub reply_library : String → String → String → Option (String × String)
unfolding concat
reply_library intent name business =
    if intent == "password_reset"
    then some (
      "Help with your password reset",
      concat (
          "Hi " ∷ name
          ∷ ",\n\nThanks for reaching out. You can reset your password from the sign-in page using the “Forgot password” link. If the reset email does not arrive within a few minutes, reply here and we will help.\n\nBest,\n"
          ∷ business ∷ []),
    )
    else if intent == "shipping_update"
    then some (
      "Your shipment update",
      concat (
          "Hi " ∷ name
          ∷ ",\n\nThanks for checking in. Your shipment is in progress. We will send tracking information as soon as it is available.\n\nBest,\n"
          ∷ business ∷ []),
    )
    else if intent == "business_hours"
    then some (
      "Our business hours",
      concat (
          "Hi " ∷ name
          ∷ ",\n\nThanks for reaching out. Our team will respond during the next business window. If your request is urgent, reply with the word URGENT in the subject line.\n\nBest,\n"
          ∷ business ∷ []),
    )
    else none

-- `_message`
unfoldable pub business_message :
    Runtime
    → (action_id action_kind recipient subject body source_reference : String)
    → PreparedBusinessMessage
unfolding append first concat
business_message rt action_id action_kind recipient subject body source_reference = record {
  action_id = action_id;
  action_kind = action_kind;
  recipient = recipient;
  subject = subject;
  body = body;
  idempotency_key = append "vice-ceo-" (
      first 32 (
        rt.sha256
          (concat (action_id ∷ "|" ∷ recipient ∷ "|" ∷ subject ∷ "|" ∷ source_reference ∷ []))));
  source_reference = source_reference;
}

-- The checks of `send_customer_reply`, and the message it prepares.
unfoldable pub prepare_reply :
    Runtime → String → CustomerServiceCase → Result PreparedBusinessMessage
unfolding reply_library business_message is_blank has_code append concat
prepare_reply rt business c = do
  (subject, body) ←
      or_raise (reply_library c.intent c.customer_name business)
        (business_action_error "customer_reply_requires_human_review")
  require (not (is_blank c.inbound_message_id || not (has_at c.customer_email)))
      (business_action_error "customer_reply_source_or_recipient_invalid")
  ok (
      business_message rt (append "customer_reply_" c.case_id) "customer_service_reply"
        c.customer_email subject body
        (concat ("inbound_message:" ∷ c.inbound_message_id ∷ "|policy:" ∷ c.source_policy ∷ [])))

pub record FollowUp : Type 0 where
  pub campaign_id : String
  pub campaign_name : String
  pub contact : OutreachContact
  pub subject : String
  pub body : String

-- The checks of `send_outreach_follow_up`, and the message it prepares.
unfoldable pub prepare_follow_up : Runtime → FollowUp → Result PreparedBusinessMessage
unfolding business_message is_blank has_code concat
prepare_follow_up rt f = do
  require (not (is_blank f.campaign_id || is_blank f.campaign_name))
      (business_action_error "outreach_campaign_not_approved")
  require (not f.contact.unsubscribed) (business_action_error "outreach_contact_suppressed")
  require (not (is_blank f.contact.consent_record_id || not (has_at f.contact.email)))
      (business_action_error "outreach_contact_consent_or_recipient_invalid")
  require (not (is_blank f.subject || is_blank f.body))
      (business_action_error "outreach_message_content_invalid")
  ok (
      business_message rt
        (concat ("outreach_follow_up_" ∷ f.campaign_id ∷ "_" ∷ f.contact.contact_id ∷ []))
        "outreach_follow_up" f.contact.email f.subject f.body
        (concat (
          "campaign:" ∷ f.campaign_id ∷ ":" ∷ f.campaign_name ∷ "|consent:"
          ∷ f.contact.consent_record_id ∷ [])))

-- A request to the service.
pub data BusinessRequest : Type 0 where
  customer_reply : CustomerServiceCase → BusinessRequest
  outreach_follow_up : FollowUp → BusinessRequest

unfoldable pub prepare : Runtime → String → BusinessRequest → Result PreparedBusinessMessage
unfolding prepare_reply prepare_follow_up
prepare rt business (customer_reply c) = prepare_reply rt business c
prepare rt business (outreach_follow_up f) = prepare_follow_up rt f

-- The channel's `deliver`, with the channel's own state.
module _ {Channel : Type 0}
    (deliver : PreparedBusinessMessage → Action Channel BusinessActionReceipt) where
  pub record ServiceState : Type 0 where
    pub completed_keys : List String
    pub channel : Channel

  -- `_deliver_once`
  unfoldable pub deliver_once : PreparedBusinessMessage → Action ServiceState BusinessActionReceipt
  unfolding is_listed
  deliver_once m s =
      if is_listed m.idempotency_key s.completed_keys
      then (raise (business_action_error "business_action_already_completed"), s)
      else (let (sent, after) = deliver m s.channel in
          proceed sent
            (λ receipt s'. (
              ok receipt,
              record {
                completed_keys = m.idempotency_key ∷ s'.completed_keys;
                channel = s'.channel;
              },
            ))
            (record { completed_keys = s.completed_keys; channel = after }))

  -- `send_customer_reply` and `send_outreach_follow_up`
  unfoldable pub send :
      Runtime → String → BusinessRequest → Action ServiceState BusinessActionReceipt
  unfolding deliver_once
  send rt business r s = proceed (prepare rt business r) deliver_once s
