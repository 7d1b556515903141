-- ===== src/Registry/Channels.antt =====
-- registry_watch.py: the SMTP and Resend channels, over what the transport does with a message.
-- `json.loads` and `str.lower` are parameters.
pub mod Receipts
use vice_ceo_proof_carrying.Json.{Json, array, decimal, flag, member, null, number, object, text}
use vice_ceo_proof_carrying.Outcome.{
  Error, Result, ok, or_raise, raise, registry_watch_error, require, value_error, ◌>>=◌, ◌>>◌,
}
use vice_ceo_proof_carrying.Prelude.{
  Bool, Option, String, [], false, leb, nat_eq, none, not, some, string_eq, ℕ, ◌&&◌, ◌==◌, ◌||◌,
  ◌∷◌,
}
use vice_ceo_proof_carrying.Registry.Types.{InternalDeliveryReceipt, RegistryImpactBrief}
use vice_ceo_proof_carrying.Runtime.{Runtime}
use vice_ceo_proof_carrying.Text.{
  append, char_count, concat, first, has_code, is_blank, join, starts_with, strip,
}

-- The text of a brief that a channel sends.
unfoldable pub brief_body : RegistryImpactBrief → String
unfolding join append
brief_body b = join "\n" (
    "Vice CEO Registry Change Watch"
    ∷ ""
    ∷ b.change_summary
    ∷ ""
    ∷ append "Source: " b.source_citation_url
    ∷ append "Evidence hash: " b.source_evidence_sha256
    ∷ append "Recommended next action: " b.recommended_next_action
    ∷ ""
    ∷ "This is an operational briefing, not a legal conclusion or an external prospect message."
    ∷ [])

pub record BriefMessage : Type 0 where
  pub sender : String
  pub recipient : String
  pub subject : String
  pub body : String

-- What the opener does: `HTTPError`, another exception, or a response with status and body.
pub data TransportReply : Type 0 where
  http_failure : ℕ → TransportReply
  transport_lost : TransportReply
  responded : ℕ → String → TransportReply

pub record ResendChannel : Type 0 where
  pub api_key : String
  pub sender : String
  pub recipient : String
  pub subject_prefix : String

-- `ResendInternalBriefDelivery.__init__`
unfoldable pub resend_channel : String → String → String → String → Result ResendChannel
unfolding starts_with is_blank has_code strip
resend_channel api_key sender recipient subject_prefix = do
  require
      (starts_with "re_" api_key
        && not (
            is_blank sender
            || is_blank recipient
            || is_blank subject_prefix
            || has_code 10 subject_prefix
            || has_code 13 subject_prefix))
      (value_error "internal_brief_resend_configuration_invalid")
  ok (record {
    api_key = api_key;
    sender = sender;
    recipient = recipient;
    subject_prefix = strip subject_prefix;
  })

abbrev pub receipt_invalid : Error
receipt_invalid = registry_watch_error "internal_brief_delivery_receipt_invalid"

-- `loads(response_body)["id"]`
unfoldable pub response_id : Option Json → Result Json
unfolding member
response_id none = raise receipt_invalid
response_id (some (object fs)) = or_raise (member "id" fs) receipt_invalid
response_id (some (text s)) = raise receipt_invalid
response_id (some (number n)) = raise receipt_invalid
response_id (some (flag b)) = raise receipt_invalid
response_id (some (array items)) = raise receipt_invalid
response_id (some null) = raise receipt_invalid

-- The check of the provider's id.
unfoldable pub provider_id : Json → Result String
unfolding is_blank char_count
provider_id (text s) = do require (not (is_blank s) && leb (char_count s) 250) receipt_invalid; ok s
provider_id (number n) = raise receipt_invalid
provider_id (flag b) = raise receipt_invalid
provider_id (array items) = raise receipt_invalid
provider_id (object fs) = raise receipt_invalid
provider_id null = raise receipt_invalid

-- The id of a reply, or the error that either part raises.
unfoldable pub reply_id : Option Json → Result String
unfolding response_id provider_id
reply_id o = do value ← response_id o; provider_id value

unfoldable pub rejected : ℕ → Error
unfolding append decimal
rejected status = registry_watch_error (append "internal_brief_delivery_rejected_" (decimal status))

module _ (rt : Runtime) (lower : String → String) where
  -- `sha256(self._recipient.strip().lower().encode()).hexdigest()`
  unfoldable pub recipient_digest : String → String
  unfolding strip
  recipient_digest recipient = rt.sha256 (lower (strip recipient))

  unfoldable pub delivered : String → String → String → InternalDeliveryReceipt
  unfolding recipient_digest
  delivered provider recipient receipt_id = record {
    state = "delivered";
    provider = provider;
    recipient_sha256 = some (recipient_digest recipient);
    receipt_id = some receipt_id;
    reason_code = "owner_brief_delivered";
    external_prospect_effect = false;
  }

  module _ (loads : String → Option Json) where
    -- The receipt of a reply of the transport.
    unfoldable pub resend_receipt : ResendChannel → TransportReply → Result InternalDeliveryReceipt
    unfolding reply_id delivered strip rejected
    resend_receipt channel (http_failure status) = raise (rejected status)
    resend_receipt channel transport_lost =
        raise (registry_watch_error "internal_brief_delivery_transport_failed")
    resend_receipt channel (responded status body) = do
      require (status == 200 || status == 201) (rejected status)
      id ← reply_id (loads body)
      ok (delivered "resend" channel.recipient (strip id))

    -- `ResendInternalBriefDelivery.deliver`, over the opener.
    unfoldable pub resend_deliver :
        (BriefMessage → TransportReply)
        → ResendChannel
        → RegistryImpactBrief
        → Result InternalDeliveryReceipt
    unfolding resend_receipt brief_body concat
    resend_deliver opener channel b = resend_receipt channel (
        opener (record {
          sender = channel.sender;
          recipient = channel.recipient;
          subject = concat (channel.subject_prefix ∷ " — " ∷ b.source_display_name ∷ []);
          body = brief_body b;
        }))

  -- `SmtpInternalBriefDelivery.deliver`: the session either sent the message or raised.
  unfoldable pub smtp_deliver :
      (BriefMessage → Bool) → String → String → RegistryImpactBrief → Result InternalDeliveryReceipt
  unfolding brief_body delivered recipient_digest append first
  smtp_deliver session sender recipient b = do
    require
        (session (record {
          sender = sender;
          recipient = recipient;
          subject = append "Registry change detected — " b.source_display_name;
          body = brief_body b;
        }))
        (registry_watch_error "internal_brief_delivery_failed")
    ok (
        delivered "smtp" recipient (
          append "smtp_internal_brief_"
            (first 20 (rt.sha256 (append b.brief_id (recipient_digest recipient))))))
