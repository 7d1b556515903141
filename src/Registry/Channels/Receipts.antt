-- ===== src/Registry/Channels/Receipts.antt =====
-- registry_watch.py: what a receipt of the Resend channel rests on.
-- The provider named a message by `id`, in an object.
use vice_ceo_proof_carrying.Json.{Fields, Json, member, object, text}
use vice_ceo_proof_carrying.Outcome.{ok}
use vice_ceo_proof_carrying.Prelude.{
  Option, String, false, leb, nat_eq, some, string_eq, true, ℕ, ◌==◌, ◌||◌, ◌≡◌, ◌⊎◌,
}
use vice_ceo_proof_carrying.Registry.Channels.{
  ResendChannel, TransportReply, delivered, resend_receipt, responded,
}
use vice_ceo_proof_carrying.Registry.Runs.{caught, failed_delivery}
use vice_ceo_proof_carrying.Registry.Types.{InternalDeliveryReceipt}
use vice_ceo_proof_carrying.Runtime.{Runtime}
use vice_ceo_proof_carrying.Text.{char_count, is_blank, strip}

pub record IsNamed (o : Option Json) (id : String) : Type 0 where
  pub fields : Fields
  pub is_object : o ≡ some (object fields)
  pub named : member "id" fields ≡ some (text id)
  pub shown : is_blank id ≡ false
  pub bounded : leb (char_count id) 250 ≡ true

module _ (rt : Runtime) (lower : String → String) (loads : String → Option Json)
    (channel : ResendChannel) where
  -- A response that accepts the message, under `id`.
  pub record IsSent (reply : TransportReply) (id : String) : Type 0 where
    pub status : ℕ
    pub body : String
    pub responds : reply ≡ responded status body
    pub success : (status == 200 || status == 201) ≡ true
    pub names : IsNamed (loads body) id

  -- The receipt that a run of the watch notes.
  abbrev pub Noted : TransportReply → Type 0
  Noted reply =
      (r : InternalDeliveryReceipt) × (caught (resend_receipt rt lower loads channel reply) ≡ ok r)
      × ((r ≡ failed_delivery)
          ⊎ ((id : String) × IsSent reply id
              × (r ≡ delivered rt lower "resend" channel.recipient (strip id))))
