-- ===== src/Http/Private/Forgets.antt =====
-- fast_api_app.py: the private routes, called again with one request.
use vice_ceo_proof_carrying.Business.Service.{
  BusinessRequest, ServiceState, deliver_once, prepare, send,
}
use vice_ceo_proof_carrying.Business.Types.{BusinessActionReceipt, PreparedBusinessMessage}
use vice_ceo_proof_carrying.Http.Private.{
  BusinessConfig, call_service, check_environment, send_private,
}
use vice_ceo_proof_carrying.Http.Types.{business_answer}
use vice_ceo_proof_carrying.Json.{is_listed}
use vice_ceo_proof_carrying.Outcome.{Action, Result-cases, business_action_error, ok, raise}
use vice_ceo_proof_carrying.Prelude.{
  Bool-cases, List, String, false, inl, inr, nat_eq, not, refl, string_eq, true, ◌==◌, ◌||◌, ◌≡◌,
}
use vice_ceo_proof_carrying.Runtime.{Runtime}
use vice_ceo_proof_carrying.Text.{has_code, is_blank}

module _ {Channel : Type 0}
    (deliver : PreparedBusinessMessage → Action Channel BusinessActionReceipt) (rt : Runtime)
    (cfg : BusinessConfig) where
  -- The service that the environment configures.
  pub record IsOpen : Type 0 where
    pub private : cfg.public_demo_only ≡ false
    pub enabled : cfg.actions_enabled ≡ true
    pub resend : (cfg.delivery == "resend") ≡ true
    pub usable : (is_blank cfg.api_key || not (has_code 64 cfg.sender)) ≡ false

  send_private_lem :
      IsOpen
      → (r : BusinessRequest) (m : PreparedBusinessMessage) (channel : Channel)
      → prepare rt cfg.business_name r ≡ ok m
      → send_private deliver rt cfg r channel
        ≡ (business_answer 409 (deliver m channel).0, (deliver m channel).1)
  unfolding send_private call_service check_environment send deliver_once is_listed business_answer
  send_private_lem ready r m channel prepared = elim (Result-cases (deliver m channel).0) [
    | inl (receipt, sent) ↦
        rw (ready.private, ready.enabled, ready.resend, ready.usable, prepared, sent) refl
    | inr (x, raised) ↦
        rw (ready.private, ready.enabled, ready.resend, ready.usable, prepared, raised) refl
  ]

  asked_twice :
      (r : BusinessRequest) (m : PreparedBusinessMessage) (receipt : BusinessActionReceipt)
      → prepare rt cfg.business_name r ≡ ok m
      → (s : ServiceState deliver) → (deliver m s.channel).0 ≡ ok receipt
      → (send deliver rt cfg.business_name r (send deliver rt cfg.business_name r s).1).0
        ≡ raise (business_action_error "business_action_already_completed")
  unfolding send deliver_once is_listed
  asked_twice r m receipt prepared s sent =
      elim (Bool-cases (is_listed m.idempotency_key s.completed_keys)) [
        | inl done ↦ rw (prepared, done, done) refl
        | inr new ↦
            rw (prepared, new, sent, (string_eq.beq_iff m.idempotency_key m.idempotency_key).1 refl)
              refl
      ]

  -- A request that is eligible is handed to the channel by every call of the private route, also
  -- after a call for it that was answered with a receipt. One service asked twice refuses the second.
  pub send_private-again :
      IsOpen
      → (r : BusinessRequest) (m : PreparedBusinessMessage) (channel : Channel)
        (receipt : BusinessActionReceipt)
      → prepare rt cfg.business_name r ≡ ok m
      → (deliver m channel).0 ≡ ok receipt
      → (send_private deliver rt cfg r (send_private deliver rt cfg r channel).1 ≡ (
        business_answer 409 (deliver m (deliver m channel).1).0,
        (deliver m (deliver m channel).1).1,
      ))
        × ((completed : List String)
            → (send deliver rt cfg.business_name r
                (send deliver rt cfg.business_name r
                  (record { completed_keys = completed; channel = channel })).1).0
              ≡ raise (business_action_error "business_action_already_completed"))
  send_private-again ready r m channel receipt prepared sent = (
    rw (send_private_lem ready r m channel prepared)
        (send_private_lem ready r m (deliver m channel).1 prepared),
    λ completed.
        asked_twice r m receipt prepared (record { completed_keys = completed; channel = channel })
          sent,
  )
