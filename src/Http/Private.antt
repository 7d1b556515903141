-- ===== src/Http/Private.antt =====
-- fast_api_app.py: the private routes of the business actions. Each call builds its service anew.
pub mod Forgets
use vice_ceo_proof_carrying.Business.Service.{BusinessRequest, send}
use vice_ceo_proof_carrying.Business.Types.{BusinessActionReceipt, PreparedBusinessMessage}
use vice_ceo_proof_carrying.Http.Types.{Response, after, business_answer, http_error}
use vice_ceo_proof_carrying.Outcome.{Action, Result, business_action_error, require, ◌>>=◌, ◌>>◌}
use vice_ceo_proof_carrying.Prelude.{
  Bool, String, [], if◌then◌else◌, nat_eq, not, string_eq, ◌==◌, ◌||◌,
}
use vice_ceo_proof_carrying.Runtime.{Runtime}
use vice_ceo_proof_carrying.Text.{has_code, is_blank}

-- What the environment configures, or the exception of
-- `create_business_action_service_from_environment`.
pub record BusinessConfig : Type 0 where
  pub public_demo_only : Bool
  pub actions_enabled : Bool
  pub delivery : String
  pub api_key : String
  pub sender : String
  pub business_name : String

module _ {Channel : Type 0}
    (deliver : PreparedBusinessMessage → Action Channel BusinessActionReceipt) (rt : Runtime)
    (cfg : BusinessConfig) where
  -- The checks of `create_business_action_service_from_environment`, the channel's included.
  unfoldable pub check_environment : Result (Unit {0})
  unfolding is_blank has_code
  check_environment = do
    require cfg.actions_enabled (business_action_error "business_actions_not_explicitly_enabled")
    require (cfg.delivery == "resend") (business_action_error "unsupported_business_email_delivery")
    require (not (is_blank cfg.api_key || not (has_code 64 cfg.sender)))
        (business_action_error "business_email_configuration_invalid")

  -- The call of a service that was just built.
  unfoldable pub call_service : BusinessRequest → Channel → Response BusinessActionReceipt × Channel
  unfolding send business_answer
  call_service request channel =
      let (r, after_call) =
        send deliver rt cfg.business_name request
          (record { completed_keys = []; channel = channel }) in
      (business_answer 409 r, after_call.channel)

  -- `send_private_customer_reply` and `send_private_outreach_follow_up`
  unfoldable pub send_private : BusinessRequest → Channel → Response BusinessActionReceipt × Channel
  unfolding call_service check_environment business_answer
  send_private request channel =
      if cfg.public_demo_only
      then (http_error 404 "business_actions_not_available_on_public_demo", channel)
      else after (business_answer 409 check_environment) (λ built. call_service request) channel
