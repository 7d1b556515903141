-- ===== src/Provider/Canary.antt =====
-- provider_canary.py: the terminal claim, the receipt, and the one request.
pub mod Claiming
pub mod Audit
use vice_ceo_proof_carrying.Claims.Scope.{won}
use vice_ceo_proof_carrying.Json.{
  Fields, dumps, end, field, flag, number, object, optional_text, text,
}
use vice_ceo_proof_carrying.Outcome.{
  Action, Error, Result, andthen, business_action_error, event_contract_error,
  gemini_model_configuration_error, human_approval_error, knowledge_pack_error, ok,
  operational_twin_error, or_raise, overflow_error, proceed, provider_canary_error,
  provider_evidence_error, raise, recursion_error, registry_watch_error, require, runtime_error,
  specialist_protocol_error, timeline_integrity_error, type_error, value_error, ◌>>=◌, ◌>>◌,
}
use vice_ceo_proof_carrying.Prelude.{
  Bool, List, Option, String, [], false, if◌then◌else◌, nat_eq, none, not, some, string_eq, suc,
  true, ℕ, ◌++◌, ◌==◌, ◌||◌, ◌∷◌,
}
use vice_ceo_proof_carrying.Provider.Model.{hackathon_gemini_model}
use vice_ceo_proof_carrying.Runtime.{Runtime}
use vice_ceo_proof_carrying.Text.{append, char_count, strip}

abbrev pub provider_canary_id : String
provider_canary_id = "vice_ceo_vertex_synthetic_canary_v1"

abbrev pub provider_canary_receipt_event : String
provider_canary_receipt_event = "vice_ceo_provider_canary_receipt"

abbrev pub provider_canary_receipt_version : String
provider_canary_receipt_version = "vice-ceo-provider-canary-receipt-v1"

abbrev pub fixed_canary_prompt : String
fixed_canary_prompt =
    "This is a synthetic evaluation only. In 60 words or fewer, explain why a support request with uncertain identity must be escalated instead of sending an email or changing an account. Do not request tools or take an action."

abbrev pub receipt_id_prefix : String
receipt_id_prefix = "provider_canary_receipt_"

-- The values of `_state`.
pub data CanaryState : Type 0 where
  available claimed completed failed : CanaryState

-- `InMemoryProviderCanaryClaim.claim`
unfoldable pub claim : CanaryState → Bool × CanaryState
claim available = (true, claimed)
claim claimed = (false, claimed)
claim completed = (false, completed)
claim failed = (false, failed)

-- The terminal state that a name stands for.
abbrev terminal_state : String → Option CanaryState
terminal_state name =
    if name == "completed" then some completed else if name == "failed" then some failed else none

-- A transition out of the claim.
unfoldable pub close : CanaryState → Action CanaryState (Unit {0})
close t claimed = (ok tt, t)
close t available =
    (raise (provider_canary_error "provider_canary_terminal_transition_denied"), available)
close t completed =
    (raise (provider_canary_error "provider_canary_terminal_transition_denied"), completed)
close t failed =
    (raise (provider_canary_error "provider_canary_terminal_transition_denied"), failed)

complete_as : Option CanaryState → Action CanaryState (Unit {0})
unfolding close
complete_as none s = (raise (value_error "invalid_provider_canary_terminal_state"), s)
complete_as (some t) s = close t s

-- `InMemoryProviderCanaryClaim.complete`
unfoldable pub complete : String → Action CanaryState (Unit {0})
unfolding complete_as
complete name = complete_as (terminal_state name)

-- `_prompt_hash`
unfoldable pub prompt_hash : Runtime → String
prompt_hash rt = rt.sha256 fixed_canary_prompt

-- An event of the provider's stream: whether it is the final response, and the text of each part of
-- its content, if the part has one.
pub record ProviderEvent : Type 0 where
  pub is_final_response : Bool
  pub parts : List (Option String)

-- `"".join(part.text for part in parts if ...)`
unfoldable pub joined_text : List (Option String) → String
unfolding append
joined_text [] = ""
joined_text (none ∷ parts) = joined_text parts
joined_text (some said ∷ parts) = append said (joined_text parts)

-- `text or None`
abbrev pub nonempty : String → Option String
nonempty s = if s == "" then none else some s

-- `_final_response_text`
unfoldable pub final_response_text : ProviderEvent → Option String
unfolding joined_text strip
final_response_text e = nonempty (strip (joined_text e.parts))

-- The loop over the stream: the text of the last final response.
unfoldable pub response_of : Option String → List ProviderEvent → Option String
unfolding final_response_text
response_of said [] = said
response_of said (e ∷ es) =
    response_of (if e.is_final_response then final_response_text e else said) es

-- The receipt, a dictionary in the source.
pub record CanaryReceipt : Type 0 where
  pub receipt_id : String
  pub outcome : String
  pub reason_code : Option String
  pub prompt_sha256 : String
  pub response_sha256 : Option String
  pub response_character_count : ℕ

abbrev counted : Option String → ℕ
counted none = 0
counted (some s) = char_count s

abbrev digested : Runtime → Option String → Option String
digested rt none = none
digested rt (some s) = some (rt.sha256 s)

-- `_build_receipt`, with the hexadecimal digits of `uuid4()`.
unfoldable pub build_canary_receipt :
    Runtime → String → String → Option String → Option String → Result CanaryReceipt
unfolding append prompt_hash char_count
build_canary_receipt rt token outcome response reason = do
  require (outcome == "completed" || outcome == "failed")
      (value_error "invalid_provider_canary_receipt_outcome")
  ok (record {
    receipt_id = append receipt_id_prefix token;
    outcome = outcome;
    reason_code = reason;
    prompt_sha256 = prompt_hash rt;
    response_sha256 = digested rt response;
    response_character_count = counted response;
  })

-- The receipt's dictionary, as `sort_keys` orders it.
unfoldable pub receipt_fields : CanaryReceipt → Fields
receipt_fields r = field "audit_log_emitted" (flag true) (
    field "canary_id" (text provider_canary_id) (
      field "customer_data" (flag false) (
        field "external_business_effect" (flag false) (
          field "model" (text hackathon_gemini_model) (
            field "outcome" (text r.outcome) (
              field "persistent_business_write" (flag false) (
                field "prompt_sha256" (text r.prompt_sha256) (
                  field "reason_code" (optional_text r.reason_code) (
                    field "receipt_id" (text r.receipt_id) (
                      field "receipt_version" (text provider_canary_receipt_version) (
                        field "response_character_count" (number r.response_character_count) (
                          field "response_sha256" (optional_text r.response_sha256)
                            (field "tool_calls" (number 0) end)))))))))))))

-- The log entry of `_emit_receipt`.
unfoldable pub log_payload : CanaryReceipt → Fields
unfolding receipt_fields
log_payload r = field "event" (text provider_canary_receipt_event) (
    field "message" (text "Vice CEO provider canary receipt") (
      field "provider_canary_receipt" (object (receipt_fields r))
        (field "severity" (text "NOTICE") end)))

-- The process: the claim, the lines printed so far, and how often
-- a call went on to the provider.
pub record CanaryProcess : Type 0 where
  pub state : CanaryState
  pub printed : List String
  pub requests : ℕ

-- What one call meets: the environment's switch, two `uuid4()` values, and the provider's stream,
-- which may end with an exception.
pub record CanaryCall : Type 0 where
  pub enabled : Bool
  pub token : String
  pub failure_token : String
  pub stream : List ProviderEvent
  pub interrupted : Option Error

-- `_emit_receipt`
unfoldable pub emit_receipt : CanaryReceipt → CanaryProcess → CanaryProcess
unfolding log_payload dumps
emit_receipt r p = record p { printed = p.printed ++ (dumps (object (log_payload r)) ∷ []) }

-- A transition of the claim inside the process.
unfoldable pub complete_claim : String → Action CanaryProcess (Unit {0})
unfolding complete
complete_claim name p = let (r, s) = complete name p.state in (r, record p { state = s })

-- The response that the stream of a call leaves, or the exception.
unfoldable pub streamed : CanaryCall → Result String
unfolding response_of
streamed c = elim c.interrupted [
  | some e ↦ raise e
  | none ↦
      or_raise (response_of none c.stream)
        (provider_canary_error "provider_canary_missing_final_response")
]

-- The body of the `try`.
unfoldable pub attempt : Runtime → CanaryCall → Action CanaryProcess CanaryReceipt
unfolding streamed complete_claim build_canary_receipt emit_receipt
attempt rt c p =
    let p1 : CanaryProcess = record p { requests = suc p.requests } in
    proceed (streamed c)
      (λ response. andthen (complete_claim "completed") (λ done p2.
        proceed (build_canary_receipt rt c.token "completed" (some response) none)
          (λ receipt p3. (ok receipt, emit_receipt receipt p3)) p2))
      p1

-- `str(error) if isinstance(error, ProviderCanaryError) else ...`
unfoldable pub canary_reason : Error → String
canary_reason e = elim e [
  | provider_canary_error reason ↦ reason
  | value_error m ↦ "provider_canary_provider_failure"
  | type_error m ↦ "provider_canary_provider_failure"
  | runtime_error m ↦ "provider_canary_provider_failure"
  | overflow_error m ↦ "provider_canary_provider_failure"
  | recursion_error m ↦ "provider_canary_provider_failure"
  | event_contract_error m ↦ "provider_canary_provider_failure"
  | specialist_protocol_error m ↦ "provider_canary_provider_failure"
  | human_approval_error m ↦ "provider_canary_provider_failure"
  | registry_watch_error m ↦ "provider_canary_provider_failure"
  | business_action_error m ↦ "provider_canary_provider_failure"
  | operational_twin_error m ↦ "provider_canary_provider_failure"
  | timeline_integrity_error m ↦ "provider_canary_provider_failure"
  | knowledge_pack_error m ↦ "provider_canary_provider_failure"
  | provider_evidence_error m ↦ "provider_canary_provider_failure"
  | gemini_model_configuration_error m ↦ "provider_canary_provider_failure"
]

is_claimed : CanaryState → Bool
is_claimed available = false
is_claimed claimed = true
is_claimed completed = false
is_claimed failed = false

-- `except Exception as error`
unfoldable pub recover : Runtime → String → Error → Action CanaryProcess CanaryReceipt
unfolding complete_claim build_canary_receipt emit_receipt canary_reason is_claimed
recover rt token e =
    andthen (λ p. if is_claimed p.state then complete_claim "failed" p else (ok tt, p))
      (λ done p.
        proceed (build_canary_receipt rt token "failed" none (some (canary_reason e)))
          (λ receipt p'. (raise (provider_canary_error (canary_reason e)), emit_receipt receipt p'))
          p)

-- `try` with one handler.
abbrev handle {ℓ} : {S A : Type ℓ} → Result A × S → (Error → Action S A) → Result A × S
handle (ok a, s) handler = (ok a, s)
handle (raise e, s) handler = handler e s

-- `run_fixed_provider_canary`
unfoldable pub run_fixed_provider_canary : Runtime → CanaryCall → Action CanaryProcess CanaryReceipt
unfolding claim attempt recover
run_fixed_provider_canary rt c p =
    let (won, s) = claim p.state in
    if not c.enabled
    then (raise (provider_canary_error "provider_canary_disabled"), p)
    else if not won
    then (raise (provider_canary_error "provider_canary_already_terminal"), record p { state = s })
    else handle (attempt rt c (record p { state = s })) (recover rt c.failure_token)

pub record ProviderCanaryStatus : Type 0 where
  pub enabled : Bool
  pub state : CanaryState
  pub model : String
  pub prompt_sha256 : String

-- `provider_canary_status`
unfoldable pub provider_canary_status : Runtime → Bool → CanaryProcess → ProviderCanaryStatus
unfolding prompt_hash
provider_canary_status rt enabled p = record {
  enabled = enabled;
  state = p.state;
  model = hackathon_gemini_model;
  prompt_sha256 = prompt_hash rt;
}
