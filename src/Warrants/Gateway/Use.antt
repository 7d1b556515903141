-- ===== src/Warrants/Gateway/Use.antt =====
-- warrant_gateway.py: what `validate_and_consume` checks, and that it checks nothing else.
use vice_ceo_proof_carrying.Events.Types.{idempotency_key, policy_version}
use vice_ceo_proof_carrying.Fixtures.{
  Case, CaseResult, case_allowed, case_denied, read_synthetic_case,
}
use vice_ceo_proof_carrying.Outcome.{Error, ok, ok_of_bind, ◌>>=◌}
use vice_ceo_proof_carrying.Prelude.{
  Bool, String, ap, arith, eq_iff, eq_of_beq, false, nat_eq, refl, string_eq, sym, true, ℕ, ◌<◌,
  ◌↔◌, ◌≡◌,
}
use vice_ceo_proof_carrying.Runtime.{Datetime, IsRuntime, Runtime, as_utc, parse_timestamp}
use vice_ceo_proof_carrying.Text.{is_ascii}
use vice_ceo_proof_carrying.Warrants.Gateway.{
  Order, arguments_hash, check_scope, check_signature, check_time, check_use, clock_error, passed,
  signature_is_valid,
}
use vice_ceo_proof_carrying.Warrants.Types.{
  ActionWarrant, allows, simulated_ticket_capability, simulated_ticket_tool, tool_contract_version,
  unsigned_payload,
}

-- Everything that a warrant must meet at the moment of use.
pub record IsAuthorized (rt : Runtime) (key : String) (now : Datetime) (w : ActionWarrant)
    (o : Order) : Type 0 where
  pub permitted : allows o.controls simulated_ticket_capability ≡ true
  pub tool : w.tool_name ≡ simulated_ticket_tool
  pub contract : w.tool_contract_version ≡ tool_contract_version
  pub policy : w.policy_version ≡ policy_version
  pub signed : w.signature ≡ rt.hmac_sha256 key (unsigned_payload w)
  pub expiry : ℕ
  pub expires : parse_timestamp rt w.expires_at ≡ ok expiry
  pub zoned : now.aware ≡ true
  pub in_time : now.instant < expiry
  pub case : Case
  pub readable : read_synthetic_case o.event.case_id ≡ case_allowed case
  pub same_event : w.event_id ≡ o.event.event_id
  pub same_run : w.run_id ≡ o.run_id
  pub same_tenant : w.tenant ≡ case.tenant
  pub same_key : w.idempotency_key ≡ idempotency_key rt o.event
  pub same_arguments :
      w.normalized_arguments_sha256 ≡ arguments_hash rt o.event.case_id o.transition

module _ (rt : Runtime) where
  record InScope (w : ActionWarrant) (o : Order) (c : Case) : Type 0 where
    event : w.event_id ≡ o.event.event_id
    run : w.run_id ≡ o.run_id
    tenant : w.tenant ≡ c.tenant
    key : w.idempotency_key ≡ idempotency_key rt o.event
    arguments : w.normalized_arguments_sha256 ≡ arguments_hash rt o.event.case_id o.transition

  check_scope_passed :
      (w : ActionWarrant) (o : Order) (r : CaseResult)
      → check_scope rt w o r ≡ passed
      → (c : Case) × (r ≡ case_allowed c) × InScope w o c
  unfolding check_scope
  check_scope_passed w o (case_denied reason message) h = absurd (cc h)
  check_scope_passed w o (case_allowed c) h = (
    c,
    refl,
    ground (
      arith,
      eq_iff w.event_id o.event.event_id,
      eq_iff w.run_id o.run_id,
      eq_iff w.tenant c.tenant,
      eq_iff w.idempotency_key (idempotency_key rt o.event),
      eq_iff w.normalized_arguments_sha256 (arguments_hash rt o.event.case_id o.transition),
    ),
  )

  as_utc_ok :
      (e : Error) (d : Datetime) {t : ℕ} → as_utc e d ≡ ok t → (d.aware ≡ true) × (t ≡ d.instant)
  unfolding as_utc
  as_utc_ok e d h = ground arith

  record InTime (now : Datetime) (w : ActionWarrant) : Type 0 where
    expiry : ℕ
    expires : parse_timestamp rt w.expires_at ≡ ok expiry
    zoned : now.aware ≡ true
    before : now.instant < expiry

  check_time_passed :
      (now : Datetime) (w : ActionWarrant) (o : Order)
      → check_time rt now w o ≡ ok passed
      → InTime now w × (check_scope rt w o (read_synthetic_case o.event.case_id) ≡ passed)
  unfolding check_time
  check_time_passed now w o h = ok_of_bind (parse_timestamp rt w.expires_at) _ h λ expiry he h1.
      ok_of_bind (as_utc clock_error now) _ h1 λ t ht h2.
        let (zoned, same) = as_utc_ok clock_error now ht in
        (
          record { expiry = expiry; expires = he; zoned = zoned; before = ground arith },
          ground arith,
        )

  signature_is_valid-true :
      (key : String) (w : ActionWarrant)
      → signature_is_valid rt key w ≡ ok true
      → w.signature ≡ rt.hmac_sha256 key (unsigned_payload w)
  unfolding signature_is_valid unsigned_payload
  signature_is_valid-true key w h =
      let genuine : String = rt.hmac_sha256 key (unsigned_payload w) in
      sym (eq_of_beq genuine w.signature (ground arith))

  check_signature_passed :
      (b : Bool) (now : Datetime) (w : ActionWarrant) (o : Order)
      → check_signature rt b now w o ≡ ok passed
      → (b ≡ true) × (check_time rt now w o ≡ ok passed)
  unfolding check_signature
  check_signature_passed false now w o h = absurd (cc h)
  check_signature_passed true now w o h = (refl, h)

  check_use_gate :
      (key : String) (now : Datetime) (w : ActionWarrant) (o : Order)
      → check_use rt key now w o ≡ ok passed
      → (allows o.controls simulated_ticket_capability ≡ true)
        × (w.tool_name ≡ simulated_ticket_tool)
        × (w.tool_contract_version ≡ tool_contract_version)
        × (w.policy_version ≡ policy_version)
        × ((signature_is_valid rt key w >>= λ valid. check_signature rt valid now w o) ≡ ok passed)
  unfolding check_use
  check_use_gate key now w o h = ground (
    arith,
    eq_iff w.tool_name simulated_ticket_tool,
    eq_iff w.tool_contract_version tool_contract_version,
    eq_iff w.policy_version policy_version,
  )

  -- `validate_and_consume` comes to the claim only if every condition holds.
  pub check_use-IsAuthorized :
      (key : String) (now : Datetime) (w : ActionWarrant) (o : Order)
      → check_use rt key now w o ≡ ok passed
      → IsAuthorized rt key now w o
  check_use-IsAuthorized key now w o h =
      let (permitted, tool, contract, policy, rest) = check_use_gate key now w o h in
      ok_of_bind (signature_is_valid rt key w) _ rest λ b hb h1.
        let (valid, timed) = check_signature_passed b now w o h1 in
        let (t, scoped) = check_time_passed now w o timed in
        let (c, readable, s) =
          check_scope_passed w o (read_synthetic_case o.event.case_id) scoped in
        record {
          permitted = permitted;
          tool = tool;
          contract = contract;
          policy = policy;
          signed = signature_is_valid-true key w (rw valid at hb);
          expiry = t.expiry;
          expires = t.expires;
          zoned = t.zoned;
          in_time = t.before;
          case = c;
          readable = readable;
          same_event = s.event;
          same_run = s.run;
          same_tenant = s.tenant;
          same_key = s.key;
          same_arguments = s.arguments;
        }

  pub signature_is_valid-signed :
      IsRuntime rt
      → (key : String) (w : ActionWarrant) → w.signature ≡ rt.hmac_sha256 key (unsigned_payload w)
      → signature_is_valid rt key w ≡ ok true
  unfolding signature_is_valid unsigned_payload
  signature_is_valid-signed laws key w e =
      let genuine : String = rt.hmac_sha256 key (unsigned_payload w) in
      ground (
        arith,
        (eq_iff genuine w.signature).1 (sym e),
        laws.hmac_ascii key (unsigned_payload w),
        ap is_ascii e,
      )

  check_time-IsAuthorized :
      (key : String) (now : Datetime) (w : ActionWarrant) (o : Order)
      → IsAuthorized rt key now w o
      → check_time rt now w o ≡ ok (check_scope rt w o (read_synthetic_case o.event.case_id))
  unfolding check_time as_utc
  check_time-IsAuthorized key now w o a = rw (a.expires, a.zoned) (ground arith)

  check_scope-IsAuthorized :
      (key : String) (now : Datetime) (w : ActionWarrant) (o : Order)
      → (a : IsAuthorized rt key now w o) → check_scope rt w o (case_allowed a.case) ≡ passed
  unfolding check_scope
  check_scope-IsAuthorized key now w o a = ground (
    arith,
    eq_iff w.event_id o.event.event_id,
    eq_iff w.run_id o.run_id,
    eq_iff w.tenant a.case.tenant,
    eq_iff w.idempotency_key (idempotency_key rt o.event),
    eq_iff w.normalized_arguments_sha256 (arguments_hash rt o.event.case_id o.transition),
  )

  pub check_use_opens :
      (key : String) (now : Datetime) (w : ActionWarrant) (o : Order)
      → allows o.controls simulated_ticket_capability ≡ true
      → w.tool_name ≡ simulated_ticket_tool
      → w.tool_contract_version ≡ tool_contract_version
      → w.policy_version ≡ policy_version
      → check_use rt key now w o
        ≡ (signature_is_valid rt key w >>= λ valid. check_signature rt valid now w o)
  unfolding check_use allows
  check_use_opens key now w o permitted tool contract policy = ground (
    arith,
    eq_iff w.tool_name simulated_ticket_tool,
    eq_iff w.tool_contract_version tool_contract_version,
    eq_iff w.policy_version policy_version,
  )

  -- And it comes to the claim whenever they hold.
  pub IsAuthorized-check_use :
      IsRuntime rt
      → (key : String) (now : Datetime) (w : ActionWarrant) (o : Order)
      → IsAuthorized rt key now w o
      → check_use rt key now w o ≡ ok passed
  IsAuthorized-check_use laws key now w o a =
      rw
        (
          check_use_opens key now w o a.permitted a.tool a.contract a.policy,
          signature_is_valid-signed laws key w a.signed,
        )
        (unfold check_signature in
          rw (check_time-IsAuthorized key now w o a, a.readable)
            (ap ok (check_scope-IsAuthorized key now w o a)))

  -- With the documented laws of the libraries, the checks of `validate_and_consume` before the claim
  -- pass exactly if the capability is on, the warrant names the registered tool, contract and policy,
  -- its signature is the key's, the clock has a time zone and is short of the expiry, the case is
  -- readable, and the event, run, tenant, key and arguments are the order's.
  pub check_use_iff :
      IsRuntime rt
      → (key : String) (now : Datetime) (w : ActionWarrant) (o : Order)
      → (check_use rt key now w o ≡ ok passed) ↔ IsAuthorized rt key now w o
  check_use_iff laws key now w o =
      (check_use-IsAuthorized key now w o, IsAuthorized-check_use laws key now w o)
