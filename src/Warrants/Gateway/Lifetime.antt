-- ===== src/Warrants/Gateway/Lifetime.antt =====
-- warrant_gateway.py: which orders are issued a warrant, and how long the warrant serves.
use vice_ceo_proof_carrying.Events.Types.{PolicyDecision, policy_version}
use vice_ceo_proof_carrying.Fixtures.{
  Case, CaseResult, case_allowed, case_denied, read_synthetic_case,
}
use vice_ceo_proof_carrying.Http.Types.{after}
use vice_ceo_proof_carrying.Json.{is_listed}
use vice_ceo_proof_carrying.Outcome.{Result, ok, raise}
use vice_ceo_proof_carrying.Prelude.{
  Bool, Bool-cases, Option, String, ap, arith, eq_iff, false, if◌then◌else◌, inl, inr, ltb, nat_eq,
  none, refl, some, string_eq, sym, true, ℕ, ◌+◌, ◌<◌, ◌↔◌, ◌∙◌, ◌≡◌, ◌≤◌,
}
use vice_ceo_proof_carrying.Runtime.{Datetime, IsRuntime, Runtime, as_utc, parse_timestamp}
use vice_ceo_proof_carrying.Warrants.Gateway.{
  Order, authorizes, check_signature, check_time, check_use, denied, draft_warrant, issue_for_case,
  issue_simulated_ticket_warrant, names_tool, passed, sign,
}
use vice_ceo_proof_carrying.Warrants.Gateway.Use.{
  IsAuthorized, IsAuthorized-check_use, check_use_opens, signature_is_valid-signed,
}
use vice_ceo_proof_carrying.Warrants.Types.{
  ActionWarrant, CapabilityControlState, WarrantResult, action_warrant_expired,
  action_warrant_issued, allow, allows, simulated_ticket_capability, simulated_ticket_tool,
  tool_contract_version, unsigned_payload, warrant_ttl,
}

-- What `issue_simulated_ticket_warrant` asks of an order and of the policy decision.
pub record IsIssuable (o : Order) (d : PolicyDecision) : Type 0 where
  pub permitted : allows o.controls simulated_ticket_capability ≡ true
  pub allowed : d.result ≡ "allow"
  pub tool : d.proposed_tool ≡ some simulated_ticket_tool
  pub warranted : d.requires_action_warrant ≡ true
  pub version : d.policy_version ≡ policy_version
  pub case : Case
  pub readable : read_synthetic_case o.event.case_id ≡ case_allowed case
  pub listed : is_listed o.transition case.allowed_transitions ≡ true

names_tool_iff : (o : Option String) → (names_tool o ≡ true) ↔ (o ≡ some simulated_ticket_tool)
unfolding names_tool
names_tool_iff none = (λ h. absurd (cc h), λ h. absurd (cc h))
names_tool_iff (some name) = (
  λ h. ap some ((string_eq.beq_iff name simulated_ticket_tool).0 h),
  λ h. (string_eq.beq_iff name simulated_ticket_tool).1 (cc h),
)

-- The guard of the issue, as the four equations that it tests.
authorizes_iff :
    (d : PolicyDecision)
    → (authorizes d ≡ true) ↔ (
        (d.result ≡ "allow")
        × (d.proposed_tool ≡ some simulated_ticket_tool)
        × (d.requires_action_warrant ≡ true)
        × (d.policy_version ≡ policy_version))
unfolding authorizes
authorizes_iff d = ground (
  arith,
  eq_iff d.result "allow",
  names_tool_iff d.proposed_tool,
  eq_iff d.policy_version policy_version,
)

IsIssuable-authorizes : {o : Order} {d : PolicyDecision} → IsIssuable o d → authorizes d ≡ true
IsIssuable-authorizes {o} {d} i = (authorizes_iff d).1 (i.allowed, i.tool, i.warranted, i.version)

abbrev pub grants : Result WarrantResult → Bool
grants (raise e) = false
grants (ok r) = elim r.warrant [ none ↦ false | some w ↦ true ]

module _ (rt : Runtime) (key : String) (now : Datetime) (o : Order) (d : PolicyDecision) where
  -- The answer to an issuable order: a signed draft.
  abbrev pub issued : Case → WarrantResult
  issued c = record {
    result = allow;
    reason_code = action_warrant_issued;
    warrant = some (sign rt key (draft_warrant rt c o.event o.run_id d o.transition now.instant));
  }

  issue_gate :
      grants (issue_simulated_ticket_warrant rt key now o d) ≡ true
      → (allows o.controls simulated_ticket_capability ≡ true)
        × (authorizes d ≡ true)
        × (grants (issue_for_case rt key now o d (read_synthetic_case o.event.case_id)) ≡ true)
  unfolding issue_simulated_ticket_warrant
  issue_gate h = ground arith

  issue_for_case_inv :
      (r : CaseResult)
      → grants (issue_for_case rt key now o d r) ≡ true
      → (c : Case) × (r ≡ case_allowed c)
        × (is_listed o.transition c.allowed_transitions ≡ true)
        × (now.aware ≡ true)
  unfolding issue_for_case as_utc
  issue_for_case_inv (case_denied reason message) h = absurd (cc h)
  issue_for_case_inv (case_allowed c) h = (c, refl, ground arith, ground arith)

  issue_opens :
      allows o.controls simulated_ticket_capability ≡ true
      → authorizes d ≡ true
      → issue_simulated_ticket_warrant rt key now o d
        ≡ issue_for_case rt key now o d (read_synthetic_case o.event.case_id)
  unfolding issue_simulated_ticket_warrant allows
  issue_opens permitted authorized = ground arith

  -- An issuable order gets exactly this answer, at any clock with a time zone.
  pub issue-IsIssuable :
      (i : IsIssuable o d)
      → now.aware ≡ true
      → issue_simulated_ticket_warrant rt key now o d ≡ ok (issued i.case)
  issue-IsIssuable i zoned =
      rw (issue_opens i.permitted (IsIssuable-authorizes i), i.readable)
        (unfold issue_for_case as_utc in rw (i.listed, zoned) refl)

  -- With a clock that has a time zone, a warrant is granted exactly if the capability is on, the
  -- policy decision's result is `allow`, it proposes the registered tool, requires a warrant and has
  -- the gateway's policy version, the case is readable, and it lists the transition.
  pub issue_iff :
      now.aware ≡ true
      → (grants (issue_simulated_ticket_warrant rt key now o d) ≡ true) ↔ IsIssuable o d
  issue_iff zoned = (
    λ h.
        let (permitted, authorized, rest) = issue_gate h in
        let (c, readable, listed, _) =
          issue_for_case_inv (read_synthetic_case o.event.case_id) rest in
        let (allowed, tool, warranted, version) = (authorizes_iff d).0 authorized in
        record {
          permitted = permitted;
          allowed = allowed;
          tool = tool;
          warranted = warranted;
          version = version;
          case = c;
          readable = readable;
          listed = listed;
        },
    λ i. rw (issue-IsIssuable i zoned) refl,
  )

module _ (rt : Runtime) (laws : IsRuntime rt) (key : String) (t : ℕ) (o : Order)
    (d : PolicyDecision) (i : IsIssuable o d) (later : Datetime) (c : CapabilityControlState) where
  unfoldable pub signed_draft : ActionWarrant
  signed_draft = sign rt key (draft_warrant rt i.case o.event o.run_id d o.transition t)

  abbrev pub order_under : Order
  order_under = record o { controls = c }

  expiry_read : parse_timestamp rt signed_draft.expires_at ≡ ok (t + warrant_ttl)
  unfolding signed_draft sign draft_warrant parse_timestamp
  expiry_read = rw (laws.parse-format (t + warrant_ttl), parse_timestamp)

  issued_tool : signed_draft.tool_name ≡ simulated_ticket_tool
  unfolding signed_draft sign draft_warrant
  issued_tool = refl

  issued_contract : signed_draft.tool_contract_version ≡ tool_contract_version
  unfolding signed_draft sign draft_warrant
  issued_contract = refl

  issued_policy : signed_draft.policy_version ≡ d.policy_version
  unfolding signed_draft sign draft_warrant
  issued_policy = refl

  issued_signature : signed_draft.signature ≡ rt.hmac_sha256 key (unsigned_payload signed_draft)
  unfolding signed_draft sign draft_warrant unsigned_payload
  issued_signature = refl

  -- Until its last moment an issued warrant is authorised for the order that it was issued for.
  issued-IsAuthorized :
      allows c simulated_ticket_capability ≡ true
      → later.aware ≡ true
      → later.instant < t + warrant_ttl
      → IsAuthorized rt key later signed_draft order_under
  unfolding signed_draft sign draft_warrant unsigned_payload
  issued-IsAuthorized permitted zoned before = record {
    permitted = permitted;
    tool = refl;
    contract = refl;
    policy = i.version;
    signed = refl;
    expiry = t + warrant_ttl;
    expires = expiry_read;
    zoned = zoned;
    in_time = before;
    case = i.case;
    readable = i.readable;
    same_event = refl;
    same_run = refl;
    same_tenant = refl;
    same_key = refl;
    same_arguments = refl;
  }

  expired_refused :
      later.aware ≡ true
      → t + warrant_ttl ≤ later.instant
      → check_time rt later signed_draft order_under ≡ ok (denied action_warrant_expired)
  unfolding check_time as_utc
  expired_refused zoned after = rw (expiry_read, zoned) (ground arith)

  -- With capabilities on, the checks of `validate_and_consume` pass for an issued warrant and its
  -- order exactly while the clock is short of the issue time plus 300 seconds; from then on the
  -- warrant is refused as expired.
  pub issued_lifetime :
      allows c simulated_ticket_capability ≡ true
      → later.aware ≡ true
      → check_use rt key later signed_draft order_under
        ≡ ok (if ltb later.instant (t + warrant_ttl) then passed else denied action_warrant_expired)
  issued_lifetime permitted zoned = elim (Bool-cases (ltb later.instant (t + warrant_ttl))) [
    | inl before ↦ rw before (
        IsAuthorized-check_use rt laws key later signed_draft order_under
          (issued-IsAuthorized permitted zoned (ground arith)))
    | inr after ↦
        rw
          (
            after,
            check_use_opens rt key later signed_draft order_under permitted issued_tool
                issued_contract (issued_policy ∙ i.version),
            signature_is_valid-signed rt laws key signed_draft issued_signature,
          )
          (unfold check_signature in expired_refused zoned (ground arith))
  ]

drawn_up :
    (r : WarrantResult) (w v : ActionWarrant)
    → ok (record { result = allow; reason_code = action_warrant_issued; warrant = some v }) ≡ ok r
    → r.warrant ≡ some w
    → v ≡ w
drawn_up r w v h shown = cc (h, shown)

grants-some : (r : WarrantResult) (w : ActionWarrant) → r.warrant ≡ some w → grants (ok r) ≡ true
grants-some r w h = rw h refl

-- With the documented laws of the libraries and a clock with a time zone: if the gateway answers an
-- order with a warrant, then with capabilities on and any later reading of
-- a clock with a time zone, the checks of `validate_and_consume` pass for that warrant and order
-- exactly while the reading is short of the issue time plus 300 seconds, and refuse it as expired
-- from then on.
pub issue-check_use :
    (rt : Runtime)
    → IsRuntime rt
    → (key : String) (now later : Datetime) (o : Order) (d : PolicyDecision)
      (c : CapabilityControlState) (r : WarrantResult) (w : ActionWarrant)
    → now.aware ≡ true
    → later.aware ≡ true
    → allows c simulated_ticket_capability ≡ true
    → issue_simulated_ticket_warrant rt key now o d ≡ ok r
    → r.warrant ≡ some w
    → check_use rt key later w (record o { controls = c })
      ≡ ok (
          if ltb later.instant (now.instant + warrant_ttl)
          then passed
          else denied action_warrant_expired)
unfolding signed_draft
issue-check_use rt laws key now later o d c r w zoned zoned' permitted given shown =
    let i : IsIssuable o d =
      (issue_iff rt key now o d zoned).0 (rw given (grants-some r w shown)) in
    let same : ok (issued rt key now o d i.case) ≡ ok r =
      sym (issue-IsIssuable rt key now o d i zoned) ∙ given in
    let drafted : signed_draft rt laws key now.instant o d i later c ≡ w =
      drawn_up r w
        (sign rt key (draft_warrant rt i.case o.event o.run_id d o.transition now.instant)) same
        shown in
    rw (← drafted) (issued_lifetime rt laws key now.instant o d i later c permitted zoned')
