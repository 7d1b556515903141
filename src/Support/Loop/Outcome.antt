-- ===== src/Support/Loop/Outcome.antt =====
-- support_loop.py: a first call under permitted controls ends with the simulation.
use vice_ceo_proof_carrying.Claims.Scope.{ClaimStore, Scope, claim_key, claim_key-shown, scope_eq}
use vice_ceo_proof_carrying.Dict.{lookup}
use vice_ceo_proof_carrying.Events.Types.{
  PolicyDecision, SyntheticEvent, SyntheticRun, build_synthetic_run-registered,
  evaluate_sprint_two_policy, policy_version, registered_run, run_id_of, run_record,
}
use vice_ceo_proof_carrying.Fixtures.{
  password_reset_case, password_reset_id, registered_digest, registered_readable,
}
use vice_ceo_proof_carrying.Json.{is_listed}
use vice_ceo_proof_carrying.Outcome.{Result, Result-cases, ok}
use vice_ceo_proof_carrying.Prelude.{
  Option, String, arith, inl, inr, nat_eq, none, refl, some, string_eq, true, ◌+◌, ◌<◌, ◌∙◌, ◌≡◌,
}
use vice_ceo_proof_carrying.Runtime.{IsRuntime, Runtime, as_utc}
use vice_ceo_proof_carrying.Specialists.{
  HandoffRequest, SpecialistHandoff, build_specialist_handoff, check_route, policy_guard,
  specialist, specialists, support_intake,
}
use vice_ceo_proof_carrying.Support.Loop.{
  LoopState, OutcomeReceipt, Readings, SupportLoopResult, act_on, build_receipt, finish,
  handoff_request, process, work,
}
use vice_ceo_proof_carrying.Support.Loop.Once.{
  claim_event-registered, claim_of, event_scope, event_scope-valid,
}
use vice_ceo_proof_carrying.Text.{append, is_blank, is_space, strip}
use vice_ceo_proof_carrying.Warrants.Gateway.{
  Order, authorizes, check_use, draft_warrant, issue_simulated_ticket_warrant, passed, sign,
}
use vice_ceo_proof_carrying.Warrants.Gateway.Lifetime.{
  IsIssuable, issue-IsIssuable, issue-check_use,
}
use vice_ceo_proof_carrying.Warrants.Gateway.Simulates.{execute_fresh}
use vice_ceo_proof_carrying.Warrants.Types.{
  ActionAttempt, ActionWarrant, CapabilityControlState, WarrantResult, action_warrant_issued, allow,
  allows, simulated_ticket_capability, warrant_ttl,
}

module _ (rt : Runtime) (e : SyntheticEvent) (registered : e.case_id ≡ password_reset_id) where
  abbrev asked : HandoffRequest
  asked = record {
    event = e;
    run_id = run_id_of rt e;
    source_agent = support_intake;
    target_agent = policy_guard;
    policy_result = "allow";
    reason_code = "synthetic_read_and_simulation_only";
    proposed_tool = some "prepare_simulated_ticket_transition";
  }

  handoff_made : (h : SpecialistHandoff) × (build_specialist_handoff rt asked ≡ ok h)
  unfolding build_specialist_handoff check_route specialist is_blank is_space is_listed lookup
      specialists
  handoff_made = elim (Result-cases (build_specialist_handoff rt asked)) [
    | inl made ↦ made
    | inr (x, failed) ↦ absurd (
        cc (
          rw (registered_readable e.case_id registered, registered_digest rt e.case_id registered)
            at failed))
  ]

  policy_allows : evaluate_sprint_two_policy e ≡ record {
    result = "allow";
    reason_code = "synthetic_read_and_simulation_only";
    proposed_tool = some "prepare_simulated_ticket_transition";
    requires_action_warrant = true;
    policy_version = policy_version;
  }
  unfolding evaluate_sprint_two_policy
  policy_allows = rw (evaluate_sprint_two_policy, registered_readable e.case_id registered) refl

module _ (events warrants : ClaimStore) (rt : Runtime) (laws : IsRuntime rt) (key : String)
    (e : SyntheticEvent) (registered : e.case_id ≡ password_reset_id) (transition : String)
    (controls : CapabilityControlState) (at : Readings)
    (listed : is_listed transition password_reset_case.allowed_transitions ≡ true)
    (permitted : allows controls simulated_ticket_capability ≡ true)
    (issue_zoned : at.at_issue.aware ≡ true) (use_zoned : at.at_use.aware ≡ true)
    (receipt_zoned : at.at_receipt.aware ≡ true)
    (in_time : at.at_use.instant < at.at_issue.instant + warrant_ttl) where
  abbrev the_order : Order
  the_order = record {
    event = e;
    run_id = run_id_of rt e;
    transition = transition;
    controls = controls;
  }

  the_policy : PolicyDecision
  the_policy = evaluate_sprint_two_policy e

  the_issue : IsIssuable the_order the_policy
  unfolding the_policy authorizes
  the_issue = record {
    permitted = permitted;
    allowed = rw (policy_allows rt e registered) refl;
    tool = rw (policy_allows rt e registered) refl;
    warranted = rw (policy_allows rt e registered) refl;
    version = rw (policy_allows rt e registered) refl;
    case = password_reset_case;
    readable = registered_readable e.case_id registered;
    listed = listed;
  }

  -- The warrant that the call is granted.
  unfoldable pub granted_warrant : ActionWarrant
  unfolding the_policy
  granted_warrant = sign rt key (
      draft_warrant rt password_reset_case e (run_id_of rt e) the_policy transition
        at.at_issue.instant)

  -- The scope under which its use is recorded.
  unfoldable pub granted_scope : Scope
  unfolding granted_warrant
  granted_scope = record {
    tenant = strip granted_warrant.tenant;
    kind = strip "action_warrant";
    key = strip granted_warrant.warrant_id;
  }

  granted_scope_valid :
      claim_key granted_warrant.tenant "action_warrant" granted_warrant.warrant_id
      ≡ ok granted_scope
  unfolding granted_scope granted_warrant sign draft_warrant is_blank is_space append
  granted_scope_valid =
      claim_key-shown granted_warrant.tenant "action_warrant" granted_warrant.warrant_id refl refl
        refl

  abbrev the_answer : WarrantResult
  the_answer = record {
    result = allow;
    reason_code = action_warrant_issued;
    warrant = some granted_warrant;
  }

  answered : issue_simulated_ticket_warrant rt key at.at_issue the_order the_policy ≡ ok the_answer
  unfolding granted_warrant the_issue
  answered = issue-IsIssuable rt key at.at_issue the_order the_policy the_issue issue_zoned

  checked : check_use rt key at.at_use granted_warrant the_order ≡ ok passed
  checked =
      issue-check_use rt laws key at.at_issue at.at_use the_order the_policy controls _
        granted_warrant issue_zoned use_zoned permitted answered refl
      ∙ ground (arith, in_time)

  receipt_made :
      (run : SyntheticRun) (a : ActionAttempt) (w : Option String)
      → (r : OutcomeReceipt) × (build_receipt rt run a w at.at_receipt ≡ ok r)
  unfolding build_receipt as_utc
  receipt_made run a w = elim (Result-cases (build_receipt rt run a w at.at_receipt)) [
    | inl made ↦ made
    | inr (x, failed) ↦ absurd (cc (rw receipt_zoned at failed))
  ]

  finished :
      (run : SyntheticRun) (h : SpecialistHandoff) (a : ActionAttempt) (w : Option String)
      → (v : SupportLoopResult) × (finish events warrants rt key run h a w at.at_receipt ≡ ok v)
        × (v.status ≡ a.status)
  unfolding finish
  finished run h a w =
      let (r, made) = receipt_made run a w in
      (
        record {
          status = a.status;
          run_id = run.run_id;
          receipt = some r;
          handoff = some h;
          reason_code = a.reason_code;
        },
        rw made refl,
        refl,
      )

  abbrev Simulated : Result SupportLoopResult → Type 0
  Simulated r = (v : SupportLoopResult) × (r ≡ ok v) × (v.status ≡ "simulated")

  acted :
      (run : SyntheticRun) (h : SpecialistHandoff) (r : WarrantResult) (s : warrants.State)
      → warrants.recorded s (warrants.key_of granted_scope) ≡ none
      → Simulated (act_on events warrants rt key run h the_order at r (some granted_warrant) s).0
  unfolding act_on
  acted run h r s free =
      let (a, done, simulated_status) =
        execute_fresh warrants rt key at.at_use granted_warrant the_order password_reset_case s
          granted_scope checked granted_scope_valid free (registered_readable e.case_id registered)
          listed in
      let (v, made, same) = finished run h a (some granted_warrant.warrant_id) in
      (v, rw (done, made) refl, same ∙ simulated_status)

  asked_for : handoff_request events warrants rt key e (registered_run rt e) ≡ asked rt e registered
  unfolding handoff_request run_record
  asked_for = rw (policy_allows rt e registered) refl

  answered_for :
      issue_simulated_ticket_warrant rt key at.at_issue the_order (registered_run rt e).decision
      ≡ ok the_answer
  unfolding run_record the_policy
  answered_for = answered

  worked :
      (s : warrants.State)
      → warrants.recorded s (warrants.key_of granted_scope) ≡ none
      → Simulated (work events warrants rt key (registered_run rt e) the_order at s).0
  unfolding work
  worked s free =
      let (h, made) = handoff_made rt e registered in
      rw (asked_for, made, answered_for) (acted (registered_run rt e) h the_answer s free)

  -- With the documented laws of the libraries, the first call for an event of the registered case ends with the simulation, if the capability
  -- is on, the case lists the transition, the readings of the clock have a time zone, the warrant is
  -- used within 300 seconds of its issue, and neither the event nor the warrant was claimed before.
  pub process_simulates :
      (s : LoopState events warrants)
      → events.recorded s.claimed (events.key_of (event_scope rt e)) ≡ none
      → warrants.recorded s.consumed (warrants.key_of granted_scope) ≡ none
      → (v : SupportLoopResult) × ((process events warrants rt key e transition controls at s).0
          ≡ ok v)
        × (v.status ≡ "simulated")
  unfolding process run_record
  process_simulates s fresh free =
      rw
        (
          build_synthetic_run-registered rt e registered,
          claim_event-registered events warrants rt key e registered s.claimed,
          events.claim_fresh (claim_of events warrants rt key e registered) s.claimed
              (event_scope rt e) (event_scope-valid events warrants rt key e registered) fresh,
        )
        (worked s.consumed free)
