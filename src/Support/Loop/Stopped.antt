-- ===== src/Support/Loop/Stopped.antt =====
-- support_loop.py: with the capability stopped, nothing is simulated and no warrant is used.
use vice_ceo_proof_carrying.Claims.Scope.{ClaimStore}
use vice_ceo_proof_carrying.Events.Claiming.{claim_event}
use vice_ceo_proof_carrying.Events.Types.{
  PolicyDecision, SyntheticEvent, SyntheticRun, build_synthetic_run,
}
use vice_ceo_proof_carrying.Outcome.{Result, Result-cases, ok, ok_of_bind, raise}
use vice_ceo_proof_carrying.Prelude.{
  Bool, Bool-cases, Option, String, false, inl, inr, nat_eq, none, refl, string_eq, sym, true, ◌==◌,
  ◌∙◌, ◌≡◌, ◌≢◌,
}
use vice_ceo_proof_carrying.Runtime.{Datetime, Runtime}
use vice_ceo_proof_carrying.Specialists.{SpecialistHandoff, build_specialist_handoff}
use vice_ceo_proof_carrying.Support.Loop.{
  LoopState, Readings, SupportLoopResult, act_on, build_receipt, duplicate_of, finish,
  handoff_request, process, work,
}
use vice_ceo_proof_carrying.Warrants.Gateway.{Order, issue_simulated_ticket_warrant}
use vice_ceo_proof_carrying.Warrants.Types.{
  ActionAttempt, CapabilityControlState, Reason, allows, answer, capability_kill_switch_engaged,
  deny, global_kill_switch_engaged, refused_attempt, simulated_ticket_capability, verdict_text,
}

module _ (rt : Runtime) (key : String) (now : Datetime) (o : Order) (d : PolicyDecision) where
  issue_stopped :
      allows o.controls simulated_ticket_capability ≡ false
      → (x : Reason) × (issue_simulated_ticket_warrant rt key now o d ≡ ok (answer deny x))
  unfolding issue_simulated_ticket_warrant allows
  issue_stopped stopped = elim (Bool-cases o.controls.global_kill_switch_engaged) [
    | inl engaged ↦ (global_kill_switch_engaged, rw engaged refl)
    | inr running ↦ (capability_kill_switch_engaged, rw (stopped, running) refl)
  ]

abbrev duplicate_status : String
duplicate_status = "duplicate"

literals_apart : duplicate_status ≢ "simulated"
literals_apart h =
    let p : false ≡ true = (string_eq.beq_iff duplicate_status "simulated").1 h in cc p

same_status : {a b : SupportLoopResult} → ok a ≡ ok b → a.status ≡ b.status
same_status p = cc p

-- The call returned a result that reports a simulation.
abbrev pub reports_simulation : Result SupportLoopResult → Bool
reports_simulation (raise e) = false
reports_simulation (ok v) = v.status == "simulated"

abbrev NotSimulated : Result SupportLoopResult → Type 0
NotSimulated r = (v : SupportLoopResult) → r ≡ ok v → v.status ≢ "simulated"

quiet_of : (r : Result SupportLoopResult) → NotSimulated r → reports_simulation r ≡ false
quiet_of (raise e) h = refl
quiet_of (ok v) h = elim (Bool-cases (v.status == "simulated")) [
  | inl same ↦ absurd (h v refl ((string_eq.beq_iff v.status "simulated").0 same))
  | inr other ↦ other
]

module _ (events warrants : ClaimStore) (rt : Runtime) (key : String) where
  finish_status :
      (run : SyntheticRun) (h : SpecialistHandoff) (a : ActionAttempt) (w : Option String)
      (now : Datetime) (v : SupportLoopResult)
      → finish events warrants rt key run h a w now ≡ ok v
      → v.status ≡ a.status
  unfolding finish
  finish_status run h a w now v e =
      ok_of_bind (build_receipt rt run a w now) _ e (λ receipt _ rest. cc rest)

  module _ (run : SyntheticRun) (o : Order) (at : Readings)
      (stopped : allows o.controls simulated_ticket_capability ≡ false) where
    denied_status : (x : Reason) → (refused_attempt (answer deny x)).status ≢ "simulated"
    unfolding verdict_text
    denied_status x h = cc h

    work_stopped :
        (s : warrants.State)
        → ((work events warrants rt key run o at s).1 ≡ s)
          × NotSimulated (work events warrants rt key run o at s).0
    unfolding work act_on
    work_stopped s =
        elim (Result-cases
          (build_specialist_handoff rt (handoff_request events warrants rt key o.event run))) [
            | inr (x, e) ↦ (rw e refl, rw e (λ v p. cc p))
            | inl (h, e) ↦
                let (x, answered) = issue_stopped rt key at.at_issue o run.decision stopped in
                (
                  rw (e, answered) refl,
                  rw (e, answered)
                      (λ v p q.
                        denied_status x (sym (finish_status run h _ none at.at_receipt v p) ∙ q)),
                )
          ]

  duplicate_quiet : (id : String) → NotSimulated (ok (duplicate_of events warrants rt key id))
  unfolding duplicate_of
  duplicate_quiet id v p q = literals_apart (same_status p ∙ q)

  stopped_quiet :
      (e : SyntheticEvent) (transition : String) (controls : CapabilityControlState) (at : Readings)
      (s : LoopState events warrants)
      → allows controls simulated_ticket_capability ≡ false
      → ((process events warrants rt key e transition controls at s).1.consumed ≡ s.consumed)
        × NotSimulated (process events warrants rt key e transition controls at s).0
  unfolding process
  stopped_quiet e transition controls at s stopped =
      elim (Result-cases (build_synthetic_run rt e)) [
        | inr (x, failed) ↦ (rw failed refl, rw failed (λ v p. cc p))
        | inl (run, built) ↦ elim (Result-cases (claim_event events rt e run.run_id s.claimed).0) [
          | inr (x, failed) ↦ (rw (built, failed) refl, rw (built, failed) (λ v p. cc p))
          | inl (c, claim) ↦ elim (Bool-cases c.claimed) [
            | inr old ↦ (
              rw (built, claim, old) refl,
              rw (built, claim, old) (λ v p q. duplicate_quiet c.record_id v p q),
            )
            | inl fresh ↦
                let (kept, quiet) =
                  work_stopped run
                    (record {
                      event = e;
                      run_id = run.run_id;
                      transition = transition;
                      controls = controls;
                    })
                    at stopped s.consumed in
                (rw (built, claim, fresh) kept, rw (built, claim, fresh) quiet)
          ]
        ]
      ]

  -- With the capability or everything stopped, a call for any event leaves the warrants' store as it
  -- was and does not return a simulation.
  pub process_stopped :
      (e : SyntheticEvent) (transition : String) (controls : CapabilityControlState) (at : Readings)
      (s : LoopState events warrants)
      → allows controls simulated_ticket_capability ≡ false
      → ((process events warrants rt key e transition controls at s).1.consumed ≡ s.consumed)
        × (reports_simulation (process events warrants rt key e transition controls at s).0 ≡ false)
  process_stopped e transition controls at s stopped =
      let (kept, quiet) = stopped_quiet e transition controls at s stopped in
      (kept, quiet_of (process events warrants rt key e transition controls at s).0 quiet)
