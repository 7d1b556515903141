-- ===== src/Approval/Decision.antt =====
-- human_approval.py: what a decision leads to.
use vice_ceo_proof_carrying.Approval.{
  HumanApprovalResolution, approval_clock, approve_simulation, approved_resolution, approved_run,
  build_human_approval_preview, decline_simulation, declined_resolution, human_approval_event,
  no_controls, resolution_of, resolve_human_approval,
}
use vice_ceo_proof_carrying.Claims.Memory.{memory_store}
use vice_ceo_proof_carrying.Claims.Scope.{scope_eq}
use vice_ceo_proof_carrying.Dict.{lookup-no_entries, no_entries}
use vice_ceo_proof_carrying.Events.Types.{registered_run, run_id_of}
use vice_ceo_proof_carrying.Fixtures.{password_reset_id}
use vice_ceo_proof_carrying.Json.{is_listed}
use vice_ceo_proof_carrying.Outcome.{human_approval_error, ok, raise}
use vice_ceo_proof_carrying.Prelude.{
  Bool-cases, String, ap, arith, false, inl, inr, nat_eq, none, refl, some, string_eq, sym, true,
  ◌==◌, ◌∙◌, ◌≡◌, ◌≢◌, ◌⊎◌,
}
use vice_ceo_proof_carrying.Runtime.{IsRuntime, Runtime}
use vice_ceo_proof_carrying.Support.Loop.{
  LoopState, OutcomeReceipt, Readings, SupportLoopResult, duplicate_of,
}
use vice_ceo_proof_carrying.Support.Loop.Once.{event_scope}
use vice_ceo_proof_carrying.Support.Loop.Outcome.{process_simulates}
use vice_ceo_proof_carrying.Timeline.Evidence.{IsEvidence, IsReceiptOf, process-Answer}
use vice_ceo_proof_carrying.Warrants.Types.{allows, answer}

-- A resolution that grants nothing beyond the demo.
pub record IsPowerless (r : HumanApprovalResolution) : Type 0 where
  pub unverified : r.identity_verification_performed ≡ false
  pub no_effect : r.external_effect ≡ false
  pub no_write : r.persistent_write ≡ false
  pub no_authority : r.production_authority ≡ false

-- The answer to a decline: no run, no warrant and no receipt are named, and nothing was executed.
pub record IsDeclined (rt : Runtime) (r : HumanApprovalResolution) : Type 0 where
  pub of_preview : r.approval_id ≡ (build_human_approval_preview rt).approval_id
  pub decision : r.reviewer_decision ≡ "decline_simulation"
  pub outcome : r.decision_status ≡ "declined"
  pub not_started : r.simulation_status ≡ "not_started"
  pub not_executed : r.simulation_executed ≡ false
  pub no_run : r.run_id ≡ none
  pub no_warrant : r.action_warrant_id ≡ none
  pub no_receipt : r.outcome_receipt_id ≡ none
  pub powerless : IsPowerless r

-- The answer to an approval: the simulation of the fixed event ended as simulated, and the run and
-- the receipt that are named are its own.
pub record IsApproved (rt : Runtime) (r : HumanApprovalResolution) : Type 0 where
  pub of_preview : r.approval_id ≡ (build_human_approval_preview rt).approval_id
  pub decision : r.reviewer_decision ≡ "approve_simulation"
  pub outcome : r.decision_status ≡ "approved_for_synthetic_simulation_only"
  pub simulates : r.simulation_status ≡ "simulated"
  pub executed : r.simulation_executed ≡ true
  pub of_run : r.run_id ≡ some (run_id_of rt human_approval_event)
  pub result : SupportLoopResult
  pub receipt : OutcomeReceipt
  pub ran : approved_run rt ≡ ok result
  pub received : result.receipt ≡ some receipt
  pub receipt_of : IsReceiptOf (registered_run rt human_approval_event) receipt
  pub names_receipt : r.outcome_receipt_id ≡ some receipt.receipt_id
  pub names_warrant : r.action_warrant_id ≡ receipt.action_warrant_id
  pub powerless : IsPowerless r

module _ (rt : Runtime) where
  declined_resolution-IsDeclined :
      IsDeclined rt (declined_resolution (build_human_approval_preview rt) decline_simulation)
  unfolding declined_resolution
  declined_resolution-IsDeclined = record {
    of_preview = refl;
    decision = refl;
    outcome = refl;
    not_started = refl;
    not_executed = refl;
    no_run = refl;
    no_warrant = refl;
    no_receipt = refl;
    powerless = record {
      unverified = refl;
      no_effect = refl;
      no_write = refl;
      no_authority = refl;
    };
  }

  resolve_decline :
      resolve_human_approval rt decline_simulation
      ≡ ok (declined_resolution (build_human_approval_preview rt) decline_simulation)
  unfolding resolve_human_approval resolution_of is_listed
  resolve_decline = refl

  event_registered : human_approval_event.case_id ≡ password_reset_id
  unfolding human_approval_event
  event_registered = refl

  -- The fixed run ends with the simulation, with a receipt of its own run.
  approved_run-simulates :
      IsRuntime rt
      → (v : SupportLoopResult) × (approved_run rt ≡ ok v)
        × (v.status ≡ "simulated")
        × IsEvidence memory_store memory_store rt "human-approval-demo-key" human_approval_event v
  unfolding approved_run is_listed allows duplicate_of
  approved_run-simulates laws =
      let at : Readings = record {
        at_issue = approval_clock;
        at_use = approval_clock;
        at_receipt = approval_clock;
      } in
      let new_stores : LoopState memory_store memory_store = record {
        claimed = no_entries;
        consumed = no_entries;
      } in
      let (v, ran, status) =
        process_simulates memory_store memory_store rt laws "human-approval-demo-key"
          human_approval_event event_registered "resolution_prepared" no_controls at refl refl refl
          refl refl (omega arith) new_stores
          (lookup-no_entries {V = String} ⦃e = scope_eq⦄ (event_scope rt human_approval_event))
          (lookup-no_entries {V = String} ⦃e = scope_eq⦄ _) in
      elim (process-Answer memory_store memory_store rt "human-approval-demo-key"
        human_approval_event event_registered "resolution_prepared" no_controls at new_stores v
        ran) [
          | inr evidence ↦ (v, ran, status, evidence)
          | inl (old, same) ↦ absurd (
              cc (
                (string_eq.beq_iff "duplicate" "simulated").1
                  (sym (ap (λ r. r.status) same) ∙ status)))
        ]

  resolve_approve :
      IsRuntime rt
      → (r : HumanApprovalResolution) × (resolve_human_approval rt approve_simulation ≡ ok r)
        × IsApproved rt r
  unfolding resolve_human_approval resolution_of is_listed approved_resolution
  resolve_approve laws =
      let (v, ran, status, evidence) = approved_run-simulates laws in
      (
        approved_resolution (build_human_approval_preview rt) approve_simulation v evidence.receipt,
        rw (ran, evidence.has_receipt) refl,
        record {
          of_preview = refl;
          decision = refl;
          outcome = refl;
          simulates = status;
          executed = refl;
          of_run = ap some evidence.of_run;
          result = v;
          receipt = evidence.receipt;
          ran = ran;
          received = evidence.has_receipt;
          receipt_of = evidence.receipt_of;
          names_receipt = refl;
          names_warrant = refl;
          powerless = record {
            unverified = refl;
            no_effect = refl;
            no_write = refl;
            no_authority = refl;
          };
        },
      )

  resolve_other :
      (decision : String)
      → (decision == approve_simulation) ≡ false
      → (decision == decline_simulation) ≡ false
      → resolve_human_approval rt decision
        ≡ raise (human_approval_error "unsupported_demo_approval_decision")
  unfolding resolve_human_approval is_listed
  resolve_other decision h k = rw (h, k) refl

  -- With the documented laws of the libraries, every decision is answered: a decline with a
  -- resolution that names no run, warrant or receipt and says that nothing was executed; an approval
  -- with one that reports the simulation of the fixed event, with its run id and the receipt of that
  -- run; any other decision with `HumanApprovalError`. No resolution has an effect or authority.
  pub resolve_decision :
      IsRuntime rt
      → (decision : String)
      → ((decision ≡ "decline_simulation")
          × (r : HumanApprovalResolution) × (resolve_human_approval rt decision ≡ ok r)
          × IsDeclined rt r)
        ⊎ ((decision ≡ "approve_simulation")
            × (r : HumanApprovalResolution) × (resolve_human_approval rt decision ≡ ok r)
            × IsApproved rt r)
        ⊎ ((decision ≢ "decline_simulation")
            × (decision ≢ "approve_simulation")
            × (resolve_human_approval rt decision
                ≡ raise (human_approval_error "unsupported_demo_approval_decision")))
  resolve_decision laws decision = elim (Bool-cases (decision == decline_simulation)) [
    | inl declines ↦
        let same = (string_eq.beq_iff decision decline_simulation).0 declines in
        inl (
          same,
          declined_resolution (build_human_approval_preview rt) decline_simulation,
          rw same resolve_decline,
          declined_resolution-IsDeclined,
        )
    | inr not_decline ↦ elim (Bool-cases (decision == approve_simulation)) [
      | inl approves ↦
          let same = (string_eq.beq_iff decision approve_simulation).0 approves in
          let (r, answer, approved) = resolve_approve laws in
          inr (inl (same, r, rw same answer, approved))
      | inr not_approve ↦ inr (
          inr (
            λ same.
                absurd (cc (not_decline, (string_eq.beq_iff decision decline_simulation).1 same)),
            λ same.
                absurd (cc (not_approve, (string_eq.beq_iff decision approve_simulation).1 same)),
            resolve_other decision not_approve not_decline,
          ))
    ]
  ]
