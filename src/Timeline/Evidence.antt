-- ===== src/Timeline/Evidence.antt =====
-- business_time_machine.py: the evidence that a call of the support loop leaves.
use vice_ceo_proof_carrying.Claims.Scope.{ClaimResult, ClaimStore, won}
use vice_ceo_proof_carrying.Events.Claiming.{claim_event}
use vice_ceo_proof_carrying.Events.Types.{
  SyntheticEvent, SyntheticRun, build_synthetic_run-registered, canonical_payload, registered_run,
  run_id_of, run_record,
}
use vice_ceo_proof_carrying.Fixtures.{
  digest_of, password_reset_case, password_reset_id, registered_digest, registered_readable,
}
use vice_ceo_proof_carrying.Outcome.{Action, Result, ok, ok_holds, ok_of_bind, proceed, raise}
use vice_ceo_proof_carrying.Prelude.{
  Bool-cases, Option, String, inl, inr, none, refl, some, ◌≡◌, ◌⊎◌,
}
use vice_ceo_proof_carrying.Runtime.{Datetime, Runtime, as_utc}
use vice_ceo_proof_carrying.Specialists.{
  HandoffRequest, SpecialistHandoff, build_specialist_handoff, check_route,
}
use vice_ceo_proof_carrying.Support.Loop.{
  LoopState, OutcomeReceipt, Readings, SupportLoopResult, act_on, after_claim, build_receipt,
  duplicate_of, finish, granted, handoff_request, process, receipt_clock_error, work,
}
use vice_ceo_proof_carrying.Text.{str_option}
use vice_ceo_proof_carrying.Warrants.Gateway.{
  Order, execute_warranted_simulation, issue_simulated_ticket_warrant,
}
use vice_ceo_proof_carrying.Warrants.Types.{
  ActionAttempt, ActionWarrant, CapabilityControlState, WarrantResult, refused_attempt,
}

-- What every value that an action returns satisfies.
abbrev Returns {ℓ} : {A : Type ℓ} → (A → Type 0) → Result A → Type ℓ
Returns {A = A} Good r = (a : A) → r ≡ ok a → Good a

proceed-Returns :
    {S A B : Type 0} (Good : B → Type 0) (r : Result A) (k : A → Action S B) (s : S)
    → ((a : A) → r ≡ ok a → Returns Good (k a s).0)
    → Returns Good (proceed r k s).0
proceed-Returns Good (ok a) k s rest = rest a refl
proceed-Returns Good (raise e) k s rest = λ b h. absurd (cc h)

-- The handoff of an event of the registered case.
pub record IsHandoffOf (rt : Runtime) (q : HandoffRequest) (h : SpecialistHandoff) : Type 0 where
  pub run : q.run_id ≡ h.run_id
  pub event : q.event.event_id ≡ h.event_id
  pub source : rt.sha256 (canonical_payload q.event) ≡ h.source_reference_sha256
  pub fixture :
      (digest_of rt q.event.case_id password_reset_case).fixture_sha256 ≡ h.fixture_reference_sha256
  pub tenant : password_reset_case.tenant ≡ h.tenant

handoff-IsHandoffOf :
    (rt : Runtime) (q : HandoffRequest)
    → q.event.case_id ≡ password_reset_id
    → Returns (IsHandoffOf rt q) (build_specialist_handoff rt q)
unfolding build_specialist_handoff
handoff-IsHandoffOf rt q registered h made = ok_of_bind (check_route q) _ made (λ done p0 made0.
    ok_holds (IsHandoffOf rt q)
      (rw
        (
          registered_readable q.event.case_id registered,
          registered_digest rt q.event.case_id registered,
        )
        at made0)
      (record { run = refl; event = refl; source = refl; fixture = refl; tenant = refl }))

-- The receipt of a run.
pub record IsReceiptOf (run : SyntheticRun) (r : OutcomeReceipt) : Type 0 where
  pub run_id : run.run_id ≡ r.run_id
  pub event : run.event_id ≡ r.event_id
  pub source : run.case_file.source_reference_sha256 ≡ r.source_reference_sha256
  pub fixture : run.case_file.fixture_reference_sha256 ≡ r.fixture_reference_sha256
  pub tenant : str_option run.case_file.tenant ≡ r.tenant

receipt-IsReceiptOf :
    (rt : Runtime) (run : SyntheticRun) (a : ActionAttempt) (w : Option String) (now : Datetime)
    → Returns (IsReceiptOf run) (build_receipt rt run a w now)
unfolding build_receipt
receipt-IsReceiptOf rt run a w now r made =
    ok_of_bind (as_utc receipt_clock_error now) _ made (λ moment p made1.
      ok_holds (IsReceiptOf run) made1
        (record { run_id = refl; event = refl; source = refl; fixture = refl; tenant = refl }))

module _ (events warrants : ClaimStore) (rt : Runtime) (key : String) where
  -- A result that carries evidence of a run and an event.
  pub record IsEvidence (e : SyntheticEvent) (v : SupportLoopResult) : Type 0 where
    pub receipt : OutcomeReceipt
    pub handoff : SpecialistHandoff
    pub has_receipt : v.receipt ≡ some receipt
    pub has_handoff : v.handoff ≡ some handoff
    pub of_run : v.run_id ≡ run_id_of rt e
    pub receipt_of : IsReceiptOf (registered_run rt e) receipt
    pub handoff_of :
        IsHandoffOf rt (handoff_request events warrants rt key e (registered_run rt e)) handoff

  module _ (e : SyntheticEvent) (registered : e.case_id ≡ password_reset_id) where
    abbrev pub the_run : SyntheticRun
    the_run = registered_run rt e

    finish-IsEvidence :
        (h : SpecialistHandoff) (a : ActionAttempt) (w : Option String) (now : Datetime)
        → IsHandoffOf rt (handoff_request events warrants rt key e the_run) h
        → Returns (IsEvidence e) (finish events warrants rt key the_run h a w now)
    unfolding finish run_record
    finish-IsEvidence h a w now handed v made =
        ok_of_bind (build_receipt rt the_run a w now) _ made (λ r p made1.
          ok_holds (IsEvidence e) made1 (record {
            receipt = r;
            handoff = h;
            has_receipt = refl;
            has_handoff = refl;
            of_run = refl;
            receipt_of = receipt-IsReceiptOf rt the_run a w now r p;
            handoff_of = handed;
          }))

    act_on-IsEvidence :
        (h : SpecialistHandoff) (o : Order) (at : Readings) (r : WarrantResult)
        (w : Option ActionWarrant) (s : warrants.State)
        → IsHandoffOf rt (handoff_request events warrants rt key e the_run) h
        → Returns (IsEvidence e) (act_on events warrants rt key the_run h o at r w s).0
    unfolding act_on
    act_on-IsEvidence h o at r none s handed =
        finish-IsEvidence h (refused_attempt r) none at.at_receipt handed
    act_on-IsEvidence h o at r (some w) s handed =
        proceed-Returns {S = warrants.State} (IsEvidence e)
          (execute_warranted_simulation warrants rt key at.at_use w o s).0
          (λ a s'.
            (finish events warrants rt key the_run h a (some w.warrant_id) at.at_receipt, s'))
          (execute_warranted_simulation warrants rt key at.at_use w o s).1
          (λ a p. finish-IsEvidence h a (some w.warrant_id) at.at_receipt handed)

    module _ (transition : String) (controls : CapabilityControlState) (at : Readings) where
      abbrev the_order : Order
      the_order = record {
        event = e;
        run_id = the_run.run_id;
        transition = transition;
        controls = controls;
      }

      work-IsEvidence :
          (s : warrants.State)
          → Returns (IsEvidence e) (work events warrants rt key the_run the_order at s).0
      unfolding work
      work-IsEvidence s =
          proceed-Returns {S = warrants.State} (IsEvidence e)
            (build_specialist_handoff rt (handoff_request events warrants rt key e the_run))
            (λ handoff.
              proceed (issue_simulated_ticket_warrant rt key at.at_issue the_order the_run.decision)
                (λ answered.
                  act_on events warrants rt key the_run handoff the_order at answered
                    (granted events warrants rt key answered)))
            s
            (λ handoff p.
              proceed-Returns {S = warrants.State} (IsEvidence e)
                (issue_simulated_ticket_warrant rt key at.at_issue the_order the_run.decision)
                (λ answered.
                  act_on events warrants rt key the_run handoff the_order at answered
                    (granted events warrants rt key answered))
                s
                (λ answered q.
                  act_on-IsEvidence handoff the_order at answered
                    (granted events warrants rt key answered) s
                    (handoff-IsHandoffOf rt (handoff_request events warrants rt key e the_run)
                      registered handoff p)))

      -- What a call for the event returns: the answer to a duplicate, or evidence.
      abbrev pub Answer : SupportLoopResult → Type 0
      Answer v = ((old : String) × (v ≡ duplicate_of events warrants rt key old)) ⊎ IsEvidence e v

      after_claim-Answer :
          (c : ClaimResult) (s : LoopState events warrants)
          → Returns Answer (after_claim events warrants rt key the_run the_order at c s).0
      after_claim-Answer c s = elim (Bool-cases c.claimed) [
        | inl won ↦ λ v h. inr (work-IsEvidence s.consumed v (rw won at h))
        | inr lost ↦ λ v h. inl (
          c.record_id,
          ok_holds (λ v. v ≡ duplicate_of events warrants rt key c.record_id) (rw lost at h) refl,
        )
      ]

      pub process-Answer :
          (s : LoopState events warrants)
          → Returns Answer (process events warrants rt key e transition controls at s).0
      unfolding process
      process-Answer s =
          let claim = claim_event events rt e the_run.run_id s.claimed in
          let s2 : LoopState events warrants = record {
            claimed = claim.1;
            consumed = s.consumed;
          } in
          rw (build_synthetic_run-registered rt e registered) (
            proceed-Returns {S = LoopState events warrants} Answer claim.0
              (after_claim events warrants rt key the_run the_order at) s2
              (λ c p. after_claim-Answer c s2))
