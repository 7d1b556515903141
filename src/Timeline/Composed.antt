-- ===== src/Timeline/Composed.antt =====
-- business_time_machine.py: the evidence of a call of the support loop is replayed.
use vice_ceo_proof_carrying.Claims.Scope.{ClaimStore}
use vice_ceo_proof_carrying.Events.Types.{
  SyntheticEvent, canonical_payload, registered_run, run_record,
}
use vice_ceo_proof_carrying.Fixtures.{
  digest_of, password_reset_case, password_reset_id, registered_digest, registered_readable,
}
use vice_ceo_proof_carrying.Outcome.{ok, raise}
use vice_ceo_proof_carrying.Prelude.{String, inl, inr, refl, sym, ◌∙◌, ◌≡◌, ◌⊎◌}
use vice_ceo_proof_carrying.Runtime.{Runtime}
use vice_ceo_proof_carrying.Support.Loop.{
  LoopState, Readings, SupportLoopResult, duplicate_of, handoff_request, process,
}
use vice_ceo_proof_carrying.Text.{str_option}
use vice_ceo_proof_carrying.Timeline.{
  BusinessTimeline, incomplete_evidence, replay_synthetic_evidence, timeline_of,
}
use vice_ceo_proof_carrying.Timeline.Evidence.{IsEvidence, process-Answer}
use vice_ceo_proof_carrying.Timeline.Linked.{IsLinked, replay_iff}
use vice_ceo_proof_carrying.Twin.{
  OperationalTwinAnalysis, analysis_of, compare-registered, compare_synthetic_support_options,
  twin_of,
}
use vice_ceo_proof_carrying.Warrants.Types.{CapabilityControlState}

module _ (events warrants : ClaimStore) (rt : Runtime) (key : String) (e : SyntheticEvent)
    (registered : e.case_id ≡ password_reset_id) where
  abbrev the_twin : OperationalTwinAnalysis
  the_twin = twin_of rt e (registered_run rt e).run_id

  evidence-IsLinked :
      (v : SupportLoopResult) (g : IsEvidence events warrants rt key e v)
      → IsLinked e v g.receipt g.handoff the_twin
          (rt.sha256 (canonical_payload e))
          (digest_of rt e.case_id password_reset_case).fixture_sha256
  unfolding run_record handoff_request twin_of analysis_of str_option
  evidence-IsLinked v g =
      let receipt_tenant = (rw (registered_readable e.case_id registered) at g.receipt_of.tenant) in
      record {
        receipt_run = g.of_run ∙ g.receipt_of.run_id;
        handoff_run = g.of_run ∙ g.handoff_of.run;
        twin_run = g.of_run;
        receipt_event = g.receipt_of.event;
        handoff_event = g.handoff_of.event;
        twin_event = refl;
        receipt_source = g.receipt_of.source;
        handoff_source = g.handoff_of.source;
        twin_source = refl;
        receipt_fixture = g.receipt_of.fixture;
        handoff_fixture = g.handoff_of.fixture;
        twin_fixture = refl;
        handoff_tenant = sym receipt_tenant ∙ g.handoff_of.tenant;
        twin_tenant = sym receipt_tenant;
      }

  replay-IsEvidence :
      (v : SupportLoopResult)
      → IsEvidence events warrants rt key e v
      → (t : BusinessTimeline) × (replay_synthetic_evidence rt e v the_twin ≡ ok t)
  replay-IsEvidence v g =
      let source = rt.sha256 (canonical_payload e) in
      let fixture = digest_of rt e.case_id password_reset_case in
      let t = timeline_of rt e v g.receipt g.handoff the_twin source fixture.fixture_sha256 in
      (
        t,
        (replay_iff rt e v the_twin t).1 (record {
          receipt = g.receipt;
          handoff = g.handoff;
          fixture = fixture;
          has_receipt = g.has_receipt;
          has_handoff = g.has_handoff;
          registered = registered_digest rt e.case_id registered;
          linked = evidence-IsLinked v g;
          made = refl;
        }),
      )

  -- The evidence of a call of the support loop can be replayed: for whatever the call returns for
  -- an event of the registered case, with any transition, controls, clock and state, the twin of
  -- the event and its run exists, and the replay of the result and that twin returns a timeline,
  -- unless the call was answered as a duplicate, whose replay is refused as incomplete.
  pub replay-process :
      (transition : String) (controls : CapabilityControlState) (at : Readings)
      (s : LoopState events warrants) (v : SupportLoopResult)
      → (process events warrants rt key e transition controls at s).0 ≡ ok v
      → (twin : OperationalTwinAnalysis) × (compare_synthetic_support_options rt e
            (registered_run rt e).run_id
          ≡ ok twin)
        × (((old : String) × (v ≡ duplicate_of events warrants rt key old)
              × (replay_synthetic_evidence rt e v twin ≡ raise incomplete_evidence))
            ⊎ ((t : BusinessTimeline) × (v.run_id ≡ twin.run_id)
                × (replay_synthetic_evidence rt e v twin ≡ ok t)))
  unfolding duplicate_of replay_synthetic_evidence
  replay-process transition controls at s v returned = (
    the_twin,
    compare-registered rt e (registered_run rt e).run_id registered,
    elim (process-Answer events warrants rt key e registered transition controls at s v returned) [
      | inl (old, same) ↦ inl (old, same, rw same refl)
      | inr g ↦ inr (
          let (t, replayed) = replay-IsEvidence v g in
          (t, (evidence-IsLinked v g).twin_run, replayed))
    ],
  )
