-- ===== src/Timeline/Linked.antt =====
-- business_time_machine.py: which evidence is replayed.
use vice_ceo_proof_carrying.Events.Types.{SyntheticEvent, canonical_payload}
use vice_ceo_proof_carrying.Fixtures.{SyntheticFixtureDigest, get_synthetic_fixture_digest}
use vice_ceo_proof_carrying.Outcome.{
  bind_of_ok, ok, ok_of_bind, ok_of_require, or_raise, or_raise-some,
}
use vice_ceo_proof_carrying.Prelude.{
  List, String, [], ap, arith, eq_iff, false, not, refl, some, ◌↔◌, ◌∷◌, ◌≡◌,
}
use vice_ceo_proof_carrying.Runtime.{Runtime}
use vice_ceo_proof_carrying.Specialists.{SpecialistHandoff}
use vice_ceo_proof_carrying.Support.Loop.{OutcomeReceipt, SupportLoopResult}
use vice_ceo_proof_carrying.Timeline.{
  BusinessTimeline, any_differ, incomplete_evidence, linkage_mismatch, linkage_pairs,
  replay_synthetic_evidence, timeline_of,
}
use vice_ceo_proof_carrying.Twin.{OperationalTwinAnalysis}

-- The evidence is of one run, one event, one fixture and one tenant.
pub record IsLinked (e : SyntheticEvent) (v : SupportLoopResult) (receipt : OutcomeReceipt)
    (handoff : SpecialistHandoff) (twin : OperationalTwinAnalysis) (source fixture : String)
    : Type 0 where
  pub receipt_run : v.run_id ≡ receipt.run_id
  pub handoff_run : v.run_id ≡ handoff.run_id
  pub twin_run : v.run_id ≡ twin.run_id
  pub receipt_event : e.event_id ≡ receipt.event_id
  pub handoff_event : e.event_id ≡ handoff.event_id
  pub twin_event : e.event_id ≡ twin.event_id
  pub receipt_source : source ≡ receipt.source_reference_sha256
  pub handoff_source : source ≡ handoff.source_reference_sha256
  pub twin_source : source ≡ twin.source_reference_sha256
  pub receipt_fixture : fixture ≡ receipt.fixture_reference_sha256
  pub handoff_fixture : fixture ≡ handoff.fixture_reference_sha256
  pub twin_fixture : fixture ≡ twin.fixture_reference_sha256
  pub handoff_tenant : receipt.tenant ≡ handoff.tenant
  pub twin_tenant : receipt.tenant ≡ twin.tenant

abbrev AllEqual : List (String × String) → Type 0
AllEqual [] = Unit {0}
AllEqual ((a, b) ∷ rest) = (a ≡ b) × AllEqual rest

any_differ_iff : (pairs : List (String × String)) → (any_differ pairs ≡ false) ↔ AllEqual pairs
unfolding any_differ
any_differ_iff [] = (λ h. tt, λ h. refl)
any_differ_iff ((a, b) ∷ rest) = (
  λ h. ground (arith, h, eq_iff a b, any_differ_iff rest),
  λ (same, equal). ground (arith, same, equal, eq_iff a b, any_differ_iff rest),
)

module _ (e : SyntheticEvent) (v : SupportLoopResult) (receipt : OutcomeReceipt)
    (handoff : SpecialistHandoff) (twin : OperationalTwinAnalysis) (source fixture : String) where
  abbrev pairs : List (String × String)
  pairs = linkage_pairs e v receipt handoff twin source fixture

  any_differ-IsLinked : IsLinked e v receipt handoff twin source fixture → any_differ pairs ≡ false
  any_differ-IsLinked l = (any_differ_iff pairs).1 (
    l.receipt_run,
    (
      l.handoff_run,
      (
        l.twin_run,
        (
          l.receipt_event,
          (
            l.handoff_event,
            (
              l.twin_event,
              (
                l.receipt_source,
                (
                  l.handoff_source,
                  (
                    l.twin_source,
                    (
                      l.receipt_fixture,
                      (
                        l.handoff_fixture,
                        (l.twin_fixture, (l.handoff_tenant, (l.twin_tenant, tt))),
                      ),
                    ),
                  ),
                ),
              ),
            ),
          ),
        ),
      ),
    ),
  )

  IsLinked-any_differ : any_differ pairs ≡ false → IsLinked e v receipt handoff twin source fixture
  IsLinked-any_differ h =
      let (
        p0,
        (p1, (p2, (p3, (p4, (p5, (p6, (p7, (p8, (p9, (p10, (p11, (p12, (p13, done))))))))))))),
      ) =
        (any_differ_iff pairs).0 h in
      record {
        receipt_run = p0;
        handoff_run = p1;
        twin_run = p2;
        receipt_event = p3;
        handoff_event = p4;
        twin_event = p5;
        receipt_source = p6;
        handoff_source = p7;
        twin_source = p8;
        receipt_fixture = p9;
        handoff_fixture = p10;
        twin_fixture = p11;
        handoff_tenant = p12;
        twin_tenant = p13;
      }

-- The timeline is the one of this very evidence.
pub record IsTimelineOf (rt : Runtime) (e : SyntheticEvent) (v : SupportLoopResult)
    (twin : OperationalTwinAnalysis) (t : BusinessTimeline) : Type 0 where
  pub receipt : OutcomeReceipt
  pub handoff : SpecialistHandoff
  pub fixture : SyntheticFixtureDigest
  pub has_receipt : v.receipt ≡ some receipt
  pub has_handoff : v.handoff ≡ some handoff
  pub registered : get_synthetic_fixture_digest rt e.case_id ≡ ok fixture
  pub linked :
      IsLinked e v receipt handoff twin (rt.sha256 (canonical_payload e)) fixture.fixture_sha256
  pub made :
      t
      ≡ timeline_of rt e v receipt handoff twin
          (rt.sha256 (canonical_payload e))
          fixture.fixture_sha256

module _ (rt : Runtime) (e : SyntheticEvent) (v : SupportLoopResult)
    (twin : OperationalTwinAnalysis) (t : BusinessTimeline) where
  abbrev source : String
  source = rt.sha256 (canonical_payload e)

  replay-IsTimelineOf : replay_synthetic_evidence rt e v twin ≡ ok t → IsTimelineOf rt e v twin t
  unfolding replay_synthetic_evidence
  replay-IsTimelineOf h0 =
      ok_of_bind (or_raise v.receipt incomplete_evidence) _ h0 (λ receipt p1 h1.
        ok_of_bind (or_raise v.handoff incomplete_evidence) _ h1 (λ handoff p2 h2.
          ok_of_bind (get_synthetic_fixture_digest rt e.case_id) _ h2 (λ fixture p3 h3.
            ok_of_require
              (not (any_differ (pairs e v receipt handoff twin source fixture.fixture_sha256)))
              linkage_mismatch _ h3
              (λ linked h4. record {
                receipt = receipt;
                handoff = handoff;
                fixture = fixture;
                has_receipt = or_raise-some v.receipt _ p1;
                has_handoff = or_raise-some v.handoff _ p2;
                registered = p3;
                linked =
                    IsLinked-any_differ e v receipt handoff twin source fixture.fixture_sha256
                      (ground (arith, linked));
                made = cc h4;
              }))))

  IsTimelineOf-replay : IsTimelineOf rt e v twin t → replay_synthetic_evidence rt e v twin ≡ ok t
  unfolding replay_synthetic_evidence
  IsTimelineOf-replay g =
      bind_of_ok (or_raise v.receipt _) _ (ap (λ o. or_raise o incomplete_evidence) g.has_receipt) (
        bind_of_ok (or_raise v.handoff _) _ (ap (λ o. or_raise o incomplete_evidence) g.has_handoff)
          (bind_of_ok (get_synthetic_fixture_digest rt e.case_id) _ g.registered (
            rw
              (
                any_differ-IsLinked e v g.receipt g.handoff twin source g.fixture.fixture_sha256
                    g.linked,
                g.made,
              )
              refl)))

  -- A replay returns a timeline exactly if the evidence has a receipt and a handoff, the event's
  -- case is registered, and all of the evidence is of one run, one event and its payload, one
  -- fixture and one tenant; the timeline is then made of just this evidence.
  pub replay_iff : (replay_synthetic_evidence rt e v twin ≡ ok t) ↔ IsTimelineOf rt e v twin t
  replay_iff = (replay-IsTimelineOf, IsTimelineOf-replay)
