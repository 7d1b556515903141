-- ===== src/Support/Loop/Once.antt =====
-- support_loop.py: an event is worked on once.
use vice_ceo_proof_carrying.Claims.Scope.{ClaimStore, Request, Scope, claim_key, claim_key-shown}
use vice_ceo_proof_carrying.Events.Claiming.{claim_event, claim_tenant, event_claim}
use vice_ceo_proof_carrying.Events.Types.{
  SyntheticEvent, build_synthetic_run-registered, idempotency_key, registered_run,
}
use vice_ceo_proof_carrying.Fixtures.{password_reset_case, password_reset_id, read_synthetic_case}
use vice_ceo_proof_carrying.Outcome.{Result, ok}
use vice_ceo_proof_carrying.Prelude.{Option-cases, String, inl, inr, none, refl, some, ◌≡◌}
use vice_ceo_proof_carrying.Runtime.{Runtime}
use vice_ceo_proof_carrying.Support.Loop.{
  LoopState, Readings, SupportLoopResult, duplicate_of, process,
}
use vice_ceo_proof_carrying.Text.{is_blank, is_space, strip}
use vice_ceo_proof_carrying.Warrants.Types.{CapabilityControlState}

-- The scope under which an event of the registered case is claimed.
unfoldable pub event_scope : Runtime → SyntheticEvent → Scope
event_scope rt e = record {
  tenant = strip password_reset_case.tenant;
  kind = strip "synthetic_event";
  key = strip (idempotency_key rt e);
}

pub event_scope_valid :
    (rt : Runtime) (e : SyntheticEvent)
    → claim_key password_reset_case.tenant "synthetic_event" (idempotency_key rt e)
      ≡ ok (event_scope rt e)
unfolding event_scope is_blank is_space idempotency_key
event_scope_valid rt e =
    claim_key-shown password_reset_case.tenant "synthetic_event" (idempotency_key rt e) refl refl
      refl

pub claim_tenant_registered :
    (e : SyntheticEvent)
    → e.case_id ≡ password_reset_id
    → claim_tenant e ≡ ok password_reset_case.tenant
unfolding claim_tenant read_synthetic_case
claim_tenant_registered e h = rw h

module _ (events warrants : ClaimStore) (rt : Runtime) (key : String) where
  open events use {recorded, key_of, claim_once, claim_taken, claim_fresh, claim_records}

  abbrev Call : Type 0
  Call = String × CapabilityControlState × Readings

  abbrev pub run_call :
      SyntheticEvent
      → Call
      → LoopState events warrants
      → Result SupportLoopResult × LoopState events warrants
  run_call e (transition, controls, at) s =
      process events warrants rt key e transition controls at s

  module _ (e : SyntheticEvent) (registered : e.case_id ≡ password_reset_id) where
    -- The claim that `process` makes.
    abbrev pub claim_of : Request
    claim_of = event_claim rt e password_reset_case.tenant (registered_run rt e).run_id

    pub claim_event-registered :
        (t : events.State)
        → claim_event events rt e (registered_run rt e).run_id t ≡ claim_once claim_of t
    unfolding claim_event
    claim_event-registered t = rw (claim_tenant_registered e registered)

    pub event_scope-valid :
        claim_key claim_of.tenant claim_of.claim_kind claim_of.idempotency_key
        ≡ ok (event_scope rt e)
    unfolding event_claim
    event_scope-valid = event_scope_valid rt e

    -- An event whose claim is on record is answered as a duplicate, and nothing changes.
    pub process-recorded :
        (c : Call) (s : LoopState events warrants) (old : String)
        → recorded s.claimed (key_of (event_scope rt e)) ≡ some old
        → run_call e c s ≡ (ok (duplicate_of events warrants rt key old), s)
    unfolding process
    process-recorded (transition, controls, at) s old taken =
        rw
          (
            build_synthetic_run-registered rt e registered,
            claim_event-registered s.claimed,
            claim_taken claim_of s.claimed (event_scope rt e) old event_scope-valid taken,
          )
          refl

    fresh_record :
        (transition : String) (controls : CapabilityControlState) (at : Readings)
        (s : LoopState events warrants)
        → recorded s.claimed (key_of (event_scope rt e)) ≡ none
        → recorded (run_call e (transition, controls, at) s).1.claimed (key_of (event_scope rt e))
          ≡ some claim_of.record_id
    unfolding process
    fresh_record transition controls at s free =
        rw
          (
            build_synthetic_run-registered rt e registered,
            claim_event-registered s.claimed,
            claim_fresh claim_of s.claimed (event_scope rt e) event_scope-valid free,
          )
          (claim_records claim_of s.claimed (event_scope rt e) event_scope-valid free)

    -- After any call for an event, its claim is on record, even if the call raised.
    pub recorded-process :
        (c : Call) (s : LoopState events warrants)
        → (old : String) × (recorded (run_call e c s).1.claimed (key_of (event_scope rt e))
            ≡ some old)
    recorded-process (transition, controls, at) s =
        elim (Option-cases (recorded s.claimed (key_of (event_scope rt e)))) [
          | inr (old, taken) ↦
              (old, rw (process-recorded (transition, controls, at) s old taken) taken)
          | inl free ↦ (claim_of.record_id, fresh_record transition controls at s free)
        ]

    -- Two calls for one event of the registered case, with any transitions, controls and clock: whatever the first did, also
    -- if it raised, the second is answered as a duplicate and changes nothing.
    pub process_twice :
        (c d : Call) (s : LoopState events warrants)
        → (old : String) × (run_call e d (run_call e c s).1
            ≡ (ok (duplicate_of events warrants rt key old), (run_call e c s).1))
    process_twice c d s =
        let (old, taken) = recorded-process c s in
        (old, process-recorded d (run_call e c s).1 old taken)
