-- ===== src/Http/Ingress/Once.antt =====
-- fast_api_app.py: `/pubsub/synthetic-events`, called again with one envelope.
use vice_ceo_proof_carrying.Claims.Scope.{ClaimStore, Request, claim_key}
use vice_ceo_proof_carrying.Events.Claiming.{claim_event, event_claim}
use vice_ceo_proof_carrying.Events.Decode.{decode_synthetic_pubsub_event}
use vice_ceo_proof_carrying.Events.Decode.Strict.{decode-IsAccepted}
use vice_ceo_proof_carrying.Events.Types.{
  SyntheticEvent, build_synthetic_run-registered, registered_run, run_id_of, run_record,
}
use vice_ceo_proof_carrying.Fixtures.{password_reset_case, password_reset_id}
use vice_ceo_proof_carrying.Http.Ingress.{
  IngressAnswer, accept_pubsub_synthetic_event, claim_run, claimed_answer, ingress_accepted,
  ingress_duplicate,
}
use vice_ceo_proof_carrying.Http.Types.{Response, event_answer, http_ok}
use vice_ceo_proof_carrying.Json.{Json}
use vice_ceo_proof_carrying.Outcome.{Result-cases, ok}
use vice_ceo_proof_carrying.Prelude.{Option-cases, String, inl, inr, none, refl, some, ◌≡◌}
use vice_ceo_proof_carrying.Runtime.{Runtime}
use vice_ceo_proof_carrying.Support.Loop.Once.{
  claim_tenant_registered, event_scope, event_scope_valid,
}
use vice_ceo_proof_carrying.Warrants.Types.{answer}

module _ (events : ClaimStore) (rt : Runtime) where
  open events use {State, recorded, key_of, claim_once, claim_taken, claim_fresh, claim_records}

  module _ (e : SyntheticEvent) (registered : e.case_id ≡ password_reset_id) where
    claim : Request
    claim = event_claim rt e password_reset_case.tenant (registered_run rt e).run_id

    claim_event_lem :
        (s : State) → claim_event events rt e (registered_run rt e).run_id s ≡ claim_once claim s
    unfolding claim_event claim
    claim_event_lem s = rw (claim_tenant_registered e registered)

    claim_valid :
        claim_key claim.tenant claim.claim_kind claim.idempotency_key ≡ ok (event_scope rt e)
    unfolding claim event_claim
    claim_valid = event_scope_valid rt e

    recorded-claim :
        (s : State)
        → (old : String) × (recorded (claim_once claim s).1 (key_of (event_scope rt e)) ≡ some old)
    recorded-claim s = elim (Option-cases (recorded s (key_of (event_scope rt e)))) [
      | inr (old, taken) ↦
          (old, rw (claim_taken claim s (event_scope rt e) old claim_valid taken) taken)
      | inl free ↦ (claim.record_id, claim_records claim s (event_scope rt e) claim_valid free)
    ]

    accepted-run :
        (envelope : Json) (s : State)
        → decode_synthetic_pubsub_event rt envelope ≡ ok e
        → accept_pubsub_synthetic_event events rt envelope s
          ≡ claim_run events rt e (registered_run rt e) s
    unfolding accept_pubsub_synthetic_event event_answer
    accepted-run envelope s decoded = rw (decoded, build_synthetic_run-registered rt e registered)

    -- The answer of the first call does not matter to the claim it leaves.
    run-state :
        (s : State) → (claim_run events rt e (registered_run rt e) s).1 ≡ (claim_once claim s).1
    unfolding claim_run
    run-state s = elim (Result-cases (claim_once claim s).0) [
      | inl (c, made) ↦ rw (claim_event_lem s, made) refl
      | inr (x, raised) ↦ rw (claim_event_lem s, raised) refl
    ]

    run-recorded :
        (s : State) (old : String)
        → recorded s (key_of (event_scope rt e)) ≡ some old
        → claim_run events rt e (registered_run rt e) s
          ≡ (http_ok (ingress_duplicate e.event_id old), s)
    unfolding claim_run claimed_answer
    run-recorded s old taken =
        rw (claim_event_lem s, claim_taken claim s (event_scope rt e) old claim_valid taken) refl

    -- What a call does for an event: a claim that is on record is answered, with its run id, and
    -- nothing changes; otherwise the run is accepted, and its id goes on record.
    pub data IsAnswer (s : State) (old : String) : Response IngressAnswer × State → Type 0 where
      is_repeat :
          recorded s (key_of (event_scope rt e)) ≡ some old
          → IsAnswer s old (http_ok (ingress_duplicate e.event_id old), s)
      is_first :
          {t : State}
          → recorded s (key_of (event_scope rt e)) ≡ none
          → old ≡ run_id_of rt e
          → recorded t (key_of (event_scope rt e)) ≡ some old
          → IsAnswer s old (http_ok (ingress_accepted (registered_run rt e)), t)

    run-fresh :
        (s : State)
        → recorded s (key_of (event_scope rt e)) ≡ none
        → claim_run events rt e (registered_run rt e) s
          ≡ (http_ok (ingress_accepted (registered_run rt e)), (claim_once claim s).1)
    unfolding claim_run claimed_answer
    run-fresh s free =
        rw (claim_event_lem s, claim_fresh claim s (event_scope rt e) claim_valid free) refl

    run-IsAnswer :
        (s : State)
        → (old : String) × IsAnswer s old (claim_run events rt e (registered_run rt e) s)
          × (recorded (claim_run events rt e (registered_run rt e) s).1 (key_of (event_scope rt e))
              ≡ some old)
    unfolding claim event_claim run_record
    run-IsAnswer s = elim (Option-cases (recorded s (key_of (event_scope rt e)))) [
      | inr (old, taken) ↦ (
        old,
        rw (run-recorded s old taken) (is_repeat taken),
        rw (run-recorded s old taken) taken,
      )
      | inl free ↦
          let there = claim_records claim s (event_scope rt e) claim_valid free in
          (
            run_id_of rt e,
            rw (run-fresh s free) (is_first free refl there),
            rw (run-fresh s free) there,
          )
    ]

  -- An envelope that decodes is worked on once. The first call finds a run id on record for the
  -- event, answers with it as a duplicate and changes nothing, or finds none, answers with the
  -- event's run as accepted and leaves its id on record. In both cases the second call is answered
  -- as a duplicate, with the event's id and the id that is on record after the first, and changes
  -- nothing. The claim store is any one that meets the contract of claims.
  pub accept-twice :
      (envelope : Json) (e : SyntheticEvent)
      (decoded : decode_synthetic_pubsub_event rt envelope ≡ ok e) (s : State)
      → let first_call = accept_pubsub_synthetic_event events rt envelope s in
        (old : String) × IsAnswer e
          (decode-IsAccepted rt envelope decoded).registered
          s
          old
          first_call
        × (recorded first_call.1 (key_of (event_scope rt e)) ≡ some old)
        × (accept_pubsub_synthetic_event events rt envelope first_call.1
            ≡ (http_ok (ingress_duplicate e.event_id old), first_call.1))
  accept-twice envelope e decoded s =
      let registered = (decode-IsAccepted rt envelope decoded).registered in
      let t = (claim_run events rt e (registered_run rt e) s).1 in
      let (old, answer, there) = run-IsAnswer e registered s in
      rw
        (accepted-run e registered envelope s decoded, accepted-run e registered envelope t decoded)
        (old, answer, there, run-recorded e registered t old there)
