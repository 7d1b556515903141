-- ===== src/Registry/Engine/Replay.antt =====
-- registry_watch.py: an event that was worked on is answered from the store.
use vice_ceo_proof_carrying.Claims.Scope.{
  ClaimStore, Request, Scope, claim_key, claim_key-shown, scope_eq,
}
use vice_ceo_proof_carrying.Dict.{lookup-insert_self}
use vice_ceo_proof_carrying.Outcome.{
  Result, Result-cases, andthen_keeps, ok, proceed_keeps, proceed_returns,
}
use vice_ceo_proof_carrying.Prelude.{
  Bool-cases, Option, Option-cases, String, ap, inl, inr, nat_eq, none, refl, some, string_eq, sym,
  ◌==◌, ◌∙◌, ◌≡◌,
}
use vice_ceo_proof_carrying.Registry.Engine.{
  EngineState, compare_snapshots, observe, repeat_run, report_change, watch_once, watch_process,
}
use vice_ceo_proof_carrying.Registry.Runs.{
  Watch, caught, validate_event, validated_snapshot, watch_clock, watch_run_id,
}
use vice_ceo_proof_carrying.Registry.Segments.{TextTools}
use vice_ceo_proof_carrying.Registry.Store.{
  WatchState, claim_watch_event, get_run, queue_candidate, save_run, save_snapshot, watch_claim,
}
use vice_ceo_proof_carrying.Registry.Types.{
  RegistryChange, RegistrySnapshot, RegistrySource, RegistrySourceCapture, RegistryWatchEvent,
  RegistryWatchRun, registry_event_key,
}
use vice_ceo_proof_carrying.Runtime.{Runtime}
use vice_ceo_proof_carrying.Text.{is_blank, is_space, strip}

module _ (rt : Runtime) (tools : TextTools) (claims : ClaimStore) where
  open claims use {recorded, key_of, claim_once, claim_taken, claim_fresh, claim_records}

  unfoldable pub watch_scope : RegistryWatchEvent → Scope
  watch_scope e = record {
    tenant = strip "vice_ceo_registry_watch";
    kind = strip "registry_watch_event";
    key = strip (registry_event_key rt e);
  }

  watch_scope_valid :
      (e : RegistryWatchEvent)
      → claim_key "vice_ceo_registry_watch" "registry_watch_event" (registry_event_key rt e)
        ≡ ok (watch_scope e)
  unfolding watch_scope is_blank is_space registry_event_key
  watch_scope_valid e =
      claim_key-shown "vice_ceo_registry_watch" "registry_watch_event" (registry_event_key rt e)
        refl refl refl

  abbrev filed : EngineState rt tools claims → RegistryWatchEvent → Option String
  filed s e = recorded s.store.event_claims (key_of (watch_scope e))

  abbrev claims_of : EngineState rt tools claims → claims.State
  claims_of s = s.store.event_claims

  report_claims :
      (w : Watch) (change : RegistryChange) (started_at : String) (s : EngineState rt tools claims)
      → claims_of (report_change rt tools claims w change started_at s).1 ≡ claims_of s
  unfolding report_change queue_candidate
  report_claims w change started_at s =
      proceed_keeps claims_of (w.generate change) _ s
        (λ b p. proceed_keeps claims_of (caught (w.deliver b)) _ _ (λ d q. refl))

  compare_claims :
      (w : Watch) (source : RegistrySource) (capture : RegistrySourceCapture)
      (current : RegistrySnapshot) (started_at : String) (prior : Option RegistrySnapshot)
      (s : EngineState rt tools claims)
      → claims_of (compare_snapshots rt tools claims w source capture current started_at prior s).1
        ≡ claims_of s
  unfolding compare_snapshots
  compare_claims w source capture current started_at none s = refl
  compare_claims w source capture current started_at (some prior) s =
      elim (Bool-cases (prior.normalization_version == current.normalization_version)) [
        | inr other ↦ rw other refl
        | inl same ↦ elim (Bool-cases (prior.evidence_sha256 == current.evidence_sha256)) [
          | inl still ↦ rw (same, still) refl
          | inr changed ↦ rw (same, changed) (report_claims w _ started_at s)
        ]
      ]

  observe_claims :
      (w : Watch) (source : RegistrySource) (started_at : String) (s : EngineState rt tools claims)
      → claims_of (observe rt tools claims w source started_at s).1 ≡ claims_of s
  unfolding observe save_snapshot
  observe_claims w source started_at s = proceed_keeps claims_of (w.fetch source) _ s (λ capture p.
      proceed_keeps claims_of (validated_snapshot rt tools source capture) _ s (λ current q.
        andthen_keeps claims_of
          (compare_snapshots rt tools claims w source capture current started_at _) _ _
          (compare_claims w source capture current started_at _ _) (λ o s3. refl)))

  once_claims :
      (w : Watch) (e : RegistryWatchEvent) (source : RegistrySource)
      (s : EngineState rt tools claims)
      → claims_of (watch_once rt tools claims w e source s).1 ≡ claims_of s
  unfolding watch_once save_run
  once_claims w e source s = proceed_keeps claims_of (watch_clock rt w.started) _ s (λ started_at p.
      andthen_keeps claims_of (observe rt tools claims w source started_at) _ s
        (observe_claims w source started_at s)
        (λ (current, o) s1.
          proceed_keeps claims_of (watch_clock rt w.completed) _ s1 (λ completed_at q. refl)))

  module _ (e : RegistryWatchEvent) where
    abbrev claim_made : Request
    claim_made = watch_claim claims rt e (watch_run_id rt e)

    scope_valid :
        claim_key claim_made.tenant claim_made.claim_kind claim_made.idempotency_key
        ≡ ok (watch_scope e)
    unfolding watch_claim
    scope_valid = watch_scope_valid e

    -- An accepted event whose claim is on record changes nothing.
    pub watch_process-filed :
        (w : Watch) (source : RegistrySource) (s : EngineState rt tools claims) (old : String)
        → validate_event rt w e ≡ ok source
        → filed s e ≡ some old
        → watch_process rt tools claims w e s
          ≡ (repeat_run rt tools claims w e old (get_run claims s.store old), s)
    unfolding watch_process claim_watch_event
    watch_process-filed w source s old valid taken =
        rw
          (valid, claim_taken claim_made s.store.event_claims (watch_scope e) old scope_valid taken)
          refl

    fresh_work :
        (w : Watch) (source : RegistrySource) (s : EngineState rt tools claims)
        → validate_event rt w e ≡ ok source
        → filed s e ≡ none
        → (s' : EngineState rt tools claims) × (filed s' e ≡ some (watch_run_id rt e))
          × (watch_process rt tools claims w e s ≡ watch_once rt tools claims w e source s')
    unfolding watch_process claim_watch_event
    fresh_work w source s valid free = (
      record {
        store = record {
          event_claims = (claim_once claim_made s.store.event_claims).1;
          snapshots = s.store.snapshots;
          runs = s.store.runs;
          candidates = s.store.candidates;
        };
        handed_over = s.handed_over;
      },
      claim_records claim_made s.store.event_claims (watch_scope e) scope_valid free,
      rw (valid, claim_fresh claim_made s.store.event_claims (watch_scope e) scope_valid free) refl,
    )

    filed-once :
        (w : Watch) (source : RegistrySource) (s : EngineState rt tools claims) (old : String)
        → filed s e ≡ some old
        → filed (watch_once rt tools claims w e source s).1 e ≡ some old
    filed-once w source s old h =
        ap (λ t. recorded t (key_of (watch_scope e))) (once_claims w e source s) ∙ h

    filed-process :
        (w : Watch) (source : RegistrySource) (s : EngineState rt tools claims)
        → validate_event rt w e ≡ ok source
        → (old : String) × (filed (watch_process rt tools claims w e s).1 e ≡ some old)
    filed-process w source s valid = elim (Option-cases (filed s e)) [
      | inr (old, taken) ↦ (old, rw (watch_process-filed w source s old valid taken) taken)
      | inl free ↦
          let (s', mark, same) = fresh_work w source s valid free in
          (watch_run_id rt e, rw same (filed-once w source s' (watch_run_id rt e) mark))
    ]

    filed_quiet :
        (w : Watch) (s : EngineState rt tools claims) (old : String)
        → filed s e ≡ some old
        → (watch_process rt tools claims w e s).1 ≡ s
    unfolding watch_process
    filed_quiet w s old taken = elim (Result-cases (validate_event rt w e)) [
      | inr (x, refused) ↦ rw refused refl
      | inl (source, valid) ↦ rw (watch_process-filed w source s old valid taken) refl
    ]

    -- After a call for an accepted event, also one that raised in the middle, no later call for that
    -- event changes the store or hands over a brief.
    pub watch_process_settled :
        (w later : Watch) (source : RegistrySource) (s : EngineState rt tools claims)
        → validate_event rt w e ≡ ok source
        → (watch_process rt tools claims later e (watch_process rt tools claims w e s).1).1
          ≡ (watch_process rt tools claims w e s).1
    watch_process_settled w later source s valid =
        let (old, mark) = filed-process w source s valid in
        filed_quiet later (watch_process rt tools claims w e s).1 old mark

    abbrev Saved : RegistryWatchRun → Result RegistryWatchRun × EngineState rt tools claims → Type 0
    Saved run (r, s) = get_run claims s.store (watch_run_id rt e) ≡ some run

    saved :
        (run : RegistryWatchRun) (s : WatchState claims) {v : RegistryWatchRun}
        → run.run_id ≡ watch_run_id rt e
        → ok run ≡ ok v
        → get_run claims (save_run claims run s) (watch_run_id rt e) ≡ some v
    unfolding save_run get_run
    saved run s same h = rw⁻¹ same (lookup-insert_self s.runs run.run_id run ∙ ap some (cc h))

    once_saves :
        (w : Watch) (source : RegistrySource) (s : EngineState rt tools claims)
        (run : RegistryWatchRun)
        → (watch_once rt tools claims w e source s).0 ≡ ok run
        → Saved run (watch_once rt tools claims w e source s)
    unfolding watch_once
    once_saves w source s run h =
        proceed_returns (Saved run) (watch_clock rt w.started) _ s h (λ started_at p h1.
          proceed_returns (Saved run) (observe rt tools claims w source started_at s).0 _ _ h1
            (λ (current, o) q h2.
              proceed_returns (Saved run) (watch_clock rt w.completed) _ _ h2
                (λ completed_at r h3. saved _ _ refl h3)))

    -- If an event is new and accepted and its call returns a run, each later call for it that is accepted returns
    -- that very run, and changes nothing.
    pub watch_process_replay :
        (w later : Watch) (source again : RegistrySource) (s : EngineState rt tools claims)
        (run : RegistryWatchRun)
        → validate_event rt w e ≡ ok source
        → validate_event rt later e ≡ ok again
        → filed s e ≡ none
        → (watch_process rt tools claims w e s).0 ≡ ok run
        → watch_process rt tools claims later e (watch_process rt tools claims w e s).1
          ≡ (ok run, (watch_process rt tools claims w e s).1)
    unfolding repeat_run
    watch_process_replay w later source again s run valid valid' free h =
        let (s', mark, same) = fresh_work w source s valid free in
        let done = once_saves w source s' run (sym (ap (λ p. p.0) same) ∙ h) in
        let kept = filed-once w source s' (watch_run_id rt e) mark in
        let t = (watch_once rt tools claims w e source s').1 in
        rw same (
          watch_process-filed later again t (watch_run_id rt e) valid' kept
          ∙ ap (λ o. (repeat_run rt tools claims later e (watch_run_id rt e) o, t)) done)
