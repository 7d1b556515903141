-- ===== src/Registry/Engine.antt =====
-- registry_watch.py: `RegistryWatchEngine.process`.
pub mod Replay
pub mod Deliveries
pub mod Lost
use vice_ceo_proof_carrying.Claims.Scope.{ClaimStore}
use vice_ceo_proof_carrying.Outcome.{Action, Result, andthen, ok, proceed, ◌>>=◌, ◌>>◌}
use vice_ceo_proof_carrying.Prelude.{
  List, Option, String, [], if◌then◌else◌, nat_eq, none, not, some, string_eq, ◌++◌, ◌==◌, ◌∷◌,
}
use vice_ceo_proof_carrying.Provider.Canary.{claim}
use vice_ceo_proof_carrying.Registry.Runs.{
  Watch, WatchOutcome, action_candidate_of, baseline_outcome, brief_outcome, caught, duplicate_run,
  unchanged_outcome, validate_event, validated_snapshot, watch_clock, watch_run, watch_run_id,
}
use vice_ceo_proof_carrying.Registry.Segments.{
  TextTools, changed_content_excerpt, changed_segment_count,
}
use vice_ceo_proof_carrying.Registry.Store.{
  WatchState, claim_watch_event, get_run, latest_snapshot, queue_candidate, save_run, save_snapshot,
}
use vice_ceo_proof_carrying.Registry.Types.{
  RegistryChange, RegistryImpactBrief, RegistrySnapshot, RegistrySource, RegistrySourceCapture,
  RegistryWatchEvent, RegistryWatchRun,
}
use vice_ceo_proof_carrying.Runtime.{Runtime}

module _ (rt : Runtime) (tools : TextTools) (claims : ClaimStore) where
  -- The store, and the briefs that were handed to the delivery channel, oldest first.
  pub record EngineState : Type 0 where
    pub store : WatchState claims
    pub handed_over : List RegistryImpactBrief

  abbrev with_store : EngineState → WatchState claims → EngineState
  with_store s t = record { store = t; handed_over = s.handed_over }

  -- The branch of a changed source: brief, owner action, delivery.
  report_change : Watch → RegistryChange → String → Action EngineState WatchOutcome
  unfolding action_candidate_of caught brief_outcome queue_candidate
  report_change w change started_at s =
      proceed (w.generate change)
        (λ b s1.
          let c = action_candidate_of rt b change.source started_at in
          let s2 : EngineState = record {
            store = queue_candidate claims c s1.store;
            handed_over = s1.handed_over ++ b ∷ [];
          } in
          proceed (caught (w.deliver b)) (λ d s3. (ok (brief_outcome b c d), s3)) s2)
        s

  -- What the new snapshot means, by the snapshot before it.
  compare_snapshots :
      Watch
      → RegistrySource
      → RegistrySourceCapture
      → RegistrySnapshot
      → String
      → Option RegistrySnapshot
      → Action EngineState WatchOutcome
  unfolding report_change baseline_outcome unchanged_outcome changed_content_excerpt
      changed_segment_count
  compare_snapshots w source capture current started_at none s =
      (ok (baseline_outcome "first_source_snapshot_recorded"), s)
  compare_snapshots w source capture current started_at (some prior) s =
      if not (prior.normalization_version == current.normalization_version)
      then (ok (baseline_outcome "source_normalization_rebaselined"), s)
      else if prior.evidence_sha256 == current.evidence_sha256
      then (ok unchanged_outcome, s)
      else report_change w
          (record {
            source = source;
            prior_snapshot = prior;
            current_snapshot = current;
            current_capture = capture;
            changed_content_excerpt = changed_content_excerpt rt tools prior capture;
            changed_segment_count = changed_segment_count rt tools prior capture;
          })
          started_at s

  -- The call after a won claim, up to the outcome.
  observe : Watch → RegistrySource → String → Action EngineState (RegistrySnapshot × WatchOutcome)
  unfolding compare_snapshots validated_snapshot latest_snapshot save_snapshot
  observe w source started_at s =
      proceed (w.fetch source)
        (λ capture. proceed (validated_snapshot rt tools source capture) (λ current s1.
          let prior = latest_snapshot claims s1.store source.source_id in
          let s2 = with_store s1 (save_snapshot claims current s1.store) in
          andthen (compare_snapshots w source capture current started_at prior)
            (λ o s3. (ok (current, o), s3)) s2))
        s

  -- The call after a won claim.
  unfoldable pub watch_once :
      Watch → RegistryWatchEvent → RegistrySource → Action EngineState RegistryWatchRun
  unfolding observe watch_clock watch_run watch_run_id save_run
  watch_once w e source s =
      proceed (watch_clock rt w.started)
        (λ started_at. andthen (observe w source started_at) (λ (current, o).
          proceed (watch_clock rt w.completed) (λ completed_at s1.
            let run = watch_run rt e (watch_run_id rt e) started_at completed_at current o in
            (ok run, with_store s1 (save_run claims run s1.store)))))
        s

  -- The answer to an event that was claimed before.
  pub repeat_run :
      Watch → RegistryWatchEvent → String → Option RegistryWatchRun → Result RegistryWatchRun
  unfolding watch_clock duplicate_run
  repeat_run w e record_id (some run) = ok run
  repeat_run w e record_id none = do
    timestamp ← watch_clock rt w.started
    ok (duplicate_run rt e record_id timestamp)

  -- `process`
  unfoldable pub watch_process : Watch → RegistryWatchEvent → Action EngineState RegistryWatchRun
  unfolding validate_event claim_watch_event watch_once repeat_run get_run watch_run_id
  watch_process w e s =
      proceed (validate_event rt w e)
        (λ source s1.
          let (claim, t) = claim_watch_event claims rt e (watch_run_id rt e) s1.store in
          proceed claim
            (λ c s2.
              if not c.claimed
              then (repeat_run w e c.record_id (get_run claims s2.store c.record_id), s2)
              else watch_once w e source s2)
            (with_store s1 t))
        s
