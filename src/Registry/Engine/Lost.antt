-- ===== src/Registry/Engine/Lost.antt =====
-- registry_watch.py: a change whose brief cannot be generated.
use vice_ceo_proof_carrying.Claims.Scope.{ClaimStore}
use vice_ceo_proof_carrying.Dict.{lookup-insert_self}
use vice_ceo_proof_carrying.Outcome.{Error, ok, ok_holds, ok_of_bind, ok_of_require, raise}
use vice_ceo_proof_carrying.Prelude.{
  Bool-cases, String, arith, eq_iff, false, if◌then◌else◌, inl, inr, nat_eq, refl, some, string_eq,
  sym, true, ◌&&◌, ◌==◌, ◌≡◌,
}
use vice_ceo_proof_carrying.Registry.Decode.{watch_timestamp}
use vice_ceo_proof_carrying.Registry.Engine.{
  EngineState, compare_snapshots, observe, report_change, watch_once,
}
use vice_ceo_proof_carrying.Registry.Runs.{
  Watch, baseline_outcome, unchanged_outcome, validated_snapshot, watch_clock, watch_run,
  watch_run_id,
}
use vice_ceo_proof_carrying.Registry.Segments.{TextTools}
use vice_ceo_proof_carrying.Registry.Store.{WatchState, latest_snapshot, save_snapshot}
use vice_ceo_proof_carrying.Registry.Types.{
  RegistryChange, RegistrySnapshot, RegistrySource, RegistrySourceCapture, RegistryWatchEvent,
  RegistryWatchRun,
}
use vice_ceo_proof_carrying.Runtime.{Runtime, as_utc}

module _ (rt : Runtime) (tools : TextTools) (claims : ClaimStore) where
  -- A visit of a source that brings a snapshot in.
  pub record IsVisit (w : Watch) (source : RegistrySource) (current : RegistrySnapshot)
      : Type 0 where
    pub capture : RegistrySourceCapture
    pub fetched : w.fetch source ≡ ok capture
    pub valid : validated_snapshot rt tools source capture ≡ ok current

  -- The snapshots agree on the normalization.
  abbrev Comparable : RegistrySnapshot → RegistrySnapshot → Type 0
  Comparable prior current = (prior.normalization_version == current.normalization_version) ≡ true

  visit_failed :
      (w : Watch) (source : RegistrySource) (current prior : RegistrySnapshot) (started_at : String)
      (x : Error) (s : EngineState rt tools claims)
      → IsVisit w source current
      → latest_snapshot claims s.store source.source_id ≡ some prior
      → Comparable prior current
      → (prior.evidence_sha256 == current.evidence_sha256) ≡ false
      → ((change : RegistryChange) → w.generate change ≡ raise x)
      → observe rt tools claims w source started_at s ≡ (
        raise x,
        record { store = save_snapshot claims current s.store; handed_over = s.handed_over },
      )
  unfolding observe compare_snapshots report_change
  visit_failed w source current prior started_at x s v latest same differ failing =
      rw (v.fetched, v.valid, latest, same, differ, failing _) refl

  visit_unchanged :
      (w : Watch) (source : RegistrySource) (current prior : RegistrySnapshot) (started_at : String)
      (s : EngineState rt tools claims)
      → IsVisit w source current
      → latest_snapshot claims s.store source.source_id ≡ some prior
      → Comparable prior current
      → (prior.evidence_sha256 == current.evidence_sha256) ≡ true
      → observe rt tools claims w source started_at s ≡ (
        ok (current, unchanged_outcome),
        record { store = save_snapshot claims current s.store; handed_over = s.handed_over },
      )
  unfolding observe compare_snapshots
  visit_unchanged w source current prior started_at s v latest same equal =
      rw (v.fetched, v.valid, latest, same, equal) refl

  visit_source :
      (w : Watch) (source : RegistrySource) (current : RegistrySnapshot)
      → IsVisit w source current
      → current.source_id ≡ source.source_id
  unfolding validated_snapshot
  visit_source w source current v =
      ok_of_require
        (v.capture.source_id == source.source_id && v.capture.canonical_url == source.canonical_url)
        _ _ v.valid
        (λ matching h. ok_of_bind (watch_timestamp rt v.capture.captured_at) _ h (λ time read h'.
          ok_holds (λ p. p.source_id ≡ source.source_id) h'
            (ground (arith, matching, eq_iff v.capture.source_id source.source_id))))

  saved_latest :
      (w : Watch) (source : RegistrySource) (current : RegistrySnapshot) (t : WatchState claims)
      → IsVisit w source current
      → latest_snapshot claims (save_snapshot claims current t) source.source_id ≡ some current
  unfolding latest_snapshot save_snapshot
  saved_latest w source current t v =
      rw (sym (visit_source w source current v))
        (lookup-insert_self t.snapshots current.source_id current)

  abbrev pub saved : RegistrySnapshot → EngineState rt tools claims → EngineState rt tools claims
  saved current s = record {
    store = save_snapshot claims current s.store;
    handed_over = s.handed_over;
  }

  once_failed :
      (w : Watch) (e : RegistryWatchEvent) (source : RegistrySource)
      (current prior : RegistrySnapshot) (x : Error) (s : EngineState rt tools claims)
      → IsVisit w source current
      → latest_snapshot claims s.store source.source_id ≡ some prior
      → Comparable prior current
      → (prior.evidence_sha256 == current.evidence_sha256) ≡ false
      → ((change : RegistryChange) → w.generate change ≡ raise x)
      → w.started.aware ≡ true
      → watch_once rt tools claims w e source s ≡ (raise x, saved current s)
  unfolding watch_once watch_clock as_utc
  once_failed w e source current prior x s v latest same differ failing zoned =
      rw
        (
          zoned,
          visit_failed w source current prior (rt.format_utc w.started.instant) x s v latest same
              differ failing,
        )
        refl

  once_unchanged :
      (w : Watch) (e : RegistryWatchEvent) (source : RegistrySource)
      (current prior : RegistrySnapshot) (s : EngineState rt tools claims)
      → IsVisit w source current
      → latest_snapshot claims s.store source.source_id ≡ some prior
      → Comparable prior current
      → (prior.evidence_sha256 == current.evidence_sha256) ≡ true
      → w.started.aware ≡ true
      → w.completed.aware ≡ true
      → ((run : RegistryWatchRun) × ((watch_once rt tools claims w e source s).0 ≡ ok run)
          × (run.status ≡ "no_change"))
        × ((watch_once rt tools claims w e source s).1.handed_over ≡ s.handed_over)
  unfolding watch_once watch_clock as_utc watch_run unchanged_outcome
  once_unchanged w e source current prior s v latest same equal zoned zoned_end =
      let started_at = rt.format_utc w.started.instant in
      rw (zoned, visit_unchanged w source current prior started_at s v latest same equal, zoned_end)
        (
          (
            watch_run rt e (watch_run_id rt e) started_at (rt.format_utc w.completed.instant)
                current unchanged_outcome,
            refl,
            refl,
          ),
          refl,
        )

  visit_rebaselined :
      (w : Watch) (source : RegistrySource) (current prior : RegistrySnapshot) (started_at : String)
      (s : EngineState rt tools claims)
      → IsVisit w source current
      → latest_snapshot claims s.store source.source_id ≡ some prior
      → (prior.normalization_version == current.normalization_version) ≡ false
      → observe rt tools claims w source started_at s ≡ (
        ok (current, baseline_outcome "source_normalization_rebaselined"),
        record { store = save_snapshot claims current s.store; handed_over = s.handed_over },
      )
  unfolding observe compare_snapshots
  visit_rebaselined w source current prior started_at s v latest differ =
      rw (v.fetched, v.valid, latest, differ) refl

  once_rebaselined :
      (w : Watch) (e : RegistryWatchEvent) (source : RegistrySource)
      (current prior : RegistrySnapshot) (s : EngineState rt tools claims)
      → IsVisit w source current
      → latest_snapshot claims s.store source.source_id ≡ some prior
      → (prior.normalization_version == current.normalization_version) ≡ false
      → w.started.aware ≡ true
      → w.completed.aware ≡ true
      → ((run : RegistryWatchRun) × ((watch_once rt tools claims w e source s).0 ≡ ok run)
          × (run.status ≡ "baseline_captured"))
        × ((watch_once rt tools claims w e source s).1.handed_over ≡ s.handed_over)
  unfolding watch_once watch_clock as_utc watch_run baseline_outcome
  once_rebaselined w e source current prior s v latest differ zoned zoned_end =
      let started_at = rt.format_utc w.started.instant in
      rw (zoned, visit_rebaselined w source current prior started_at s v latest differ, zoned_end)
        (
          (
            watch_run rt e (watch_run_id rt e) started_at (rt.format_utc w.completed.instant)
                current (baseline_outcome "source_normalization_rebaselined"),
            refl,
            refl,
          ),
          refl,
        )

  -- The status of a visit that meets the evidence on record again.
  abbrev pub quiet_status : RegistrySnapshot → RegistrySnapshot → String
  quiet_status prior current =
      if prior.normalization_version == current.normalization_version
      then "no_change"
      else "baseline_captured"

  once_quiet :
      (w : Watch) (e : RegistryWatchEvent) (source : RegistrySource)
      (current prior : RegistrySnapshot) (s : EngineState rt tools claims)
      → IsVisit w source current
      → latest_snapshot claims s.store source.source_id ≡ some prior
      → (prior.evidence_sha256 == current.evidence_sha256) ≡ true
      → w.started.aware ≡ true
      → w.completed.aware ≡ true
      → ((run : RegistryWatchRun) × ((watch_once rt tools claims w e source s).0 ≡ ok run)
          × (run.status ≡ quiet_status prior current))
        × ((watch_once rt tools claims w e source s).1.handed_over ≡ s.handed_over)
  once_quiet w e source current prior s v latest equal zoned zoned_end =
      elim (Bool-cases (prior.normalization_version == current.normalization_version)) [
        | inl same ↦
            let ((run, ended, status), quiet) =
              once_unchanged w e source current prior s v latest same equal zoned zoned_end in
            ((run, ended, rw same status), quiet)
        | inr differ ↦
            let ((run, ended, status), quiet) =
              once_rebaselined w e source current prior s v latest differ zoned zoned_end in
            ((run, ended, rw differ status), quiet)
      ]

  -- A change whose brief cannot be generated is lost: if a claimed call meets a new snapshot of a
  -- source, of the same normalization version as the latest one and with other evidence, and the
  -- brief's generation raises, then the call raises and hands nothing over, and the next call for the
  -- source, for whatever event, that meets the same evidence, with clocks that have a time zone, ends
  -- with `no_change`, or with `baseline_captured` if its normalization version is another one, and
  -- hands nothing over either.
  pub lost_change :
      (first_watch next_watch : Watch) (e e' : RegistryWatchEvent) (source : RegistrySource)
      (prior current again : RegistrySnapshot) (x : Error) (s : EngineState rt tools claims)
      (visit : IsVisit first_watch source current) (revisit : IsVisit next_watch source again)
      → latest_snapshot claims s.store source.source_id ≡ some prior
      → Comparable prior current
      → (prior.evidence_sha256 == current.evidence_sha256) ≡ false
      → (current.evidence_sha256 == again.evidence_sha256) ≡ true
      → ((change : RegistryChange) → first_watch.generate change ≡ raise x)
      → first_watch.started.aware ≡ true
      → next_watch.started.aware ≡ true
      → next_watch.completed.aware ≡ true
      → (watch_once rt tools claims first_watch e source s ≡ (raise x, saved current s))
        × ((run : RegistryWatchRun) × ((watch_once rt tools claims next_watch e' source
                (saved current s)).0
              ≡ ok run)
            × (run.status ≡ quiet_status current again))
        × ((watch_once rt tools claims next_watch e' source (saved current s)).1.handed_over
            ≡ s.handed_over)
  lost_change first_watch next_watch e e' source prior current again x s visit revisit latest same
        differ equal failing zoned zoned' zoned_end =
      let (ended, quiet) =
        once_quiet next_watch e' source again current (saved current s) revisit
          (saved_latest first_watch source current s.store visit) equal zoned' zoned_end in
      (
        once_failed first_watch e source current prior x s visit latest same differ failing zoned,
        ended,
        quiet,
      )
