-- ===== src/Registry/Engine/Deliveries.antt =====
-- registry_watch.py: when a brief is handed over.
use vice_ceo_proof_carrying.Claims.Scope.{ClaimStore}
use vice_ceo_proof_carrying.Dict.{lookup, lookup-insert_self}
use vice_ceo_proof_carrying.Outcome.{Result, ok, proceed_holds}
use vice_ceo_proof_carrying.Prelude.{
  Bool, Bool-cases, List, Option, String, [], false, if◌then◌else◌, inl, inr, nat_eq, none, not,
  refl, some, string_eq, true, ◌++◌, ◌==◌, ◌∷◌, ◌≡◌, ◌⊎◌,
}
use vice_ceo_proof_carrying.Registry.Actions.{save_action_candidate}
use vice_ceo_proof_carrying.Registry.Actions.Decision.{is_open_candidate}
use vice_ceo_proof_carrying.Registry.Engine.{
  EngineState, compare_snapshots, observe, report_change, watch_once, watch_process,
}
use vice_ceo_proof_carrying.Registry.Runs.{
  Watch, action_candidate_of, caught, validate_event, validated_snapshot, watch_clock, watch_run_id,
}
use vice_ceo_proof_carrying.Registry.Segments.{TextTools}
use vice_ceo_proof_carrying.Registry.Store.{
  claim_watch_event, latest_snapshot, queue_candidate, save_run, save_snapshot,
}
use vice_ceo_proof_carrying.Registry.Types.{
  RegistryActionCandidate, RegistryChange, RegistryImpactBrief, RegistrySnapshot, RegistrySource,
  RegistrySourceCapture, RegistryWatchEvent, RegistryWatchRun,
}
use vice_ceo_proof_carrying.Runtime.{Runtime}

module _ (rt : Runtime) (tools : TextTools) (claims : ClaimStore) where
  module _ (before : List RegistryImpactBrief) (prior : Option RegistrySnapshot) where
    -- At most one brief was handed over since `before`; if one was, then there was a snapshot before
    -- and the owner's queue holds an open action for the brief.
    pub Backed : EngineState rt tools claims → Type 0
    Backed s =
        (s.handed_over ≡ before)
        ⊎ ((b : RegistryImpactBrief) × (s.handed_over ≡ before ++ b ∷ [])
            × ((p : RegistrySnapshot) × (prior ≡ some p))
            × (c : RegistryActionCandidate) × (c.brief_id ≡ b.brief_id)
            × (is_open_candidate c ≡ true)
            × (lookup s.store.candidates c.candidate_id ≡ some c))

  unmoved :
      (s : EngineState rt tools claims) (prior : Option RegistrySnapshot)
      → Backed s.handed_over prior s
  unfolding Backed
  unmoved s prior = inl refl

  -- The state in which the delivery channel is called.
  abbrev handing_over :
      RegistryImpactBrief
      → RegistryActionCandidate
      → EngineState rt tools claims
      → EngineState rt tools claims
  handing_over b c s = record {
    store = queue_candidate claims c s.store;
    handed_over = s.handed_over ++ b ∷ [];
  }

  handing-Backed :
      (b : RegistryImpactBrief) (source : RegistrySource) (started_at : String)
      (p : RegistrySnapshot) (s : EngineState rt tools claims)
      → Backed s.handed_over
          (some p)
          (handing_over b (action_candidate_of rt b source started_at) s)
  unfolding queue_candidate Backed save_action_candidate action_candidate_of
  handing-Backed b source started_at p s =
      let c = action_candidate_of rt b source started_at in
      inr
        (b, refl, (p, refl), c, refl, refl, lookup-insert_self s.store.candidates c.candidate_id c)

  report-Backed :
      (w : Watch) (change : RegistryChange) (started_at : String) (p : RegistrySnapshot)
      (s : EngineState rt tools claims)
      → Backed s.handed_over (some p) (report_change rt tools claims w change started_at s).1
  unfolding report_change
  report-Backed w change started_at p s =
      let Q = Backed s.handed_over (some p) in
      proceed_holds Q (w.generate change) _ s (unmoved s (some p)) (λ b made.
        let facts = handing-Backed b change.source started_at p s in
        proceed_holds Q (caught (w.deliver b)) _ _ facts (λ d sent. facts))

  compare-Backed :
      (w : Watch) (source : RegistrySource) (capture : RegistrySourceCapture)
      (current : RegistrySnapshot) (started_at : String) (prior : Option RegistrySnapshot)
      (s : EngineState rt tools claims)
      → Backed s.handed_over prior
          (compare_snapshots rt tools claims w source capture current started_at prior s).1
  unfolding compare_snapshots Backed
  compare-Backed w source capture current started_at none s = inl refl
  compare-Backed w source capture current started_at (some prior) s =
      elim (Bool-cases (prior.normalization_version == current.normalization_version)) [
        | inr other ↦ rw other (inl refl)
        | inl same ↦ elim (Bool-cases (prior.evidence_sha256 == current.evidence_sha256)) [
          | inl still ↦ rw (same, still) (inl refl)
          | inr changed ↦ rw (same, changed) (report-Backed w _ started_at prior s)
        ]
      ]

  observe-Backed :
      (w : Watch) (source : RegistrySource) (started_at : String) (s : EngineState rt tools claims)
      → Backed s.handed_over
          (latest_snapshot claims s.store source.source_id)
          (observe rt tools claims w source started_at s).1
  unfolding observe save_snapshot
  observe-Backed w source started_at s =
      let prior = latest_snapshot claims s.store source.source_id in
      let Q = Backed s.handed_over prior in
      proceed_holds Q (w.fetch source) _ s (unmoved s prior) (λ capture p.
        proceed_holds Q (validated_snapshot rt tools source capture) _ s (unmoved s prior)
          (λ current q.
            let s2 : EngineState rt tools claims = record {
              store = save_snapshot claims current s.store;
              handed_over = s.handed_over;
            } in
            let done =
              compare_snapshots rt tools claims w source capture current started_at prior s2 in
            let facts = compare-Backed w source capture current started_at prior s2 in
            proceed_holds Q done.0 _ done.1 facts (λ o r. facts)))

  once-Backed :
      (w : Watch) (e : RegistryWatchEvent) (source : RegistrySource)
      (s : EngineState rt tools claims)
      → Backed s.handed_over
          (latest_snapshot claims s.store source.source_id)
          (watch_once rt tools claims w e source s).1
  unfolding watch_once save_run Backed
  once-Backed w e source s =
      let prior = latest_snapshot claims s.store source.source_id in
      let Q = Backed s.handed_over prior in
      proceed_holds Q (watch_clock rt w.started) _ s (unmoved s prior) (λ started_at p.
        let seen = observe rt tools claims w source started_at s in
        let facts = observe-Backed w source started_at s in
        proceed_holds Q seen.0 _ seen.1 facts (λ (current, o) q.
          proceed_holds Q (watch_clock rt w.completed) _ seen.1 facts (λ completed_at r. facts)))

  after_claim :
      (w : Watch) (e : RegistryWatchEvent) (source : RegistrySource) (claimed : Bool)
      (found : Result RegistryWatchRun) (s : EngineState rt tools claims)
      → Backed s.handed_over
          (latest_snapshot claims s.store source.source_id)
          (if not claimed then (found, s) else watch_once rt tools claims w e source s).1
  after_claim w e source true found s = once-Backed w e source s
  after_claim w e source false found s = unmoved s (latest_snapshot claims s.store source.source_id)

  -- However a call for an accepted event ends, it hands over at most one brief; if it does, then there
  -- was an earlier snapshot of the event's source, and the owner's queue holds an open action for the
  -- brief.
  pub watch_process-Backed :
      (w : Watch) (e : RegistryWatchEvent) (source : RegistrySource)
      (s : EngineState rt tools claims)
      → validate_event rt w e ≡ ok source
      → Backed s.handed_over
          (latest_snapshot claims s.store source.source_id)
          (watch_process rt tools claims w e s).1
  unfolding watch_process claim_watch_event latest_snapshot
  watch_process-Backed w e source s valid =
      let (claim, t) = claim_watch_event claims rt e (watch_run_id rt e) s.store in
      let s1 : EngineState rt tools claims = record { store = t; handed_over = s.handed_over } in
      rw valid (
        proceed_holds (Backed s.handed_over (lookup s.store.snapshots source.source_id)) claim _ s1
          (unmoved s1 (lookup s.store.snapshots source.source_id))
          (λ c p. after_claim w e source c.claimed _ s1))
