-- ===== src/Examples/Evidence.antt =====
-- The theorems on replayed evidence, knowledge packs and the provider's canary, at concrete inputs.
use vice_ceo_proof_carrying.Claims.Memory.{memory_store}
use vice_ceo_proof_carrying.Claims.Scope.{scope_eq}
use vice_ceo_proof_carrying.Dict.{lookup-no_entries}
use vice_ceo_proof_carrying.Events.Types.{registered_run}
use vice_ceo_proof_carrying.Examples.{all_on, demo_event, demo_runtime, demo_runtime-IsRuntime}
use vice_ceo_proof_carrying.Examples.Outcomes.{clock_readings, new_loop}
use vice_ceo_proof_carrying.Json.{is_listed}
use vice_ceo_proof_carrying.Knowledge.{
  KnowledgeGrounding, support_playbook_id, support_playbook_summary,
}
use vice_ceo_proof_carrying.Outcome.{ok, raise}
use vice_ceo_proof_carrying.Prelude.{
  String, ap, arith, eq_iff, false, inl, inr, nat_eq, refl, string_eq, sym, ◌==◌, ◌↔◌, ◌∙◌, ◌≡◌,
  ◌≢◌, ◌⊎◌,
}
use vice_ceo_proof_carrying.Support.Loop.{SupportLoopResult, duplicate_of, process}
use vice_ceo_proof_carrying.Support.Loop.Once.{event_scope}
use vice_ceo_proof_carrying.Support.Loop.Outcome.{process_simulates}
use vice_ceo_proof_carrying.Timeline.{
  BusinessTimeline, incomplete_evidence, replay_synthetic_evidence,
}
use vice_ceo_proof_carrying.Timeline.Composed.{replay-process}
use vice_ceo_proof_carrying.Timeline.Linked.{IsTimelineOf, replay_iff}
use vice_ceo_proof_carrying.Twin.{OperationalTwinAnalysis, compare_synthetic_support_options}
use vice_ceo_proof_carrying.Warrants.Types.{allows}

-- The demo's first call, as it ends.
simulated_call :
    (v : SupportLoopResult) × ((process memory_store memory_store demo_runtime "key" demo_event
        "resolution_prepared" all_on clock_readings new_loop).0
      ≡ ok v)
    × (v.status ≡ "simulated")
unfolding is_listed allows
simulated_call =
    process_simulates memory_store memory_store demo_runtime demo_runtime-IsRuntime "key" demo_event
      refl "resolution_prepared" all_on clock_readings refl refl refl refl refl (omega arith)
      new_loop (lookup-no_entries {V = String} ⦃e = scope_eq⦄ (event_scope demo_runtime demo_event))
      (lookup-no_entries {V = String} ⦃e = scope_eq⦄ _)

abbrev demo_result : SupportLoopResult
demo_result = simulated_call.0

abbrev demo_run_id : String
demo_run_id = (registered_run demo_runtime demo_event).run_id

replay-process_example :
    (twin : OperationalTwinAnalysis) × (compare_synthetic_support_options demo_runtime demo_event
        demo_run_id
      ≡ ok twin)
    × (((old : String) × (demo_result
            ≡ duplicate_of memory_store memory_store demo_runtime "key" old)
          × (replay_synthetic_evidence demo_runtime demo_event demo_result twin
              ≡ raise incomplete_evidence))
        ⊎ ((t : BusinessTimeline) × (demo_result.run_id ≡ twin.run_id)
            × (replay_synthetic_evidence demo_runtime demo_event demo_result twin ≡ ok t)))
replay-process_example =
    replay-process memory_store memory_store demo_runtime "key" demo_event refl
      "resolution_prepared" all_on clock_readings new_loop demo_result simulated_call.1

demo_replay :
    (twin : OperationalTwinAnalysis) × (compare_synthetic_support_options demo_runtime demo_event
        demo_run_id
      ≡ ok twin)
    × (((old : String) × (demo_result
            ≡ duplicate_of memory_store memory_store demo_runtime "key" old)
          × (replay_synthetic_evidence demo_runtime demo_event demo_result twin
              ≡ raise incomplete_evidence))
        ⊎ ((t : BusinessTimeline) × (demo_result.run_id ≡ twin.run_id)
            × (replay_synthetic_evidence demo_runtime demo_event demo_result twin ≡ ok t)))
demo_replay =
    replay-process memory_store memory_store demo_runtime "key" demo_event refl
      "resolution_prepared" all_on clock_readings new_loop demo_result simulated_call.1

abbrev demo_twin : OperationalTwinAnalysis
demo_twin = demo_replay.0

apart : (a b : String) → (a == b) ≡ false → a ≢ b
apart a b h p = ground (arith, h, p, eq_iff a b)

not_duplicate :
    (old : String) → demo_result ≢ duplicate_of memory_store memory_store demo_runtime "key" old
unfolding duplicate_of
not_duplicate old same =
    apart "duplicate" "simulated" refl (sym (ap (λ x. x.status) same) ∙ simulated_call.2)

replayed :
    (t : BusinessTimeline) × (replay_synthetic_evidence demo_runtime demo_event demo_result
        demo_twin
      ≡ ok t)
replayed = elim demo_replay.2 [
  | inl (old, same, refused) ↦ absurd (not_duplicate old same)
  | inr (t, run, h) ↦ (t, h)
]

abbrev demo_timeline : BusinessTimeline
demo_timeline = replayed.0

replay_iff_example :
    (replay_synthetic_evidence demo_runtime demo_event demo_result demo_twin ≡ ok demo_timeline)
    ↔ IsTimelineOf demo_runtime demo_event demo_result demo_twin demo_timeline
replay_iff_example = replay_iff demo_runtime demo_event demo_result demo_twin demo_timeline

abbrev intake_grounding : KnowledgeGrounding
intake_grounding = record {
  pack_id = support_playbook_id;
  version = "1.0.0";
  source_reference = "vice_ceo_demo_support_playbook_v1";
  source_type = "synthetic_demo_playbook";
  content_sha256 = demo_runtime.sha256 support_playbook_summary;
  summary = support_playbook_summary;
  retrieval_status = "approved_exact_version";
  legal_or_regulatory_authority = false;
}
