-- ===== src/Examples/Outcomes.antt =====
-- The theorem on a first call of the support loop, at a concrete input.
use vice_ceo_proof_carrying.Claims.Memory.{memory_store}
use vice_ceo_proof_carrying.Claims.Scope.{scope_eq}
use vice_ceo_proof_carrying.Dict.{lookup-no_entries, no_entries}
use vice_ceo_proof_carrying.Examples.{
  all_on, demo_event, demo_runtime, demo_runtime-IsRuntime, noon, one_past,
}
use vice_ceo_proof_carrying.Json.{is_listed}
use vice_ceo_proof_carrying.Outcome.{ok}
use vice_ceo_proof_carrying.Prelude.{String, arith, nat_eq, refl, string_eq, ◌≡◌}
use vice_ceo_proof_carrying.Support.Loop.{LoopState, Readings, SupportLoopResult, process}
use vice_ceo_proof_carrying.Support.Loop.Once.{event_scope}
use vice_ceo_proof_carrying.Support.Loop.Outcome.{process_simulates}
use vice_ceo_proof_carrying.Warrants.Types.{allows}

abbrev pub new_loop : LoopState memory_store memory_store
new_loop = record { claimed = no_entries; consumed = no_entries }

abbrev pub clock_readings : Readings
clock_readings = record { at_issue = noon; at_use = one_past; at_receipt = one_past }

process_simulates_example :
    (v : SupportLoopResult) × ((process memory_store memory_store demo_runtime "key" demo_event
        "resolution_prepared" all_on clock_readings new_loop).0
      ≡ ok v)
    × (v.status ≡ "simulated")
unfolding is_listed allows
process_simulates_example =
    process_simulates memory_store memory_store demo_runtime demo_runtime-IsRuntime "key" demo_event
      refl "resolution_prepared" all_on clock_readings refl refl refl refl refl (omega arith)
      new_loop (lookup-no_entries {V = String} ⦃e = scope_eq⦄ (event_scope demo_runtime demo_event))
      (lookup-no_entries {V = String} ⦃e = scope_eq⦄ _)
