-- ===== src/Warrants/Gateway/Simulates.antt =====
-- warrant_gateway.py: a fresh warrant whose checks pass leads to the simulation.
use vice_ceo_proof_carrying.Claims.Scope.{ClaimStore, Scope, claim_key, scope_eq}
use vice_ceo_proof_carrying.Fixtures.{
  Case, case_allowed, prepare-read_synthetic_case, read_synthetic_case,
}
use vice_ceo_proof_carrying.Json.{is_listed}
use vice_ceo_proof_carrying.Outcome.{ok}
use vice_ceo_proof_carrying.Prelude.{String, nat_eq, none, refl, some, string_eq, true, ◌≡◌}
use vice_ceo_proof_carrying.Runtime.{Datetime, Runtime}
use vice_ceo_proof_carrying.Warrants.Gateway.{
  Order, attempt_after, check_use, consume, consumption, execute_warranted_simulation, passed,
  validate_and_consume, warranted_attempt,
}
use vice_ceo_proof_carrying.Warrants.Types.{
  ActionAttempt, ActionWarrant, WarrantResult, action_warrant_consumed, allow,
}

module _ (store : ClaimStore) (rt : Runtime) (key : String) (now : Datetime) (w : ActionWarrant)
    (o : Order) (c : Case) (s : store.State) (k : Scope) where
  open store use {recorded, key_of, claim_fresh}

  validate_fresh :
      check_use rt key now w o ≡ ok passed
      → claim_key w.tenant "action_warrant" w.warrant_id ≡ ok k
      → recorded s (key_of k) ≡ none
      → (validate_and_consume store rt key now w o s).0
        ≡ ok (record { result = allow; reason_code = action_warrant_consumed; warrant = some w })
  unfolding validate_and_consume consumption consume
  validate_fresh checked valid free = rw (checked, claim_fresh (consumption w) s k valid free) refl

  -- The attempt is the simulation.
  pub execute_fresh :
      check_use rt key now w o ≡ ok passed
      → claim_key w.tenant "action_warrant" w.warrant_id ≡ ok k
      → recorded s (key_of k) ≡ none
      → read_synthetic_case o.event.case_id ≡ case_allowed c
      → is_listed o.transition c.allowed_transitions ≡ true
      → (a : ActionAttempt) × ((execute_warranted_simulation store rt key now w o s).0 ≡ ok a)
        × (a.status ≡ "simulated")
  unfolding execute_warranted_simulation attempt_after warranted_attempt
  execute_fresh checked valid free readable listed =
      let used : WarrantResult = record {
        result = allow;
        reason_code = action_warrant_consumed;
        warrant = some w;
      } in
      (
        attempt_after w o used,
        rw (validate_fresh checked valid free) refl,
        rw (prepare-read_synthetic_case o.event.case_id o.transition c readable listed) refl,
      )
