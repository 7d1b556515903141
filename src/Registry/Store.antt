-- ===== src/Registry/Store.antt =====
-- registry_watch.py: `InMemoryRegistryWatchStore` over any claim store. The queue of owner actions
-- stands in the module of the actions.
use vice_ceo_proof_carrying.Claims.Scope.{ClaimResult, ClaimStore, Request}
use vice_ceo_proof_carrying.Dict.{Dict, insert, lookup}
use vice_ceo_proof_carrying.Outcome.{Action}
use vice_ceo_proof_carrying.Prelude.{Option, String, nat_eq, string_eq}
use vice_ceo_proof_carrying.Registry.Actions.{ActionQueue, save_action_candidate}
use vice_ceo_proof_carrying.Registry.Types.{
  RegistryActionCandidate, RegistrySnapshot, RegistryWatchEvent, RegistryWatchRun,
  registry_event_key,
}
use vice_ceo_proof_carrying.Runtime.{Runtime}

module _ (claims : ClaimStore) where
  open claims use {State, claim_once}

  pub record WatchState : Type 0 where
    pub event_claims : State
    pub snapshots : Dict String RegistrySnapshot
    pub runs : Dict String RegistryWatchRun
    pub candidates : ActionQueue

  unfoldable pub watch_claim : Runtime → RegistryWatchEvent → String → Request
  watch_claim rt e run_id = record {
    tenant = "vice_ceo_registry_watch";
    claim_kind = "registry_watch_event";
    idempotency_key = registry_event_key rt e;
    record_id = run_id;
  }

  -- `claim_event`
  unfoldable pub claim_watch_event :
      Runtime → RegistryWatchEvent → String → Action WatchState ClaimResult
  unfolding watch_claim
  claim_watch_event rt e run_id s =
      let (r, t) = claim_once (watch_claim rt e run_id) s.event_claims in
      (
        r,
        record {
          event_claims = t;
          snapshots = s.snapshots;
          runs = s.runs;
          candidates = s.candidates;
        },
      )

  -- `latest_snapshot`
  unfoldable pub latest_snapshot : WatchState → String → Option RegistrySnapshot
  latest_snapshot s source_id = lookup s.snapshots source_id

  -- `save_snapshot`
  unfoldable pub save_snapshot : RegistrySnapshot → WatchState → WatchState
  save_snapshot p s = record {
    event_claims = s.event_claims;
    snapshots = insert s.snapshots p.source_id p;
    runs = s.runs;
    candidates = s.candidates;
  }

  -- `save_run`
  unfoldable pub save_run : RegistryWatchRun → WatchState → WatchState
  save_run r s = record {
    event_claims = s.event_claims;
    snapshots = s.snapshots;
    runs = insert s.runs r.run_id r;
    candidates = s.candidates;
  }

  -- `save_action_candidate` on the whole store
  unfoldable pub queue_candidate : RegistryActionCandidate → WatchState → WatchState
  unfolding save_action_candidate
  queue_candidate c s = record {
    event_claims = s.event_claims;
    snapshots = s.snapshots;
    runs = s.runs;
    candidates = save_action_candidate c s.candidates;
  }

  -- `get_run`
  unfoldable pub get_run : WatchState → String → Option RegistryWatchRun
  get_run s run_id = lookup s.runs run_id
