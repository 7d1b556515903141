-- ===== src/Registry/Actions.antt =====
-- registry_watch.py: the owner's decision on an action candidate, and the queue of an
-- `InMemoryRegistryWatchStore`.
pub mod Decision
pub mod Settled
use vice_ceo_proof_carrying.Dict.{Dict, insert, lookup}
use vice_ceo_proof_carrying.Json.{is_listed}
use vice_ceo_proof_carrying.Outcome.{
  Action, Error, Result, ok, proceed, raise, registry_watch_error, require, ◌>>=◌, ◌>>◌,
}
use vice_ceo_proof_carrying.Prelude.{
  Option, String, [], false, if◌then◌else◌, nat_eq, none, not, some, string_eq, ◌&&◌, ◌==◌, ◌∷◌,
}
use vice_ceo_proof_carrying.Registry.Decode.{watch_timestamp}
use vice_ceo_proof_carrying.Registry.Types.{RegistryActionCandidate}
use vice_ceo_proof_carrying.Runtime.{Runtime}

abbrev pub ActionQueue : Type 0
ActionQueue = Dict String RegistryActionCandidate

abbrev pub awaiting_owner_review : String
awaiting_owner_review = "awaiting_owner_review"

abbrev pub unresolved : String
unresolved = "unresolved"

abbrev pub not_resolvable : Error
not_resolvable = registry_watch_error "owner_action_candidate_not_resolvable"

abbrev pub candidate_not_found : Error
candidate_not_found = registry_watch_error "owner_action_candidate_not_found"

-- `replace(candidate, ...)` of a decision.
unfoldable pub decided : RegistryActionCandidate → String → String → RegistryActionCandidate
decided c decision decided_at = record {
  candidate_id = c.candidate_id;
  brief_id = c.brief_id;
  source_id = c.source_id;
  jurisdiction = c.jurisdiction;
  evidence_sha256 = c.evidence_sha256;
  action_type = c.action_type;
  status = if decision == "acknowledge" then "owner_acknowledged" else "owner_archived";
  requires_owner_decision = false;
  external_business_effect = c.external_business_effect;
  customer_record_mutation = c.customer_record_mutation;
  created_at = c.created_at;
  review_summary = c.review_summary;
  recommended_next_action = c.recommended_next_action;
  source_citation_url = c.source_citation_url;
  owner_decision = decision;
  owner_decision_at = some decided_at;
}

-- `_resolved_action_candidate`
unfoldable pub resolved_action_candidate :
    Runtime → RegistryActionCandidate → String → String → Result RegistryActionCandidate
unfolding watch_timestamp is_listed
resolved_action_candidate rt c decision decided_at = do
  require (is_listed decision ("acknowledge" ∷ "archive" ∷ []))
      (registry_watch_error "owner_action_decision_invalid")
  require (c.status == awaiting_owner_review && c.owner_decision == unresolved) not_resolvable
  moment ← watch_timestamp rt decided_at
  require (not (moment == "")) (registry_watch_error "owner_action_decision_timestamp_invalid")
  ok (decided c decision decided_at)

-- `save_action_candidate`
unfoldable pub save_action_candidate : RegistryActionCandidate → ActionQueue → ActionQueue
save_action_candidate c q = insert q c.candidate_id c

unfoldable pub resolve_found :
    Runtime
    → String
    → Option RegistryActionCandidate
    → String
    → String
    → Action ActionQueue RegistryActionCandidate
unfolding resolved_action_candidate
resolve_found rt id none decision decided_at q = (raise candidate_not_found, q)
resolve_found rt id (some c) decision decided_at q =
    proceed (resolved_action_candidate rt c decision decided_at)
      (λ done q'. (ok done, insert q' id done)) q

-- `resolve_action_candidate`
unfoldable pub resolve_action_candidate :
    Runtime → String → String → String → Action ActionQueue RegistryActionCandidate
unfolding resolve_found
resolve_action_candidate rt id decision decided_at q =
    resolve_found rt id (lookup q id) decision decided_at q
