-- ===== src/Registry/Listing.antt =====
-- registry_watch.py: the owner's list of action candidates, newest first.
pub mod Sorted
use vice_ceo_proof_carrying.Dict.{values}
use vice_ceo_proof_carrying.Prelude.{
  Bool, List, String, [], code, false, if◌then◌else◌, length, ltb, nat_eq, not, string_eq, suc,
  true, ℕ, ◌==◌, ◌∷◌,
}
use vice_ceo_proof_carrying.Registry.Actions.{ActionQueue}
use vice_ceo_proof_carrying.Registry.Types.{RegistryActionCandidate}

-- `s <= t`: Python compares the code points from the left.
unfoldable pub str_le : String → String → Bool
str_le String.[] t = true
str_le (String.◌∷◌ c s) String.[] = false
str_le (String.◌∷◌ c s) (String.◌∷◌ d t) =
    let rest = str_le s t in if code c == code d then rest else ltb (code c) (code d)

-- `(a.created_at, a.candidate_id) <= (b.created_at, b.candidate_id)`
unfoldable pub listed_before : RegistryActionCandidate → RegistryActionCandidate → Bool
unfolding str_le
listed_before a b =
    if a.created_at == b.created_at
    then str_le a.candidate_id b.candidate_id
    else str_le a.created_at b.created_at

-- One step of a stable sort with `reverse=True`: equal keys keep their order.
unfoldable pub insert_newest :
    RegistryActionCandidate → List RegistryActionCandidate → List RegistryActionCandidate
unfolding listed_before
insert_newest c [] = c ∷ []
insert_newest c (d ∷ ds) =
    let rest = insert_newest c ds in if listed_before d c then c ∷ d ∷ ds else d ∷ rest

-- `sorted(candidates, key=..., reverse=True)`
unfoldable pub newest_first : List RegistryActionCandidate → List RegistryActionCandidate
unfolding insert_newest
newest_first [] = []
newest_first (c ∷ cs) = insert_newest c (newest_first cs)

-- `list_action_candidates`
unfoldable pub list_action_candidates : ActionQueue → List RegistryActionCandidate
unfolding newest_first
list_action_candidates q = newest_first (values q)

-- `sum(test(candidate) for candidate in actions)`
unfoldable pub count_candidates :
    (RegistryActionCandidate → Bool) → List RegistryActionCandidate → ℕ
count_candidates test [] = 0
count_candidates test (c ∷ cs) =
    let rest = count_candidates test cs in if test c then suc rest else rest

pub record QueueCounts : Type 0 where
  pub total : ℕ
  pub awaiting_owner_decision : ℕ
  pub resolved : ℕ

-- `owner_action_queue` of `build_owner_operations_overview`
unfoldable pub owner_action_queue : ActionQueue → QueueCounts
unfolding count_candidates list_action_candidates
owner_action_queue q =
    let actions = list_action_candidates q in
    record {
      total = length actions;
      awaiting_owner_decision = count_candidates (λ c. c.requires_owner_decision) actions;
      resolved = count_candidates (λ c. not c.requires_owner_decision) actions;
    }
