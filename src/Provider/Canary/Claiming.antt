-- ===== src/Provider/Canary/Claiming.antt =====
-- provider_canary.py: the claim under any interleaving of its operations; each holds the lock.
use vice_ceo_proof_carrying.Prelude.{
  Bool-cases, List, Option, String, [], arith, if◌then◌else◌, inl, inr, nat_eq, none, refl, some,
  string_eq, subst, ℕ, ◌+◌, ◌<◌, ◌==◌, ◌∷◌, ◌≡◌, ◌≤◌,
}
use vice_ceo_proof_carrying.Provider.Canary.{
  CanaryState, available, claim, claimed, close, complete, complete_as, completed, failed,
  terminal_state,
}

-- The moves that a claim's state makes.
pub data Move : CanaryState → CanaryState → Type 0 where
  take : Move available claimed
  succeed : Move claimed completed
  give_up : Move claimed failed

pub data Reach (s : CanaryState) : CanaryState → Type 0 where
  here : Reach s s
  next : {t u : CanaryState} → Reach s t → Move t u → Reach s u

-- One operation of some thread.
pub data Operation : Type 0 where
  ask : Operation
  finish_as : String → Operation

unfoldable pub perform : Operation → CanaryState → CanaryState
unfolding claim complete
perform ask s = (claim s).1
perform (finish_as name) s = (complete name s).1

-- The states after a sequence of operations, and how many claims were won in it.
unfoldable pub perform_all : List Operation → CanaryState → CanaryState
unfolding perform
perform_all [] s = s
perform_all (o ∷ os) s = perform_all os (perform o s)

claims_won : Operation → CanaryState → ℕ
unfolding claim
claims_won ask s = if (claim s).0 then 1 else 0
claims_won (finish_as name) s = 0

unfoldable pub claim_wins : List Operation → CanaryState → ℕ
unfolding claims_won perform
claim_wins [] s = 0
claim_wins (o ∷ os) s = claims_won o s + claim_wins os (perform o s)

-- How far a claim is from its end.
rank : CanaryState → ℕ
rank available = 2
rank claimed = 1
rank completed = 0
rank failed = 0

close-Reach : (s u t : CanaryState) → Move claimed t → Reach s u → Reach s (close t u).1
unfolding close
close-Reach s available t m r = r
close-Reach s claimed t m r = next r m
close-Reach s completed t m r = r
close-Reach s failed t m r = r

terminal_state-Move :
    (name : String) (u : CanaryState) → terminal_state name ≡ some u → Move claimed u
terminal_state-Move name u h = elim (Bool-cases (name == "completed")) [
  | inl same ↦ subst (Move claimed) (cc (rw same at h)) succeed
  | inr other ↦ elim (Bool-cases (name == "failed")) [
    | inl same ↦ subst (Move claimed) (cc (rw (other, same) at h)) give_up
    | inr neither ↦ absurd (cc (rw (other, neither) at h))
  ]
]

complete_as-Reach :
    (target : Option CanaryState) (s t : CanaryState)
    → ((u : CanaryState) → target ≡ some u → Move claimed u)
    → Reach s t
    → Reach s (complete_as target t).1
unfolding complete_as
complete_as-Reach none s t m r = r
complete_as-Reach (some u) s t m r = close-Reach s t u (m u refl) r

perform-Reach : (o : Operation) (s t : CanaryState) → Reach s t → Reach s (perform o t)
unfolding perform claim complete
perform-Reach ask s available r = next r take
perform-Reach ask s claimed r = r
perform-Reach ask s completed r = r
perform-Reach ask s failed r = r
perform-Reach (finish_as name) s t r =
    complete_as-Reach (terminal_state name) s t (terminal_state-Move name) r

perform_all-Reach :
    (os : List Operation) (s t : CanaryState) → Reach s t → Reach s (perform_all os t)
unfolding perform_all
perform_all-Reach [] s t r = r
perform_all-Reach (o ∷ os) s t r = perform_all-Reach os s (perform o t) (perform-Reach o s t r)

Move-rank : {s t : CanaryState} → Move s t → rank t < rank s
unfolding rank
Move-rank take = omega arith
Move-rank succeed = omega arith
Move-rank give_up = omega arith

Reach-rank : {s t : CanaryState} → Reach s t → rank t ≤ rank s
Reach-rank here = omega arith
Reach-rank (next r m) = omega (arith, Reach-rank r, Move-rank m)

-- A state without moves is reached from itself only.
Reach-end : {s t : CanaryState} → rank s ≡ 0 → Reach s t → t ≡ s
Reach-end h here = refl
Reach-end h (next r m) = absurd (omega (arith, Reach-rank r, Move-rank m))

-- How many claims can still be won.
claims_left : CanaryState → ℕ
claims_left available = 1
claims_left claimed = 0
claims_left completed = 0
claims_left failed = 0

Reach-claims_left : {s t : CanaryState} → Reach s t → claims_left t ≤ claims_left s
unfolding claims_left
Reach-claims_left here = omega arith
Reach-claims_left (next r take) = omega (arith, Reach-claims_left r)
Reach-claims_left (next r succeed) = omega (arith, Reach-claims_left r)
Reach-claims_left (next r give_up) = omega (arith, Reach-claims_left r)

won-claims_left :
    (o : Operation) (s : CanaryState) → claims_won o s + claims_left (perform o s) ≤ claims_left s
unfolding claims_won perform claim claims_left
won-claims_left ask available = omega arith
won-claims_left ask claimed = omega arith
won-claims_left ask completed = omega arith
won-claims_left ask failed = omega arith
won-claims_left (finish_as name) s =
    omega (arith, Reach-claims_left (perform-Reach (finish_as name) s s here))

claim_wins-claims_left : (os : List Operation) (s : CanaryState) → claim_wins os s ≤ claims_left s
unfolding claim_wins
claim_wins-claims_left [] s = omega arith
claim_wins-claims_left (o ∷ os) s =
    omega (arith, claim_wins-claims_left os (perform o s), won-claims_left o s)

-- Whatever order threads make their calls in, from a new claim, any sequence of `claim` and `complete`
-- calls, with any names, leads to a state that the transitions reach, and at most one call claim_wins; a
-- completed or failed claim is never left.
pub perform_all-IsOnce :
    (os : List Operation)
    → Reach available (perform_all os available)
      × (claim_wins os available ≤ 1)
      × (perform_all os completed ≡ completed)
      × (perform_all os failed ≡ failed)
unfolding claims_left rank
perform_all-IsOnce os = (
  perform_all-Reach os available available here,
  claim_wins-claims_left os available,
  Reach-end refl (perform_all-Reach os completed completed here),
  Reach-end refl (perform_all-Reach os failed failed here),
)
