-- ===== src/Registry/Actions/Settled.antt =====
-- registry_watch.py: a decided candidate stays as it was decided, until it is queued again.
use vice_ceo_proof_carrying.Dict.{lookup, lookup-insert, lookup-insert_self}
use vice_ceo_proof_carrying.Outcome.{Error, Result-cases, ok, raise}
use vice_ceo_proof_carrying.Prelude.{
  Bool, Bool-cases, List, Option, String, [], ap, arith, false, inl, inr, nat_eq, none, not, refl,
  some, string_eq, true, ◌&&◌, ◌==◌, ◌∙◌, ◌∷◌, ◌≡◌,
}
use vice_ceo_proof_carrying.Registry.Actions.{
  ActionQueue, resolve_action_candidate, resolve_found, resolved_action_candidate,
  save_action_candidate,
}
use vice_ceo_proof_carrying.Registry.Actions.Decision.{
  decided_closed, decided_effect, is_open_candidate, refused_when_closed,
}
use vice_ceo_proof_carrying.Registry.Types.{RegistryActionCandidate}
use vice_ceo_proof_carrying.Runtime.{Runtime}

module _ (rt : Runtime) where
  -- A call that may change the queue.
  pub data QueueCall : Type 0 where
    decide_candidate : String → String → String → QueueCall
    queue_again : RegistryActionCandidate → QueueCall

  pub queue_call : QueueCall → ActionQueue → ActionQueue
  queue_call (decide_candidate id decision at_time) q =
      (resolve_action_candidate rt id decision at_time q).1
  queue_call (queue_again c) q = save_action_candidate c q

  pub queue_calls : List QueueCall → ActionQueue → ActionQueue
  queue_calls [] q = q
  queue_calls (c ∷ cs) q = queue_calls cs (queue_call c q)

  -- Whether the call leaves it to the owner what becomes of a candidate: it does not queue it anew.
  abbrev pub spares : String → QueueCall → Bool
  spares id (decide_candidate other decision at_time) = true
  spares id (queue_again c) = not (c.candidate_id == id)

  unfoldable pub all_spare : String → List QueueCall → Bool
  all_spare id [] = true
  all_spare id (c ∷ cs) = spares id c && all_spare id cs

  other_kept :
      (id other : String) (o : Option RegistryActionCandidate) (decision at_time : String)
      (q : ActionQueue)
      → (other == id) ≡ false
      → lookup (resolve_found rt other o decision at_time q).1 id ≡ lookup q id
  unfolding resolve_found
  other_kept id other none decision at_time q differ = refl
  other_kept id other (some c) decision at_time q differ =
      elim (Result-cases (resolved_action_candidate rt c decision at_time)) [
        | inr (x, raised) ↦ rw raised refl
        | inl (made, resolved) ↦ rw resolved (lookup-insert q other id made ∙ rw differ refl)
      ]

  call_keeps :
      (id : String) (call : QueueCall) (q : ActionQueue) (done : RegistryActionCandidate)
      → spares id call ≡ true
      → lookup q id ≡ some done
      → is_open_candidate done ≡ false
      → lookup (queue_call call q) id ≡ some done
  unfolding queue_call resolve_action_candidate save_action_candidate
  call_keeps id (queue_again c) q done spared there shut =
      let differ : (c.candidate_id == id) ≡ false = ground (arith, spared) in
      lookup-insert q c.candidate_id id c ∙ rw differ there
  call_keeps id (decide_candidate other decision at_time) q done spared there shut =
      elim (Bool-cases (other == id)) [
        | inr differ ↦ other_kept id other (lookup q other) decision at_time q differ ∙ there
        | inl same ↦
            let is_id : other ≡ id = (string_eq.beq_iff other id).0 same in
            let (x, refusal) = refused_when_closed rt id done decision at_time q there shut in
            rw is_id (ap (λ r. lookup r.1 id) refusal ∙ there)
      ]

  calls_keep :
      (id : String) (calls : List QueueCall) (q : ActionQueue) (done : RegistryActionCandidate)
      → all_spare id calls ≡ true
      → lookup q id ≡ some done
      → is_open_candidate done ≡ false
      → lookup (queue_calls calls q) id ≡ some done
  unfolding queue_calls all_spare
  calls_keep id [] q done spared there shut = there
  calls_keep id (c ∷ cs) q done spared there shut =
      calls_keep id cs (queue_call c q) done (ground (arith, spared))
        (call_keeps id c q done (ground (arith, spared)) there shut) shut

  -- After a recorded decision on a candidate, and any further decisions on any candidates and any
  -- queueing of other candidates, the queue has the candidate as it was decided, and a decision on
  -- it, with any words and at any time, is refused and leaves the queue as it is. Nothing is said of
  -- a candidate that is queued again.
  pub decision_stays :
      (id decision at_time again later : String) (q : ActionQueue) (done : RegistryActionCandidate)
      (calls : List QueueCall)
      → (resolve_action_candidate rt id decision at_time q).0 ≡ ok done
      → all_spare id calls ≡ true
      → let after = queue_calls calls (resolve_action_candidate rt id decision at_time q).1 in
        (lookup after id ≡ some done)
        × (x : Error) × (resolve_action_candidate rt id again later after ≡ (raise x, after))
  decision_stays id decision at_time again later q done calls h spared =
      let (c, found, listed, free, time, same, stored) =
        decided_effect rt id decision at_time q done h in
      let shut = ap is_open_candidate same ∙ decided_closed rt id c decision at_time in
      let q1 = (resolve_action_candidate rt id decision at_time q).1 in
      let there = ap (λ t. lookup t id) stored ∙ lookup-insert_self q id done in
      let still = calls_keep id calls q1 done spared there shut in
      let (x, refusal) =
        refused_when_closed rt id done again later (queue_calls calls q1) still shut in
      (still, x, refusal)
