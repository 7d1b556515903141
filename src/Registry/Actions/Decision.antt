-- ===== src/Registry/Actions/Decision.antt =====
-- registry_watch.py: a candidate is decided once.
use vice_ceo_proof_carrying.Dict.{insert, lookup}
use vice_ceo_proof_carrying.Json.{is_listed}
use vice_ceo_proof_carrying.Outcome.{
  Error, Result, ok, ok_of_bind, ok_of_require, proceed_returns, raise, registry_watch_error,
  require, ◌>>=◌, ◌>>◌,
}
use vice_ceo_proof_carrying.Prelude.{
  Bool, Bool-cases, Option, String, [], ap, arith, eq_iff, false, inl, inr, nat_eq, none, not, refl,
  some, string_eq, sym, true, ◌&&◌, ◌==◌, ◌||◌, ◌↔◌, ◌∙◌, ◌∷◌, ◌≡◌, ◌⊎◌,
}
use vice_ceo_proof_carrying.Registry.Actions.{
  ActionQueue, awaiting_owner_review, decided, not_resolvable, resolve_action_candidate,
  resolve_found, resolved_action_candidate, unresolved,
}
use vice_ceo_proof_carrying.Registry.Decode.{watch_timestamp}
use vice_ceo_proof_carrying.Registry.Types.{RegistryActionCandidate}
use vice_ceo_proof_carrying.Runtime.{Runtime}

abbrev pub is_decision : String → Bool
is_decision d = d == "acknowledge" || d == "archive"

-- A candidate that no decision can change.
abbrev pub is_open_candidate : RegistryActionCandidate → Bool
is_open_candidate c = c.status == awaiting_owner_review && c.owner_decision == unresolved

same_value : {a b : RegistryActionCandidate} → ok a ≡ ok b → a ≡ b
same_value p = cc p

module _ (rt : Runtime) (id : String) where
  -- The time of a decision can be read.
  abbrev pub IsReadableTime : String → Type 0
  IsReadableTime at_time =
      (moment : String) × (watch_timestamp rt at_time ≡ ok moment) × ((moment == "") ≡ false)

  decided_after :
      (at_time : String) (d done : RegistryActionCandidate) (x : Error)
      → (watch_timestamp rt at_time >>= λ moment. require (not (moment == "")) x >> ok d) ≡ ok done
      → (d ≡ done) × IsReadableTime at_time
  decided_after at_time d done x h = ok_of_bind (watch_timestamp rt at_time) _ h (λ moment p h1.
      ok_of_require (not (moment == "")) x _ h1 (λ q h2. (cc h2, (moment, p, ground (arith, q)))))

  resolved_ok :
      (c done : RegistryActionCandidate) (decision at_time : String)
      → resolved_action_candidate rt c decision at_time ≡ ok done
      → (is_decision decision ≡ true)
        × (is_open_candidate c ≡ true)
        × (decided c decision at_time ≡ done)
        × IsReadableTime at_time
  unfolding resolved_action_candidate is_listed
  resolved_ok c done decision at_time h =
      ok_of_bind (require (is_listed decision ("acknowledge" ∷ "archive" ∷ [])) _) _ h
        (λ u listed h1. ok_of_bind (require (is_open_candidate c) _) _ h1 (λ v free h2.
          let (same, time) = decided_after at_time _ done _ h2 in
          (ground arith, ground arith, same, time)))

  pub decided_closed :
      (c : RegistryActionCandidate) (decision at_time : String)
      → is_open_candidate (decided c decision at_time) ≡ false
  unfolding decided
  decided_closed c decision at_time = elim (Bool-cases (decision == "acknowledge")) [
    | inl first_way ↦ rw first_way refl
    | inr other ↦ rw other refl
  ]

  resolved_closed :
      (c : RegistryActionCandidate) (decision at_time : String)
      → is_open_candidate c ≡ false
      → (x : Error) × (resolved_action_candidate rt c decision at_time ≡ raise x)
  unfolding resolved_action_candidate
  resolved_closed c decision at_time shut =
      elim (Bool-cases (is_listed decision ("acknowledge" ∷ "archive" ∷ []))) [
        | inl listed ↦ (not_resolvable, rw (listed, shut) refl)
        | inr other ↦ (registry_watch_error "owner_action_decision_invalid", rw other refl)
      ]

  pub refused_when_closed :
      (c : RegistryActionCandidate) (decision at_time : String) (q : ActionQueue)
      → lookup q id ≡ some c
      → is_open_candidate c ≡ false
      → (x : Error) × (resolve_action_candidate rt id decision at_time q ≡ (raise x, q))
  unfolding resolve_action_candidate
  refused_when_closed c decision at_time q found shut =
      let (x, refused) = resolved_closed c decision at_time shut in (x, rw (found, refused) refl)

  Decided : ActionQueue → String → String → Result RegistryActionCandidate × ActionQueue → Type 0
  Decided q decision at_time (r, q') =
      (c : RegistryActionCandidate) × (lookup q id ≡ some c)
      × (is_decision decision ≡ true)
      × (is_open_candidate c ≡ true)
      × IsReadableTime at_time
      × (r ≡ ok (decided c decision at_time))
      × (q' ≡ insert q id (decided c decision at_time))

  found_facts :
      (o : Option RegistryActionCandidate) (decision at_time : String) (q : ActionQueue)
      (done : RegistryActionCandidate)
      → lookup q id ≡ o
      → (resolve_found rt id o decision at_time q).0 ≡ ok done
      → Decided q decision at_time (resolve_found rt id o decision at_time q)
  unfolding resolve_found Decided
  found_facts none decision at_time q done found h = absurd (cc h)
  found_facts (some c) decision at_time q done found h =
      proceed_returns (Decided q decision at_time) (resolved_action_candidate rt c decision at_time)
        _ q h
        (λ made p h1.
          let (listed, free, same, time) = resolved_ok c made decision at_time p in
          (c, found, listed, free, time, ap ok (sym same), ap (insert q id) (sym same)))

  pub decided_effect :
      (decision at_time : String) (q : ActionQueue) (done : RegistryActionCandidate)
      → (resolve_action_candidate rt id decision at_time q).0 ≡ ok done
      → (c : RegistryActionCandidate) × (lookup q id ≡ some c)
        × (is_decision decision ≡ true)
        × (is_open_candidate c ≡ true)
        × IsReadableTime at_time
        × (done ≡ decided c decision at_time)
        × ((resolve_action_candidate rt id decision at_time q).1 ≡ insert q id done)
  unfolding resolve_action_candidate Decided
  decided_effect decision at_time q done h =
      let (c, found, listed, free, time, same, stored) =
        found_facts (lookup q id) decision at_time q done refl h in
      let same_done = same_value (sym h ∙ same) in
      (c, found, listed, free, time, same_done, stored ∙ ap (insert q id) (sym same_done))

  -- The two decisions, and the status that each one leaves.
  abbrev pub Settles : String → String → Type 0
  Settles decision status =
      ((decision ≡ "acknowledge") × (status ≡ "owner_acknowledged"))
      ⊎ ((decision ≡ "archive") × (status ≡ "owner_archived"))

  -- `done` records the decision on the open candidate that the queue has, at a readable time, and is
  -- that candidate in all that a decision does not set.
  pub record IsDecision (q : ActionQueue) (decision at_time : String)
      (done : RegistryActionCandidate) : Type 0 where
    pub before : RegistryActionCandidate
    pub queued : lookup q id ≡ some before
    pub waiting : before.status ≡ "awaiting_owner_review"
    pub undecided : before.owner_decision ≡ "unresolved"
    pub time : IsReadableTime at_time
    pub settled_as : Settles decision done.status
    pub closes : done.requires_owner_decision ≡ false
    pub says : done.owner_decision ≡ decision
    pub says_when : done.owner_decision_at ≡ some at_time
    pub untouched :
        record done {
          status = before.status;
          requires_owner_decision = before.requires_owner_decision;
          owner_decision = before.owner_decision;
          owner_decision_at = before.owner_decision_at;
        }
        ≡ before

  decided-Settles :
      (c : RegistryActionCandidate) (decision at_time : String)
      → is_decision decision ≡ true
      → Settles decision (decided c decision at_time).status
  unfolding decided
  decided-Settles c decision at_time listed = elim (Bool-cases (decision == "acknowledge")) [
    | inl first_way ↦
        inl ((string_eq.beq_iff decision "acknowledge").0 first_way, rw first_way refl)
    | inr other ↦
        inr
          ((string_eq.beq_iff decision "archive").0 (ground (arith, listed, other)), rw other refl)
  ]

  open_fields :
      (c : RegistryActionCandidate)
      → (is_open_candidate c ≡ true)
        ↔ ((c.status ≡ awaiting_owner_review) × (c.owner_decision ≡ unresolved))
  open_fields c =
      ground (arith, eq_iff c.status awaiting_owner_review, eq_iff c.owner_decision unresolved)

  decided-IsDecision :
      (q : ActionQueue) (decision at_time : String) (c : RegistryActionCandidate)
      → lookup q id ≡ some c
      → is_decision decision ≡ true
      → is_open_candidate c ≡ true
      → IsReadableTime at_time
      → IsDecision q decision at_time (decided c decision at_time)
  unfolding decided
  decided-IsDecision q decision at_time c found listed free time = record {
    before = c;
    queued = found;
    waiting = ((open_fields c).0 free).0;
    undecided = ((open_fields c).0 free).1;
    time = time;
    settled_as = decided-Settles c decision at_time listed;
    closes = refl;
    says = refl;
    says_when = refl;
    untouched = refl;
  }

  Settles-status :
      (c : RegistryActionCandidate) (decision at_time status : String)
      → Settles decision status
      → (is_decision decision ≡ true) × ((decided c decision at_time).status ≡ status)
  unfolding decided
  Settles-status c decision at_time status (inl (way, named)) = rw (way, named) (refl, refl)
  Settles-status c decision at_time status (inr (way, named)) = rw (way, named) (refl, refl)

  same_but :
      (done c : RegistryActionCandidate)
      → record done {
        status = c.status;
        requires_owner_decision = c.requires_owner_decision;
        owner_decision = c.owner_decision;
        owner_decision_at = c.owner_decision_at;
      }
        ≡ c
      → record c {
        status = done.status;
        requires_owner_decision = done.requires_owner_decision;
        owner_decision = done.owner_decision;
        owner_decision_at = done.owner_decision_at;
      }
        ≡ done
  same_but done c h =
      ap {A = RegistryActionCandidate} {B = RegistryActionCandidate}
        (λ x. record x {
          status = done.status;
          requires_owner_decision = done.requires_owner_decision;
          owner_decision = done.owner_decision;
          owner_decision_at = done.owner_decision_at;
        })
        (sym h)

  reworded :
      (c : RegistryActionCandidate) {s s' o o' : String} {b b' : Bool} {m m' : Option String}
      → s ≡ s'
      → b ≡ b'
      → o ≡ o'
      → m ≡ m'
      → Path RegistryActionCandidate
          (record c {
            status = s;
            requires_owner_decision = b;
            owner_decision = o;
            owner_decision_at = m;
          })
          (record c {
            status = s';
            requires_owner_decision = b';
            owner_decision = o';
            owner_decision_at = m';
          })
  reworded c p q r h = rw (p, q, r, h) refl

  IsDecision-decided :
      (q : ActionQueue) (decision at_time : String) (done : RegistryActionCandidate)
      (d : IsDecision q decision at_time done)
      → decided d.before decision at_time ≡ done
  unfolding decided
  IsDecision-decided q decision at_time done d =
      reworded d.before (Settles-status d.before decision at_time done.status d.settled_as).1
        (sym d.closes) (sym d.says) (sym d.says_when)
      ∙ same_but done d.before d.untouched

  resolved_made :
      (c : RegistryActionCandidate) (decision at_time : String)
      → is_decision decision ≡ true
      → is_open_candidate c ≡ true
      → IsReadableTime at_time
      → resolved_action_candidate rt c decision at_time ≡ ok (decided c decision at_time)
  unfolding resolved_action_candidate is_listed
  resolved_made c decision at_time listed free (moment, read, shown) =
      let named : is_listed decision ("acknowledge" ∷ "archive" ∷ []) ≡ true =
        ground (arith, listed) in
      rw (named, free, read, shown) refl

  resolve_made :
      (q : ActionQueue) (decision at_time : String) (done : RegistryActionCandidate)
      → IsDecision q decision at_time done
      → resolve_action_candidate rt id decision at_time q ≡ (ok done, insert q id done)
  unfolding resolve_action_candidate
  resolve_made q decision at_time done d =
      let (listed, status) = Settles-status d.before decision at_time done.status d.settled_as in
      rw
        (
          d.queued,
          resolved_made d.before decision at_time listed
              ((open_fields d.before).1 (d.waiting, d.undecided)) d.time,
          IsDecision-decided q decision at_time done d,
        )
        refl

  -- A decision on a candidate returns `done` exactly if the queue has the candidate and it is open,
  -- the decision is one of the two, its time can be read, and `done` is the candidate with the
  -- decision's status, the decision and its time, and no longer asks for one; then `done` is what the
  -- queue has in its place, and nothing else of the queue changes.
  pub resolve_effect :
      (decision at_time : String) (q : ActionQueue) (done : RegistryActionCandidate)
      → ((resolve_action_candidate rt id decision at_time q).0 ≡ ok done
          → IsDecision q decision at_time done
            × ((resolve_action_candidate rt id decision at_time q).1 ≡ insert q id done))
        × (IsDecision q decision at_time done
            → resolve_action_candidate rt id decision at_time q ≡ (ok done, insert q id done))
  resolve_effect decision at_time q done = (
    λ h.
        let (c, found, listed, free, time, same, stored) =
          decided_effect decision at_time q done h in
        (rw same (decided-IsDecision q decision at_time c found listed free time), stored),
    resolve_made q decision at_time done,
  )
