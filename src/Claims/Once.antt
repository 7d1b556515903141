-- ===== src/Claims/Once.antt =====
-- claim_store.py: a history of claims against one store, of either kind.
use vice_ceo_proof_carrying.Claims.Scope.{
  ClaimResult, ClaimStore, Request, Scope, already, claim_key, scope_eq,
}
use vice_ceo_proof_carrying.Outcome.{Result, Result-cases, ok, raise}
use vice_ceo_proof_carrying.Prelude.{
  Bool, Bool-cases, List, Option-cases, String, [], ap, arith, beq_refl, eq_of_beq, false,
  if◌then◌else◌, inl, inr, nat_eq, none, refl, some, string_eq, suc, sym, true, ℕ, ◌&&◌, ◌==◌, ◌||◌,
  ◌∙◌, ◌∷◌, ◌≡◌, ◌≤◌,
}

-- The request is valid and falls under the scope.
unfoldable pub asks : Request → Scope → Bool
asks r k = elim (claim_key r.tenant r.claim_kind r.idempotency_key) [
  | ok j ↦ j == k
  | raise _ ↦ false
]

unfoldable pub any_asks : List Request → Scope → Bool
any_asks [] k = false
any_asks (r ∷ rs) k = asks r k || any_asks rs k

pub asks_valid :
    (r : Request) (j k : Scope)
    → claim_key r.tenant r.claim_kind r.idempotency_key ≡ ok j
    → asks r k ≡ (j == k)
unfolding asks
asks_valid r j k e = rw (e, asks)

pub asks-claim_key :
    (r : Request) (k : Scope)
    → asks r k ≡ true
    → claim_key r.tenant r.claim_kind r.idempotency_key ≡ ok k
unfolding asks
asks-claim_key r k h = elim (Result-cases (claim_key r.tenant r.claim_kind r.idempotency_key)) [
  | inl (j, e) ↦ e ∙ ap ok (eq_of_beq j k (sym (asks_valid r j k e) ∙ h))
  | inr (x, e) ↦ ground arith
]

-- The response says that the request won its claim.
abbrev pub has_won : Result ClaimResult → Bool
has_won (ok c) = c.claimed
has_won (raise e) = false

module _ (store : ClaimStore) where
  open store use {
    State, Key, key_of, recorded, claim_once, claim_invalid, claim_taken, claim_fresh,
    claim_records, claim_keeps,
  }

  -- The responses of the store to a list of requests.
  unfoldable pub responses : State → List Request → List (Result ClaimResult)
  responses s [] = []
  responses s (r ∷ rs) = let (a, s') = claim_once r s in a ∷ responses s' rs

  -- How many requests of the scope have won.
  unfoldable pub wins : Scope → State → List Request → ℕ
  wins k s [] = 0
  wins k s (r ∷ rs) =
      let (a, s') = claim_once r s in
      let rest = wins k s' rs in if asks r k && has_won a then suc rest else rest

  -- Every later request of the scope is told the record id `old`.
  abbrev pub Told : Scope → String → State → List Request → Type 0
  Told k old s [] = Unit {0}
  Told k old s (r ∷ rs) =
      (asks r k ≡ true → (claim_once r s).0 ≡ ok (already old)) × Told k old (claim_once r s).1 rs

  -- A record id that stands in the store stays.
  pub claim_once-persists :
      (r : Request) (s : State) (j : Key) (old : String)
      → recorded s j ≡ some old
      → recorded (claim_once r s).1 j ≡ some old
  claim_once-persists r s j old h =
      elim (Result-cases (claim_key r.tenant r.claim_kind r.idempotency_key)) [
        | inr (x, e) ↦ rw (claim_invalid r s x e) h
        | inl (k, e) ↦ elim (Option-cases (recorded s (key_of k))) [
          | inr (v, taken) ↦ rw (claim_taken r s k v e taken) h
          | inl free ↦ claim_keeps r s k j e free (λ p. cc (ap (recorded s) p)) ∙ h
        ]
      ]

  -- Once a record stands under the scope's key, no request of the scope wins.
  pub wins-taken :
      (k : Scope) (old : String) (s : State) (rs : List Request)
      → recorded s (key_of k) ≡ some old
      → wins k s rs ≡ 0
  unfolding wins
  wins-taken k old s [] h = refl
  wins-taken k old s (r ∷ rs) h =
      let later : wins k (claim_once r s).1 rs ≡ 0 =
        wins-taken k old (claim_once r s).1 rs (claim_once-persists r s (key_of k) old h) in
      elim (Bool-cases (asks r k)) [
        | inr other ↦ rw other later
        | inl mine ↦
            rw (mine, claim_taken r s k old (asks-claim_key r k mine) h) (wins-taken k old s rs h)
      ]

  -- From then on every request of the scope is told that record.
  pub Told-taken :
      (k : Scope) (old : String) (s : State) (rs : List Request)
      → recorded s (key_of k) ≡ some old
      → Told k old s rs
  Told-taken k old s [] h = tt
  Told-taken k old s (r ∷ rs) h = (
    λ mine. ap (λ p. p.0) (claim_taken r s k old (asks-claim_key r k mine) h),
    Told-taken k old (claim_once r s).1 rs (claim_once-persists r s (key_of k) old h),
  )

  -- The first request of a free scope wins, and then none.
  pub wins_first :
      (k : Scope) (s : State) (r : Request) (rs : List Request)
      → asks r k ≡ true
      → recorded s (key_of k) ≡ none
      → wins k s (r ∷ rs) ≡ 1
  unfolding wins
  wins_first k s r rs mine free =
      let valid : claim_key r.tenant r.claim_kind r.idempotency_key ≡ ok k =
        asks-claim_key r k mine in
      rw (mine, claim_fresh r s k valid free)
        (ap suc (wins-taken k r.record_id (claim_once r s).1 rs (claim_records r s k valid free)))

  wins_other :
      (k : Scope) (s : State) (r : Request) (rs : List Request)
      → asks r k ≡ false
      → wins k s (r ∷ rs) ≡ wins k (claim_once r s).1 rs
  unfolding wins
  wins_other k s r rs other = rw other

  wins-nil : (k : Scope) (s : State) → wins k s [] ≡ 0
  unfolding wins
  wins-nil k s = refl

  -- In any history, from any state, at most one request of a scope wins.
  pub wins-le-one : (k : Scope) (s : State) (rs : List Request) → wins k s rs ≤ 1
  wins-le-one k s [] = omega (arith, wins-nil k s)
  wins-le-one k s (r ∷ rs) = elim (Option-cases (recorded s (key_of k))) [
    | inr (old, taken) ↦ omega (arith, wins-taken k old s (r ∷ rs) taken)
    | inl free ↦ elim (Bool-cases (asks r k)) [
      | inl mine ↦ omega (arith, wins_first k s r rs mine free)
      | inr other ↦ rw (wins_other k s r rs other) (wins-le-one k (claim_once r s).1 rs)
    ]
  ]

  module _ (k : Scope) (separate : (j : Scope) → key_of j ≡ key_of k → j ≡ k) where
    -- A request of another scope leaves the scope's key as it was.
    pub recorded-claim_once_ne :
        (r : Request) (s : State)
        → asks r k ≡ false
        → recorded (claim_once r s).1 (key_of k) ≡ recorded s (key_of k)
    recorded-claim_once_ne r s other =
        elim (Result-cases (claim_key r.tenant r.claim_kind r.idempotency_key)) [
          | inr (x, e) ↦ rw (claim_invalid r s x e)
          | inl (j, e) ↦ elim (Option-cases (recorded s (key_of j))) [
            | inr (v, taken) ↦ rw (claim_taken r s j v e taken)
            | inl free ↦ claim_keeps r s j (key_of k) e free (λ p. cc (
              asks_valid r j k e,
              separate j (sym p),
              beq_refl k,
              other,
              ap (λ i. i == k) (separate j (sym p)),
            ))
          ]
        ]

    any_asks_hit : (r : Request) (rs : List Request) → asks r k ≡ true → any_asks (r ∷ rs) k ≡ true
    unfolding any_asks
    any_asks_hit r rs h = rw h

    any_asks_miss :
        (r : Request) (rs : List Request) → asks r k ≡ false → any_asks (r ∷ rs) k ≡ any_asks rs k
    unfolding any_asks
    any_asks_miss r rs h = rw h

    -- From a state where the scope's key is free, and where no other scope shares the key, exactly one
    -- request of the scope wins, if there is any.
    pub wins-any_asks :
        (s : State) (rs : List Request)
        → recorded s (key_of k) ≡ none
        → wins k s rs ≡ (if any_asks rs k then 1 else 0)
    wins-any_asks s [] h = wins-nil k s ∙ unfold any_asks in refl
    wins-any_asks s (r ∷ rs) h = elim (Bool-cases (asks r k)) [
      | inl mine ↦ rw (any_asks_hit r rs mine) (wins_first k s r rs mine h)
      | inr other ↦
          rw (wins_other k s r rs other, any_asks_miss r rs other)
            (wins-any_asks (claim_once r s).1 rs (recorded-claim_once_ne r s other ∙ h))
    ]
