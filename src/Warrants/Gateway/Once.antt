-- ===== src/Warrants/Gateway/Once.antt =====
-- warrant_gateway.py: a warrant is good for one use, whatever else happens.
use vice_ceo_proof_carrying.Claims.Once.{claim_once-persists}
use vice_ceo_proof_carrying.Claims.Scope.{ClaimStore, Scope, claim_key, scope_eq}
use vice_ceo_proof_carrying.Fixtures.{password_reset_case, read_synthetic_case_allowed}
use vice_ceo_proof_carrying.Outcome.{Action, Error, Result, Result-cases, ok, proceed, raise}
use vice_ceo_proof_carrying.Prelude.{
  Bool, Bool-cases, List, Option-cases, String, [], ap, arith, eq_iff, false, if◌then◌else◌, inl,
  inr, nat_eq, none, refl, some, string_eq, suc, true, ℕ, ◌&&◌, ◌==◌, ◌∙◌, ◌∷◌, ◌≡◌, ◌≤◌, ◌⊎◌,
}
use vice_ceo_proof_carrying.Runtime.{Datetime, Runtime}
use vice_ceo_proof_carrying.Warrants.Gateway.{
  Checked, Order, check_use, consume, consumption, denied, escalated, passed, validate_and_consume,
}
use vice_ceo_proof_carrying.Warrants.Gateway.Use.{check_use-IsAuthorized}
use vice_ceo_proof_carrying.Warrants.Types.{
  ActionWarrant, WarrantResult, action_warrant_already_consumed, allow, answer, deny, escalate,
}

-- One call of `validate_and_consume`, with the clock's reading.
pub record Attempt : Type 0 where
  pub now : Datetime
  pub warrant : ActionWarrant
  pub order : Order

abbrev pub is_allow : Result WarrantResult → Bool
is_allow (raise e) = false
is_allow (ok r) = elim r.result [ allow ↦ true | deny ↦ false | escalate ↦ false ]

proceed_keeps :
    {S A B : Type 0} (r : Result A) (f : A → Result B) (s : S)
    → (proceed r (λ a s'. (f a, s')) s).1 ≡ s
proceed_keeps (ok a) f s = refl
proceed_keeps (raise e) f s = refl

module _ (store : ClaimStore) (rt : Runtime) (key : String) where
  open store use {
    State, Key, key_of, recorded, claim_once, claim_invalid, claim_taken, claim_fresh,
    claim_records, claim_keeps,
  }

  abbrev pub try : Attempt → Action State WarrantResult
  try a = validate_and_consume store rt key a.now a.warrant a.order

  -- How many calls with a warrant of the given id are allowed.
  unfoldable pub allowed_uses : String → State → List Attempt → ℕ
  allowed_uses id s [] = 0
  allowed_uses id s (a ∷ rest) =
      let (r, s') = try a s in
      let later = allowed_uses id s' rest in
      if a.warrant.warrant_id == id && is_allow r then suc later else later

  -- The call either refuses and leaves the store alone, or makes its claim.
  try_cases :
      (a : Attempt) (s : State)
      → ((is_allow (try a s).0 ≡ false) × ((try a s).1 ≡ s))
        ⊎ ((check_use rt key a.now a.warrant a.order ≡ ok passed)
            × (try a s ≡ consume store a.warrant passed s))
  unfolding validate_and_consume
  try_cases a s = go (check_use rt key a.now a.warrant a.order) refl
    where
      go :
          (c : Result Checked)
          → check_use rt key a.now a.warrant a.order ≡ c
          → ((is_allow (try a s).0 ≡ false) × ((try a s).1 ≡ s))
            ⊎ ((check_use rt key a.now a.warrant a.order ≡ ok passed)
                × (try a s ≡ consume store a.warrant passed s))
      go (raise e) h = inl (rw h refl, rw h refl)
      go (ok passed) h = inr (h, rw h refl)
      go (ok (denied r)) h = inl (rw h refl, rw h refl)
      go (ok (escalated r)) h = inl (rw h refl, rw h refl)

  abbrev scope_of : ActionWarrant → Result Scope
  scope_of w = claim_key w.tenant "action_warrant" w.warrant_id

  consume_free :
      (w : ActionWarrant) (s : State) (k : Scope)
      → scope_of w ≡ ok k
      → recorded s (key_of k) ≡ none
      → recorded (consume store w passed s).1 (key_of k) ≡ some w.warrant_id
  unfolding consume
  consume_free w s k valid free =
      rw (claim_fresh (consumption w) s k valid free) (claim_records (consumption w) s k valid free)

  consume_taken :
      (w : ActionWarrant) (s : State) (k : Scope) (old : String)
      → scope_of w ≡ ok k
      → recorded s (key_of k) ≡ some old
      → consume store w passed s ≡ (ok (answer deny action_warrant_already_consumed), s)
  unfolding consume
  consume_taken w s k old valid taken = rw (claim_taken (consumption w) s k old valid taken)

  consume_invalid :
      (w : ActionWarrant) (s : State) (e : Error)
      → scope_of w ≡ raise e
      → consume store w passed s ≡ (raise e, s)
  unfolding consume
  consume_invalid w s e bad = rw (claim_invalid (consumption w) s e bad)

  consume-claim_once :
      (w : ActionWarrant) (s : State)
      → (consume store w passed s).1 ≡ (claim_once (consumption w) s).1
  unfolding consume
  consume-claim_once w s = proceed_keeps (claim_once (consumption w) s).0 _ _

  -- What the store has recorded stays recorded, whatever is tried.
  try-persists :
      (a : Attempt) (s : State) (j : Key) (old : String)
      → recorded s j ≡ some old
      → recorded (try a s).1 j ≡ some old
  try-persists a s j old h = elim (try_cases a s) [
    | inl (_, same) ↦ rw same h
    | inr (_, made) ↦
        rw (made, consume-claim_once a.warrant s)
          (claim_once-persists store (consumption a.warrant) s j old h)
  ]

  authorized_tenant :
      (a : Attempt)
      → check_use rt key a.now a.warrant a.order ≡ ok passed
      → a.warrant.tenant ≡ password_reset_case.tenant
  authorized_tenant a h =
      let good = check_use-IsAuthorized rt key a.now a.warrant a.order h in
      let (_, same) = read_synthetic_case_allowed a.order.event.case_id good.case good.readable in
      good.same_tenant ∙ ap (λ c. c.tenant) same

  -- The scope under which the use of a warrant with the given id is recorded.
  abbrev use_scope : String → Result Scope
  use_scope id = claim_key password_reset_case.tenant "action_warrant" id

  scope_of-authorized :
      (a : Attempt)
      → check_use rt key a.now a.warrant a.order ≡ ok passed
      → scope_of a.warrant ≡ use_scope a.warrant.warrant_id
  scope_of-authorized a h =
      ap (λ t. claim_key t "action_warrant" a.warrant.warrant_id) (authorized_tenant a h)

  try-taken :
      (a : Attempt) (s : State) (k : Scope) (old : String)
      → use_scope a.warrant.warrant_id ≡ ok k
      → recorded s (key_of k) ≡ some old
      → is_allow (try a s).0 ≡ false
  try-taken a s k old valid taken = elim (try_cases a s) [
    | inl (no_use, _) ↦ no_use
    | inr (checked, made) ↦
        rw (made, consume_taken a.warrant s k old (scope_of-authorized a checked ∙ valid) taken)
          refl
  ]

  try-invalid :
      (a : Attempt) (s : State) (e : Error)
      → use_scope a.warrant.warrant_id ≡ raise e
      → is_allow (try a s).0 ≡ false
  try-invalid a s e bad = elim (try_cases a s) [
    | inl (no_use, _) ↦ no_use
    | inr (checked, made) ↦
        rw (made, consume_invalid a.warrant s e (scope_of-authorized a checked ∙ bad)) refl
  ]

  try-records :
      (a : Attempt) (s : State) (k : Scope)
      → use_scope a.warrant.warrant_id ≡ ok k
      → is_allow (try a s).0 ≡ true
      → recorded (try a s).1 (key_of k) ≡ some a.warrant.warrant_id
  try-records a s k valid allowed = elim (try_cases a s) [
    | inl (no_use, _) ↦ absurd (cc (allowed, no_use))
    | inr (checked, made) ↦
        let scope : scope_of a.warrant ≡ ok k = scope_of-authorized a checked ∙ valid in
        elim (Option-cases (recorded s (key_of k))) [
          | inl free ↦ rw made (consume_free a.warrant s k scope free)
          | inr (old, taken) ↦ absurd (cc (allowed, try-taken a s k old valid taken))
        ]
  ]

  allowed_uses-skip :
      (id : String) (s : State) (a : Attempt) (rest : List Attempt)
      → (a.warrant.warrant_id == id && is_allow (try a s).0) ≡ false
      → allowed_uses id s (a ∷ rest) ≡ allowed_uses id (try a s).1 rest
  unfolding allowed_uses
  allowed_uses-skip id s a rest h = rw h

  allowed_uses-hit :
      (id : String) (s : State) (a : Attempt) (rest : List Attempt)
      → (a.warrant.warrant_id == id && is_allow (try a s).0) ≡ true
      → allowed_uses id s (a ∷ rest) ≡ suc (allowed_uses id (try a s).1 rest)
  unfolding allowed_uses
  allowed_uses-hit id s a rest h = rw h

  allowed_uses-nil : (id : String) (s : State) → allowed_uses id s [] ≡ 0
  unfolding allowed_uses
  allowed_uses-nil id s = refl

  hit_parts :
      (id : String) (a : Attempt) (b : Bool)
      → (a.warrant.warrant_id == id && b) ≡ true
      → (a.warrant.warrant_id ≡ id) × (b ≡ true)
  hit_parts id a b h = ground (arith, eq_iff a.warrant.warrant_id id)

  -- Once the use is recorded, no warrant with this id is allowed again.
  pub allowed_uses-taken :
      (id : String) (s : State) (calls : List Attempt) (k : Scope) (old : String)
      → use_scope id ≡ ok k
      → recorded s (key_of k) ≡ some old
      → allowed_uses id s calls ≡ 0
  allowed_uses-taken id s [] k old valid taken = allowed_uses-nil id s
  allowed_uses-taken id s (a ∷ rest) k old valid taken =
      let later : allowed_uses id (try a s).1 rest ≡ 0 =
        allowed_uses-taken id (try a s).1 rest k old valid
          (try-persists a s (key_of k) old taken) in
      elim (Bool-cases (a.warrant.warrant_id == id && is_allow (try a s).0)) [
        | inr skip ↦ allowed_uses-skip id s a rest skip ∙ later
        | inl hit ↦
            let (same, allowed) = hit_parts id a (is_allow (try a s).0) hit in
            absurd (cc (allowed, try-taken a s k old (rw same valid) taken))
      ]

  -- In any history of calls, with any clock, orders and controls, at most one use of a warrant id
  -- is allowed.
  pub allowed_uses-le-one :
      (id : String) (s : State) (calls : List Attempt) → allowed_uses id s calls ≤ 1
  allowed_uses-le-one id s [] = omega (arith, allowed_uses-nil id s)
  allowed_uses-le-one id s (a ∷ rest) =
      elim (Bool-cases (a.warrant.warrant_id == id && is_allow (try a s).0)) [
        | inr skip ↦
            rw (allowed_uses-skip id s a rest skip) (allowed_uses-le-one id (try a s).1 rest)
        | inl hit ↦
            let (same, allowed) = hit_parts id a (is_allow (try a s).0) hit in
            elim (Result-cases (use_scope id)) [
              | inr (e, bad) ↦ absurd (cc (allowed, try-invalid a s e (rw same bad)))
              | inl (k, valid) ↦ omega (
                arith,
                allowed_uses-hit id s a rest hit,
                allowed_uses-taken id (try a s).1 rest k a.warrant.warrant_id valid
                    (try-records a s k (rw same valid) allowed),
              )
            ]
      ]
