-- ===== src/Http/Types.antt =====
-- fast_api_app.py: what a route answers. An exception that a route does not turn into an
-- `HTTPException` reaches the framework.
use vice_ceo_proof_carrying.Outcome.{
  Error, Result, business_action_error, event_contract_error, ok, raise, registry_watch_error,
}
use vice_ceo_proof_carrying.Prelude.{String, code, refl, ℕ, ◌≡◌}

pub data Response {ℓ} (A : Type ℓ) : Type ℓ where
  http_ok : A → Response A
  http_error : ℕ → String → Response A
  crashed : Error → Response A

-- `except RegistryWatchError as error: raise HTTPException(status_code=code, ...)`, and its kin.
unfoldable pub registry_answer {ℓ} : {A : Type ℓ} → ℕ → Result A → Response A
registry_answer code (ok a) = http_ok a
registry_answer code (raise (registry_watch_error m)) = http_error code m
registry_answer code (raise e) = crashed e

unfoldable pub business_answer {ℓ} : {A : Type ℓ} → ℕ → Result A → Response A
business_answer code (ok a) = http_ok a
business_answer code (raise (business_action_error m)) = http_error code m
business_answer code (raise e) = crashed e

unfoldable pub event_answer {ℓ} : {A : Type ℓ} → ℕ → Result A → Response A
event_answer code (ok a) = http_ok a
event_answer code (raise (event_contract_error m)) = http_error code m
event_answer code (raise e) = crashed e

-- `Exception` that no `except` of the route names.
abbrev pub plain_answer {ℓ} : {A : Type ℓ} → Result A → Response A
plain_answer (ok a) = http_ok a
plain_answer (raise e) = crashed e

-- The rest of a route after a step that gave a value.
abbrev pub after {ℓ} : {S A B : Type ℓ} → Response A → (A → S → Response B × S) → S → Response B × S
after (http_ok a) rest s = rest a s
after (http_error code m) rest s = (http_error code m, s)
after (crashed e) rest s = (crashed e, s)

-- A step that only shapes the answer keeps the state.
pub after_keeps {ℓ} :
    {S A B : Type ℓ} (r : Response A) (f : A → B) (s : S)
    → (after r (λ a t. (http_ok (f a), t)) s).1 ≡ s
after_keeps (http_ok a) f s = refl
after_keeps (http_error code m) f s = refl
after_keeps (crashed e) f s = refl
