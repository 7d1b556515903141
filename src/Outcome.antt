-- ===== src/Outcome.antt =====
-- Exceptions, and methods that change an object and may raise. What was written before a raise
-- stays written, so the state comes back beside the exception too.
use vice_ceo_proof_carrying.Prelude.{
  Bool, Option, String, ap, subst, false, inl, inr, none, refl, some, true, ◌∙◌, ◌≡◌, ◌⊎◌,
}
use vice_ceo_proof_carrying.Text.{first}

-- The exception classes of the program, with the message that each carries.
pub data Error : Type 0 where
  value_error type_error runtime_error overflow_error recursion_error : String → Error
  event_contract_error specialist_protocol_error human_approval_error : String → Error
  registry_watch_error business_action_error operational_twin_error : String → Error
  timeline_integrity_error knowledge_pack_error : String → Error
  provider_canary_error provider_evidence_error gemini_model_configuration_error : String → Error

pub data Result {ℓ} (A : Type ℓ) : Type ℓ where
  ok : A → Result A
  raise : Error → Result A

-- `if not test: raise error`.
abbrev pub require : Bool → Error → Result (Unit {0})
require true e = ok tt
require false e = raise e

-- An optional value whose absence raises.
abbrev pub or_raise {ℓ} : {A : Type ℓ} → Option A → Error → Result A
or_raise none e = raise e
or_raise (some a) e = ok a

pub or_raise-some {ℓ} :
    {A : Type ℓ} (o : Option A) (e : Error) {a : A} → or_raise o e ≡ ok a → o ≡ some a
or_raise-some none e h = absurd (cc h)
or_raise-some (some b) e h = cc h

infixl 5 ◌>>=◌
abbrev pub ◌>>=◌ {ℓ κ} : {X : Type ℓ} {Y : Type κ} → Result X → (X → Result Y) → Result Y
raise e >>= next = raise e
ok x >>= next = next x

-- A chain that returned had a first step that returned.
pub >>=-eq-ok {ℓ κ} :
    {X : Type ℓ} {Y : Type κ} (r : Result X) (next : X → Result Y) {y : Y}
    → (r >>= next) ≡ ok y
    → (x : X) × (r ≡ ok x) × (next x ≡ ok y)
>>=-eq-ok (raise e) next h = cc
>>=-eq-ok (ok x) next h = (x, refl, h)

-- A check, then the rest.
infixl 5 ◌>>◌
abbrev pub ◌>>◌ {κ} : {Y : Type κ} → Result (Unit {0}) → Result Y → Result Y
check >> rest = check >>= (λ done. rest)

-- The same, handed to what follows.
pub ok_of_bind {ℓ κ π} :
    {A : Type ℓ} {B : Type κ} {P : Type π} (m : Result A) (f : A → Result B) {b : B}
    → (m >>= f) ≡ ok b
    → ((a : A) → m ≡ ok a → f a ≡ ok b → P)
    → P
ok_of_bind (ok a) f h k = k a refl h
ok_of_bind (raise e) f h k = absurd (cc h)

-- A chain whose first step returned goes on with what it returned.
pub bind_of_ok {ℓ κ} :
    {A : Type ℓ} {B : Type κ} (m : Result A) (f : A → Result B) {a : A} {r : Result B}
    → m ≡ ok a
    → f a ≡ r
    → (m >>= f) ≡ r
bind_of_ok (ok b) f h rest = ap (λ m. m >>= f) h ∙ rest
bind_of_ok (raise e) f h rest = absurd (cc h)

-- A chain that returned after a check passed the check.
pub ok_of_require {κ π} :
    {B : Type κ} {P : Type π} (test : Bool) (e : Error) (rest : Result B) {b : B}
    → (require test e >> rest) ≡ ok b
    → (test ≡ true → rest ≡ ok b → P)
    → P
ok_of_require true e rest h k = k refl h
ok_of_require false e rest h k = absurd (cc h)

-- A chain that raised was raised by its first step or by the rest.
pub error_of_bind {ℓ κ} :
    {A : Type ℓ} {B : Type κ} (P : Error → Type 0) (m : Result A) (f : A → Result B) {e : Error}
    → (m >>= f) ≡ raise e
    → (m ≡ raise e → P e)
    → ((a : A) → m ≡ ok a → f a ≡ raise e → P e)
    → P e
error_of_bind P (ok a) f h first rest = rest a refl h
error_of_bind P (raise x) f h first rest = first (cc h)

-- A method of an object with state `S`.
abbrev pub Action {ℓ} : Type ℓ → Type ℓ → Type ℓ
Action S A = S → Result A × S

-- The rest of a method, after a call that returned or raised in state `s`.
abbrev pub proceed {ℓ} : {S A B : Type ℓ} → Result A → (A → Action S B) → Action S B
proceed (ok a) f s = f a s
proceed (raise e) f s = (raise e, s)

-- One call, then the rest of the method.
abbrev pub andthen {ℓ} : {S A B : Type ℓ} → Action S A → (A → Action S B) → Action S B
andthen m f s = let (r, s') = m s in proceed r f s'

pub Result-cases {ℓ} :
    {A : Type ℓ} (r : Result A) → ((a : A) × (r ≡ ok a)) ⊎ ((e : Error) × (r ≡ raise e))
Result-cases (ok a) = inl (a, refl)
Result-cases (raise e) = inr (e, refl)

-- What a returned value satisfies, from what stands in the code.
pub ok_holds {ℓ κ} : {A : Type ℓ} (P : A → Type κ) {a b : A} → ok a ≡ ok b → P a → P b
ok_holds P h good = subst P (cc h) good

-- What a method leaves as it was, by the parts of the method.
module _ {ℓ} {S A B T : Type ℓ} (f : S → T) where
  pub proceed_keeps :
      (r : Result A) (k : A → Action S B) (s : S)
      → ((a : A) → r ≡ ok a → f (k a s).1 ≡ f s)
      → f (proceed r k s).1 ≡ f s
  proceed_keeps (ok a) k s h = h a refl
  proceed_keeps (raise e) k s h = refl

  pub andthen_keeps :
      (m : Action S A) (k : A → Action S B) (s : S)
      → f (m s).1 ≡ f s
      → ((a : A) (s' : S) → f (k a s').1 ≡ f s')
      → f (andthen m k s).1 ≡ f s
  andthen_keeps m k s h rest = proceed_keeps (m s).0 k (m s).1 (λ a p. rest a (m s).1) ∙ h

-- What holds after a method that returned, by its parts.
pub proceed_returns {ℓ} :
    {S A B : Type ℓ} (P : Result B × S → Type 0) (r : Result A) (k : A → Action S B) (s : S) {b : B}
    → (proceed r k s).0 ≡ ok b
    → ((a : A) → r ≡ ok a → (k a s).0 ≡ ok b → P (k a s))
    → P (proceed r k s)
proceed_returns P (ok a) k s h rest = rest a refl h
proceed_returns P (raise e) k s h rest = absurd (cc h)

-- What holds of the state after a method, by its parts, whether it returned or raised.
pub proceed_holds {ℓ} :
    {S A B : Type ℓ} (Q : S → Type 0) (r : Result A) (k : A → Action S B) (s : S)
    → Q s
    → ((a : A) → r ≡ ok a → Q (k a s).1)
    → Q (proceed r k s).1
proceed_holds Q (ok a) k s h rest = rest a refl
proceed_holds Q (raise e) k s h rest = h
