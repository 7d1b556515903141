-- ===== src/Claims/Scope.antt =====
-- claim_store.py: the result of a claim, the normalised scope under which a claim is filed, the
-- id of its Firestore document, and the protocol that both stores follow.
use vice_ceo_proof_carrying.Outcome.{Action, Error, Result, ok, raise, value_error}
use vice_ceo_proof_carrying.Prelude.{
  Bool, Eq, Option, String, [], arith, eq_iff, false, if◌then◌else◌, nat_eq, none, some, string_eq,
  true, ◌&&◌, ◌==◌, ◌||◌, ◌↔◌, ◌∷◌, ◌≡◌, ◌≢◌,
}
use vice_ceo_proof_carrying.Runtime.{Runtime}
use vice_ceo_proof_carrying.Strips.{strip_shown}
use vice_ceo_proof_carrying.Text.{append, is_blank, join, strip}

pub record ClaimResult : Type 0 where
  pub claimed : Bool
  pub record_id : String

abbrev pub won : String → ClaimResult
won r = record { claimed = true; record_id = r }

abbrev pub already : String → ClaimResult
already r = record { claimed = false; record_id = r }

pub record Scope : Type 0 where
  pub tenant : String
  pub kind : String
  pub key : String

abbrev pub scope_beq : Scope → Scope → Bool
scope_beq a b = a.tenant == b.tenant && (a.kind == b.kind && a.key == b.key)

pub scope_beq_iff : (a b : Scope) → (scope_beq a b ≡ true) ↔ (a ≡ b)
scope_beq_iff a b =
    ground (arith, eq_iff a.tenant b.tenant, eq_iff a.kind b.kind, eq_iff a.key b.key)

instance abbrev pub scope_eq : Eq Scope
scope_eq = record { beq = scope_beq; beq_iff = scope_beq_iff }

-- The arguments of one `claim_once` call.
pub record Request : Type 0 where
  pub tenant : String
  pub claim_kind : String
  pub idempotency_key : String
  pub record_id : String

-- `_claim_key`
unfoldable pub claim_key : String → String → String → Result Scope
claim_key tenant kind key =
    let t = strip tenant in
    let c = strip kind in
    let k = strip key in
    if t == "" || c == "" || k == ""
    then raise (value_error "claim_scope_fields_required")
    else ok (record { tenant = t; kind = c; key = k })

-- A scope without a blank part is valid.
pub claim_key-shown :
    (tenant kind key : String)
    → is_blank tenant ≡ false
    → is_blank kind ≡ false
    → is_blank key ≡ false
    → claim_key tenant kind key
      ≡ ok (record { tenant = strip tenant; kind = strip kind; key = strip key })
unfolding claim_key
claim_key-shown tenant kind key ht hc hk =
    rw (strip_shown tenant ht, strip_shown kind hc, strip_shown key hk)

-- `claim_document_id`, of a scope that `_claim_key` has normalised.
unfoldable pub document_id : Runtime → Scope → String
document_id rt s = append "claim_" (rt.sha256 (join "|" (s.tenant ∷ s.kind ∷ s.key ∷ [])))

-- The protocol `ClaimStore`. A claim is filed under a key of the store's own; `recorded` is the
-- record id that stands under it.
pub record ClaimStore : Type 1 where
  pub State : Type 0
  pub Key : Type 0
  pub key_of : Scope → Key
  pub recorded : State → Key → Option String
  pub claim_once : Request → Action State ClaimResult
  pub claim_invalid :
      (r : Request) (s : State) (e : Error)
      → claim_key r.tenant r.claim_kind r.idempotency_key ≡ raise e
      → claim_once r s ≡ (raise e, s)
  pub claim_taken :
      (r : Request) (s : State) (k : Scope) (old : String)
      → claim_key r.tenant r.claim_kind r.idempotency_key ≡ ok k
      → recorded s (key_of k) ≡ some old
      → claim_once r s ≡ (ok (already old), s)
  pub claim_fresh :
      (r : Request) (s : State) (k : Scope)
      → claim_key r.tenant r.claim_kind r.idempotency_key ≡ ok k
      → recorded s (key_of k) ≡ none
      → (claim_once r s).0 ≡ ok (won r.record_id)
  pub claim_records :
      (r : Request) (s : State) (k : Scope)
      → claim_key r.tenant r.claim_kind r.idempotency_key ≡ ok k
      → recorded s (key_of k) ≡ none
      → recorded (claim_once r s).1 (key_of k) ≡ some r.record_id
  pub claim_keeps :
      (r : Request) (s : State) (k : Scope) (j : Key)
      → claim_key r.tenant r.claim_kind r.idempotency_key ≡ ok k
      → recorded s (key_of k) ≡ none
      → j ≢ key_of k
      → recorded (claim_once r s).1 j ≡ recorded s j
