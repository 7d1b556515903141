-- ===== src/Claims/Refine.antt =====
-- claim_store.py: the two stores answer alike.
use vice_ceo_proof_carrying.Claims.Firestore.{
  ClaimDocument, Documents, firestore_store, stored_record,
}
use vice_ceo_proof_carrying.Claims.Memory.{memory_store}
use vice_ceo_proof_carrying.Claims.Once.{responses}
use vice_ceo_proof_carrying.Claims.Scope.{
  ClaimStore, Request, Scope, claim_key, document_id, scope_eq,
}
use vice_ceo_proof_carrying.Dict.{lookup-no_entries, no_entries}
use vice_ceo_proof_carrying.Joins.{
  append_cancel, bar, join-injective, join_three, regroup, strip-has_code,
}
use vice_ceo_proof_carrying.Outcome.{Error, Result-cases, ok, raise}
use vice_ceo_proof_carrying.Prelude.{
  Bool-cases, List, Option-cases, String, [], ap, arith, beq_refl, eq_of_beq, false, inl, inr,
  nat_eq, none, refl, some, string_eq, sym, ◌==◌, ◌∙◌, ◌∷◌, ◌≡◌, ◌≢◌,
}
use vice_ceo_proof_carrying.Runtime.{Runtime}
use vice_ceo_proof_carrying.Text.{append, has_code}

-- Two stores that file the scopes of `P` under different keys answer every history alike.
module _ (A B : ClaimStore) (P : Scope → Type 0) where
  -- Every valid request falls under a scope of `P`.
  abbrev Within : List Request → Type 0
  Within [] = Unit {0}
  Within (r ∷ rs) =
      ((k : Scope) → claim_key r.tenant r.claim_kind r.idempotency_key ≡ ok k → P k) × Within rs

  record Agree (s : A.State) (t : B.State) : Type 0 where
    at : (k : Scope) → P k → A.recorded s (A.key_of k) ≡ B.recorded t (B.key_of k)

  record SameStep (r : Request) (s : A.State) (t : B.State) : Type 0 where
    answer : (A.claim_once r s).0 ≡ (B.claim_once r t).0
    after : Agree (A.claim_once r s).1 (B.claim_once r t).1

  module _ (apart_A : (j k : Scope) → P j → P k → A.key_of j ≡ A.key_of k → j ≡ k)
      (apart_B : (j k : Scope) → P j → P k → B.key_of j ≡ B.key_of k → j ≡ k) where
    claim_once-Agree :
        (r : Request) (s : A.State) (t : B.State)
        → ((k : Scope) → claim_key r.tenant r.claim_kind r.idempotency_key ≡ ok k → P k)
        → Agree s t
        → SameStep r s t
    claim_once-Agree r s t within h =
        elim (Result-cases (claim_key r.tenant r.claim_kind r.idempotency_key)) [
          | inr (x, e) ↦ rejected x e
          | inl (k, e) ↦ elim (Option-cases (A.recorded s (A.key_of k))) [
            | inr (v, taken) ↦ refused k e v taken
            | inl free ↦ filed k e free
          ]
        ]
      where
        rejected :
            (x : Error)
            → claim_key r.tenant r.claim_kind r.idempotency_key ≡ raise x
            → SameStep r s t
        rejected x e = record {
          answer = rw (A.claim_invalid r s x e, B.claim_invalid r t x e);
          after = rw (A.claim_invalid r s x e, B.claim_invalid r t x e) h;
        }

        refused :
            (k : Scope)
            → claim_key r.tenant r.claim_kind r.idempotency_key ≡ ok k
            → (v : String) → A.recorded s (A.key_of k) ≡ some v
            → SameStep r s t
        refused k e v taken =
            let also : B.recorded t (B.key_of k) ≡ some v = sym (h.at k (within k e)) ∙ taken in
            record {
              answer = rw (A.claim_taken r s k v e taken, B.claim_taken r t k v e also);
              after = rw (A.claim_taken r s k v e taken, B.claim_taken r t k v e also) h;
            }

        filed :
            (k : Scope)
            → claim_key r.tenant r.claim_kind r.idempotency_key ≡ ok k
            → A.recorded s (A.key_of k) ≡ none
            → SameStep r s t
        filed k e free =
            let also : B.recorded t (B.key_of k) ≡ none = sym (h.at k (within k e)) ∙ free in
            record {
              answer = A.claim_fresh r s k e free ∙ sym (B.claim_fresh r t k e also);
              after = record {
                at = λ j pj. elim (Bool-cases (j == k)) [
                  | inl same ↦
                      rw (eq_of_beq j k same)
                        (A.claim_records r s k e free ∙ sym (B.claim_records r t k e also))
                  | inr differ ↦
                      let other : j ≢ k = λ p. cc (ap (λ i. i == k) p, beq_refl k, differ) in
                      A.claim_keeps r s k (A.key_of j) e free
                        (λ p. other (apart_A j k pj (within k e) p))
                      ∙ h.at j pj
                      ∙ sym (
                          B.claim_keeps r t k (B.key_of j) e also
                            (λ p. other (apart_B j k pj (within k e) p)))
                ];
              };
            }

    -- From states that agree, the responses are the same.
    responses-Agree :
        (s : A.State) (t : B.State) (rs : List Request)
        → Within rs
        → Agree s t
        → responses A s rs ≡ responses B t rs
    unfolding responses
    responses-Agree s t [] w h = refl
    responses-Agree s t (r ∷ rs) w h =
        let step : SameStep r s t = claim_once-Agree r s t w.0 h in
        cc
          (step.answer, responses-Agree (A.claim_once r s).1 (B.claim_once r t).1 rs w.1 step.after)

-- A request whose tenant and kind hold no bar.
abbrev pub NoBars : List Request → Type 0
NoBars [] = Unit {0}
NoBars (r ∷ rs) = (has_code bar r.tenant ≡ false) × (has_code bar r.claim_kind ≡ false) × NoBars rs

abbrev ScopeNoBars : Scope → Type 0
ScopeNoBars k = (has_code bar k.tenant ≡ false) × (has_code bar k.kind ≡ false)

claim_key-ScopeNoBars :
    (r : Request) (k : Scope)
    → has_code bar r.tenant ≡ false
    → has_code bar r.claim_kind ≡ false
    → claim_key r.tenant r.claim_kind r.idempotency_key ≡ ok k
    → ScopeNoBars k
unfolding claim_key
claim_key-ScopeNoBars r k ht hk e =
    (ground (arith, strip-has_code bar r.tenant), ground (arith, strip-has_code bar r.claim_kind))

module _ (rt : Runtime) (no_collision : (a b : String) → rt.sha256 a ≡ rt.sha256 b → a ≡ b) where
  -- Scopes without bars are filed under different document ids.
  pub document_id-injective :
      (j k : Scope) → ScopeNoBars j → ScopeNoBars k → document_id rt j ≡ document_id rt k → j ≡ k
  unfolding document_id
  document_id-injective j k hj hk e =
      let (a, b, c) =
        join-injective j.tenant j.kind j.key k.tenant k.kind k.key hj.0 hj.1 hk.0 hk.1
          (no_collision _ _ (append_cancel "claim_" e)) in
      λ i. record { tenant = a i; kind = b i; key = c i }

  module _ (docs : Documents ClaimDocument) (created_at : String) where
    Agree-empty :
        Agree (firestore_store rt docs created_at) memory_store ScopeNoBars docs.empty no_entries
    unfolding stored_record
    Agree-empty = record {
      at = λ k p.
          ground (arith, docs.get-empty (document_id rt k), lookup-no_entries {V = String} k);
    }

    NoBars-Within :
        (rs : List Request)
        → NoBars rs
        → Within (firestore_store rt docs created_at) memory_store ScopeNoBars rs
    NoBars-Within [] h = tt
    NoBars-Within (r ∷ rs) (ht, hk, h) =
        (λ k e. claim_key-ScopeNoBars r k ht hk e, NoBars-Within rs h)

    -- With a digest that does not collide, a history of claims whose tenants and kinds hold no bar
    -- gets the same responses from an empty Firestore collection as from an empty dictionary.
    pub responses-firestore_store :
        (rs : List Request)
        → NoBars rs
        → responses (firestore_store rt docs created_at) docs.empty rs
          ≡ responses memory_store no_entries rs
    responses-firestore_store rs h =
        responses-Agree (firestore_store rt docs created_at) memory_store ScopeNoBars
          document_id-injective (λ j k _ _ e. e) docs.empty no_entries rs (NoBars-Within rs h)
          Agree-empty

-- A bar inside a tenant or a kind is taken for the separator: two scopes that differ share the id
-- of their document.
pub document_id_ambiguous :
    (rt : Runtime) (a b c key : String)
    → document_id rt (record { tenant = append a (append "|" b); kind = c; key = key })
      ≡ document_id rt (record { tenant = a; kind = append b (append "|" c); key = key })
unfolding document_id
document_id_ambiguous rt a b c key =
    ap (λ s. append "claim_" (rt.sha256 s))
      (join_three (append a (append "|" b)) c key
        ∙ regroup a b c key
        ∙ sym (join_three a (append b (append "|" c)) key))
