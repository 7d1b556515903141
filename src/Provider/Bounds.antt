-- ===== src/Provider/Bounds.antt =====
-- provider_evidence.py: what accepted evidence holds.
use vice_ceo_proof_carrying.Json.{Fields, Json, member}
use vice_ceo_proof_carrying.Outcome.{ok, ok_of_bind, ok_of_require, or_raise, or_raise-some}
use vice_ceo_proof_carrying.Prelude.{
  Bool-cases, Option, Option-cases, String, arith, false, inl, inr, leb, some, subst, true, ℕ, ◌&&◌,
  ◌≡◌, ◌≤◌,
}
use vice_ceo_proof_carrying.Provider.Canary.{provider_canary_id, provider_canary_receipt_version}
use vice_ceo_proof_carrying.Provider.Evidence.{
  ProviderConnectivityEvidence, character_count, check_boundary, check_identity, equals_zero,
  evidence_of, hash_of, integer_of, is_flag, is_hash, is_none, is_text, prefixed, receipt_of_entry,
  shown, text_of, verify_provider_receipt,
}
use vice_ceo_proof_carrying.Runtime.{Runtime}

character_count-bound : (value : Option Json) (n : ℕ) → character_count value ≡ some n → 1 ≤ n
unfolding character_count
character_count-bound value n h = elim (Option-cases (integer_of value)) [
  | inl missing ↦ absurd (cc (rw (character_count, missing) at h))
  | inr (m, counted) ↦ elim (Bool-cases (leb 1 m)) [
    | inl enough ↦ ground (arith, enough, rw (character_count, counted, enough) at h)
    | inr empty ↦ absurd (cc (rw (character_count, counted, empty) at h))
  ]
]

hash_of-IsHash : (value : Option Json) (s : String) → hash_of value ≡ some s → is_hash s ≡ true
unfolding hash_of
hash_of-IsHash value s h = elim (Option-cases (text_of value)) [
  | inl missing ↦ absurd (cc (rw (hash_of, missing) at h))
  | inr (t, written) ↦ elim (Bool-cases (is_hash t)) [
    | inl hex ↦
        subst {A = String} (λ x. is_hash x ≡ true) {x = t} {y = s}
          (cc (rw (hash_of, written, hex) at h)) hex
    | inr other ↦ absurd (cc (rw (hash_of, written, other) at h))
  ]
]

-- A receipt that passed the checks of its constant fields says that it completed.
check_identity-completed :
    (rt : Runtime) (r : Fields) {u : Unit {0}}
    → check_identity rt r ≡ ok u
    → (is_text "completed" (member "outcome" r) && is_none (member "reason_code" r)) ≡ true
unfolding check_identity
check_identity-completed rt r h0 =
    ok_of_require (is_text provider_canary_receipt_version (member "receipt_version" r)) _ _ h0
      (λ p1 h1. ok_of_require (is_text provider_canary_id (member "canary_id" r)) _ _ h1 (λ p2 h2.
        ok_of_require (is_text "completed" (member "outcome" r) && is_none (member "reason_code" r))
          _ _ h2 (λ p3 h3. p3)))

check_boundary-kept :
    (r : Fields) {u : Unit {0}}
    → check_boundary r ≡ ok u
    → ((equals_zero (member "tool_calls" r) && is_flag false (member "customer_data" r)) ≡ true)
      × ((is_flag false (member "external_business_effect" r)
            && is_flag false (member "persistent_business_write" r))
          ≡ true)
unfolding check_boundary
check_boundary-kept r h0 =
    ok_of_require (equals_zero (member "tool_calls" r) && is_flag false (member "customer_data" r))
      _ _ h0
      (λ p1 h1.
        ok_of_require
          (is_flag false (member "external_business_effect" r)
            && is_flag false (member "persistent_business_write" r))
          _ _ h1 (λ p2 h2. (p1, p2)))

-- Whatever the log entry, if it is accepted as evidence, then the counted response has at least one
-- character, its digest is 64 lower-case hexadecimal digits, and the receipt says that the call
-- completed without a reason, called no tool, used no customer data, and had no effect or write.
pub verify-bounds :
    (rt : Runtime) (entry : Fields) (v : ProviderConnectivityEvidence)
    → verify_provider_receipt rt entry ≡ ok v
    → (r : Fields) × (receipt_of_entry entry ≡ ok r)
      × (1 ≤ v.response_character_count)
      × (is_hash v.response_sha256 ≡ true)
      × ((is_text "completed" (member "outcome" r) && is_none (member "reason_code" r)) ≡ true)
      × ((equals_zero (member "tool_calls" r) && is_flag false (member "customer_data" r)) ≡ true)
      × ((is_flag false (member "external_business_effect" r)
            && is_flag false (member "persistent_business_write" r))
          ≡ true)
unfolding verify_provider_receipt evidence_of
verify-bounds rt entry v h = ok_of_bind (receipt_of_entry entry) _ h (λ r found h1.
    ok_of_bind (check_identity rt r) _ h1 (λ done known h2.
      ok_of_bind (or_raise (hash_of (member "response_sha256" r)) _) _ h2 (λ response hashed h3.
        ok_of_bind (or_raise (character_count (member "response_character_count" r)) _) _ h3
          (λ count counted h4. ok_of_bind (check_boundary r) _ h4 (λ done' kept h5.
            ok_of_bind (or_raise (shown (text_of (member "timestamp" entry))) _) _ h5
              (λ timestamp dated h6.
                ok_of_bind (or_raise (prefixed (text_of (member "receipt_id" r))) _) _ h6
                  (λ receipt_id named h7.
                    let (clean, harmless) = check_boundary-kept r kept in
                    (
                      r,
                      found,
                      subst {A = ProviderConnectivityEvidence} (λ x. 1 ≤ x.response_character_count)
                          {x = evidence_of rt receipt_id timestamp response count} {y = v} (cc h7)
                          (character_count-bound (member "response_character_count" r) count (
                            or_raise-some (character_count (member "response_character_count" r)) _
                              counted)),
                      subst {A = ProviderConnectivityEvidence}
                          (λ x. is_hash x.response_sha256 ≡ true)
                          {x = evidence_of rt receipt_id timestamp response count} {y = v} (cc h7)
                          (hash_of-IsHash (member "response_sha256" r) response
                            (or_raise-some (hash_of (member "response_sha256" r)) _ hashed)),
                      check_identity-completed rt r known,
                      clean,
                      harmless,
                    ))))))))
