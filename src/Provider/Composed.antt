-- ===== src/Provider/Composed.antt =====
-- The receipts of the canary under the checks of the evidence.
use vice_ceo_proof_carrying.Json.{Fields, dumps, member, object, text}
use vice_ceo_proof_carrying.Outcome.{
  Error, ok, or_raise-some, provider_canary_error, provider_evidence_error, raise,
}
use vice_ceo_proof_carrying.Prelude.{
  Bool-cases, List, Option, Option-cases, String, [], ap, arith, beq_of_eq, false, inl, inr, leb,
  nat_eq, none, refl, some, string_eq, subst, sym, true, ◌++◌, ◌==◌, ◌∙◌, ◌∷◌, ◌≡◌,
}
use vice_ceo_proof_carrying.Provider.Canary.{
  CanaryCall, CanaryProcess, CanaryReceipt, ProviderEvent, available, canary_reason, emit_receipt,
  final_response_text, log_payload, nonempty, prompt_hash, receipt_fields, response_of,
  run_fixed_provider_canary, streamed,
}
use vice_ceo_proof_carrying.Provider.Canary.Audit.{
  completed_receipt, failed_receipt, run-failed, run-returned,
}
use vice_ceo_proof_carrying.Provider.Evidence.{
  ProviderConnectivityEvidence, character_count, check_boundary, check_identity, evidence_of,
  hash_of, is_hash, prefixed, receipt_of_entry, shown, text_of, verify_provider_receipt,
}
use vice_ceo_proof_carrying.Runtime.{Runtime}
use vice_ceo_proof_carrying.Text.{append, char_count, starts_with}

-- Documented behaviour of `hexdigest()` of SHA-256: 64 lower-case hexadecimal digits.
pub record IsDigest (rt : Runtime) : Type 0 where
  pub digest_is_hash : (s : String) → is_hash (rt.sha256 s) ≡ true

abbrev Shown : Option String → Type 0
Shown o = (s : String) → o ≡ some s → (s == "") ≡ false

nonempty-Shown : (s : String) → Shown (nonempty s)
nonempty-Shown s r h = elim (Bool-cases (s == "")) [
  | inl empty ↦ absurd (cc (rw empty at h))
  | inr shown ↦ subst {A = String} (λ x. (x == "") ≡ false) (cc (rw shown at h)) shown
]

response_of-Shown :
    (es : List ProviderEvent) (said : Option String) → Shown said → Shown (response_of said es)
unfolding response_of final_response_text
response_of-Shown [] said good = good
response_of-Shown (e ∷ es) said good = elim (Bool-cases e.is_final_response) [
  | inl final ↦ rw final (response_of-Shown es _ (nonempty-Shown _))
  | inr partial ↦ rw partial (response_of-Shown es said good)
]

streamed-Shown : (c : CanaryCall) (s : String) → streamed c ≡ ok s → (s == "") ≡ false
unfolding streamed
streamed-Shown c s h = elim (Option-cases c.interrupted) [
  | inr (e, broken) ↦ absurd (cc (rw (streamed, broken) at h))
  | inl calm ↦
      response_of-Shown c.stream none (λ x none_here. absurd (cc none_here)) s
        (or_raise-some (response_of none c.stream) _ (rw (streamed, calm) at h))
]

counts-Shown : (s : String) → (s == "") ≡ false → leb 1 (char_count s) ≡ true
unfolding char_count
counts-Shown String.[] h = absurd (cc h)
counts-Shown (String.◌∷◌ c s) h = ground arith

module _ (rt : Runtime) (entry : Fields) (r : CanaryReceipt)
    (carries : member "jsonPayload" entry ≡ some (object (log_payload r))) where
  entry_receipt : receipt_of_entry entry ≡ ok (receipt_fields r)
  unfolding receipt_of_entry log_payload
  entry_receipt = rw carries refl

  boundary_kept : check_boundary (receipt_fields r) ≡ ok tt
  unfolding check_boundary receipt_fields
  boundary_kept = refl

  pub verify-failed :
      r.outcome ≡ "failed"
      → verify_provider_receipt rt entry
        ≡ raise (provider_evidence_error "provider_receipt_not_completed")
  unfolding verify_provider_receipt check_identity receipt_fields
  verify-failed h = rw (entry_receipt, h) refl

module _ (rt : Runtime) (digests : IsDigest rt) (token response timestamp : String) (entry : Fields)
    (said : (response == "") ≡ false) (dated : (timestamp == "") ≡ false)
    (carries : member "jsonPayload" entry
      ≡ some (object (log_payload (completed_receipt rt token response))))
    (stamped : member "timestamp" entry ≡ some (text timestamp)) where
  abbrev made : CanaryReceipt
  made = completed_receipt rt token response

  identity_kept : check_identity rt (receipt_fields made) ≡ ok tt
  unfolding check_identity receipt_fields
  identity_kept = rw (beq_of_eq (prompt_hash rt) (prompt_hash rt) refl) refl

  hash_kept : hash_of (member "response_sha256" (receipt_fields made)) ≡ some (rt.sha256 response)
  unfolding hash_of receipt_fields member
  hash_kept = rw (digests.digest_is_hash response) refl

  count_kept :
      character_count (member "response_character_count" (receipt_fields made))
      ≡ some (char_count response)
  unfolding character_count receipt_fields member char_count
  count_kept = rw (counts-Shown response said) refl

  id_kept : prefixed (text_of (member "receipt_id" (receipt_fields made))) ≡ some made.receipt_id
  unfolding receipt_fields text_of starts_with member append
  id_kept = refl

  verified :
      (v : ProviderConnectivityEvidence) × (verify_provider_receipt rt entry ≡ ok v)
      × (v.receipt_id ≡ made.receipt_id)
      × (v.response_sha256 ≡ rt.sha256 response)
      × (v.response_character_count ≡ char_count response)
      × (v.receipt_timestamp ≡ timestamp)
  unfolding verify_provider_receipt evidence_of text_of
  verified = (
    evidence_of rt made.receipt_id timestamp (rt.sha256 response) (char_count response),
    rw
        (
          entry_receipt rt entry made carries,
          identity_kept,
          hash_kept,
          count_kept,
          boundary_kept rt entry made carries,
          stamped,
          id_kept,
          dated,
        )
        refl,
    refl,
    refl,
    refl,
    refl,
  )

-- The receipt of a call that returned one is accepted as evidence: if SHA-256 prints 64 hexadecimal
-- digits, each log entry that carries the call's printed payload and a timestamp verifies, and the
-- evidence names the receipt, the digest of a response that the provider's stream gave, and its
-- length.
pub verify-run :
    (rt : Runtime) (digests : IsDigest rt) (c : CanaryCall) (p : CanaryProcess) (r : CanaryReceipt)
    (entry : Fields) (timestamp : String)
    → (run_fixed_provider_canary rt c p).0 ≡ ok r
    → member "jsonPayload" entry ≡ some (object (log_payload r))
    → member "timestamp" entry ≡ some (text timestamp)
    → (timestamp == "") ≡ false
    → (response : String) × (v : ProviderConnectivityEvidence) × (streamed c ≡ ok response)
      × (verify_provider_receipt rt entry ≡ ok v)
      × (v.receipt_id ≡ r.receipt_id)
      × (v.response_sha256 ≡ rt.sha256 response)
      × (v.response_character_count ≡ char_count response)
verify-run rt digests c p r entry timestamp returned carries stamped dated =
    let (response, said, same) = run-returned rt c p r returned in
    let (v, made_ok, id, digest, count, time) =
      verified rt digests c.token response timestamp entry (streamed-Shown c response said) dated
        (carries ∙ ap (λ x. some (object (log_payload x))) same) stamped in
    (response, v, said, made_ok, id ∙ ap (λ x. x.receipt_id) (sym same), digest, count)

-- If the provider fails, an enabled call on a new claim raises, prints one receipt, and a log entry
-- that carries that payload is refused as not completed.
pub verify-raised :
    (rt : Runtime) (c : CanaryCall) (p : CanaryProcess) (e : Error) (entry : Fields)
    → c.enabled ≡ true
    → p.state ≡ available
    → streamed c ≡ raise e
    → member "jsonPayload" entry ≡ some (object (log_payload (failed_receipt rt c.failure_token e)))
    → ((run_fixed_provider_canary rt c p).0 ≡ raise (provider_canary_error (canary_reason e)))
      × ((run_fixed_provider_canary rt c p).1.printed
          ≡ p.printed ++ (dumps (object (log_payload (failed_receipt rt c.failure_token e))) ∷ []))
      × (verify_provider_receipt rt entry
          ≡ raise (provider_evidence_error "provider_receipt_not_completed"))
unfolding emit_receipt
verify-raised rt c p e entry on free said carries =
    let same = run-failed rt c p on free e said in
    (
      ap (λ x. x.0) same,
      ap (λ x. x.1.printed) same,
      verify-failed rt entry (failed_receipt rt c.failure_token e) carries refl,
    )
