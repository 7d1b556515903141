-- ===== src/Provider/Canary/Audit.antt =====
-- provider_canary.py: one request and one printed receipt, whatever the provider does.
use vice_ceo_proof_carrying.Outcome.{Error, Result-cases, ok, provider_canary_error, raise}
use vice_ceo_proof_carrying.Prelude.{
  Bool, Bool-cases, List, String, [], arith, false, inl, inr, length, none, refl, some, suc, sym,
  true, ◌∙◌, ◌∷◌, ◌≡◌, ◌≤◌, ◌⊎◌,
}
use vice_ceo_proof_carrying.Provider.Canary.{
  CanaryCall, CanaryProcess, CanaryReceipt, CanaryState, attempt, available, build_canary_receipt,
  canary_reason, claim, claimed, close, complete, complete_claim, completed, emit_receipt, failed,
  prompt_hash, receipt_id_prefix, recover, run_fixed_provider_canary, streamed,
}
use vice_ceo_proof_carrying.Runtime.{Runtime}
use vice_ceo_proof_carrying.Text.{append, char_count}

unfoldable pub is_terminal : CanaryState → Bool
is_terminal available = false
is_terminal claimed = false
is_terminal completed = true
is_terminal failed = true

-- A process before its request, or after it, with its one printed line.
pub data IsAudited (p : CanaryProcess) : Type 0 where
  unused : p.state ≡ available → p.requests ≡ 0 → p.printed ≡ [] → IsAudited p
  settled : is_terminal p.state ≡ true → p.requests ≡ 1 → length p.printed ≡ 1 → IsAudited p

abbrev pub completed_receipt : Runtime → String → String → CanaryReceipt
completed_receipt rt token response = record {
  receipt_id = append receipt_id_prefix token;
  outcome = "completed";
  reason_code = none;
  prompt_sha256 = prompt_hash rt;
  response_sha256 = some (rt.sha256 response);
  response_character_count = char_count response;
}

abbrev pub failed_receipt : Runtime → String → Error → CanaryReceipt
failed_receipt rt token e = record {
  receipt_id = append receipt_id_prefix token;
  outcome = "failed";
  reason_code = some (canary_reason e);
  prompt_sha256 = prompt_hash rt;
  response_sha256 = none;
  response_character_count = 0;
}

abbrev process_in : CanaryState → CanaryProcess → CanaryProcess
process_in s p = record { state = s; printed = p.printed; requests = suc p.requests }

module _ (rt : Runtime) (c : CanaryCall) (p : CanaryProcess) (on : c.enabled ≡ true)
    (free : p.state ≡ available) where
  pub run-answered :
      (response : String)
      → streamed c ≡ ok response
      → run_fixed_provider_canary rt c p ≡ (
        ok (completed_receipt rt c.token response),
        emit_receipt (completed_receipt rt c.token response) (process_in completed p),
      )
  unfolding run_fixed_provider_canary claim attempt complete_claim complete close
      build_canary_receipt
  run-answered response said = rw (on, free, said) refl

  pub run-failed :
      (e : Error)
      → streamed c ≡ raise e
      → run_fixed_provider_canary rt c p ≡ (
        raise (provider_canary_error (canary_reason e)),
        emit_receipt (failed_receipt rt c.failure_token e) (process_in failed p),
      )
  unfolding run_fixed_provider_canary claim attempt recover complete_claim complete close
      build_canary_receipt
  run-failed e said = rw (on, free, said) refl

claim-is_terminal : (s : CanaryState) → is_terminal s ≡ true → claim s ≡ (false, s)
unfolding is_terminal claim
claim-is_terminal available late = absurd (cc late)
claim-is_terminal claimed late = absurd (cc late)
claim-is_terminal completed late = refl
claim-is_terminal failed late = refl

claim-cases : (s : CanaryState) → (s ≡ available) ⊎ (claim s ≡ (false, s))
unfolding claim
claim-cases available = inl refl
claim-cases claimed = inr refl
claim-cases completed = inr refl
claim-cases failed = inr refl

-- A call that is switched off or late is refused, and leaves the process as it is.
pub run-disabled :
    (rt : Runtime) (c : CanaryCall) (p : CanaryProcess)
    → c.enabled ≡ false
    → run_fixed_provider_canary rt c p
      ≡ (raise (provider_canary_error "provider_canary_disabled"), p)
unfolding run_fixed_provider_canary
run-disabled rt c p off = rw off refl

run-late :
    (rt : Runtime) (c : CanaryCall) (p : CanaryProcess)
    → c.enabled ≡ true
    → claim p.state ≡ (false, p.state)
    → run_fixed_provider_canary rt c p
      ≡ (raise (provider_canary_error "provider_canary_already_terminal"), p)
unfolding run_fixed_provider_canary
run-late rt c p on late = rw (on, late) refl

-- A call that returned a receipt won the claim and had a response.
pub run-returned :
    (rt : Runtime) (c : CanaryCall) (p : CanaryProcess) (r : CanaryReceipt)
    → (run_fixed_provider_canary rt c p).0 ≡ ok r
    → (response : String) × (streamed c ≡ ok response) × (r ≡ completed_receipt rt c.token response)
run-returned rt c p r h = elim (Bool-cases c.enabled) [
  | inr off ↦ absurd (cc (rw (run-disabled rt c p off) at h))
  | inl on ↦ elim (claim-cases p.state) [
    | inr late ↦ absurd (cc (rw (run-late rt c p on late) at h))
    | inl free ↦ elim (Result-cases (streamed c)) [
      | inr (e, said) ↦ absurd (cc (rw (run-failed rt c p on free e said) at h))
      | inl (response, said) ↦
          (response, said, cc (rw (run-answered rt c p on free response said) at h))
    ]
  ]
]

-- An enabled call on an available claim settles the process.
run-IsSettled :
    (rt : Runtime) (c : CanaryCall) (p : CanaryProcess)
    → c.enabled ≡ true
    → p.state ≡ available
    → p.requests ≡ 0
    → p.printed ≡ []
    → IsAudited (run_fixed_provider_canary rt c p).1
unfolding emit_receipt is_terminal
run-IsSettled rt c p on free fresh quiet = elim (Result-cases (streamed c)) [
  | inl (response, said) ↦
      rw (run-answered rt c p on free response said)
        (settled refl (omega (arith, fresh)) (rw quiet refl))
  | inr (e, said) ↦
      rw (run-failed rt c p on free e said) (settled refl (omega (arith, fresh)) (rw quiet refl))
]

run-IsAudited :
    (rt : Runtime) (c : CanaryCall) (p : CanaryProcess)
    → IsAudited p
    → IsAudited (run_fixed_provider_canary rt c p).1
run-IsAudited rt c p a = elim (Bool-cases c.enabled) [
  | inl on ↦ elim a [
    | unused free fresh quiet ↦ run-IsSettled rt c p on free fresh quiet
    | settled late once line ↦
        rw (run-late rt c p on (claim-is_terminal p.state late)) (settled late once line)
  ]
  | inr off ↦ rw (run-disabled rt c p off) a
]

unfoldable pub run_all : Runtime → List CanaryCall → CanaryProcess → CanaryProcess
run_all rt [] p = p
run_all rt (c ∷ cs) p = run_all rt cs (run_fixed_provider_canary rt c p).1

abbrev pub new_process : CanaryProcess
new_process = record { state = available; printed = []; requests = 0 }

run_all-IsAudited :
    (rt : Runtime) (cs : List CanaryCall) (p : CanaryProcess)
    → IsAudited p
    → IsAudited (run_all rt cs p)
unfolding run_all
run_all-IsAudited rt [] p a = a
run_all-IsAudited rt (c ∷ cs) p a = run_all-IsAudited rt cs _ (run-IsAudited rt c p a)

-- In a process, whatever calls are made one after another, with any provider, the calls go on to
-- the provider at most once, and exactly one audit line is printed for each time they did.
pub run_all-bounds :
    (rt : Runtime) (cs : List CanaryCall)
    → ((run_all rt cs new_process).requests ≤ 1)
      × (length (run_all rt cs new_process).printed ≡ (run_all rt cs new_process).requests)
run_all-bounds rt cs = elim (run_all-IsAudited rt cs new_process (unused refl refl refl)) [
  | unused free fresh quiet ↦ (omega (arith, fresh), rw (quiet, fresh) refl)
  | settled late once line ↦ (omega (arith, once), line ∙ sym once)
]

run_terminal :
    (rt : Runtime) (c : CanaryCall) (p : CanaryProcess)
    → c.enabled ≡ true
    → p.state ≡ available
    → is_terminal (run_fixed_provider_canary rt c p).1.state ≡ true
unfolding emit_receipt is_terminal
run_terminal rt c p on free = elim (Result-cases (streamed c)) [
  | inl (response, said) ↦ rw (run-answered rt c p on free response said) refl
  | inr (e, said) ↦ rw (run-failed rt c p on free e said) refl
]

-- An enabled call on a new claim ends in a terminal state whatever the provider does, and after it
-- every enabled call is refused and changes nothing.
pub run-settles :
    (rt : Runtime) (c d : CanaryCall) (p : CanaryProcess)
    → c.enabled ≡ true
    → d.enabled ≡ true
    → p.state ≡ available
    → let q = (run_fixed_provider_canary rt c p).1 in
      (is_terminal q.state ≡ true)
      × (run_fixed_provider_canary rt d q
          ≡ (raise (provider_canary_error "provider_canary_already_terminal"), q))
run-settles rt c d p on again free =
    let late = run_terminal rt c p on free in
    (late, run-late rt d (run_fixed_provider_canary rt c p).1 again (claim-is_terminal _ late))
