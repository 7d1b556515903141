-- ===== src/Examples/Canary.antt =====
-- The theorems on the provider's canary and its evidence, at concrete inputs.
use vice_ceo_proof_carrying.Examples.{demo_runtime}
use vice_ceo_proof_carrying.Json.{Fields, end, field, member, object, text}
use vice_ceo_proof_carrying.Outcome.{ok, provider_canary_error, raise, runtime_error}
use vice_ceo_proof_carrying.Prelude.{String, [], ap, length, none, refl, some, true, ◌∷◌, ◌≡◌, ◌≤◌}
use vice_ceo_proof_carrying.Provider.Canary.{
  CanaryCall, CanaryProcess, CanaryReceipt, final_response_text, joined_text, log_payload,
  response_of, run_fixed_provider_canary, streamed,
}
use vice_ceo_proof_carrying.Provider.Canary.Audit.{
  completed_receipt, is_terminal, new_process, run-answered, run-settles, run_all, run_all-bounds,
}
use vice_ceo_proof_carrying.Provider.Composed.{IsDigest, verify-run}
use vice_ceo_proof_carrying.Provider.Evidence.{
  ProviderConnectivityEvidence, is_hash, verify_provider_receipt,
}
use vice_ceo_proof_carrying.Runtime.{Runtime}
use vice_ceo_proof_carrying.Text.{append, char_count, is_blank, is_space, strip}

abbrev zeros : String
zeros = "0000000000000000000000000000000000000000000000000000000000000000"

-- Digests of one value, which have the form that SHA-256 prints.
abbrev hash_runtime : Runtime
hash_runtime = record {
  sha256 = λ s. zeros;
  hmac_sha256 = demo_runtime.hmac_sha256;
  isoformat = demo_runtime.isoformat;
  format_utc = demo_runtime.format_utc;
  parse_iso = demo_runtime.parse_iso;
  local_instant = demo_runtime.local_instant;
  encode_data = demo_runtime.encode_data;
  decode_data = demo_runtime.decode_data;
}

hash_runtime-IsDigest : IsDigest hash_runtime
unfolding is_hash
hash_runtime-IsDigest = record { digest_is_hash = λ s. refl }

abbrev answering : CanaryCall
answering = record {
  enabled = true;
  token = "a1";
  failure_token = "a2";
  stream = record { is_final_response = true; parts = some " Escalate. " ∷ none ∷ [] } ∷ [];
  interrupted = none;
}

abbrev failing : CanaryCall
failing = record {
  enabled = true;
  token = "b1";
  failure_token = "b2";
  stream = [];
  interrupted = some (runtime_error "quota");
}

abbrev answered_receipt : CanaryReceipt
answered_receipt = completed_receipt hash_runtime "a1" "Escalate."

answered_stream : streamed answering ≡ ok "Escalate."
unfolding streamed response_of final_response_text joined_text append strip is_space is_blank
answered_stream = refl

answered : (run_fixed_provider_canary hash_runtime answering new_process).0 ≡ ok answered_receipt
answered =
    ap (λ x. x.0)
      (run-answered hash_runtime answering new_process refl refl "Escalate." answered_stream)

abbrev entry_of : CanaryReceipt → Fields
entry_of r =
    field "jsonPayload" (object (log_payload r)) (field "timestamp" (text "2026-08-23") end)

run_all-bounds_example :
    ((run_all hash_runtime (answering ∷ failing ∷ []) new_process).requests ≤ 1)
    × (length (run_all hash_runtime (answering ∷ failing ∷ []) new_process).printed
        ≡ (run_all hash_runtime (answering ∷ failing ∷ []) new_process).requests)
run_all-bounds_example = run_all-bounds hash_runtime (answering ∷ failing ∷ [])

abbrev after_failure : CanaryProcess
after_failure = (run_fixed_provider_canary hash_runtime failing new_process).1

run-settles_example :
    (is_terminal after_failure.state ≡ true)
    × (run_fixed_provider_canary hash_runtime answering after_failure
        ≡ (raise (provider_canary_error "provider_canary_already_terminal"), after_failure))
run-settles_example = run-settles hash_runtime failing answering new_process refl refl refl

verify-run_example :
    (response : String) × (v : ProviderConnectivityEvidence) × (streamed answering ≡ ok response)
    × (verify_provider_receipt hash_runtime (entry_of answered_receipt) ≡ ok v)
    × (v.receipt_id ≡ answered_receipt.receipt_id)
    × (v.response_sha256 ≡ hash_runtime.sha256 response)
    × (v.response_character_count ≡ char_count response)
unfolding member
verify-run_example =
    verify-run hash_runtime hash_runtime-IsDigest answering new_process answered_receipt
      (entry_of answered_receipt) "2026-08-23" answered refl refl refl
