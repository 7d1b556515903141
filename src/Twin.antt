-- ===== src/Twin.antt =====
-- operational_twin.py: the comparison of the registered transitions.
use vice_ceo_proof_carrying.Events.Types.{SyntheticEvent, canonical_payload}
use vice_ceo_proof_carrying.Fixtures.{
  Case, CaseResult, SyntheticFixtureDigest, case_allowed, case_denied, digest_of,
  get_synthetic_fixture_digest, password_reset_case, password_reset_id, read_synthetic_case,
  registered_digest, registered_readable,
}
use vice_ceo_proof_carrying.Json.{is_listed}
use vice_ceo_proof_carrying.Outcome.{
  Result, ok, operational_twin_error, raise, require, ◌>>=◌, ◌>>◌,
}
use vice_ceo_proof_carrying.Prelude.{
  Bool, List, String, [], false, if◌then◌else◌, nat_eq, refl, string_eq, true, ◌&&◌, ◌==◌, ◌∷◌, ◌≡◌,
}
use vice_ceo_proof_carrying.Runtime.{Runtime}
use vice_ceo_proof_carrying.Text.{append, first, join}

abbrev pub operational_twin_version : String
operational_twin_version = "vice-ceo-demo-operational-twin-v1"

pub record SyntheticTransitionForecast : Type 0 where
  pub transition : String
  pub operational_state : String
  pub reversible : Bool
  pub requires_action_warrant : Bool
  pub external_effect : Bool
  pub persistent_write : Bool
  pub forecast_basis : String
  pub known_limitations : List String

pub record OperationalTwinAnalysis : Type 0 where
  pub analysis_id : String
  pub run_id : String
  pub event_id : String
  pub tenant : String
  pub operational_twin_version : String
  pub source_reference_sha256 : String
  pub fixture_reference_sha256 : String
  pub current_operational_state : String
  pub alternatives : List SyntheticTransitionForecast
  pub recommended_transition : String
  pub recommendation_reason_code : String
  pub business_outcome_prediction : String
  pub confidence_claim : String

abbrev forecast_of : String → String → SyntheticTransitionForecast
forecast_of transition limit = record {
  transition = transition;
  operational_state = transition;
  reversible = true;
  requires_action_warrant = true;
  external_effect = false;
  persistent_write = false;
  forecast_basis = "registered_synthetic_transition_contract";
  known_limitations = limit ∷ "does_not_predict_business_outcome" ∷ [];
}

-- `_forecast`
unfoldable pub forecast : String → Result SyntheticTransitionForecast
forecast transition =
    if transition == "triaged"
    then ok (forecast_of "triaged" "does_not_change_a_real_ticket")
    else if transition == "resolution_prepared"
    then ok (forecast_of "resolution_prepared" "does_not_send_a_response")
    else raise (operational_twin_error "unsupported_synthetic_transition")

-- `tuple(_forecast(transition) for transition in transitions)`
unfoldable pub forecasts : List String → Result (List SyntheticTransitionForecast)
unfolding forecast
forecasts [] = ok []
forecasts (t ∷ ts) = do f ← forecast t; fs ← forecasts ts; ok (f ∷ fs)

all_listed : List String → List String → Bool
unfolding is_listed
all_listed [] names = true
all_listed (t ∷ ts) names = is_listed t names && all_listed ts names

-- `set(transitions) == {"triaged", "resolution_prepared"}`
unfoldable pub is_twin_contract : List String → Bool
unfolding all_listed is_listed
is_twin_contract ts =
    all_listed ts ("triaged" ∷ "resolution_prepared" ∷ [])
    && all_listed ("triaged" ∷ "resolution_prepared" ∷ []) ts

-- The analysis of an event and a run, from the case, its forecasts and its digest.
unfoldable pub analysis_of :
    Runtime
    → SyntheticEvent
    → String
    → Case
    → List SyntheticTransitionForecast
    → SyntheticFixtureDigest
    → OperationalTwinAnalysis
unfolding append first join
analysis_of rt e run_id c options fixture =
    let source_reference = rt.sha256 (canonical_payload e) in
    let seed = join "|" (
      run_id ∷ e.event_id ∷ source_reference ∷ fixture.fixture_sha256 ∷ operational_twin_version
      ∷ []) in
    record {
      analysis_id = append "twin_" (first 20 (rt.sha256 seed));
      run_id = run_id;
      event_id = e.event_id;
      tenant = c.tenant;
      operational_twin_version = operational_twin_version;
      source_reference_sha256 = source_reference;
      fixture_reference_sha256 = fixture.fixture_sha256;
      current_operational_state = "requested";
      alternatives = options;
      recommended_transition = "resolution_prepared";
      recommendation_reason_code = "synthetic_maximum_safe_progression";
      business_outcome_prediction = "not_predicted_synthetic_only";
      confidence_claim = "not_applicable_deterministic_fixture_contract";
    }

abbrev known_case : CaseResult → Result Case
known_case (case_denied reason message) =
    raise (operational_twin_error "synthetic_case_evidence_unavailable")
known_case (case_allowed c) = ok c

-- `compare_synthetic_support_options`
unfoldable pub compare_synthetic_support_options :
    Runtime → SyntheticEvent → String → Result OperationalTwinAnalysis
unfolding forecasts is_twin_contract
compare_synthetic_support_options rt e run_id = do
  c ← known_case (read_synthetic_case e.case_id)
  require (is_twin_contract c.allowed_transitions)
      (operational_twin_error "unexpected_synthetic_transition_contract")
  options ← forecasts c.allowed_transitions
  fixture ← get_synthetic_fixture_digest rt e.case_id
  ok (analysis_of rt e run_id c options fixture)

-- The two forecasts of the registered case.
abbrev registered_forecasts : List SyntheticTransitionForecast
registered_forecasts =
    forecast_of "triaged" "does_not_change_a_real_ticket"
    ∷ forecast_of "resolution_prepared" "does_not_send_a_response"
    ∷ []

unfoldable pub twin_of : Runtime → SyntheticEvent → String → OperationalTwinAnalysis
twin_of rt e run_id =
    analysis_of rt e run_id password_reset_case registered_forecasts
      (digest_of rt e.case_id password_reset_case)

-- The analysis of an event of the registered case.
pub compare-registered :
    (rt : Runtime) (e : SyntheticEvent) (run_id : String)
    → e.case_id ≡ password_reset_id
    → compare_synthetic_support_options rt e run_id ≡ ok (twin_of rt e run_id)
unfolding compare_synthetic_support_options twin_of
compare-registered rt e run_id h =
    rw (registered_readable e.case_id h, registered_digest rt e.case_id h) refl
