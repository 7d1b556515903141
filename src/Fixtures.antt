-- ===== src/Fixtures.antt =====
-- tools.py: the closed set of synthetic cases, their digests, and the simulated transition.
use vice_ceo_proof_carrying.Dict.{Dict, lookup}
use vice_ceo_proof_carrying.Json.{
  Items, Json, array, cons, dumps, field, is_listed, nil, number, object, text, texts,
}
use vice_ceo_proof_carrying.Outcome.{Result, ok, or_raise, value_error, ◌>>=◌}
use vice_ceo_proof_carrying.Prelude.{
  Bool, List, String, [], arith, beq_of_eq, eq_iff, false, if◌then◌else◌, length, map, nat_eq, none,
  refl, some, string_eq, sym, true, ℕ, ◌∷◌, ◌≡◌,
}
use vice_ceo_proof_carrying.Runtime.{Runtime}
use vice_ceo_proof_carrying.Text.{append, char_count, first}

pub record Case : Type 0 where
  pub case_id : String
  pub tenant : String
  pub category : String
  pub customer_display_name : String
  pub request_summary : String
  pub allowed_transitions : List String

abbrev pub password_reset_id : String
password_reset_id = "case_support_password_reset"

abbrev pub password_reset_case : Case
password_reset_case = record {
  case_id = password_reset_id;
  tenant = "demo_tenant_northstar";
  category = "ordinary_support";
  customer_display_name = "Northstar Demo Customer";
  request_summary = "Needs password-reset guidance for the synthetic demo workspace.";
  allowed_transitions = "triaged" ∷ "resolution_prepared" ∷ [];
}

-- `_SYNTHETIC_CASES`
unfoldable pub synthetic_cases : Dict String Case
synthetic_cases = record { entries = (password_reset_id, password_reset_case) ∷ [] }

-- The two answers of `read_synthetic_case`.
pub data CaseResult : Type 0 where
  case_denied : String → String → CaseResult
  case_allowed : Case → CaseResult

unfoldable pub read_synthetic_case : String → CaseResult
unfolding synthetic_cases lookup
read_synthetic_case case_id = elim (lookup synthetic_cases case_id) [
  | none ↦
      case_denied "unknown_or_non_synthetic_case"
        "Only named synthetic fixtures are available in Sprint 1."
  | some c ↦ case_allowed c
]

pub record SyntheticFixtureDigest : Type 0 where
  pub fixture_id : String
  pub fixture_sha256 : String
  pub byte_count : ℕ

pub record SyntheticFixtureManifest : Type 0 where
  pub manifest_id : String
  pub manifest_version : String
  pub fixture_count : ℕ
  pub fixtures : List SyntheticFixtureDigest
  pub manifest_sha256 : String
  pub external_effect : Bool
  pub persistent_write : Bool
  pub production_authority : Bool

abbrev pub synthetic_fixture_manifest_version : String
synthetic_fixture_manifest_version = "vice-ceo-demo-synthetic-fixture-manifest-v1"

abbrev text_items : List String → Items
text_items [] = nil
text_items (s ∷ ss) = cons (text s) (text_items ss)

-- A case as `dumps(case, sort_keys=True, ...)` prints it.
case_json : Case → Json
case_json c = object (
    field "allowed_transitions" (array (text_items c.allowed_transitions)) (
      texts (
        ("case_id", c.case_id)
        ∷ ("category", c.category)
        ∷ ("customer_display_name", c.customer_display_name)
        ∷ ("request_summary", c.request_summary)
        ∷ ("tenant", c.tenant)
        ∷ [])))

-- The digest of a registered case.
unfoldable pub digest_of : Runtime → String → Case → SyntheticFixtureDigest
unfolding case_json char_count dumps
digest_of rt case_id c =
    let payload = dumps (case_json c) in
    record {
      fixture_id = case_id;
      fixture_sha256 = rt.sha256 payload;
      byte_count = char_count payload;
    }

unfoldable pub get_synthetic_fixture_digest : Runtime → String → Result SyntheticFixtureDigest
unfolding synthetic_cases lookup
get_synthetic_fixture_digest rt case_id = do
  c ← or_raise (lookup synthetic_cases case_id) (value_error "unknown_or_non_synthetic_case")
  ok (digest_of rt case_id c)

digest_items : List SyntheticFixtureDigest → Items
digest_items [] = nil
digest_items (d ∷ ds) =
    cons
      (object (
        field "byte_count" (number d.byte_count)
          (texts (("fixture_id", d.fixture_id) ∷ ("fixture_sha256", d.fixture_sha256) ∷ []))))
      (digest_items ds)

all_digests : Runtime → List String → Result (List SyntheticFixtureDigest)
unfolding get_synthetic_fixture_digest
all_digests rt [] = ok []
all_digests rt (i ∷ is) = do
  d ← get_synthetic_fixture_digest rt i
  ds ← all_digests rt is
  ok (d ∷ ds)

-- The set has one case, so `sorted` leaves its ids as they are.
unfoldable pub build_synthetic_fixture_manifest : Runtime → Result SyntheticFixtureManifest
unfolding all_digests digest_of digest_items synthetic_cases append first dumps
build_synthetic_fixture_manifest rt = do
  fixtures ← all_digests rt (map (λ e. e.0) synthetic_cases.entries)
  let manifest_sha256 = rt.sha256 (dumps (array (digest_items fixtures)))
  ok (record {
    manifest_id = append "synthetic_fixture_manifest_" (first 20 manifest_sha256);
    manifest_version = synthetic_fixture_manifest_version;
    fixture_count = length fixtures;
    fixtures = fixtures;
    manifest_sha256 = manifest_sha256;
    external_effect = false;
    persistent_write = false;
    production_authority = false;
  })

-- What `prepare_simulated_ticket_transition` returns.
pub record SimulationReceipt : Type 0 where
  pub reason_code : String
  pub case_id : String
  pub tenant : String
  pub transition : String
  pub external_effect : Bool
  pub persistent_write : Bool

pub data Simulation : Type 0 where
  simulation_denied : String → Simulation
  simulated : SimulationReceipt → Simulation

unfoldable pub prepare_simulated_ticket_transition : String → String → Simulation
unfolding synthetic_cases lookup is_listed
prepare_simulated_ticket_transition case_id transition = elim (lookup synthetic_cases case_id) [
  | none ↦ simulation_denied "unknown_or_non_synthetic_case"
  | some c ↦
      if is_listed transition c.allowed_transitions
      then simulated (record {
        reason_code = "sprint_1_synthetic_only";
        case_id = case_id;
        tenant = c.tenant;
        transition = transition;
        external_effect = false;
        persistent_write = false;
      })
      else simulation_denied "synthetic_transition_not_allowed"
]

-- The cases that can be read are exactly the registered one.
pub read_synthetic_case_allowed :
    (i : String) (c : Case)
    → read_synthetic_case i ≡ case_allowed c
    → (i ≡ password_reset_id) × (c ≡ password_reset_case)
unfolding read_synthetic_case
read_synthetic_case_allowed i c h = ground (arith, eq_iff password_reset_id i)

-- The tool simulates a transition exactly where the case that can be read lists it.
pub prepare-read_synthetic_case :
    (i t : String) (c : Case)
    → read_synthetic_case i ≡ case_allowed c
    → is_listed t c.allowed_transitions ≡ true
    → prepare_simulated_ticket_transition i t
      ≡ simulated (record {
        reason_code = "sprint_1_synthetic_only";
        case_id = i;
        tenant = c.tenant;
        transition = t;
        external_effect = false;
        persistent_write = false;
      })
unfolding read_synthetic_case prepare_simulated_ticket_transition
prepare-read_synthetic_case i t c h listed = ground arith

-- The registered case has a digest.
pub registered_digest :
    (rt : Runtime) (i : String)
    → i ≡ password_reset_id
    → get_synthetic_fixture_digest rt i ≡ ok (digest_of rt i password_reset_case)
unfolding get_synthetic_fixture_digest
registered_digest rt i h = rw (beq_of_eq password_reset_id i (sym h)) refl

pub registered_readable :
    (i : String) → i ≡ password_reset_id → read_synthetic_case i ≡ case_allowed password_reset_case
unfolding read_synthetic_case
registered_readable i h = rw h refl
