-- ===== src/Provider/Model.antt =====
-- model_configuration.py: the one accepted model.
use vice_ceo_proof_carrying.Outcome.{Result, gemini_model_configuration_error, ok, require, ◌>>◌}
use vice_ceo_proof_carrying.Prelude.{
  Bool, Option, String, false, nat_eq, none, some, string_eq, true, ◌==◌,
}
use vice_ceo_proof_carrying.Text.{strip}

abbrev pub hackathon_gemini_model : String
hackathon_gemini_model = "gemini-3.5-flash"

abbrev pub gemini_3_5_flash_documentation : String
gemini_3_5_flash_documentation = "https://ai.google.dev/gemini-api/docs/models/gemini-3.5-flash"

pub record GeminiModelConfiguration : Type 0 where
  pub model : String
  pub configured_from : String
  pub required_model : String
  pub official_documentation : String
  pub requirement_satisfied_locally : Bool
  pub provider_call_performed : Bool
  pub cloud_deployment_verified : Bool
  pub production_authority : Bool

-- Where the candidate comes from, and the candidate: the argument, or else the environment's value.
abbrev chosen : Option String → Option String → String × Option String
chosen (some candidate) environment = ("explicit_argument", some candidate)
chosen none (some value) = ("environment", some value)
chosen none none = ("default", none)

-- `candidate.strip() if isinstance(candidate, str) else HACKATHON_GEMINI_MODEL`
abbrev named : Option String → String
named none = hackathon_gemini_model
named (some candidate) = strip candidate

-- `resolve_gemini_model_config`, of an argument and the environment's value.
unfoldable pub resolve_gemini_model_config :
    Option String → Option String → Result GeminiModelConfiguration
resolve_gemini_model_config candidate environment = do
  let (configured_from, picked) = chosen candidate environment
  let model = named picked
  require (model == hackathon_gemini_model)
      (gemini_model_configuration_error "unsupported_hackathon_gemini_model")
  ok (record {
    model = model;
    configured_from = configured_from;
    required_model = hackathon_gemini_model;
    official_documentation = gemini_3_5_flash_documentation;
    requirement_satisfied_locally = true;
    provider_call_performed = false;
    cloud_deployment_verified = false;
    production_authority = false;
  })
