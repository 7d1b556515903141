-- ===== src/Registry/Gemini/Confined.antt =====
-- registry_watch.py: what the model's text can reach.
use vice_ceo_proof_carrying.Json.{
  Fields, Json, array, flag, has_exactly, member, null, number, object, text,
}
use vice_ceo_proof_carrying.Outcome.{
  Result, ok, ok_holds, ok_of_bind, ok_of_require, or_raise, raise,
}
use vice_ceo_proof_carrying.Prelude.{
  Option, String, [], false, inl, inr, refl, sym, true, ℕ, ◌∙◌, ◌∷◌, ◌≡◌, ◌⊎◌,
}
use vice_ceo_proof_carrying.Registry.Briefs.{
  SafetyTools, assess_untrusted_registry_excerpt, blocked_brief, deterministic_brief, guarded_brief,
}
use vice_ceo_proof_carrying.Registry.Briefs.Guard.{guarded_brief_blind}
use vice_ceo_proof_carrying.Registry.Gemini.{
  ProviderReply, bounded_at, bounded_model_string, final_text, fits, gemini_brief, model_brief,
  model_json_object, no_response, provider_raised, read_output, schema_checked, texts_of,
}
use vice_ceo_proof_carrying.Registry.Segments.{TextTools}
use vice_ceo_proof_carrying.Registry.Types.{RegistryChange, RegistryImpactBrief}
use vice_ceo_proof_carrying.Runtime.{Runtime}

module _ (rt : Runtime) (tools : TextTools) (loads : String → Option Json) where
  abbrev BoundedPair : String × String → Type 0
  BoundedPair (summary, next_action) = (fits summary 500 ≡ true) × (fits next_action 300 ≡ true)

  bounded_model_string-fits :
      (value : Json) (limit : ℕ) {s : String}
      → bounded_model_string tools value limit ≡ ok s
      → fits s limit ≡ true
  unfolding bounded_model_string
  bounded_model_string-fits (text value) limit h =
      ok_of_require (fits (tools.collapse value) limit) _ _ h
        (λ good rest. ok_holds (λ s. fits s limit ≡ true) rest good)
  bounded_model_string-fits (number n) limit h = absurd (cc h)
  bounded_model_string-fits (flag b) limit h = absurd (cc h)
  bounded_model_string-fits (array items) limit h = absurd (cc h)
  bounded_model_string-fits (object fs) limit h = absurd (cc h)
  bounded_model_string-fits null limit h = absurd (cc h)

  bounded_at-fits :
      (output : Fields) (name : String) (limit : ℕ) {s : String}
      → bounded_at tools output name limit ≡ ok s
      → fits s limit ≡ true
  unfolding bounded_at
  bounded_at-fits output name limit h =
      ok_of_bind (or_raise (member name output) _) _ h
        (λ value p rest. bounded_model_string-fits value limit rest)

  read_output-fits :
      (output : Json) {p : String × String} → read_output tools output ≡ ok p → BoundedPair p
  unfolding read_output
  read_output-fits (object output) h =
      ok_of_require (has_exactly output ("change_summary" ∷ "recommended_next_action" ∷ [])) _ _ h
        (λ exact h1.
          ok_of_bind (bounded_at tools output "change_summary" 500) _ h1 (λ summary short h2.
            ok_of_bind (bounded_at tools output "recommended_next_action" 300) _ h2
              (λ next_action brief h3. ok_holds BoundedPair h3 (
                bounded_at-fits output "change_summary" 500 short,
                bounded_at-fits output "recommended_next_action" 300 brief,
              ))))
  read_output-fits (text s) h = absurd (cc h)
  read_output-fits (number n) h = absurd (cc h)
  read_output-fits (flag b) h = absurd (cc h)
  read_output-fits (array items) h = absurd (cc h)
  read_output-fits null h = absurd (cc h)

  checked_ok :
      (m : Result (String × String)) {p : String × String} → schema_checked m ≡ ok p → m ≡ ok p
  checked_ok (ok q) h = h
  checked_ok (raise e) h = absurd (cc h)

  texts_of-fits :
      (s : String) {p : String × String} → texts_of rt tools loads s ≡ ok p → BoundedPair p
  unfolding texts_of
  texts_of-fits s h =
      ok_of_bind (model_json_object loads s) _ (checked_ok _ h)
        (λ output p rest. read_output-fits output rest)

  -- The change's brief with another mode and other texts.
  abbrev pub reworded : RegistryChange → RegistryImpactBrief → RegistryImpactBrief
  reworded change b = record (deterministic_brief rt change) {
    change_summary = b.change_summary;
    recommended_next_action = b.recommended_next_action;
    model_mode = b.model_mode;
  }

  abbrev IsConfined : RegistryChange → RegistryImpactBrief → Type 0
  IsConfined change b =
      (b ≡ reworded change b)
      × (b.model_mode ≡ "gemini_3_5_flash_adk")
      × (fits b.change_summary 500 ≡ true)
      × (fits b.recommended_next_action 300 ≡ true)

  gemini_brief-IsConfined :
      (reply : ProviderReply) (change : RegistryChange) (b : RegistryImpactBrief)
      → gemini_brief rt tools loads reply change ≡ ok b
      → IsConfined change b
  unfolding gemini_brief model_brief deterministic_brief
  gemini_brief-IsConfined provider_raised change b h = absurd (cc h)
  gemini_brief-IsConfined no_response change b h = absurd (cc h)
  gemini_brief-IsConfined (final_text s) change b h =
      ok_of_bind (texts_of rt tools loads s) _ h (λ (summary, next_action) p rest.
        let (short, brief) = texts_of-fits s p in
        ok_holds (IsConfined change) rest (refl, refl, short, brief))

  module _ (safety : SafetyTools) where
    -- The generator of the configured worker: the model, guarded, with the deterministic fallback.
    unfoldable pub configured_generator :
        ProviderReply → RegistryChange → Result RegistryImpactBrief
    configured_generator reply =
        guarded_brief tools safety (gemini_brief rt tools loads reply)
          (λ change. ok (deterministic_brief rt change))

    -- How the texts of a brief come about.
    abbrev pub IsWorded : RegistryChange → RegistryImpactBrief → Type 0
    IsWorded change b =
        (b ≡ reworded change b)
        × ((((assess_untrusted_registry_excerpt tools safety change.changed_content_excerpt).allowed
                ≡ true)
              × (b.model_mode ≡ "gemini_3_5_flash_adk")
              × (fits b.change_summary 500 ≡ true)
              × (fits b.recommended_next_action 300 ≡ true))
            ⊎ (((assess_untrusted_registry_excerpt tools safety
                    change.changed_content_excerpt).allowed
                  ≡ false)
                × (b ≡ blocked_brief (deterministic_brief rt change))))

    -- Whatever the model answers, a brief of the configured worker is the deterministic brief of the
    -- change but for its mode and two texts: it cites the same source, evidence and excerpt, and draws
    -- no legal conclusion. Either the changed text carries no signal, the mode is the model's and the
    -- texts are not empty and at most 500 and 300 characters long, or it carries one, and the brief is
    -- the fixed fallback.
    pub configured-confined :
        (reply : ProviderReply) (change : RegistryChange) (b : RegistryImpactBrief)
        → configured_generator reply change ≡ ok b
        → IsWorded change b
    unfolding configured_generator blocked_brief
    configured-confined reply change b h =
        elim (guarded_brief_blind tools safety (gemini_brief rt tools loads reply)
          (gemini_brief rt tools loads reply) (λ change. ok (deterministic_brief rt change))
          change) [
            | inl (signal, same, blocked) ↦
                ok_holds (IsWorded change) (sym blocked ∙ h) (refl, inr (signal, refl))
            | inr (clean, same) ↦
                let (kept, mode, short, brief) =
                  gemini_brief-IsConfined reply change b (sym same ∙ h) in
                (kept, inl (clean, mode, short, brief))
          ]
