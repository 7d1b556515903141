-- ===== src/Registry/Briefs/Guard.antt =====
-- registry_watch.py: suspicious text does not reach the guarded generator.
use vice_ceo_proof_carrying.Outcome.{ok, ◌>>=◌}
use vice_ceo_proof_carrying.Prelude.{Bool-cases, false, inl, inr, refl, true, ◌≡◌, ◌⊎◌}
use vice_ceo_proof_carrying.Registry.Briefs.{
  Generator, SafetyTools, assess_untrusted_registry_excerpt, blocked_brief, guarded_brief,
}
use vice_ceo_proof_carrying.Registry.Segments.{TextTools}
use vice_ceo_proof_carrying.Registry.Types.{RegistryChange}

module _ (tools : TextTools) (safety : SafetyTools) where
  -- If the changed text carries a signal, the brief is the same whatever generator is guarded, and it
  -- is the fallback's brief with the fixed wording; otherwise it is the generator's brief.
  pub guarded_brief_blind :
      (generator other fallback : Generator) (change : RegistryChange)
      → (((assess_untrusted_registry_excerpt tools safety change.changed_content_excerpt).allowed
            ≡ false)
          × (guarded_brief tools safety generator fallback change
              ≡ guarded_brief tools safety other fallback change)
          × (guarded_brief tools safety generator fallback change
              ≡ (fallback change >>= λ b. ok (blocked_brief b))))
        ⊎ (((assess_untrusted_registry_excerpt tools safety change.changed_content_excerpt).allowed
              ≡ true)
            × (guarded_brief tools safety generator fallback change ≡ generator change))
  unfolding guarded_brief
  guarded_brief_blind generator other fallback change =
      elim (Bool-cases
        (assess_untrusted_registry_excerpt tools safety change.changed_content_excerpt).allowed) [
          | inr signal ↦ inl (signal, rw signal refl, rw signal refl)
          | inl clean ↦ inr (clean, rw clean refl)
        ]
