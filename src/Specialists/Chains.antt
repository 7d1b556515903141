-- ===== src/Specialists/Chains.antt =====
-- specialist_protocol.py: handoffs in a row.
use vice_ceo_proof_carrying.Dict.{lookup}
use vice_ceo_proof_carrying.Json.{is_listed}
use vice_ceo_proof_carrying.Outcome.{ok, ok_holds, ok_of_bind, ok_of_require}
use vice_ceo_proof_carrying.Prelude.{
  Bool-cases, List, String, [], arith, eq_iff, eq_of_beq, if◌then◌else◌, inl, inr, length, nat_eq,
  refl, string_eq, suc, sym, true, ℕ, ◌==◌, ◌∷◌, ◌≡◌, ◌≤◌, ◌⊎◌,
}
use vice_ceo_proof_carrying.Runtime.{Runtime}
use vice_ceo_proof_carrying.Specialists.{
  HandoffRequest, SpecialistDefinition, SpecialistHandoff, build_specialist_handoff, check_route,
  owner_escalation, policy_guard, specialist, specialists, support_intake,
}

-- A row of handoffs that are all made, each from the target of the one before.
pub data Chain (rt : Runtime) : String → List HandoffRequest → Type 0 where
  stop : (agent : String) → Chain rt agent []
  pass :
      {qs : List HandoffRequest} (q : HandoffRequest) (h : SpecialistHandoff)
      → build_specialist_handoff rt q ≡ ok h
      → Chain rt q.target_agent qs
      → Chain rt q.source_agent (q ∷ qs)

-- How many handoffs are ahead of a role.
unfoldable pub handoffs_left : String → ℕ
handoffs_left agent =
    if agent == "support_intake" then 2 else if agent == "policy_guard" then 1 else 0

made-passes :
    (rt : Runtime) (q : HandoffRequest) (h : SpecialistHandoff)
    → build_specialist_handoff rt q ≡ ok h
    → (s : SpecialistDefinition) × (specialist q.source_agent ≡ ok s)
      × (is_listed q.target_agent s.allowed_handoff_targets ≡ true)
unfolding build_specialist_handoff check_route
made-passes rt q h made = ok_of_bind (check_route q) _ made (λ done passed rest.
    ok_of_bind (specialist q.source_agent) _ passed (λ s found h1.
      ok_of_bind (specialist q.target_agent) _ h1 (λ t known h2.
        ok_of_require (is_listed q.target_agent s.allowed_handoff_targets) _ _ h2
          (λ listed h3. (s, found, listed)))))

-- The routes of a role, by its name.
Routes : String → List String → Type 0
Routes agent targets =
    ((agent ≡ support_intake) × (targets ≡ policy_guard ∷ []))
    ⊎ (((agent ≡ policy_guard) × (targets ≡ owner_escalation ∷ []))
        ⊎ ((agent ≡ owner_escalation) × (targets ≡ [])))

specialist-Routes :
    (agent : String) (s : SpecialistDefinition)
    → specialist agent ≡ ok s
    → Routes agent s.allowed_handoff_targets
unfolding specialist specialists lookup Routes
specialist-Routes agent s found = elim (Bool-cases (support_intake == agent)) [
  | inl a ↦
      ok_holds (λ x. Routes agent x.allowed_handoff_targets) (rw a at found)
        (inl (sym (eq_of_beq support_intake agent a), refl))
  | inr a ↦ elim (Bool-cases (policy_guard == agent)) [
    | inl b ↦
        ok_holds (λ x. Routes agent x.allowed_handoff_targets) (rw (a, b) at found)
          (inr (inl (sym (eq_of_beq policy_guard agent b), refl)))
    | inr b ↦ elim (Bool-cases (owner_escalation == agent)) [
      | inl c ↦
          ok_holds (λ x. Routes agent x.allowed_handoff_targets) (rw (a, b, c) at found)
            (inr (inr (sym (eq_of_beq owner_escalation agent c), refl)))
      | inr c ↦ absurd (cc (rw (a, b, c) at found))
    ]
  ]
]

only_listed : (target name : String) → is_listed target (name ∷ []) ≡ true → target ≡ name
unfolding is_listed
only_listed target name h = ground (arith, h, eq_iff target name)

-- An allowed route leads to a role with one handoff less ahead.
route-descends :
    (source target : String) (targets : List String)
    → Routes source targets
    → is_listed target targets ≡ true
    → handoffs_left source ≡ suc (handoffs_left target)
unfolding Routes handoffs_left is_listed
route-descends source target targets routes listed = elim routes [
  | inl (from, to) ↦ rw (from, only_listed target policy_guard (rw to at listed)) refl
  | inr (inl (from, to)) ↦ rw (from, only_listed target owner_escalation (rw to at listed)) refl
  | inr (inr (from, to)) ↦ absurd (cc (rw to at listed))
]

-- Handoffs end: in a row of handoffs that are all made, each from the target of the one before, there
-- are at most as many as are ahead of the first role: two for support intake, one for the policy
-- guard, none for owner escalation.
pub handoffs-end :
    {rt : Runtime} {agent : String} {qs : List HandoffRequest}
    → Chain rt agent qs
    → length qs ≤ handoffs_left agent
handoffs-end (stop agent) = omega arith
handoffs-end {rt} (pass q h made rest) =
    let (s, found, listed) = made-passes rt q h made in
    let one_less =
      route-descends q.source_agent q.target_agent s.allowed_handoff_targets
        (specialist-Routes q.source_agent s found) listed in
    omega (arith, one_less, handoffs-end rest)
