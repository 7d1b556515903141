-- ===== src/Trust/Engine/Suspended.antt =====
-- trust_engine.py: a suspension is not lifted by further receipts.
use vice_ceo_proof_carrying.Prelude.{
  List, [], arith, length, length-append, refl, ℕ, ◌++◌, ◌+◌, ◌∷◌, ◌≡◌, ◌≤◌,
}
use vice_ceo_proof_carrying.Runtime.{Runtime}
use vice_ceo_proof_carrying.Support.Loop.{OutcomeReceipt}
use vice_ceo_proof_carrying.Trust.Engine.{
  Classification, Tally, TrustEvidence, assess_synthetic_trust, failure_weight,
  is_verified_simulation, note_receipt, nothing_noted, scan_receipts, suspended, tally_of,
}

module _ (rt : Runtime) where
  pub tally_of-append :
      (weight : Classification → ℕ) (es fs : List TrustEvidence)
      → tally_of weight (es ++ fs) ≡ tally_of weight es + tally_of weight fs
  unfolding tally_of
  tally_of-append weight [] fs = omega arith
  tally_of-append weight (e ∷ es) fs = omega (arith, tally_of-append weight es fs)

  tenants_grow :
      (r : OutcomeReceipt) (t : Tally) → length t.tenants ≤ length (note_receipt rt r t).tenants
  unfolding note_receipt is_verified_simulation
  tenants_grow r t = ground (arith, length-append t.tenants (r.tenant ∷ []))

  failures_grow :
      (r : OutcomeReceipt) (t : Tally)
      → tally_of failure_weight t.evidence ≤ tally_of failure_weight (note_receipt rt r t).evidence
  unfolding note_receipt
  failures_grow r t = grind (arith, tally_of-append)

  -- The loop never drops a tenant or a failure.
  pub scan_grows :
      (rs : List OutcomeReceipt) (t : Tally)
      → (length t.tenants ≤ length (scan_receipts rt rs t).tenants)
        × (tally_of failure_weight t.evidence
            ≤ tally_of failure_weight (scan_receipts rt rs t).evidence)
  unfolding scan_receipts
  scan_grows [] t = (omega arith, omega arith)
  scan_grows (r ∷ rs) t =
      let (tenants, failures) = scan_grows rs (note_receipt rt r t) in
      (omega (arith, tenants, tenants_grow r t), omega (arith, failures, failures_grow r t))

  scan-append :
      (rs more : List OutcomeReceipt) (t : Tally)
      → scan_receipts rt (rs ++ more) t ≡ scan_receipts rt more (scan_receipts rt rs t)
  unfolding scan_receipts
  scan-append [] more t = refl
  scan-append (r ∷ rs) more t = scan-append rs more (note_receipt rt r t)

  -- If an assessment is suspended, the assessment of the same receipts with any others after them is
  -- suspended too.
  pub suspended-append :
      (rs more : List OutcomeReceipt)
      → (assess_synthetic_trust rt rs).trust_state ≡ suspended
      → (assess_synthetic_trust rt (rs ++ more)).trust_state ≡ suspended
  unfolding assess_synthetic_trust
  suspended-append rs more h =
      let t = scan_receipts rt rs nothing_noted in
      let (tenants, failures) = scan_grows more t in
      rw (scan-append rs more nothing_noted) (ground (arith, tenants, failures, h))
