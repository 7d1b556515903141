-- ===== src/Trust/Engine/Earned.antt =====
-- trust_engine.py: what stands behind earned trust.
-- A receipt of the supported version counts only as a verified simulation of the one tenant.
use vice_ceo_proof_carrying.Json.{is_listed}
use vice_ceo_proof_carrying.Prelude.{
  Bool, List, String, [], arith, eq_iff, false, if◌then◌else◌, inl, inr, length, length-append,
  nat_eq, not, refl, string_eq, true, ℕ, ◌&&◌, ◌+◌, ◌==◌, ◌||◌, ◌↔◌, ◌∷◌, ◌≡◌, ◌≤◌, ◌⊎◌,
}
use vice_ceo_proof_carrying.Runtime.{Runtime}
use vice_ceo_proof_carrying.Support.Loop.{OutcomeReceipt}
use vice_ceo_proof_carrying.Trust.Engine.{
  Tally, assess_synthetic_trust, earned_for_synthetic_simulation, failure_weight, is_supported,
  is_verified_simulation, judged, note_receipt, nothing_noted, scan_receipts, sole, tally_of,
  verified_weight,
}
use vice_ceo_proof_carrying.Trust.Engine.Suspended.{scan_grows, tally_of-append}

unfoldable pub is_trusted : String → OutcomeReceipt → Bool
is_trusted x r = not (is_supported r) || (is_verified_simulation r && r.tenant == x)

unfoldable pub all_trusted : String → List OutcomeReceipt → Bool
unfolding is_trusted
all_trusted x [] = true
all_trusted x (r ∷ rs) = is_trusted x r && all_trusted x rs

unfoldable pub supported_count : List OutcomeReceipt → ℕ
supported_count [] = 0
supported_count (r ∷ rs) = (if is_supported r then 1 else 0) + supported_count rs

both_true : (a b : Bool) → (a && b) ≡ true → (a ≡ true) × (b ≡ true)
both_true a b h = ground arith

module _ (rt : Runtime) where
  step_sole :
      (r : OutcomeReceipt) (t : Tally) (x : String)
      → t.tenants ≡ x ∷ []
      → length (note_receipt rt r t).tenants ≤ 1
      → tally_of failure_weight (note_receipt rt r t).evidence ≡ 0
      → (is_trusted x r ≡ true)
        × ((note_receipt rt r t).tenants ≡ x ∷ [])
        × (tally_of verified_weight (note_receipt rt r t).evidence
            ≡ (if is_supported r then 1 else 0) + tally_of verified_weight t.evidence)
  unfolding is_trusted note_receipt is_listed tally_of
  step_sole r t x h one clean = grind (arith, tally_of-append rt, length-append, eq_iff r.tenant x)

  scan_sole :
      (rs : List OutcomeReceipt) (t : Tally) (x : String)
      → t.tenants ≡ x ∷ []
      → length (scan_receipts rt rs t).tenants ≤ 1
      → tally_of failure_weight (scan_receipts rt rs t).evidence ≡ 0
      → (all_trusted x rs ≡ true)
        × (tally_of verified_weight (scan_receipts rt rs t).evidence
            ≡ supported_count rs + tally_of verified_weight t.evidence)
  unfolding all_trusted supported_count scan_receipts
  scan_sole [] t x h one clean = (refl, omega arith)
  scan_sole (r ∷ rs) t x h one clean =
      let (few, sound) = scan_grows rt rs (note_receipt rt r t) in
      let (good, kept, counted) =
        step_sole r t x h (omega (arith, few, one)) (omega (arith, sound, clean)) in
      let (rest, total) = scan_sole rs (note_receipt rt r t) x kept one clean in
      (rw (good, rest) refl, omega (arith, counted, total))

  step_none :
      (r : OutcomeReceipt) (t : Tally)
      → t.tenants ≡ []
      → length (note_receipt rt r t).tenants ≤ 1
      → tally_of failure_weight (note_receipt rt r t).evidence ≡ 0
      → (is_trusted r.tenant r ≡ true)
        × (tally_of verified_weight (note_receipt rt r t).evidence
            ≡ (if is_supported r then 1 else 0) + tally_of verified_weight t.evidence)
        × (((is_supported r ≡ false) × ((note_receipt rt r t).tenants ≡ []))
            ⊎ ((note_receipt rt r t).tenants ≡ r.tenant ∷ []))
  unfolding is_trusted note_receipt is_listed tally_of
  step_none r t h one clean =
      grind (arith, tally_of-append rt, length-append, eq_iff r.tenant r.tenant)

  Earned : List OutcomeReceipt → Tally → Type 0
  Earned rs t =
      (x : String) × (all_trusted x rs ≡ true)
      × (tally_of verified_weight (scan_receipts rt rs t).evidence
          ≡ supported_count rs + tally_of verified_weight t.evidence)

  untrusted_kept :
      (x : String) (r : OutcomeReceipt) → is_supported r ≡ false → is_trusted x r ≡ true
  unfolding is_trusted
  untrusted_kept x r old = rw old

  scan_none :
      (rs : List OutcomeReceipt) (t : Tally)
      → t.tenants ≡ []
      → length (scan_receipts rt rs t).tenants ≤ 1
      → tally_of failure_weight (scan_receipts rt rs t).evidence ≡ 0
      → Earned rs t
  unfolding all_trusted supported_count scan_receipts Earned
  scan_none [] t h one clean = ("", refl, omega arith)
  scan_none (r ∷ rs) t h one clean =
      let (few, sound) = scan_grows rt rs (note_receipt rt r t) in
      let (good, counted, next) =
        step_none r t h (omega (arith, few, one)) (omega (arith, sound, clean)) in
      elim next [
        | inl (old, still) ↦
            let (x, rest, total) = scan_none rs (note_receipt rt r t) still one clean in
            (x, rw (untrusted_kept x r old, rest) refl, omega (arith, counted, total))
        | inr sole ↦
            let (rest, total) = scan_sole rs (note_receipt rt r t) r.tenant sole one clean in
            (r.tenant, rw (good, rest) refl, omega (arith, counted, total))
      ]

  earned_facts :
      (tenants verified failures : ℕ)
      → (judged tenants verified failures).0 ≡ earned_for_synthetic_simulation
      → (tenants ≤ 1) × (failures ≡ 0) × (3 ≤ verified)
  unfolding judged
  earned_facts tenants verified failures h = ground arith

  Sound : String → Tally → Type 0
  Sound x t = ((t.tenants ≡ []) ⊎ (t.tenants ≡ x ∷ [])) × (tally_of failure_weight t.evidence ≡ 0)

  step_trusted :
      (r : OutcomeReceipt) (t : Tally) (x : String)
      → is_trusted x r ≡ true
      → Sound x t
      → Sound x (note_receipt rt r t)
        × (tally_of verified_weight (note_receipt rt r t).evidence
            ≡ (if is_supported r then 1 else 0) + tally_of verified_weight t.evidence)
  unfolding is_trusted note_receipt is_listed tally_of Sound
  step_trusted r t x good h = grind (arith, tally_of-append rt, length-append, eq_iff r.tenant x)

  scan_trusted :
      (rs : List OutcomeReceipt) (t : Tally) (x : String)
      → all_trusted x rs ≡ true
      → Sound x t
      → Sound x (scan_receipts rt rs t)
        × (tally_of verified_weight (scan_receipts rt rs t).evidence
            ≡ supported_count rs + tally_of verified_weight t.evidence)
  unfolding all_trusted supported_count scan_receipts
  scan_trusted [] t x good h = (h, omega arith)
  scan_trusted (r ∷ rs) t x good h =
      let (head, tail) = both_true (is_trusted x r) (all_trusted x rs) good in
      let (kept, counted) = step_trusted r t x head h in
      let (sound, total) = scan_trusted rs (note_receipt rt r t) x tail kept in
      (sound, omega (arith, counted, total))

  Sound-judged :
      (x : String) (t : Tally) (verified : ℕ)
      → Sound x t
      → 3 ≤ verified
      → (judged (length t.tenants) verified (tally_of failure_weight t.evidence)).0
        ≡ earned_for_synthetic_simulation
  unfolding judged Sound
  Sound-judged x t verified h enough = grind arith

  Behind : List OutcomeReceipt → Type 0
  Behind rs = (x : String) × (all_trusted x rs ≡ true) × (3 ≤ supported_count rs)

  earned_only :
      (rs : List OutcomeReceipt)
      → (assess_synthetic_trust rt rs).trust_state ≡ earned_for_synthetic_simulation
      → Behind rs
  unfolding assess_synthetic_trust Earned tally_of Behind
  earned_only rs h =
      let t = scan_receipts rt rs nothing_noted in
      let (one, clean, enough) =
        earned_facts (length t.tenants) (tally_of verified_weight t.evidence)
          (tally_of failure_weight t.evidence) h in
      let (x, good, total) = scan_none rs nothing_noted refl one clean in
      (x, good, omega (arith, enough, total))

  earned_of :
      (rs : List OutcomeReceipt)
      → Behind rs
      → (assess_synthetic_trust rt rs).trust_state ≡ earned_for_synthetic_simulation
  unfolding assess_synthetic_trust tally_of Sound Behind
  earned_of rs (x, good, enough) =
      let t = scan_receipts rt rs nothing_noted in
      let (sound, total) = scan_trusted rs nothing_noted x good (inl refl, refl) in
      Sound-judged x t (tally_of verified_weight t.evidence) sound (omega (arith, enough, total))

  -- Trust is earned exactly if there is one tenant such that every receipt of the supported version
  -- is a verified simulation for it, and there are at least three such receipts.
  pub earned_iff :
      (rs : List OutcomeReceipt)
      → ((assess_synthetic_trust rt rs).trust_state ≡ earned_for_synthetic_simulation)
        ↔ ((x : String) × (all_trusted x rs ≡ true) × (3 ≤ supported_count rs))
  unfolding Behind
  earned_iff rs = (earned_only rs, earned_of rs)
