-- ===== src/Business/Service/Once.antt =====
-- business_actions.py: a message is delivered once.
use vice_ceo_proof_carrying.Business.Service.{
  BusinessRequest, ServiceState, deliver_once, prepare, send,
}
use vice_ceo_proof_carrying.Business.Types.{BusinessActionReceipt, PreparedBusinessMessage}
use vice_ceo_proof_carrying.Json.{is_listed}
use vice_ceo_proof_carrying.Outcome.{Action, Result, Result-cases, ok, raise}
use vice_ceo_proof_carrying.Prelude.{
  Bool-cases, List, String, [], ap, arith, false, if◌then◌else◌, inl, inr, nat_eq, refl, string_eq,
  sym, true, ℕ, ◌+◌, ◌==◌, ◌∙◌, ◌∷◌, ◌≡◌, ◌≤◌, ◌⊎◌,
}
use vice_ceo_proof_carrying.Runtime.{Runtime}

module _ {Channel : Type 0}
    (deliver : PreparedBusinessMessage → Action Channel BusinessActionReceipt) (rt : Runtime)
    (business : String) where
  -- How many of the requests, made one after another, are answered with a receipt for a message with
  -- the given key.
  receipt_weight : String → Result PreparedBusinessMessage → Result BusinessActionReceipt → ℕ
  receipt_weight k (ok m) (ok receipt) = if m.idempotency_key == k then 1 else 0
  receipt_weight k (ok m) (raise e) = 0
  receipt_weight k (raise e) r = 0

  pub receipts : String → List BusinessRequest → ServiceState deliver → ℕ
  unfolding receipt_weight
  receipts k [] s = 0
  receipts k (r ∷ rs) s =
      receipt_weight k (prepare rt business r) (send deliver rt business r s).0
      + receipts k rs (send deliver rt business r s).1

  -- One call: it answers with a receipt for `k` at most once, only if `k` was not completed, and
  -- then `k` is completed; what was completed stays so.
  Counted : String → List String → ℕ → List String → Type 0
  Counted k before n after =
      ((n ≡ 0) ⊎ ((n ≡ 1) × (is_listed k before ≡ false) × (is_listed k after ≡ true)))
      × (is_listed k before ≡ true → is_listed k after ≡ true)

  delivered-Counted :
      (k : String) (m : PreparedBusinessMessage) (s : ServiceState deliver)
      → Counted k s.completed_keys
          (receipt_weight k (ok m) (deliver_once deliver m s).0)
          (deliver_once deliver m s).1.completed_keys
  unfolding Counted deliver_once receipt_weight is_listed
  delivered-Counted k m s = elim (Bool-cases (is_listed m.idempotency_key s.completed_keys)) [
    | inl done ↦ rw done (inl refl, λ h. h)
    | inr new ↦ elim (Result-cases (deliver m s.channel).0) [
      | inr (x, failed) ↦ rw (new, failed) (inl refl, λ h. h)
      | inl (receipt, sent) ↦ elim (Bool-cases (m.idempotency_key == k)) [
        | inr other ↦ rw (new, sent, other) (inl refl, λ h. ground (arith, h))
        | inl same ↦
            let eq = (string_eq.beq_iff m.idempotency_key k).0 same in
            let absent = ap (λ x. is_listed x s.completed_keys) (sym eq) ∙ new in
            let present = (string_eq.beq_iff k m.idempotency_key).1 (sym eq) in
            rw (new, sent, same)
              (inr (refl, absent, ground (arith, present)), λ h. ground (arith, present))
      ]
    ]
  ]

  send-Counted :
      (k : String) (r : BusinessRequest) (s : ServiceState deliver)
      → Counted k s.completed_keys
          (receipt_weight k (prepare rt business r) (send deliver rt business r s).0)
          (send deliver rt business r s).1.completed_keys
  unfolding Counted send receipt_weight
  send-Counted k r s = elim (Result-cases (prepare rt business r)) [
    | inr (x, refused) ↦ rw refused (inl refl, λ h. h)
    | inl (m, made) ↦ rw made (delivered-Counted k m s)
  ]

  receipts-completed :
      (k : String) (rs : List BusinessRequest) (s : ServiceState deliver)
      → is_listed k s.completed_keys ≡ true
      → receipts k rs s ≡ 0
  unfolding receipts Counted
  receipts-completed k [] s h = refl
  receipts-completed k (r ∷ rs) s h =
      let (count, kept) = send-Counted k r s in
      let rest = receipts-completed k rs (send deliver rt business r s).1 (kept h) in
      grind (arith, count, rest, h)

  -- In any sequence of requests to one service, over any channel, at most one call is answered with a
  -- receipt for a message with a given idempotency key.
  pub receipts-le-one :
      (k : String) (rs : List BusinessRequest) (s : ServiceState deliver) → receipts k rs s ≤ 1
  unfolding receipts Counted
  receipts-le-one k [] s = omega arith
  receipts-le-one k (r ∷ rs) s =
      let (count, kept) = send-Counted k r s in
      let rest = receipts-le-one k rs (send deliver rt business r s).1 in
      elim count [
        | inl none_sent ↦ omega (arith, none_sent, rest)
        | inr (one, before, after) ↦
            let zero_rest = receipts-completed k rs (send deliver rt business r s).1 after in
            omega (arith, one, zero_rest)
      ]
