-- ===== src/Escrow/Laws.antt =====
-- What the two predicates accept, and which error each of them gives.
use text.Mathlib.TextEquality.{eq_iff}
use project_sapphire.Base.{
  ◌≡◌, ◌≢◌, ◌↔◌, ◌<◌, ◌≤◌, ℕ, true, false, ok, err, ap, eqb→eq, eq→eqb, arith,
}
use project_sapphire.Escrow.{
  Address, Zatoshis, EscrowTerms, SettlementIntent, RefundIntent, ConditionVerifier,
  amount_mismatch, payee_mismatch, condition_not_met, refund_too_early, refund_payee_mismatch,
  validate_settlement, validate_refund, same_address, same_amount,
}

pub same_amount_iff : (a b : Zatoshis) → (same_amount a b ≡ true) ↔ (a ≡ b)
same_amount_iff a b = (
  λ h. ap (λ (n : ℕ). let z : Zatoshis = record { amount = n } in z) (eqb→eq a.amount b.amount h),
  λ p. eq→eqb a.amount b.amount (ap (λ (z : Zatoshis). z.amount) p),
)

pub same_address_iff : (a b : Address) → (same_address a b ≡ true) ↔ (a ≡ b)
same_address_iff a b = (
  λ h. ap (λ t. let z : Address = record { text = t } in z) ((eq_iff a.text b.text).0 h),
  λ p. (eq_iff a.text b.text).1 (ap (λ (z : Address). z.text) p),
)

-- A release is accepted exactly if it moves the escrowed amount to the payee and its witness
-- satisfies the verifier; otherwise the error names the first of these checks that fails.
pub validate_settlement-cases :
    (V : ConditionVerifier) (terms : EscrowTerms) (intent : SettlementIntent V.Witness)
    → ((validate_settlement V terms intent ≡ ok tt) ↔ (
        (intent.payment.amount ≡ terms.amount)
        × (intent.payment.to ≡ terms.payee)
        × (V.verify terms intent.witness ≡ true)))
      × ((validate_settlement V terms intent
            ≡ err (amount_mismatch terms.amount intent.payment.amount))
          ↔ (intent.payment.amount ≢ terms.amount))
      × ((validate_settlement V terms intent ≡ err payee_mismatch)
          ↔ ((intent.payment.amount ≡ terms.amount) × (intent.payment.to ≢ terms.payee)))
      × ((validate_settlement V terms intent ≡ err condition_not_met) ↔ (
          (intent.payment.amount ≡ terms.amount)
          × (intent.payment.to ≡ terms.payee)
          × (V.verify terms intent.witness ≡ false)))
unfolding validate_settlement
validate_settlement-cases V terms intent = ground (
  arith,
  same_amount_iff intent.payment.amount terms.amount,
  same_address_iff intent.payment.to terms.payee,
)

-- A refund is accepted exactly if the height has reached the timeout and it returns the escrowed
-- amount to the refund address; otherwise the error names the first of these checks that fails.
pub validate_refund-cases :
    (terms : EscrowTerms) (intent : RefundIntent) (height : ℕ)
    → ((validate_refund terms intent height ≡ ok tt) ↔ (
        (terms.timeout_height ≤ height)
        × (intent.payment.to ≡ terms.refund_to)
        × (intent.payment.amount ≡ terms.amount)))
      × ((validate_refund terms intent height ≡ err (refund_too_early height terms.timeout_height))
          ↔ (height < terms.timeout_height))
      × ((validate_refund terms intent height ≡ err refund_payee_mismatch)
          ↔ ((terms.timeout_height ≤ height) × (intent.payment.to ≢ terms.refund_to)))
      × ((validate_refund terms intent height
            ≡ err (amount_mismatch terms.amount intent.payment.amount))
          ↔ ((terms.timeout_height ≤ height)
              × (intent.payment.to ≡ terms.refund_to)
              × (intent.payment.amount ≢ terms.amount)))
unfolding validate_refund
validate_refund-cases terms intent height = ground (
  arith,
  same_amount_iff intent.payment.amount terms.amount,
  same_address_iff intent.payment.to terms.refund_to,
)
