-- ===== src/Escrow/Exclusion.antt =====
-- How the two ways out of an escrow relate: not both for one payment, and refunds stay open.
use project_sapphire.Base.{◌≡◌, ◌≢◌, ◌≤◌, ℕ, ok, arith, ◌∙◌, sym}
use project_sapphire.Escrow.{
  EscrowTerms, RefundIntent, ConditionVerifier, validate_settlement, validate_refund, PaymentLeg,
}
use project_sapphire.Escrow.Laws.{validate_settlement-cases, validate_refund-cases}

-- Where the payee is not the one to be refunded, a payment that a release may make is never one
-- that a refund may make, at any height.
pub release-excludes_refund :
    (V : ConditionVerifier) (terms : EscrowTerms) (payment : PaymentLeg) (witness : V.Witness)
    (height : ℕ)
    → terms.payee ≢ terms.refund_to
    → validate_settlement V terms (record { payment = payment; witness = witness }) ≡ ok tt
    → validate_refund terms (record { payment = payment }) height ≢ ok tt
release-excludes_refund V terms payment witness height differ release refund =
    let (_, paid, _) =
      (validate_settlement-cases V terms (record { payment = payment; witness = witness })).0.0
        release in
    let (_, returned, _) =
      (validate_refund-cases terms (record { payment = payment }) height).0.0 refund in
    differ (sym paid ∙ returned)

-- A refund is closed below the timeout, and one that is open stays open at each later height.
pub validate_refund-opens_once :
    (terms : EscrowTerms) (intent : RefundIntent) (height later : ℕ)
    → height ≤ later
    → validate_refund terms intent height ≡ ok tt
    → (terms.timeout_height ≤ height) × (validate_refund terms intent later ≡ ok tt)
validate_refund-opens_once terms intent height later h open_now =
    let (reached, returned, whole) = (validate_refund-cases terms intent height).0.0 open_now in
    (reached, (validate_refund-cases terms intent later).0.1 (omega arith, returned, whole))
