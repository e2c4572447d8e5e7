-- ===== src/Escrow.antt =====
-- sapphire-escrow: the terms of an escrow, what may move its funds, and the two predicates.
pub mod Laws
pub mod Verifiers
pub mod Exclusion
use text.Mathlib.Text
use project_sapphire.Base.{ℕ, Bool, not, String, Result, ok, err, ◌>>=◌, ◌>>◌, ensure, eqb, ltb}
use project_sapphire.Core.{Bytes}

-- `Address(pub String)`
pub record Address : Type 0 where
  pub text : String

-- `Zatoshis(pub u64)`
pub record Zatoshis : Type 0 where
  pub amount : ℕ

-- `==` of the two wrappers, derived.
abbrev pub same_address : Address → Address → Bool
same_address a b = Text.◌==◌ a.text b.text

abbrev pub same_amount : Zatoshis → Zatoshis → Bool
same_amount a b = eqb a.amount b.amount

pub record EscrowTerms : Type 0 where
  pub escrow_id : Bytes
  pub amount : Zatoshis
  pub payee : Address
  pub refund_to : Address
  pub timeout_height : ℕ
  pub condition : Bytes

pub record PaymentLeg : Type 0 where
  pub amount : Zatoshis
  pub to : Address

pub record SettlementIntent (W : Type 0) : Type 0 where
  pub payment : PaymentLeg
  pub witness : W

pub record RefundIntent : Type 0 where
  pub payment : PaymentLeg

pub record ReleaseProposal (W : Type 0) : Type 0 where
  pub escrow_id : Bytes
  pub intent : SettlementIntent W

pub record ConditionVerifier : Type 1 where
  pub Witness : Type 0
  pub verify : EscrowTerms → Witness → Bool

pub data EscrowError : Type 0 where
  -- want, got
  amount_mismatch : Zatoshis → Zatoshis → EscrowError
  payee_mismatch : EscrowError
  condition_not_met : EscrowError
  -- current, timeout
  refund_too_early : ℕ → ℕ → EscrowError
  refund_payee_mismatch : EscrowError

unfoldable pub validate_settlement :
    (V : ConditionVerifier)
    → EscrowTerms
    → SettlementIntent V.Witness
    → Result (Unit {0}) EscrowError
validate_settlement V terms intent = do
  ensure (same_amount intent.payment.amount terms.amount)
      (amount_mismatch terms.amount intent.payment.amount)
  ensure (same_address intent.payment.to terms.payee) payee_mismatch
  ensure (V.verify terms intent.witness) condition_not_met
  ok tt

unfoldable pub validate_refund : EscrowTerms → RefundIntent → ℕ → Result (Unit {0}) EscrowError
validate_refund terms intent current_height = do
  ensure (not (ltb current_height terms.timeout_height))
      (refund_too_early current_height terms.timeout_height)
  ensure (same_address intent.payment.to terms.refund_to) refund_payee_mismatch
  ensure (same_amount intent.payment.amount terms.amount)
      (amount_mismatch terms.amount intent.payment.amount)
  ok tt
