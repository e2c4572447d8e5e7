-- ===== src/Cli/Oracle.antt =====
-- sapphire-cli/src/main.rs: `cmd_oracle`. Its hash is that of the crate sha2, a parameter.
pub mod Laws
use text.Mathlib.Text
use project_sapphire.Base.{ℕ, zero, suc, String, Result, ok, err, if◌then◌else◌, List, [], ◌∷◌}
use project_sapphire.Core.{Bytes}
use project_sapphire.Escrow.{
  Address, Zatoshis, EscrowTerms, PaymentLeg, SettlementIntent, RefundIntent, EscrowError,
  validate_settlement, validate_refund,
}
use project_sapphire.Escrow.Verifiers.{hash_preimage, digest}
use project_sapphire.Cli.Console.{
  Str, Failure, unknown_action, Console, Input, ◌>>=◌, throw, prompt, prompt_u64,
}

-- What the command prints: the terms, the settlement, and what the predicate says of it.
pub data Verdict : Type 0 where
  release : EscrowTerms → SettlementIntent Bytes → Result (Unit {0}) EscrowError → Verdict
  -- the height is the third
  refund : EscrowTerms → RefundIntent → ℕ → Result (Unit {0}) EscrowError → Verdict

-- `[b; n]`
abbrev pub repeated : ℕ → ℕ → Bytes
repeated b zero = []
repeated b (suc n) = b ∷ repeated b n

-- `[7u8; 32]`
abbrev pub demo_id : Bytes
demo_id = repeated 7 32

abbrev pub terms_of : ℕ → String → String → ℕ → Bytes → EscrowTerms
terms_of amount payee refund_to timeout_height condition = record {
  escrow_id = demo_id;
  amount = record { amount = amount };
  payee = record { text = payee };
  refund_to = record { text = refund_to };
  timeout_height = timeout_height;
  condition = condition;
}

abbrev pub payment_of : ℕ → String → PaymentLeg
payment_of amount to = record { amount = record { amount = amount }; to = record { text = to } }

module _ (S : Str) (sha256 : Bytes → Bytes) where
  -- The arm "release".
  unfoldable pub propose_release : EscrowTerms → String → Console Verdict
  propose_release terms secret = do
    to ← prompt S terms.payee.text
    pay_amount ← prompt_u64 S terms.amount.amount
    revealed ← prompt S secret
    λ rest.
        let intent : SettlementIntent Bytes = record {
          payment = payment_of pay_amount to;
          witness = S.as_bytes revealed;
        } in
        ok (release terms intent (validate_settlement (hash_preimage sha256) terms intent), rest)

  -- The arm "refund".
  unfoldable pub propose_refund : EscrowTerms → Console Verdict
  propose_refund terms = do
    to ← prompt S terms.refund_to.text
    pay_amount ← prompt_u64 S terms.amount.amount
    current_height ← prompt_u64 S terms.timeout_height
    λ rest.
        let intent : RefundIntent = record { payment = payment_of pay_amount to } in
        ok (refund terms intent current_height (validate_refund terms intent current_height), rest)

  unfoldable pub cmd_oracle : Console Verdict
  cmd_oracle = do
    amount ← prompt_u64 S 800000000
    payee ← prompt S "u_alice"
    refund_to ← prompt S "u_bob"
    timeout_height ← prompt_u64 S 1000
    secret ← prompt S "open sesame"
    action ← prompt S "release"
    let condition = digest sha256 (S.as_bytes secret) in
        let terms = terms_of amount payee refund_to timeout_height condition in
        if Text.◌==◌ action "release"
        then propose_release terms secret
        else if Text.◌==◌ action "refund"
        then propose_refund terms
        else throw (unknown_action action)

-- The exit code of the process: 1 where the predicate refuses, and where `main` returns an error.
unfoldable pub exit_code : Result (Verdict × Input) Failure → ℕ
exit_code (ok (release _ _ (ok _), _)) = 0
exit_code (ok (release _ _ (err _), _)) = 1
exit_code (ok (refund _ _ _ (ok _), _)) = 0
exit_code (ok (refund _ _ _ (err _), _)) = 1
exit_code (err _) = 1
