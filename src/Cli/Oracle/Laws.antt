-- ===== src/Cli/Oracle/Laws.antt =====
-- The verdict of the command `oracle`, against the policy of the nodes and at its defaults.
use text.Mathlib.Text
use project_sapphire.Base.{
  subst, ◌≡◌, ◌↔◌, refl, some, String, Result, ok, err, map_err, arith, if_elim,
}
use project_sapphire.Base.Map.{get}
use project_sapphire.Core.{Bytes}
use project_sapphire.Escrow.{
  EscrowTerms, SettlementIntent, EscrowError, validate_settlement, validate_refund,
}
use project_sapphire.Escrow.Laws.{validate_settlement-cases}
use project_sapphire.Base.{==_iff, nat_ord, list_ord}
use project_sapphire.Escrow.Verifiers.{hash_preimage}
use project_sapphire.Node.Policy.{Formats, EscrowPolicy, approve}
use project_sapphire.Cli.Console.{
  Str, Failure, Input, Console, continue, prompt, prompt_u64, IsBlank, next_line-IsBlank,
  prompt-blank, prompt_u64-blank,
}
use project_sapphire.Cli.Oracle.{
  Verdict, release, refund, propose_release, propose_refund, cmd_oracle, exit_code, terms_of,
  payment_of,
}

-- What holds of the verdict, where there is one.
unfoldable Ensures : (Verdict → Type 0) → Result (Verdict × Input) Failure → Type 0
Ensures P (ok (verdict, _)) = P verdict
Ensures P (err _) = Unit {0}

continue-Ensures :
    {A : Type 0} (P : Verdict → Type 0) (m : Result (A × Input) Failure)
    (next : A → Console Verdict)
    → ((a : A) (rest : Input) → Ensures P (next a rest))
    → Ensures P (continue m next)
unfolding Ensures
continue-Ensures P (ok (a, rest)) next h = h a rest
continue-Ensures P (err _) next h = tt

ends :
    (P : Verdict → Type 0) (verdict : Verdict) (rest : Input)
    → P verdict
    → Ensures P (ok (verdict, rest))
unfolding Ensures
ends P verdict rest h = h

fails : (P : Verdict → Type 0) (e : Failure) → Ensures P (err e)
unfolding Ensures
fails P e = tt

exit_code-release_iff :
    (to_string : EscrowError → String) (terms : EscrowTerms) (intent : SettlementIntent Bytes)
    (verdict : Result (Unit {0}) EscrowError) (rest : Input)
    → (exit_code (ok (release terms intent verdict, rest)) ≡ 0)
      ↔ (map_err to_string verdict ≡ ok tt)
unfolding exit_code
exit_code-release_iff to_string terms intent (ok _) rest = (λ _. refl, λ _. refl)
exit_code-release_iff to_string terms intent (err e) rest = (λ h. absurd (omega arith), λ h. cc)

module _ (S : Str) (sha256 : Bytes → Bytes) where
  -- The verdict is that of the predicate.
  abbrev Judged : Verdict → Type 0
  Judged (release terms intent r) = r ≡ validate_settlement (hash_preimage sha256) terms intent
  Judged (refund terms intent height r) = r ≡ validate_refund terms intent height

  propose_release-Judged :
      (terms : EscrowTerms) (secret : String) (input : Input)
      → Ensures Judged (propose_release S sha256 terms secret input)
  unfolding propose_release
  propose_release-Judged terms secret input =
      continue-Ensures Judged (prompt S terms.payee.text input) _ (λ to rest.
        continue-Ensures Judged (prompt_u64 S terms.amount.amount rest) _ (λ pay_amount rest.
          continue-Ensures Judged (prompt S secret rest) _
            (λ revealed rest. ends Judged _ rest refl)))

  propose_refund-Judged :
      (terms : EscrowTerms) (input : Input) → Ensures Judged (propose_refund S sha256 terms input)
  unfolding propose_refund
  propose_refund-Judged terms input =
      continue-Ensures Judged (prompt S terms.refund_to.text input) _ (λ to rest.
        continue-Ensures Judged (prompt_u64 S terms.amount.amount rest) _ (λ pay_amount rest.
          continue-Ensures Judged (prompt_u64 S terms.timeout_height rest) _
            (λ current_height rest. ends Judged _ rest refl)))

  cmd_oracle-Judged : (input : Input) → Ensures Judged (cmd_oracle S sha256 input)
  unfolding cmd_oracle
  cmd_oracle-Judged input = continue-Ensures Judged (prompt_u64 S 800000000 input) _ (λ amount rest.
      continue-Ensures Judged (prompt S "u_alice" rest) _ (λ payee rest.
        continue-Ensures Judged (prompt S "u_bob" rest) _ (λ refund_to rest.
          continue-Ensures Judged (prompt_u64 S 1000 rest) _ (λ timeout_height rest.
            continue-Ensures Judged (prompt S "open sesame" rest) _ (λ secret rest.
              continue-Ensures Judged (prompt S "release" rest) _ (λ action rest.
                if_elim (λ (c : Console Verdict). Ensures Judged (c rest))
                  (Text.◌==◌ action "release") (λ _. propose_release-Judged _ secret rest)
                  (λ _.
                    if_elim (λ (c : Console Verdict). Ensures Judged (c rest))
                      (Text.◌==◌ action "refund") (λ _. propose_refund-Judged _ rest)
                      (λ _. fails Judged _))))))))

  release-Judged :
      (terms : EscrowTerms) (intent : SettlementIntent Bytes)
      (verdict : Result (Unit {0}) EscrowError) (rest : Input)
      → Ensures Judged (ok (release terms intent verdict, rest))
      → verdict ≡ validate_settlement (hash_preimage sha256) terms intent
  unfolding Ensures
  release-Judged _ _ _ _ h = h

  -- Where the command prints a verdict on a release, a node that holds the printed terms comes to
  -- the same verdict on the proposal of the printed intent, with the text of the same error; and the
  -- command exits with 0 exactly if the node approves.
  pub cmd_oracle-agrees :
      (input rest : Input) (terms : EscrowTerms) (intent : SettlementIntent Bytes)
      (verdict : Result (Unit {0}) EscrowError) (F : Formats (hash_preimage sha256))
      (p : EscrowPolicy) (message : Bytes)
      → cmd_oracle S sha256 input ≡ ok (release terms intent verdict, rest)
      → F.from_slice message ≡ ok (record { escrow_id = terms.escrow_id; intent = intent })
      → get terms.escrow_id p.escrows ≡ some terms
      → (approve F p message ≡ map_err F.to_string verdict)
        × ((exit_code (cmd_oracle S sha256 input) ≡ 0) ↔ (approve F p message ≡ ok tt))
  unfolding approve exit_code
  cmd_oracle-agrees input rest terms intent verdict F p message h decoded known =
      let judged : verdict ≡ validate_settlement (hash_preimage sha256) terms intent =
        release-Judged terms intent verdict rest
          (subst (λ r. Ensures Judged r) h (cmd_oracle-Judged input)) in
      let same : approve F p message ≡ map_err F.to_string verdict = rw (decoded, known, judged) in
      (same, rw (same, h) (exit_code-release_iff F.to_string terms intent verdict rest))

  -- Whoever keeps every default, by blank lines or at the end of the input, gets a release that
  -- the predicate accepts, and the exit code 0.
  pub cmd_oracle-blank :
      (input : Input) → IsBlank S input → exit_code (cmd_oracle S sha256 input) ≡ 0
  unfolding cmd_oracle propose_release exit_code
  cmd_oracle-blank input blank0 =
      let blank1 = next_line-IsBlank S _ blank0 in
      let blank2 = next_line-IsBlank S _ blank1 in
      let blank3 = next_line-IsBlank S _ blank2 in
      let blank4 = next_line-IsBlank S _ blank3 in
      let blank5 = next_line-IsBlank S _ blank4 in
      let blank6 = next_line-IsBlank S _ blank5 in
      let blank7 = next_line-IsBlank S _ blank6 in
      let blank8 = next_line-IsBlank S _ blank7 in
      let terms = terms_of 800000000 "u_alice" "u_bob" 1000 (sha256 (S.as_bytes "open sesame")) in
      let intent : SettlementIntent Bytes = record {
        payment = payment_of 800000000 "u_alice";
        witness = S.as_bytes "open sesame";
      } in
      let holds = (==_iff terms.condition (sha256 intent.witness)).1 refl in
      let accepted =
        (validate_settlement-cases (hash_preimage sha256) terms intent).0.1 (refl, refl, holds) in
      rw (prompt_u64-blank S 800000000 _ (omega arith) blank0) (
        rw (prompt-blank S "u_alice" _ blank1) (
          rw (prompt-blank S "u_bob" _ blank2) (
            rw (prompt_u64-blank S 1000 _ (omega arith) blank3) (
              rw (prompt-blank S "open sesame" _ blank4) (
                rw (prompt-blank S "release" _ blank5) (
                  rw (prompt-blank S "u_alice" _ blank6) (
                    rw (prompt_u64-blank S 800000000 _ (omega arith) blank7)
                      (rw (prompt-blank S "open sesame" _ blank8) (rw accepted)))))))))
