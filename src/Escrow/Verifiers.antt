-- ===== src/Escrow/Verifiers.antt =====
-- sapphire-escrow/src/verifiers.rs: the verifiers that come with the program. The hash is that of
-- the crate sha2, a parameter.
use project_sapphire.Base.{ok, sym, ◌∙◌, ◌≡◌, true, ◌==◌, ==_iff, nat_ord, list_ord, length, ap}
use project_sapphire.Core.{Bytes}
use project_sapphire.Escrow.{EscrowTerms, ConditionVerifier, SettlementIntent, validate_settlement}
use project_sapphire.Escrow.Laws.{validate_settlement-cases}

-- `AcceptAll`
abbrev pub accept_all : ConditionVerifier
accept_all = record { Witness = Unit {0}; verify = λ terms witness. true }

module _ (sha256 : Bytes → Bytes) where
  -- `HashPreimage::digest`
  abbrev pub digest : Bytes → Bytes
  digest preimage = sha256 preimage

  -- `HashPreimage`
  abbrev pub hash_preimage : ConditionVerifier
  hash_preimage = record {
    Witness = Bytes;
    verify = λ terms witness. terms.condition == digest witness;
  }

  -- Where digests have 32 bytes: a release that is accepted under `HashPreimage` reveals a preimage
  -- of the condition, and a condition that has not 32 bytes releases nothing.
  pub settlement-hash_preimage :
      (terms : EscrowTerms) (intent : SettlementIntent Bytes)
      → ((preimage : Bytes) → length (sha256 preimage) ≡ 32)
      → validate_settlement hash_preimage terms intent ≡ ok tt
      → (sha256 intent.witness ≡ terms.condition) × (length terms.condition ≡ 32)
  settlement-hash_preimage terms intent long accepted =
      let (_, _, holds) = (validate_settlement-cases hash_preimage terms intent).0.0 accepted in
      let p : terms.condition ≡ sha256 intent.witness =
        (==_iff terms.condition (sha256 intent.witness)).0 holds in
      (sym p, ap length p ∙ long intent.witness)
