-- ===== src/Node/Policy.antt =====
-- sapphire-node/src/policy.rs: the gate before a signature.
use project_sapphire.Base.{
  ◌≡◌, ◌↔◌, true, some, [], String, ◌<>◌, Result, ok, ◌>>=◌, ok_or, map_err, ◌==◌, nat_ord,
  list_ord, inl, inr, Bool-cases, map_err-eq-ok, >>=-eq-ok, ok_or-eq-ok, if◌then◌else◌,
}
use project_sapphire.Base.Map.{Map, get, insert}
use project_sapphire.Base.Map.Laws.{get-insert}
use project_sapphire.Core.{Bytes}
use project_sapphire.Escrow.{
  EscrowTerms, ReleaseProposal, ConditionVerifier, EscrowError, validate_settlement,
}
use project_sapphire.Escrow.Laws.{validate_settlement-cases}

-- `trait SignPolicy`
pub record SignPolicy : Type 0 where
  pub approve : Bytes → Result (Unit {0}) String

-- `AcceptAll`
abbrev pub accept_all : SignPolicy
accept_all = record { approve = λ message. ok tt }

-- What the crates serde_json, hex and thiserror provide: the proposal in a message or the text of
-- the error, the digits of an id, the text of an `EscrowError`.
pub record Formats (V : ConditionVerifier) : Type 0 where
  pub from_slice : Bytes → Result (ReleaseProposal V.Witness) String
  pub hex_encode : Bytes → String
  pub to_string : EscrowError → String

-- `EscrowPolicy<V>`, with the verifier as a parameter of what uses it.
pub record EscrowPolicy : Type 0 where
  pub escrows : Map Bytes EscrowTerms

-- `EscrowPolicy::new`
abbrev pub new_policy : EscrowPolicy
new_policy = record { escrows = [] }

unfoldable pub with_escrow : EscrowPolicy → EscrowTerms → EscrowPolicy
with_escrow p terms = record p { escrows = insert terms.escrow_id terms p.escrows }

module _ {V : ConditionVerifier} (F : Formats V) where
  unfoldable pub approve : EscrowPolicy → Bytes → Result (Unit {0}) String
  approve p message = do
    proposal ← map_err (λ e. "message is not a release proposal: " <> e) (F.from_slice message)
    terms ←
        ok_or (get proposal.escrow_id p.escrows)
          ("unknown escrow " <> F.hex_encode proposal.escrow_id)
    map_err F.to_string (validate_settlement V terms proposal.intent)

  -- `impl SignPolicy for EscrowPolicy<V>`
  abbrev pub escrow_policy : EscrowPolicy → SignPolicy
  escrow_policy p = record { approve = approve p }

  -- The policy approves a message exactly if it is a proposal for an escrow that the node knows,
  -- whose payment moves the amount to the payee of the node's own terms for that escrow, and whose
  -- witness satisfies the verifier under these terms.
  pub approve_iff :
      (p : EscrowPolicy) (message : Bytes)
      → (approve p message ≡ ok tt) ↔ (
          (proposal : ReleaseProposal V.Witness) × (terms : EscrowTerms) × (F.from_slice message
            ≡ ok proposal)
          × (get proposal.escrow_id p.escrows ≡ some terms)
          × (proposal.intent.payment.amount ≡ terms.amount)
          × (proposal.intent.payment.to ≡ terms.payee)
          × (V.verify terms proposal.intent.witness ≡ true))
  unfolding approve
  approve_iff p message = (
    (λ h.
        let (proposal, decoded, h') = >>=-eq-ok _ _ h in
        let (terms, found, h'') = ok_or-eq-ok (get proposal.escrow_id p.escrows) _ _ h' in
        let (amount, to, holds) =
          (validate_settlement-cases V terms proposal.intent).0.0 (map_err-eq-ok _ _ h'') in
        (proposal, terms, map_err-eq-ok _ _ decoded, found, amount, to, holds)),
    (λ (proposal, terms, decoded, found, amount, to, holds). rw (
      decoded,
      found,
      (validate_settlement-cases V terms proposal.intent).0.1 (amount, to, holds),
    )),
  )

  -- Registering an escrow decides the proposals for its id, also where another escrow had that id,
  -- and changes nothing for the others.
  pub approve-with_escrow :
      (p : EscrowPolicy) (terms : EscrowTerms) (message : Bytes)
      (proposal : ReleaseProposal V.Witness)
      → F.from_slice message ≡ ok proposal
      → approve (with_escrow p terms) message ≡ (
          if proposal.escrow_id == terms.escrow_id
          then map_err F.to_string (validate_settlement V terms proposal.intent)
          else approve p message)
  unfolding approve with_escrow
  approve-with_escrow p terms message proposal h =
      rw (h, get-insert proposal.escrow_id terms.escrow_id terms p.escrows)
        (elim (Bool-cases (proposal.escrow_id == terms.escrow_id)) [
          | inl same ↦ rw same
          | inr other ↦ rw other
        ])
