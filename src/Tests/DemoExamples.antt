-- ===== src/Tests/DemoExamples.antt =====
-- The demo over the small scheme: a run for two of three, and what holds of it.
use project_sapphire.Base.{
  ℕ, ◌+◌, ◌*◌, ◌≡◌, refl, subst, sym, ap, ◌∙◌, true, [], ◌∷◌, nat_ord, list_ord, Bool, ◌&&◌, ◌==◌,
  ==_iff, eqb, Result, ok, err, String, EndsIn, if◌then◌else◌, Bool-cases, inl, inr, arith,
}
use project_sapphire.Base.Map.{get, contains_key, insert, remove, key_set, keys, map_eq}
use project_sapphire.Chain.Apply.{
  agrees_with_first, require_group, apply_dkg_begin, apply_dkg_round1, apply_dkg_round2, promote,
  apply_dkg_finalize, apply_submit_request, advance, record_commitment, apply_submit_commitment,
  settle, conclude, record_share, apply_submit_share, apply_tx,
}
use project_sapphire.Chain.State.{r1_complete, r2_complete, finalize_complete}
use project_sapphire.Chain.Sim.{submit, drain, commit_block}
use project_sapphire.Node.Signer.{
  commit, sign_share_rerandomized, emit_commitment, react_awaiting, emit_share, react_signing,
  react_entry, react_requests, react,
}
use project_sapphire.Keygen.Envelope.{seal_envelope, open_envelope}
use project_sapphire.Zcash.Session.{react_validators}
use project_sapphire.Core.{Bytes, new_params}
use project_sapphire.Escrow.{
  ReleaseProposal, same_address, same_amount, Address, Zatoshis, validate_settlement,
}
use project_sapphire.Escrow.Laws.{same_address_iff, same_amount_iff}
use project_sapphire.Escrow.Verifiers.{hash_preimage}
use project_sapphire.Node.Policy.{Formats, with_escrow, approve}
use project_sapphire.Keygen.Participant.{
  DkgScheme, others, start_round1, seal_all, finish_round2, start_round2, open_all, start_finalize,
  react_finalize, react_round2, react_round1, participate, into_node,
}
use project_sapphire.Cli.Demo.{
  Libraries, proposal_to, cmd_escrow_demo, react_block, judge_release, authorize_release,
  judge_tampered, reject_tampered, enroll, enc_keys, dkg_turns, dkg_blocks, into_nodes, form_group,
}
use project_sapphire.Cli.Demo.Enrolled.{IsInjective}
use project_sapphire.Cli.Demo.Refused.{Decodes, IsExpectedOr}
use project_sapphire.Cli.Demo.Run.{Shows, IsRepeated}
use project_sapphire.Cli.Demo.Whole.{cmd_escrow_demo-IsExpected}
use project_sapphire.Tests.Scheme.{scheme, scheme-IsLawful, Fault, zero_share, all_nonzero}
use project_sapphire.Tests.KeygenExamples.{box}

-- The secret of a participant is its identifier.
abbrev protocol : DkgScheme scheme
protocol = record {
  Secret1 = ℕ;
  Secret2 = ℕ;
  Round2Package = ℕ;
  part1 = λ i total threshold rng. (ok (i, i * 10), rng + 1);
  part2 = λ secret packages. ok (secret, packages);
  part3 = λ secret packages received. ok (secret, 7);
  to_vec = λ p. ok (p ∷ []);
  from_slice = λ bytes. ok 1;
}

abbrev Proposal : Type 0
Proposal = ReleaseProposal Bytes

abbrev same_proposal : Proposal → Proposal → Bool
same_proposal p q =
    (p.escrow_id == q.escrow_id)
    && (same_amount p.intent.payment.amount q.intent.payment.amount
        && (same_address p.intent.payment.to q.intent.payment.to
            && (p.intent.witness == q.intent.witness)))

abbrev proposal_of : Bytes → Zatoshis → Address → Bytes → Proposal
proposal_of id amount to witness = record {
  escrow_id = id;
  intent = record { payment = record { amount = amount; to = to }; witness = witness };
}

eq_of_same_proposal : (p q : Proposal) → same_proposal p q ≡ true → p ≡ q
eq_of_same_proposal p q h =
    let a : p.escrow_id ≡ q.escrow_id = ground (arith, ==_iff p.escrow_id q.escrow_id) in
    let b : p.intent.payment.amount ≡ q.intent.payment.amount =
      ground (arith, same_amount_iff p.intent.payment.amount q.intent.payment.amount) in
    let c : p.intent.payment.to ≡ q.intent.payment.to =
      ground (arith, same_address_iff p.intent.payment.to q.intent.payment.to) in
    let d : p.intent.witness ≡ q.intent.witness =
      ground (arith, ==_iff p.intent.witness q.intent.witness) in
    λ i. proposal_of (a i) (b i) (c i) (d i)

abbrev encode : Proposal → Result Bytes String
encode p =
    if same_proposal p (proposal_to "u_alice")
    then ok (1 ∷ [])
    else if same_proposal p (proposal_to "u_attacker")
    then ok (2 ∷ [])
    else err "unknown"

abbrev decode : Bytes → Result Proposal String
decode [] = err "unknown"
decode (b ∷ _) =
    if eqb b 1
    then ok (proposal_to "u_alice")
    else if eqb b 2
    then ok (proposal_to "u_attacker")
    else err "unknown"

abbrev sha : Bytes → Bytes
sha b = b

abbrev formats : Formats (hash_preimage sha)
formats = record { from_slice = decode; hex_encode = λ b. ""; to_string = λ e. "refused" }

abbrev id_of_number : ℕ → Result ℕ Fault
id_of_number i = if eqb i 0 then err zero_share else ok i

abbrev libraries : Libraries scheme
libraries = record {
  try_into = id_of_number;
  random_randomizer = λ rng. (rng, rng + 1);
  serialize = λ s. ok (s ∷ []);
  sha256 = sha;
  formats = formats;
  to_vec = encode;
}

decoded :
    (p q : Proposal) (m n : Bytes)
    → same_proposal p q ≡ true
    → decode n ≡ ok q
    → (let r : Result Bytes String = ok n in r) ≡ ok m
    → decode m ≡ ok p
decoded p q m n same reads h =
    let e : n ≡ m = ground arith in
    let back : decode m ≡ ok q = subst (λ b. decode b ≡ ok q) e reads in
    back ∙ ap (λ x. let r : Result Proposal String = ok x in r) (sym (eq_of_same_proposal p q same))

libraries-Decodes : Decodes libraries
libraries-Decodes p m h = elim (Bool-cases (same_proposal p (proposal_to "u_alice"))) [
  | inl alice ↦ decoded p _ m (1 ∷ []) alice refl (rw alice at h)
  | inr other ↦ elim (Bool-cases (same_proposal p (proposal_to "u_attacker"))) [
    | inl attacker ↦ decoded p _ m (2 ∷ []) attacker refl (rw (other, attacker) at h)
    | inr neither ↦ absurd (ground (arith, rw (other, neither) at h))
  ]
]

ids-IsInjective : IsInjective box protocol libraries
ids-IsInjective i j id h k = ground arith

demo_run :
    cmd_escrow_demo box protocol libraries 2 3 0 0
    ≡ ok (record { signers = (1, tt) ∷ (2, tt) ∷ []; signature = 20; bytes = 20 ∷ [] })
unfolding agrees_with_first require_group apply_dkg_begin apply_dkg_round1 apply_dkg_round2 promote
    apply_dkg_finalize apply_submit_request advance record_commitment apply_submit_commitment settle
    conclude record_share apply_submit_share apply_tx r1_complete r2_complete finalize_complete
    submit drain commit_block commit sign_share_rerandomized emit_commitment react_awaiting
    emit_share react_signing react_entry react_requests react with_escrow approve others
    start_round1 seal_all finish_round2 start_round2 open_all start_finalize react_finalize
    react_round2 react_round1 participate into_node seal_envelope open_envelope react_validators
    key_set keys get contains_key insert remove map_eq validate_settlement new_params react_block
    judge_release authorize_release judge_tampered reject_tampered enroll enc_keys dkg_turns
    dkg_blocks into_nodes form_group cmd_escrow_demo all_nonzero
demo_run = refl

cmd_escrow_demo-IsExpected_example :
    EndsIn
      (IsExpectedOr (IsRepeated box protocol libraries 2 3 0 0))
      (Shows box protocol libraries 2 3 0 0)
      (cmd_escrow_demo box protocol libraries 2 3 0 0)
cmd_escrow_demo-IsExpected_example =
    cmd_escrow_demo-IsExpected box protocol libraries 2 3 0 0 scheme-IsLawful ids-IsInjective
      libraries-Decodes (omega arith) (omega arith)
