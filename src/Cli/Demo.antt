-- ===== src/Cli/Demo.antt =====
-- sapphire-cli/src/main.rs: `cmd_escrow_demo`, a key generation over the chain, a release that the
-- validators sign and one that they refuse. What it prints at the release is what it returns.
pub mod Forming
pub mod Formed
pub mod Steady
pub mod Owed
pub mod Ready
pub mod Safe
pub mod Complete
pub mod Enrolled
pub mod Everyone
pub mod Refused
pub mod Run
pub mod Whole
use project_sapphire.Base.{
  ℕ, zero, suc, ◌+◌, Option, none, some, List, [], ◌∷◌, String, Ord, Result, ok, err, ◌>>=◌, ◌>>◌,
  ensure, ok_or, map_err, false,
}
use project_sapphire.Base.Map.{Map, Set, get, insert}
use project_sapphire.Core.{Bytes, Error, Uuid, uuid_ord, MpcParams, new_params}
use project_sapphire.Frost.{Ciphersuite}
use project_sapphire.Chain.Tx.{EncPublicKey, Tx, dkg_begin, submit_request}
use project_sapphire.Chain.State.{
  RequestEntry, RequestStatus, awaiting_commitments, completed, GroupConfig,
}
use project_sapphire.Chain.Sim.{ChainSim, new_sim, submit, commit_block}
use project_sapphire.Chain.Sim.Laws.{submit_all}
use project_sapphire.Escrow.{EscrowTerms, ReleaseProposal}
use project_sapphire.Escrow.Verifiers.{hash_preimage, digest}
use project_sapphire.Node.Policy.{Formats, new_policy, with_escrow, escrow_policy}
use project_sapphire.Node.Signer.{Node, with_policy}
use project_sapphire.Keygen.Envelope.{CryptoBox}
use project_sapphire.Keygen.Participant.{
  DkgScheme, DkgParticipant, DkgError, new_participant, participate, into_node,
}
use project_sapphire.Cli.Oracle.{repeated}
use project_sapphire.Zcash.Session.{react_validators}

-- `[0x5a; 32]`
abbrev pub parcel_id : Bytes
parcel_id = repeated 90 32

-- b"parcel #4417 delivered"
abbrev pub parcel_secret : Bytes
parcel_secret =
    112 ∷ 97 ∷ 114 ∷ 99 ∷ 101 ∷ 108 ∷ 32 ∷ 35 ∷ 52 ∷ 52 ∷ 49 ∷ 55 ∷ 32 ∷ 100 ∷ 101 ∷ 108 ∷ 105 ∷ 118
    ∷ 101 ∷ 114 ∷ 101 ∷ 100 ∷ []

abbrev pub demo_terms : (Bytes → Bytes) → EscrowTerms
demo_terms sha256 = record {
  escrow_id = parcel_id;
  amount = record { amount = 800000000 };
  payee = record { text = "u_alice" };
  refund_to = record { text = "u_bob" };
  timeout_height = 1000;
  condition = digest sha256 parcel_secret;
}

-- Eight ZEC to this address, with the secret revealed.
abbrev pub proposal_to : String → ReleaseProposal Bytes
proposal_to to = record {
  escrow_id = parcel_id;
  intent = record {
    payment = record { amount = record { amount = 800000000 }; to = record { text = to } };
    witness = parcel_secret;
  };
}

module _ {I : Type 0} (C : Ciphersuite I) where
  -- What the command calls of frost_core, rand, sha2, serde_json and the text formats.
  pub record Libraries : Type 0 where
    pub try_into : ℕ → Result I C.FrostError
    pub random_randomizer : C.Rng → C.Randomizer × C.Rng
    pub serialize : C.Signature → Result Bytes String
    pub sha256 : Bytes → Bytes
    pub formats : Formats (hash_preimage sha256)
    pub to_vec : ReleaseProposal Bytes → Result Bytes String

  -- What ends the command early: an error of `main`, or one of its three panics.
  pub data Halt : Type 0 where
    invalid : Error → Halt
    -- `expect("identifier in range")`
    identifier_panic : Halt
    dkg_react : DkgError → Halt
    -- "DKG failed to converge in 20 blocks"
    not_converged : Halt
    -- `expect("DKG complete")`
    incomplete_panic : Halt
    -- `unwrap` of the group or of a request
    missing_panic : Halt
    serializing : String → Halt
    react_failed : Error → Halt
    verification_failed : Halt
    -- "expected Completed"
    not_completed : RequestStatus C → Halt
    -- "tampered release must not progress"
    progressed : RequestStatus C → Halt

  -- `Uuid::new`
  abbrev pub new_uuid : C.Rng → Uuid × C.Rng
  new_uuid rng = let (bytes, rng') = C.fill_bytes 16 rng in (record { bytes = bytes }, rng')

  -- What is printed of a release that is authorized.
  pub record Released : Type 0 where
    pub signers : Set I
    pub signature : C.Signature
    pub bytes : Bytes

module _ {I : Type 0} ⦃o : Ord I⦄ {C : Ciphersuite I} where
  open C use {
    Rng, Randomizer, Signature, PublicKeyPackage, verify, verifying_key, from_randomizer,
    randomized_verifying_key,
  }

  -- `chain.submit(…); chain.commit_block();`
  abbrev pub one_block : ChainSim C → Tx C → ChainSim C
  one_block chain tx = (commit_block (submit chain tx)).0

  -- A round of the nodes and its block. Their loop is that of `drive_signing_session`, whose flag
  -- has no use here.
  unfoldable pub react_block :
      List (Node C) → ChainSim C → Rng → Result (List (Node C) × ChainSim C × Rng) (Halt C)
  react_block nodes chain rng =
      let (result, chain', nodes', rng') = react_validators nodes chain false rng in
      map_err react_failed result >>= λ _. ok (nodes', (commit_block chain').0, rng')

  module _ (L : Libraries C) where
    -- The arms of the `match` on the release.
    unfoldable pub judge_release :
        PublicKeyPackage → Randomizer → Bytes → RequestStatus C → Result (Released C) (Halt C)
    judge_release pkp randomizer message (completed participants signature) = do
      ensure
          (verify (randomized_verifying_key (from_randomizer (verifying_key pkp) randomizer))
            message signature)
          verification_failed
      bytes ← map_err serializing (L.serialize signature)
      ok (record { signers = participants; signature = signature; bytes = bytes })
    judge_release pkp randomizer message other = err (not_completed other)

    -- From "[release]" to "== RELEASE AUTHORIZED ==".
    unfoldable pub authorize_release :
        PublicKeyPackage
        → Randomizer
        → List (Node C)
        → ChainSim C
        → Rng
        → Result (Released C × List (Node C) × ChainSim C × Rng) (Halt C)
    unfolding react_block judge_release
    authorize_release pkp randomizer nodes chain rng = do
      good_msg ← map_err serializing (L.to_vec (proposal_to "u_alice"))
      let (good_id, rng0) = new_uuid C rng
      (nodes1, chain1, rng1) ←
          react_block nodes (one_block chain (submit_request good_id good_msg randomizer)) rng0
      (nodes2, chain2, rng2) ← react_block nodes1 chain1 rng1
      entry ← ok_or (get good_id chain2.state.requests) missing_panic
      released ← judge_release pkp randomizer good_msg entry.status
      ok (released, nodes2, chain2, rng2)

  -- The arms of the `match` on the tampered release.
  unfoldable pub judge_tampered : RequestStatus C → Result (Unit {0}) (Halt C)
  judge_tampered (awaiting_commitments []) = ok tt
  judge_tampered other = err (progressed other)

  module _ (L : Libraries C) where
    -- From "[reject]" on.
    unfoldable pub reject_tampered :
        Randomizer → List (Node C) → ChainSim C → Rng → Result (Unit {0}) (Halt C)
    unfolding react_block judge_tampered
    reject_tampered randomizer nodes chain rng = do
      bad_msg ← map_err serializing (L.to_vec (proposal_to "u_attacker"))
      let (bad_id, rng0) = new_uuid C rng
      (_, chain1, _) ←
          react_block nodes (one_block chain (submit_request bad_id bad_msg randomizer)) rng0
      entry ← ok_or (get bad_id chain1.state.requests) missing_panic
      judge_tampered entry.status

module _ {I : Type 0} ⦃o : Ord I⦄ {C : Ciphersuite I} (B : CryptoBox C.Rng) (D : DkgScheme C)
    (L : Libraries C) where
  open C use {Rng}

  -- The participants, from this number on.
  unfoldable pub enroll : ℕ → ℕ → Rng → Result (List (DkgParticipant B D) × Rng) (Halt C)
  enroll zero i rng = ok ([], rng)
  enroll (suc left) i rng = elim (L.try_into i) [
    | err _ ↦ err identifier_panic
    | ok id ↦
        let (p, rng') = new_participant B D id rng in
        enroll left (i + 1) rng' >>= λ (ps, last). ok (p ∷ ps, last)
  ]

  -- `dkg_validators`
  unfoldable pub enc_keys : List (DkgParticipant B D) → Map I EncPublicKey → Map I EncPublicKey
  enc_keys [] keys = keys
  enc_keys (p ∷ ps) keys = enc_keys ps (insert p.identifier p.enc_public keys)

  -- The participants, the chain and the generators.
  abbrev pub Scene : Type 0
  Scene = List (DkgParticipant B D) × ChainSim C × Rng × B.OsRng

  -- The loop over the participants.
  unfoldable pub dkg_turns :
      List (DkgParticipant B D) → ChainSim C → Rng → B.OsRng → Result Scene (Halt C)
  dkg_turns [] chain rng os = ok ([], chain, rng, os)
  dkg_turns (p ∷ ps) chain rng os =
      let (result, p', rng', os') = participate B D p chain.state rng os in
      map_err dkg_react result >>= λ txs.
      dkg_turns ps (submit_all chain txs) rng' os' >>= λ (ps', chain', last, os'').
      ok (p' ∷ ps', chain', last, os'')

  -- The loop over the blocks, by the blocks that are left.
  unfoldable pub dkg_blocks :
      ℕ → List (DkgParticipant B D) → ChainSim C → Rng → B.OsRng → Result Scene (Halt C)
  unfolding dkg_turns
  dkg_blocks zero ps chain rng os = elim chain.state.group [
    | some _ ↦ ok (ps, chain, rng, os)
    | none ↦ err not_converged
  ]
  dkg_blocks (suc n) ps chain rng os = elim chain.state.group [
    | some _ ↦ ok (ps, chain, rng, os)
    | none ↦ dkg_turns ps chain rng os >>= λ (ps', chain', rng', os').
        dkg_blocks n ps' (commit_block chain').0 rng' os'
  ]

  -- The nodes, each with the policy of the escrow.
  unfoldable pub into_nodes : List (DkgParticipant B D) → Result (List (Node C)) (Halt C)
  into_nodes [] = ok []
  into_nodes (p ∷ ps) = do
    node ← map_err (λ _. incomplete_panic) (into_node B D p)
    nodes ← into_nodes ps
    let policy = escrow_policy L.formats (with_escrow new_policy (demo_terms L.sha256))
    ok (with_policy C node policy ∷ nodes)

  -- Up to the group that the chain promotes.
  unfoldable pub form_group : MpcParams → Rng → B.OsRng → Result Scene (Halt C)
  unfolding enroll enc_keys dkg_blocks
  form_group params rng os = do
    (participants, rng0) ← enroll params.total 1 rng
    dkg_blocks 20 participants (one_block (new_sim C) (dkg_begin params (enc_keys participants [])))
        rng0 os

  unfoldable pub cmd_escrow_demo : ℕ → ℕ → Rng → B.OsRng → Result (Released C) (Halt C)
  unfolding form_group into_nodes authorize_release reject_tampered
  cmd_escrow_demo threshold total rng os = do
    params ← map_err invalid (new_params threshold total)
    (participants, chain, rng0, _) ← form_group params rng os
    group ← ok_or chain.state.group missing_panic
    nodes ← into_nodes participants
    let (randomizer, rng1) = L.random_randomizer rng0
    (released, nodes1, chain1, rng2) ← authorize_release L group.pkp randomizer nodes chain rng1
    reject_tampered L randomizer nodes1 chain1 rng2
    ok released
