-- ===== src/Node/Steps.antt =====
-- What `react` may do about one request, as a relation: one constructor for each way.
use project_sapphire.Base.{
  ◌≡◌, true, false, some, List, [], ◌∷◌, Ord, ok, err, map_err, Bool-cases, Option-cases,
  Result-cases, inl, inr,
}
use project_sapphire.Base.Map.{Map, Set, get, contains_key, insert, remove}
use project_sapphire.Core.{session_in_use, frost, Uuid, uuid_ord}
use project_sapphire.Frost.{Ciphersuite}
use project_sapphire.Chain.Tx.{Tx, submit_commitment, submit_share}
use project_sapphire.Chain.State.{
  RequestEntry, RequestStatus, awaiting_commitments, signing, completed, failed,
}
use project_sapphire.Node.Signer.{
  Node, Step, mark_committed, mark_shared, commit, sign_share_rerandomized, emit_commitment,
  emit_share, react_awaiting, react_signing, react_entry,
}

module _ {I : Type 0} ⦃o : Ord I⦄ {C : Ciphersuite I} where
  open C use {
    SigningNonces, SigningCommitments, SigningPackage, SignatureShare, Randomizer, Rng, sign,
    error_text, FrostError,
  }

  pub data Reacts (node : Node C) (request_id : Uuid) (entry : RequestEntry C) (rng : Rng)
      : RequestStatus C → Step C (List (Tx C)) → Type 0 where
    idle : {status : RequestStatus C} → Reacts node request_id entry rng status (ok [], node, rng)
    -- The chain shows the node's commitment, or its share.
    saw_commitment :
        {status : RequestStatus C}
        → Reacts node request_id entry rng status (ok [], mark_committed request_id node, rng)
    saw_share :
        {status : RequestStatus C}
        → Reacts node request_id entry rng status (ok [], mark_shared request_id node, rng)
    commits :
        {commitments : Map I SigningCommitments}
        → contains_key node.identifier commitments ≡ false
        → contains_key request_id node.committed_requests ≡ false
        → node.policy.approve entry.message ≡ ok tt
        → contains_key request_id node.pending ≡ false
        → Reacts node request_id entry rng (awaiting_commitments commitments) (
          ok (
              submit_commitment request_id node.identifier (C.commit node.bundle.key_package rng).1
              ∷ []),
          mark_committed request_id (record node {
            pending = insert request_id (C.commit node.bundle.key_package rng).0 node.pending;
          }),
          (C.commit node.bundle.key_package rng).2,
        )
    in_use :
        {commitments : Map I SigningCommitments} {next : Rng}
        → contains_key request_id node.committed_requests ≡ false
        → contains_key request_id node.pending ≡ true
        → Reacts node request_id entry rng
            (awaiting_commitments commitments)
            (err session_in_use, node, next)
    shares :
        {pkg : SigningPackage} {participants : Set I} {given : Map I SignatureShare}
        (nonces : SigningNonces) (share : SignatureShare)
        → contains_key node.identifier participants ≡ true
        → contains_key node.identifier given ≡ false
        → contains_key request_id node.shared_requests ≡ false
        → get request_id node.pending ≡ some nonces
        → sign pkg nonces node.bundle.key_package entry.randomizer ≡ ok share
        → Reacts node request_id entry rng (signing pkg participants given) (
          ok (submit_share request_id node.identifier share ∷ []),
          mark_shared request_id (record node { pending = remove request_id node.pending }),
          rng,
        )
    fails :
        {pkg : SigningPackage} {participants : Set I} {given : Map I SignatureShare}
        (nonces : SigningNonces) (e : FrostError)
        → get request_id node.pending ≡ some nonces
        → sign pkg nonces node.bundle.key_package entry.randomizer ≡ err e
        → Reacts node request_id entry rng (signing pkg participants given) (
          err (frost (error_text e)),
          record node { pending = remove request_id node.pending },
          rng,
        )

  awaiting-Reacts :
      (node : Node C) (request_id : Uuid) (entry : RequestEntry C)
      (commitments : Map I SigningCommitments) (rng : Rng)
      → Reacts node request_id entry rng
          (awaiting_commitments commitments)
          (react_awaiting node request_id entry commitments rng)
  unfolding react_awaiting commit emit_commitment
  awaiting-Reacts node request_id entry commitments rng =
      elim (Bool-cases (contains_key node.identifier commitments)) [
        | inl there ↦ rw there saw_commitment
        | inr absent ↦
            rw absent (elim (Bool-cases (contains_key request_id node.committed_requests)) [
              | inl done ↦ rw done idle
              | inr fresh ↦ rw fresh (elim (Result-cases (node.policy.approve entry.message)) [
                | inr (reason, refuses) ↦ rw refuses idle
                | inl (_, agrees) ↦
                    rw agrees (elim (Bool-cases (contains_key request_id node.pending)) [
                      | inl held ↦ rw held (in_use fresh held)
                      | inr free ↦ rw free (commits absent fresh agrees free)
                    ])
              ])
            ])
      ]

  signing-Reacts :
      (node : Node C) (request_id : Uuid) (entry : RequestEntry C) (pkg : SigningPackage)
      (participants : Set I) (given : Map I SignatureShare) (rng : Rng)
      → Reacts node request_id entry rng
          (signing pkg participants given)
          (react_signing node request_id entry pkg participants given rng)
  unfolding react_signing sign_share_rerandomized emit_share
  signing-Reacts node request_id entry pkg participants given rng =
      elim (Bool-cases (contains_key node.identifier participants)) [
        | inr outside ↦ rw outside idle
        | inl chosen ↦ rw chosen (elim (Bool-cases (contains_key node.identifier given)) [
          | inl there ↦ rw there saw_share
          | inr absent ↦
              rw absent (elim (Bool-cases (contains_key request_id node.shared_requests)) [
                | inl done ↦ rw done idle
                | inr fresh ↦ rw fresh (elim (Option-cases (get request_id node.pending)) [
                  | inl nothing ↦ rw (nothing, emit_share, sign_share_rerandomized) idle
                  | inr (nonces, held) ↦
                      rw (held, emit_share, sign_share_rerandomized)
                        (elim (Result-cases
                          (sign pkg nonces node.bundle.key_package entry.randomizer)) [
                            | inl (share, signed) ↦
                                rw (signed, emit_share, map_err)
                                  (shares nonces share chosen absent fresh held signed)
                            | inr (e, refuses) ↦
                                rw (refuses, emit_share, map_err) (fails nonces e held refuses)
                          ])
                ])
              ])
        ])
      ]

  pub react_entry-Reacts :
      (node : Node C) (request_id : Uuid) (entry : RequestEntry C) (status : RequestStatus C)
      (rng : Rng)
      → Reacts node request_id entry rng status (react_entry node request_id entry status rng)
  unfolding react_entry
  react_entry-Reacts node request_id entry (awaiting_commitments commitments) rng =
      awaiting-Reacts node request_id entry commitments rng
  react_entry-Reacts node request_id entry (signing pkg participants given) rng =
      signing-Reacts node request_id entry pkg participants given rng
  react_entry-Reacts node request_id entry (completed participants signature) rng = idle
  react_entry-Reacts node request_id entry (failed reason) rng = idle
