-- ===== src/Node/Signer.antt =====
-- sapphire-node/src/lib.rs: the node, its two FROST rounds, and `react`. The node and the random
-- generator are passed on explicitly: what a step returns carries the two as the step leaves them,
-- also where it fails.
use project_sapphire.Base.{
  none, some, List, [], ◌∷◌, ◌++◌, Ord, Result, ok, err, map_err, if◌then◌else◌,
}
use project_sapphire.Base.Map.{Map, Set, get, contains_key, insert, remove}
use project_sapphire.Core.{Error, session_in_use, session_not_found, frost, Uuid, uuid_ord}
use project_sapphire.Frost.{Ciphersuite}
use project_sapphire.Chain.Tx.{Tx, submit_commitment, submit_share}
use project_sapphire.Chain.State.{
  State, RequestEntry, RequestStatus, awaiting_commitments, signing, completed, failed,
}
use project_sapphire.Node.Policy.{SignPolicy, accept_all}

module _ {I : Type 0} (C : Ciphersuite I) where
  open C use {KeyPackage, PublicKeyPackage, SigningNonces, Rng}

  -- sapphire-core/src/protocol.rs
  pub record KeyShareBundle : Type 0 where
    pub key_package : KeyPackage
    pub public_key_package : PublicKeyPackage

  -- The `HashMap` and the `HashSet`s are only looked up, so they are kept in order here.
  pub record Node : Type 0 where
    pub identifier : I
    pub bundle : KeyShareBundle
    pub pending : Map Uuid SigningNonces
    pub committed_requests : Set Uuid
    pub shared_requests : Set Uuid
    pub policy : SignPolicy

  -- `Node::new`
  abbrev pub new_node : KeyShareBundle → Node
  new_node bundle = record {
    identifier = C.identifier bundle.key_package;
    bundle = bundle;
    pending = [];
    committed_requests = [];
    shared_requests = [];
    policy = accept_all;
  }

  -- `Node::with_policy`
  abbrev pub with_policy : Node → SignPolicy → Node
  with_policy node policy = record node { policy = policy }

  abbrev pub Step : Type 0 → Type 0
  Step A = Result A Error × Node × Rng

module _ {I : Type 0} ⦃o : Ord I⦄ {C : Ciphersuite I} where
  open C use {
    SigningNonces, SigningCommitments, SigningPackage, SignatureShare, Randomizer, Rng, sign,
    error_text,
  }

  -- `Node::commit`. The generator has moved on also where the session is in use.
  unfoldable pub commit : Node C → Uuid → Rng → Step C SigningCommitments
  commit node session_id rng =
      let (nonces, commitments, next) = C.commit node.bundle.key_package rng in
      if contains_key session_id node.pending
      then (err session_in_use, node, next)
      else (ok commitments, record node { pending = insert session_id nonces node.pending }, next)

  -- `Node::sign_share_rerandomized`. The nonces are gone also where `sign` fails.
  unfoldable pub sign_share_rerandomized :
      Node C → Uuid → SigningPackage → Randomizer → Rng → Step C SignatureShare
  sign_share_rerandomized node session_id pkg randomizer rng = elim (get session_id node.pending) [
    | none ↦ (err session_not_found, node, rng)
    | some nonces ↦ (
      map_err (λ e. frost (error_text e)) (sign pkg nonces node.bundle.key_package randomizer),
      record node { pending = remove session_id node.pending },
      rng,
    )
  ]

  -- `self.committed_requests.insert(*request_id)`, and the same of the shares.
  abbrev pub mark_committed : Uuid → Node C → Node C
  mark_committed request_id node = record node {
    committed_requests = insert request_id tt node.committed_requests;
  }

  abbrev pub mark_shared : Uuid → Node C → Node C
  mark_shared request_id node = record node {
    shared_requests = insert request_id tt node.shared_requests;
  }

  -- The end of the first arm, from the call of `commit`.
  unfoldable pub emit_commitment : Uuid → Step C SigningCommitments → Step C (List (Tx C))
  emit_commitment request_id (err e, node, rng) = (err e, node, rng)
  emit_commitment request_id (ok commitments, node, rng) = (
    ok (submit_commitment request_id node.identifier commitments ∷ []),
    mark_committed request_id node,
    rng,
  )

  -- The arm of `AwaitingCommitments`: what it pushes, or the error that it returns.
  unfoldable pub react_awaiting :
      Node C → Uuid → RequestEntry C → Map I SigningCommitments → Rng → Step C (List (Tx C))
  unfolding emit_commitment commit
  react_awaiting node request_id entry commitments rng =
      if contains_key node.identifier commitments
      then (ok [], mark_committed request_id node, rng)
      else if contains_key request_id node.committed_requests
      then (ok [], node, rng)
      else elim (node.policy.approve entry.message) [
        | err reason ↦ (ok [], node, rng)
        | ok _ ↦ emit_commitment request_id (commit node request_id rng)
      ]

  -- The `match` on what `sign_share_rerandomized` returns.
  unfoldable pub emit_share : Uuid → Step C SignatureShare → Step C (List (Tx C))
  emit_share request_id (ok share, node, rng) =
      (ok (submit_share request_id node.identifier share ∷ []), mark_shared request_id node, rng)
  emit_share request_id (err session_not_found, node, rng) = (ok [], node, rng)
  emit_share request_id (err e, node, rng) = (err e, node, rng)

  -- The arm of `Signing`.
  unfoldable pub react_signing :
      Node C
      → Uuid
      → RequestEntry C
      → SigningPackage
      → Set I
      → Map I SignatureShare
      → Rng
      → Step C (List (Tx C))
  unfolding emit_share sign_share_rerandomized
  react_signing node request_id entry pkg participants shares rng =
      if contains_key node.identifier participants
      then (if contains_key node.identifier shares
          then (ok [], mark_shared request_id node, rng)
          else if contains_key request_id node.shared_requests
          then (ok [], node, rng)
          else emit_share request_id
              (sign_share_rerandomized node request_id pkg entry.randomizer rng))
      else (ok [], node, rng)

  -- The `match` on the status of one request.
  unfoldable pub react_entry :
      Node C → Uuid → RequestEntry C → RequestStatus C → Rng → Step C (List (Tx C))
  react_entry node request_id entry (awaiting_commitments commitments) rng =
      react_awaiting node request_id entry commitments rng
  react_entry node request_id entry (signing pkg participants shares) rng =
      react_signing node request_id entry pkg participants shares rng
  react_entry node request_id entry (completed participants signature) rng = (ok [], node, rng)
  react_entry node request_id entry (failed reason) rng = (ok [], node, rng)

  -- The `for` loop over the requests, with the transactions pushed so far.
  unfoldable pub react_requests :
      Map Uuid (RequestEntry C) → List (Tx C) → Node C → Rng → Step C (List (Tx C))
  react_requests [] out node rng = (ok out, node, rng)
  react_requests ((request_id, entry) ∷ rest) out node rng =
      let (result, node', rng') = react_entry node request_id entry entry.status rng in
      elim result [
        | err e ↦ (err e, node', rng')
        | ok txs ↦ react_requests rest (out ++ txs) node' rng'
      ]

  -- `Node::react`
  unfoldable pub react : Node C → State C → Rng → Step C (List (Tx C))
  react node state rng = elim state.group [
    | none ↦ (ok [], node, rng)
    | some group ↦
        if contains_key node.identifier group.validators
        then react_requests state.requests [] node rng
        else (ok [], node, rng)
  ]
