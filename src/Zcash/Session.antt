-- ===== src/Zcash/Session.antt =====
-- sapphire-zcash/src/lib.rs: `drive_signing_session`. What it changes, the chain, the validators and
-- the random generator, is returned next to its result, also where it fails.
use project_sapphire.Base.{
  ℕ, zero, suc, Bool, true, false, ◌||◌, Option, none, some, List, [], ◌∷◌, String, Ord, Result, ok,
  err, if◌then◌else◌,
}
use project_sapphire.Base.Map.{get}
use project_sapphire.Core.{Bytes, Error, Uuid, uuid_ord}
use project_sapphire.Frost.{Ciphersuite}
use project_sapphire.Chain.Tx.{submit_request}
use project_sapphire.Chain.State.{
  RequestEntry, RequestStatus, awaiting_commitments, signing, completed, failed, ApplyError,
}
use project_sapphire.Chain.Sim.{ChainSim, Outcome, submit, commit_block}
use project_sapphire.Chain.Sim.Laws.{submit_all}
use project_sapphire.Node.Signer.{Node, react}

pub data SignError : Type 0 where
  submit_request_rejected : String → SignError
  validator_react : Error → SignError
  aggregation_failed : String → SignError
  stuck_before_completion : String → SignError
  request_missing : SignError

abbrev pub is_empty {ℓ} : {A : Type ℓ} → List A → Bool
is_empty [] = true
is_empty (x ∷ xs) = false

module _ {I : Type 0} (C : Ciphersuite I) where
  open C use {Rng}

  -- A result, with the chain, the validators and the generator as they are left.
  abbrev pub Session : Type 0 → Type 0
  Session A = A × ChainSim C × List (Node C) × Rng

module _ {I : Type 0} ⦃o : Ord I⦄ {C : Ciphersuite I} where
  open C use {Rng, Randomizer, Signature}

  -- The loop over the results of the first block.
  unfoldable pub first_error : List (Outcome C) → Option ApplyError
  first_error [] = none
  first_error ((tx, ok _) ∷ results) = first_error results
  first_error ((tx, err e) ∷ results) = some e

  -- The loops over the validators and over what each emits, with `emitted_any`.
  unfoldable pub react_validators :
      List (Node C) → ChainSim C → Bool → Rng → Session C (Result Bool Error)
  react_validators [] chain emitted_any rng = (ok emitted_any, chain, [], rng)
  react_validators (v ∷ validators) chain emitted_any rng =
      let (result, v', rng') = react v chain.state rng in
      elim result [
        | err e ↦ (err e, chain, v' ∷ validators, rng')
        | ok txs ↦
            let any = emitted_any || (if is_empty txs then false else true) in
            let (rest, chain', validators', last) =
              react_validators validators (submit_all chain txs) any rng' in
            (rest, chain', v' ∷ validators', last)
      ]

  -- The `match` on the status after a block; `none` is `continue`.
  unfoldable pub judge_status : Bool → RequestStatus C → Option (Result Signature SignError)
  judge_status emitted_any (completed participants signature) = some (ok signature)
  judge_status emitted_any (failed reason) = some (err (aggregation_failed reason))
  judge_status true _ = none
  judge_status false (awaiting_commitments commitments) =
      some (err (stuck_before_completion "AwaitingCommitments"))
  judge_status false (signing pkg participants shares) =
      some (err (stuck_before_completion "Signing"))

  unfoldable pub judge : Bool → Option (RequestEntry C) → Option (Result Signature SignError)
  unfolding judge_status
  judge emitted_any none = some (err request_missing)
  judge emitted_any (some entry) = judge_status emitted_any entry.status

  -- The `for` loop, by the rounds that are left.
  unfoldable pub drive_rounds :
      ℕ → Uuid → ChainSim C → List (Node C) → Rng → Session C (Result Signature SignError)
  unfolding react_validators judge
  drive_rounds zero request_id chain validators rng =
      (err (stuck_before_completion "loop bound exhausted"), chain, validators, rng)
  drive_rounds (suc n) request_id chain validators rng =
      let (result, chain', validators', rng') = react_validators validators chain false rng in
      elim result [
        | err e ↦ (err (validator_react e), chain', validators', rng')
        | ok emitted_any ↦
            let next = (commit_block chain').0 in
            elim (judge emitted_any (get request_id next.state.requests)) [
              | some outcome ↦ (outcome, next, validators', rng')
              | none ↦ drive_rounds n request_id next validators' rng'
            ]
      ]

  -- The text of an `ApplyError` comes from the crate thiserror, the bytes of the id from the crate
  -- rand.
  module _ (to_string : ApplyError → String) where
    unfoldable pub drive_signing_session :
        ChainSim C
        → List (Node C)
        → Bytes
        → Randomizer
        → Rng
        → Session C (Result Signature SignError)
    unfolding first_error drive_rounds submit
    drive_signing_session chain validators sighash alpha rng =
        let (bytes, rng') = C.fill_bytes 16 rng in
        let request_id : Uuid = record { bytes = bytes } in
        let (next, results) =
          commit_block (submit chain (submit_request request_id sighash alpha)) in
        elim (first_error results) [
          | some e ↦ (err (submit_request_rejected (to_string e)), next, validators, rng')
          | none ↦ drive_rounds 8 request_id next validators rng'
        ]
